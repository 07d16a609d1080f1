-- ===== src/Capture/Totals/Reading.antt =====
-- GetCpuTotal and GetMemTotal of src/capturecxx.cpp on files in the layout of proc(5).
use capture.Prelude.{
  ℕ, ◌+◌, ◌-◌, ◌<◌, ◌%◌, ◌^◌, ◌≡◌, refl, List, [], ◌∷◌, ◌++◌, some, arith, All, ap, ◌∙◌, inl,
}
use capture.Text.{Str, codes, c_str, to_string}
use capture.Outcome.{returns}
use capture.Os.{Os}
use capture.Stream.{Next, break}
use capture.Stream.Unlines.{unlines, IsWhole, for_lines-break}
use capture.Scan.{num, scan, sscanf, lits, nonzero, skip_space, dec}
use capture.Scan.Numbers.{is_break}
use capture.Scan.Fields.{scan-lit, c_str_blank, values-end}
use capture.Scan.Keys.{is_key, is_gap, number_line, sscanf-number_line}
use capture.Scan.Ints.{read_uint, blank_int, c_str-number}
use capture.Capture.{Capture}
use capture.Capture.Totals.{
  cpu_line, cpu_format, mem_line, mem_format, read_total, get_cpu_total, get_mem_total,
}

-- The first seven numbers of the line "cpu" of /proc/stat, and more behind them.
pub record CpuTimes : Type 0 where
  pub user : ℕ
  pub nice : ℕ
  pub system : ℕ
  pub idle : ℕ
  pub iowait : ℕ
  pub irq : ℕ
  pub softirq : ℕ

pub record IsCpuTimes (c : CpuTimes) : Type 0 where
  pub user : c.user < 2 ^ 64
  pub nice : c.nice < 2 ^ 64
  pub system : c.system < 2 ^ 64
  pub idle : c.idle < 2 ^ 64
  pub iowait : c.iowait < 2 ^ 64
  pub irq : c.irq < 2 ^ 64
  pub softirq : c.softirq < 2 ^ 64

abbrev numbers_text : List ℕ → Str → Str
numbers_text [] more = more
numbers_text (n ∷ ns) more = to_string n ++ (32 ∷ numbers_text ns more)

abbrev times : CpuTimes → List ℕ
times c = c.user ∷ c.nice ∷ c.system ∷ c.idle ∷ c.iowait ∷ c.irq ∷ c.softirq ∷ []

abbrev pub cpu_text : CpuTimes → Str → Str
cpu_text c more = 99 ∷ 112 ∷ 117 ∷ 32 ∷ 32 ∷ numbers_text (times c) more

c_str-cpu : (t : Str) → c_str (99 ∷ 112 ∷ 117 ∷ t) ≡ 99 ∷ 112 ∷ 117 ∷ c_str t
unfolding c_str
c_str-cpu t = refl

c_str-cpu_text : (c : CpuTimes) (more : Str) → c_str (cpu_text c more) ≡ cpu_text c (c_str more)
c_str-cpu_text c more = simp (c_str-cpu, c_str_blank, c_str-number) refl

values-cpu :
    (c : CpuTimes) (more : Str)
    → IsCpuTimes c
    → (scan cpu_format (cpu_text c more)).values
      ≡ num c.user
        ∷ num c.nice
        ∷ num c.system
        ∷ num c.idle
        ∷ num c.iowait
        ∷ num c.irq
        ∷ num c.softirq
        ∷ []
unfolding lits
values-cpu c more h =
    rw
      (
        scan-lit 99,
        scan-lit 112,
        scan-lit 117,
        blank_int 2 c.user,
        blank_int 0 c.user,
        read_uint c.user h.user,
        blank_int 1 c.nice,
        read_uint c.nice h.nice,
        blank_int 1 c.system,
        read_uint c.system h.system,
        blank_int 1 c.idle,
        read_uint c.idle h.idle,
        blank_int 1 c.iowait,
        read_uint c.iowait h.iowait,
        blank_int 1 c.irq,
        read_uint c.irq h.irq,
        blank_int 1 c.softirq,
        read_uint c.softirq h.softirq,
        values-end,
      )
      refl

values-cpu_text :
    (c : CpuTimes) (more : Str)
    → IsCpuTimes c
    → (sscanf (cpu_text c more) cpu_format).values
      ≡ num c.user
        ∷ num c.nice
        ∷ num c.system
        ∷ num c.idle
        ∷ num c.iowait
        ∷ num c.irq
        ∷ num c.softirq
        ∷ []
unfolding sscanf
values-cpu_text c more h =
    ap (λ t. (scan cpu_format t).values) (c_str-cpu_text c more) ∙ values-cpu c (c_str more) h

read_total-break :
    (line : Capture → Str → Next Capture) (s t : Capture) (l : Str) (ls : List Str)
    → All (IsWhole 1023) (l ∷ ls)
    → line s l ≡ break t
    → read_total (some (unlines (l ∷ ls))) line s ≡ returns 0 t
unfolding read_total
read_total-break line s t l ls k e = rw (for_lines-break line 1023 s t l ls k e, read_total) refl

-- The sum that GetCpuTotal forms.
abbrev pub total : CpuTimes → ℕ
total c = c.user + (c.nice + (c.system + (c.idle + (c.iowait + (c.irq + (c.softirq + 0))))))

cpu_line-total :
    (s : Capture) (c : CpuTimes) (more : Str)
    → IsCpuTimes c
    → cpu_line s (cpu_text c more)
      ≡ break (record s {
        delta_cpu = (total c % 2 ^ 64 + 2 ^ 64 - s.cpu) % 2 ^ 64;
        cpu = total c % 2 ^ 64;
      })
unfolding cpu_line nonzero
cpu_line-total s c more h = rw (values-cpu_text c more h, cpu_line) refl

-- On a file /proc/stat whose first line is that of all processors in the layout of proc(5), with lines of at most
-- 1023 bytes, GetCpuTotal returns 0, sets `cpu` to the sum of the first seven times and `deltaCpu` to what this
-- adds to the old `cpu`, both modulo 2 ^ 64, and reads no further line.
pub get_cpu_total-total :
    (os : Os) (s : Capture) (c : CpuTimes) (more : Str) (ls : List Str)
    → os.file (codes "/proc/stat") ≡ some (unlines (cpu_text c more ∷ ls))
    → IsCpuTimes c
    → All (IsWhole 1023) (cpu_text c more ∷ ls)
    → get_cpu_total os s
      ≡ returns 0 (record s {
        delta_cpu = (total c % 2 ^ 64 + 2 ^ 64 - s.cpu) % 2 ^ 64;
        cpu = total c % 2 ^ 64;
      })
unfolding get_cpu_total
get_cpu_total-total os s c more ls f h k =
    ap (λ o. read_total o cpu_line s) f
    ∙ read_total-break cpu_line s _ (cpu_text c more) ls k (cpu_line-total s c more h)

values-mem :
    (n m : ℕ)
    → m < 2 ^ 63
    → (sscanf (number_line (codes "MemTotal") 32 n m (codes " kB")) mem_format).values ≡ num m ∷ []
unfolding lits is_key is_gap is_break scan c_str skip_space
values-mem n m h =
    ap (λ r. r.values)
      (sscanf-number_line dec (inl refl) (codes "MemTotal") 32 n m (codes " kB") refl refl h refl 7
        (lits (codes " kB")))

mem_line-total :
    (s : Capture) (n m : ℕ)
    → m < 2 ^ 63
    → mem_line s (number_line (codes "MemTotal") 32 n m (codes " kB"))
      ≡ break (record s { memory = m })
unfolding mem_line nonzero
mem_line-total s n m h =
    let e : m + 0 ≡ m = omega arith in
    rw (values-mem n m h, mem_line) (ap (λ k. break (record s { memory = k })) e)

-- On a file /proc/meminfo that begins with the line of the total in the layout of proc(5), a number below 2 ^ 63,
-- with lines of at most 1023 bytes, GetMemTotal returns 0, sets `memory` to the number of kB, and reads no further line.
pub get_mem_total-total :
    (os : Os) (s : Capture) (n m : ℕ) (ls : List Str)
    → os.file (codes "/proc/meminfo")
      ≡ some (unlines (number_line (codes "MemTotal") 32 n m (codes " kB") ∷ ls))
    → m < 2 ^ 63
    → All (IsWhole 1023) (number_line (codes "MemTotal") 32 n m (codes " kB") ∷ ls)
    → get_mem_total os s ≡ returns 0 (record s { memory = m })
unfolding get_mem_total
get_mem_total-total os s n m ls f h k =
    ap (λ o. read_total o mem_line s) f
    ∙ read_total-break mem_line s _ _ ls k (mem_line-total s n m h)
