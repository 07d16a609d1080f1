-- ===== src/Capture/Sound/Readings.antt =====
-- The invariant of the state, and UpdatePids, GetCpuTotal and GetMemTotal.
use capture.Prelude.{
  ℕ, ◌<◌, ◌≡◌, ◌&&◌, List, [], ◌∷◌, Option, none, some, arith, ◌==◌, ltb, Bool-cases, Option-cases,
  inl, inr, subst,
}
use capture.Text.{Str, codes}
use capture.Outcome.{ended}
use capture.Outcome.Rules.{Keeps}
use capture.Outcome.Yields.{Yields, finished-Yields, thrown-Yields, ended-Yields}
use capture.Scan.{sscanf, nonzero}
use capture.Stream.{Next, for_lines}
use capture.Stream.Invariant.{Leaves, for_lines-keeps}
use capture.Os.{Os, DirEntry}
use capture.Capture.{Capture}
use capture.Capture.Totals.{
  all_digits, stol, insert_pid, add_pids, update_pids, cpu_line, mem_line, read_total,
  get_cpu_total, get_mem_total, is_dir, cpu_format, mem_format,
}
use capture.Capture.Sync.Order.{Above, IsSorted}
use capture.Capture.Sound.{IsSound, subst}

Above-insert : (n k : ℕ) (ks : List ℕ) → n < k → Above n ks → Above n (insert_pid k ks)
unfolding insert_pid
Above-insert n k [] h a = (h, tt)
Above-insert n k (j ∷ js) h a = elim (Bool-cases (ltb k j)) [
  | inl e ↦ rw e (h, (ground arith, a.1))
  | inr e ↦ elim (Bool-cases (j == k)) [
    | inl x ↦ rw (e, x) a
    | inr x ↦ rw (e, x) (a.0, Above-insert j k js (ground arith) a.1)
  ]
]

IsSorted-insert : (k : ℕ) (ks : List ℕ) → IsSorted ks → IsSorted (insert_pid k ks)
unfolding insert_pid
IsSorted-insert k [] s = tt
IsSorted-insert k (j ∷ js) s = elim (Bool-cases (ltb k j)) [
  | inl e ↦ rw e (ground arith, s)
  | inr e ↦ elim (Bool-cases (j == k)) [
    | inl x ↦ rw (e, x) s
    | inr x ↦ rw (e, x) (Above-insert j k js (ground arith) s)
  ]
]

add_pids-IsSorted :
    (es : List DirEntry) (pids ps : List ℕ)
    → IsSorted pids
    → add_pids es pids ≡ some ps
    → IsSorted ps
unfolding add_pids
add_pids-IsSorted [] pids ps s h = subst IsSorted (ground arith) s
add_pids-IsSorted (e ∷ es) pids ps s h = elim (Bool-cases (is_dir e && all_digits e.d_name)) [
  | inr x ↦ add_pids-IsSorted es pids ps s (rw (x, add_pids) at h)
  | inl x ↦ elim (Option-cases (stol e.d_name)) [
    | inl y ↦ absurd (ground arith)
    | inr (n, y) ↦
        add_pids-IsSorted es (insert_pid n pids) ps (IsSorted-insert n pids s)
          (rw (x, y, add_pids) at h)
  ]
]

with_pids : (s : Capture) (ps : List ℕ) → IsSorted ps → IsSound s → IsSound (record s { pids = ps })
with_pids s ps p h = record {
  pids = p;
  sorted = h.sorted;
  named = h.named;
  within = h.within;
  brief = h.brief;
  no_copies = h.no_copies;
}

pub update_pids-IsSound :
    (os : Os) (s : Capture) → IsSound s → Yields (λ q. IsSound q.state) (update_pids os s)
unfolding update_pids
update_pids-IsSound os s h = elim (Option-cases (os.dir (codes "/proc"))) [
  | inl e ↦ rw (e, update_pids) (finished-Yields _ (with_pids s [] tt h))
  | inr (es, e) ↦ elim (Option-cases (add_pids es [])) [
    | inl x ↦ rw (e, x, update_pids) thrown-Yields
    | inr (ps, x) ↦
        rw (e, x, update_pids)
          (finished-Yields _ (with_pids s ps (add_pids-IsSorted es [] ps tt x) h))
  ]
]

-- What every line keeps, the reading of a file keeps.
module _ {κ} (P : Capture → Type κ) where
  pub read_total-Keeps :
      (f : Option Str) (line : Capture → Str → Next Capture) (s : Capture)
      → ((t : Capture) (b : Str) → P t → Leaves P (line t b))
      → P s
      → Keeps P (read_total f line s)
  unfolding read_total
  read_total-Keeps none line s k h r e = subst P (ground arith) h
  read_total-Keeps (some contents) line s k h r e =
      elim (Option-cases (for_lines 1024 line contents s)) [
        | inl x ↦ absurd (ground arith)
        | inr (t, x) ↦ subst P (ground arith) (for_lines-keeps P 1024 line k contents s t h x)
      ]

cpu_line-IsSound : (t : Capture) (b : Str) → IsSound t → Leaves IsSound (cpu_line t b)
unfolding cpu_line
cpu_line-IsSound t b k = elim (Bool-cases (nonzero (sscanf b cpu_format))) [
  | inl e ↦
      rw (e, cpu_line)
        (record {
          pids = k.pids;
          sorted = k.sorted;
          named = k.named;
          within = k.within;
          brief = k.brief;
          no_copies = k.no_copies;
        })
  | inr e ↦ rw (e, cpu_line) k
]

mem_line-IsSound : (t : Capture) (b : Str) → IsSound t → Leaves IsSound (mem_line t b)
unfolding mem_line
mem_line-IsSound t b k = elim (Bool-cases (nonzero (sscanf b mem_format))) [
  | inl e ↦
      rw (e, mem_line)
        (record {
          pids = k.pids;
          sorted = k.sorted;
          named = k.named;
          within = k.within;
          brief = k.brief;
          no_copies = k.no_copies;
        })
  | inr e ↦ rw (e, mem_line) k
]

pub get_cpu_total-IsSound :
    (os : Os) (s : Capture) → IsSound s → Yields (λ q. IsSound q.state) (ended (get_cpu_total os s))
unfolding get_cpu_total
get_cpu_total-IsSound os s h =
    ended-Yields (get_cpu_total os s)
      (read_total-Keeps IsSound (os.file (codes "/proc/stat")) cpu_line s cpu_line-IsSound h)

pub get_mem_total-IsSound :
    (os : Os) (s : Capture) → IsSound s → Yields (λ q. IsSound q.state) (ended (get_mem_total os s))
unfolding get_mem_total
get_mem_total-IsSound os s h =
    ended-Yields (get_mem_total os s)
      (read_total-Keeps IsSound (os.file (codes "/proc/meminfo")) mem_line s mem_line-IsSound h)
