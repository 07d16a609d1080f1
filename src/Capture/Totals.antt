-- ===== src/Capture/Totals.antt =====
-- CaptureCxx::UpdatePids, GetCpuTotal and GetMemTotal: the readings of the whole system.
pub mod Pids
pub mod Small
pub mod Reading
use capture.Prelude.{
  ℕ, ◌+◌, ◌-◌, ◌*◌, ◌%◌, ◌^◌, Bool, true, false, ◌&&◌, List, [], ◌∷◌, ◌++◌, Option, none, some, ltb,
  leb, ◌==◌, if◌then◌else◌,
}
use capture.Text.{Str, codes}
use capture.Errors.{cap_open_dir, cap_process_open}
use capture.Outcome.{Status, returns, Run, finished, thrown}
use capture.Scan.{Directive, lits, space, Value, num, text, sscanf, nonzero, int, uint}
use capture.Stream.{Next, next, break, for_lines}
use capture.Os.{Os, DirEntry, dt_dir, dt_lnk, dt_other}
use capture.Capture.{Capture}

-- std::all_of(…, std::isdigit)
unfoldable pub all_digits : Str → Bool
all_digits [] = true
all_digits (c ∷ s) = let rest = all_digits s in leb 48 c && (leb c 57 && rest)

pub digits_value : ℕ → Str → ℕ
digits_value acc [] = acc
digits_value acc (c ∷ s) = digits_value (acc * 10 + (c - 48)) s

-- std::stol of digits, as a pid_t; it throws on an empty text and on a number over LONG_MAX.
unfoldable pub stol : Str → Option ℕ
unfolding digits_value
stol [] = none
stol (c ∷ s) = let n = digits_value 0 (c ∷ s) in if ltb n (2 ^ 63) then some (n % 2 ^ 32) else none

-- pids.insert
unfoldable pub insert_pid : ℕ → List ℕ → List ℕ
insert_pid k [] = k ∷ []
insert_pid k (j ∷ js) =
    let rest = insert_pid k js in
    if ltb k j then k ∷ j ∷ js else if j == k then j ∷ js else j ∷ rest

pub is_dir : DirEntry → Bool
is_dir e = elim e.d_type [ dt_dir ↦ true | dt_lnk ↦ false | dt_other ↦ false ]

-- The loop of UpdatePids over the entries of /proc; `none` is an exception of std::stol.
unfoldable pub add_pids : List DirEntry → List ℕ → Option (List ℕ)
unfolding is_dir all_digits stol insert_pid
add_pids [] pids = some pids
add_pids (e ∷ es) pids = elim (is_dir e && all_digits e.d_name) [
  | false ↦ add_pids es pids
  | true ↦ elim (stol e.d_name) [ none ↦ none | some pid ↦ add_pids es (insert_pid pid pids) ]
]

-- CaptureCxx::UpdatePids
unfoldable pub update_pids : Os → Capture → Run (Status Capture)
unfolding add_pids
update_pids os s = elim (os.dir (codes "/proc")) [
  | none ↦ finished (record { ret = cap_open_dir; state = record s { pids = [] } })
  | some es ↦ elim (add_pids es []) [
    | none ↦ thrown
    | some pids ↦ finished (record { ret = 0; state = record s { pids = pids } })
  ]
]

sum_nums : List Value → ℕ
sum_nums [] = 0
sum_nums (num n ∷ vs) = n + sum_nums vs
sum_nums (text t ∷ vs) = sum_nums vs

-- "cpu  %lu %lu %lu %lu %lu %lu %lu"
abbrev pub cpu_format : List Directive
cpu_format =
    lits (codes "cpu  ")
    ++ (uint ∷ space ∷ uint ∷ space ∷ uint ∷ space ∷ uint ∷ space ∷ uint ∷ space ∷ uint ∷ space
        ∷ uint ∷ [])

-- The body of the loop of GetCpuTotal: the sum of what is scanned, and `break`.
unfoldable pub cpu_line : Capture → Str → Next Capture
unfolding sum_nums
cpu_line s buffer =
    let r = sscanf buffer cpu_format in
    if nonzero r
    then (let now = sum_nums r.values % 2 ^ 64 in
        break (record s { delta_cpu = (now + 2 ^ 64 - s.cpu) % 2 ^ 64; cpu = now }))
    else next s

-- "MemTotal:        %ld kB"
abbrev pub mem_format : List Directive
mem_format = lits (codes "MemTotal:        ") ++ (int ∷ lits (codes " kB"))

unfoldable pub mem_line : Capture → Str → Next Capture
unfolding sum_nums
mem_line s buffer =
    let r = sscanf buffer mem_format in
    if nonzero r then break (record s { memory = sum_nums r.values }) else next s

unfoldable pub read_total :
    Option Str → (Capture → Str → Next Capture) → Capture → Option (Status Capture)
read_total none line s = returns cap_process_open s
read_total (some contents) line s = elim (for_lines 1024 line contents s) [
  | none ↦ none
  | some s' ↦ returns 0 s'
]

-- CaptureCxx::GetCpuTotal
unfoldable pub get_cpu_total : Os → Capture → Option (Status Capture)
unfolding read_total cpu_line
get_cpu_total os s = read_total (os.file (codes "/proc/stat")) cpu_line s

-- CaptureCxx::GetMemTotal
unfoldable pub get_mem_total : Os → Capture → Option (Status Capture)
unfolding read_total mem_line
get_mem_total os s = read_total (os.file (codes "/proc/meminfo")) mem_line s
