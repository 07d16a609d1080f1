-- ===== src/ProcessFields.antt =====
-- src/cap_process.h and src/cap_process.cpp: the fields of a process and the lines of /proc/<pid> that fill them.
use capture.Prelude.{ℕ, ◌+◌, ◌-◌, ◌%◌, ◌^◌, List, [], ◌∷◌, ◌++◌, Option, none, some, if◌then◌else◌}
use capture.Text.{Str, codes}
use capture.Errors.{minus_one}
use capture.Scan.{
  Directive, space, conv, skip, word, lits, Value, num, text, Scanned, sscanf, nonzero, int, uint,
  skip_int,
}

-- A `double` of the program: zero, or the quotient of two numbers that were `uint64_t`. Rounding is
-- left out.
pub data Percent : Type 0 where
  zero_percent : Percent
  quotient : ℕ → ℕ → Percent

pub record CapProcess : Type 0 where
  pub name : Str
  pub cmdline : Str
  pub user : Str
  pub group : Str
  pub pid : ℕ
  pub uid : ℕ
  pub gid : ℕ
  pub fd_cnt : ℕ
  pub memory : ℕ
  pub cpu_percent : Percent
  pub mem_percent : Percent
  pub io_read : ℕ
  pub io_write : ℕ
  pub recv : ℕ
  pub send : ℕ
  pub cpu : ℕ
  pub delta_cpu : ℕ

-- CapProcess::CapProcess
abbrev pub new_process : ℕ → CapProcess
new_process pid = record {
  name = [];
  cmdline = [];
  user = [];
  group = [];
  pid = pid;
  uid = 0;
  gid = 0;
  fd_cnt = 0;
  memory = 0;
  cpu_percent = zero_percent;
  mem_percent = zero_percent;
  io_read = 0;
  io_write = 0;
  recv = 0;
  send = 0;
  cpu = 0;
  delta_cpu = 0;
}

-- CapProcess::Reset
unfoldable pub reset : CapProcess → CapProcess
reset p = record p {
  name = [];
  cmdline = [];
  user = [];
  pid = minus_one;
  uid = 0;
  memory = 0;
  cpu_percent = zero_percent;
  mem_percent = zero_percent;
  fd_cnt = 0;
  io_read = 0;
  io_write = 0;
  recv = 0;
  send = 0;
}

-- The number, or the text, that a scan stored first.
abbrev pub first_num : List Value → Option ℕ
first_num (num n ∷ vs) = some n
first_num _ = none

abbrev pub first_u32 : List Value → Option ℕ
first_u32 (num n ∷ vs) = some (n % 2 ^ 32)
first_u32 _ = none

abbrev pub or_else {ℓ} : {A : Type ℓ} → Option A → A → A
or_else none d = d
or_else (some a) d = a

abbrev pub first_text : List Value → Str
first_text (text s ∷ vs) = s
first_text _ = []

-- What `if (sscanf(buffer, format, &temp) != 0) field = temp;` leaves in a field, where `temp` was zero.
unfoldable pub replaced : Scanned → ℕ → ℕ
unfolding nonzero
replaced r old = if nonzero r then or_else (first_num r.values) 0 else old

abbrev pub name_format : List Directive
name_format = lits (codes "Name:       ") ++ (conv word none ∷ [])

abbrev pub rss_format : List Directive
rss_format = lits (codes "VmRSS:          ") ++ (int ∷ lits (codes " kB"))

abbrev pub uid_format : List Directive
uid_format = lits (codes "Uid: ") ++ (uint ∷ [])

abbrev pub gid_format : List Directive
gid_format = lits (codes "Gid: ") ++ (uint ∷ [])

-- What the four scans of a line of the file leave in the fields.
unfoldable pub status_scans : CapProcess → Scanned → Scanned → Scanned → Scanned → CapProcess
unfolding replaced nonzero
status_scans p n m u g = record p {
  name = elim p.name [ [] ↦ if nonzero n then first_text n.values else [] | c ∷ s ↦ c ∷ s ];
  memory = replaced m p.memory;
  uid = or_else (first_u32 u.values) p.uid;
  gid = or_else (first_u32 g.values) p.gid;
}

-- The body of the loop of ParseStatus.
unfoldable pub status_line : CapProcess → Str → CapProcess
unfolding status_scans
status_line p buffer =
    status_scans p (sscanf buffer name_format) (sscanf buffer rss_format) (sscanf buffer uid_format)
      (sscanf buffer gid_format)

abbrev pub rchar_format : List Directive
rchar_format = lits (codes "rchar: ") ++ (int ∷ [])

abbrev pub wchar_format : List Directive
wchar_format = lits (codes "wchar: ") ++ (int ∷ [])

unfoldable pub io_scans : CapProcess → Scanned → Scanned → CapProcess
unfolding replaced nonzero
io_scans p r w = record p { io_read = replaced r p.io_read; io_write = replaced w p.io_write }

-- The body of the loop of ParseIo.
unfoldable pub io_line : CapProcess → Str → CapProcess
unfolding io_scans
io_line p buffer = io_scans p (sscanf buffer rchar_format) (sscanf buffer wchar_format)

-- "%*d %*s %*s", ten times "%*d", "%ld %ld", and "%*d" twenty-four times
abbrev pub skip_ints : ℕ → List Directive → List Directive
skip_ints ℕ.zero fmt = fmt
skip_ints (ℕ.suc n) fmt = skip_int ∷ space ∷ skip_ints n fmt

abbrev pub stat_format : List Directive
stat_format =
    skip_int
    ∷ space
    ∷ skip word none
    ∷ space
    ∷ skip word none
    ∷ space
    ∷ skip_ints 10 (int ∷ space ∷ int ∷ space ∷ skip_ints 24 [])

-- utime and stime, zero where the scan stored none
abbrev pub two_nums : List Value → ℕ × ℕ
two_nums (num a ∷ num b ∷ vs) = (a, b)
two_nums (num a ∷ vs) = (a, 0)
two_nums _ = (0, 0)

-- `if (sscanf(…)) { now = utime + stime; deltaCpu = now - cpu; cpu = now; }`
unfoldable pub add_times : Scanned → CapProcess → CapProcess
add_times r p =
    if nonzero r
    then (let (utime, stime) = two_nums r.values in
        let now = (utime + stime) % 2 ^ 64 in
        record p { delta_cpu = (now + 2 ^ 64 - p.cpu) % 2 ^ 64; cpu = now })
    else p

-- The body of the loop of ParseStat.
unfoldable pub stat_line : CapProcess → Str → CapProcess
stat_line p buffer = add_times (sscanf buffer stat_format) p
