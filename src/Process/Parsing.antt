-- ===== src/Process/Parsing.antt =====
-- `CapProcess::Parse` as a whole: what it keeps, when it ends and what it returns.
use capture.Prelude.{
  ℕ, ◌≡◌, refl, Bool, true, false, Option, none, some, arith, ◌==◌, if◌then◌else◌, Option-cases,
  Bool-cases, inl, inr,
}
use capture.Text.{Str, codes}
use capture.Errors.{minus_one, cap_process_init, cap_process_open}
use capture.Outcome.{Status}
use capture.Outcome.Rules.{Keeps, returns-Keeps, whatever-Keeps, and_then-Keeps, Ends, Gives}
use capture.Stream.{next, for_lines}
use capture.Stream.Lines.{fits, for_lines-run}
use capture.Stream.Invariant.{for_lines-keeps}
use capture.Os.{Os, proc_path}
use capture.Process.{
  parse_file, parse_status, parse_cmdline, parse_io, parse_user_and_group, parse_handle, parse_stat,
  parse_proc, parse,
}
use capture.Scan.{nonzero, sscanf}
use capture.ProcessFields.{CapProcess, status_line, io_line, stat_line, add_times, stat_format}

-- The identity and the traffic of a process.
abbrev pub Same : CapProcess → CapProcess → Type 0
Same p q = (q.pid ≡ p.pid) × (q.recv ≡ p.recv) × (q.send ≡ p.send)

parse_file-Keeps :
    (P : CapProcess → Type 0) (f : Option Str) (line : CapProcess → Str → CapProcess)
    (p : CapProcess)
    → ((q : CapProcess) (b : Str) → P q → P (line q b))
    → P p
    → Keeps P (parse_file f line p)
unfolding parse_file
parse_file-Keeps P none line p keep h r e = returns-Keeps P _ p h r e
parse_file-Keeps P (some contents) line p keep h r e =
    elim (Option-cases (for_lines 1024 (λ q b. next (line q b)) contents p)) [
      | inl x ↦ absurd (ground arith)
      | inr (q, x) ↦
          returns-Keeps P 0 q
            (for_lines-keeps P 1024 (λ q b. next (line q b)) keep contents p q h x) r (ground arith)
    ]

-- A file that is there has no line of more than 1023 bytes.
abbrev pub FileFits : Option Str → Type 0
FileFits none = Unit
FileFits (some contents) = fits 1023 1023 contents ≡ true

pub parse_file-Ends :
    (f : Option Str) (line : CapProcess → Str → CapProcess) (p : CapProcess)
    → FileFits f
    → Ends (parse_file f line p)
unfolding parse_file
parse_file-Ends none line p h = (_, refl)
parse_file-Ends (some contents) line p h =
    rw (for_lines-run 1024 (λ q b. next (line q b)) contents p h, parse_file) (_, refl)

abbrev pub opens : Option Str → Bool
opens none = false
opens (some contents) = true

pub parse_file-Gives :
    (f : Option Str) (line : CapProcess → Str → CapProcess) (p : CapProcess)
    → Gives (parse_file f line p) (if opens f then 0 else cap_process_open)
unfolding parse_file
parse_file-Gives f line p r e = ground arith

module _ (os : Os) (p0 : CapProcess) where
  pub parse_status-Same : (p : CapProcess) → Same p0 p → Keeps (Same p0) (parse_status os p)
  unfolding parse_status status_line
  parse_status-Same p h =
      parse_file-Keeps (Same p0) (os.file (proc_path p.pid (codes "status"))) status_line p
        (λ q b k. k) h

  pub parse_cmdline-Same : (p : CapProcess) → Same p0 p → Keeps (Same p0) (parse_cmdline os p)
  unfolding parse_cmdline
  parse_cmdline-Same p h r e = ground arith

  pub parse_io-Same : (p : CapProcess) → Same p0 p → Keeps (Same p0) (parse_io os p)
  unfolding parse_io io_line
  parse_io-Same p h =
      parse_file-Keeps (Same p0) (os.file (proc_path p.pid (codes "io"))) io_line p (λ q b k. k) h

  pub parse_user_and_group-Same : (p : CapProcess) → Same p0 p → Same p0 (parse_user_and_group os p)
  unfolding parse_user_and_group
  parse_user_and_group-Same p h = ground arith

  pub parse_handle-Same : (p : CapProcess) → Same p0 p → Keeps (Same p0) (parse_handle os p)
  unfolding parse_handle
  parse_handle-Same p h r e = ground arith

  pub stat_line-Same : (p : CapProcess) (b : Str) → Same p0 p → Same p0 (stat_line p b)
  unfolding stat_line add_times
  stat_line-Same p b h = elim (Bool-cases (nonzero (sscanf b stat_format))) [
    | inl e ↦ rw e h
    | inr e ↦ rw e h
  ]

  pub parse_stat-Same : (p : CapProcess) → Same p0 p → Keeps (Same p0) (parse_stat os p)
  unfolding parse_stat
  parse_stat-Same p h =
      parse_file-Keeps (Same p0) (os.file (proc_path p.pid (codes "stat"))) stat_line p
        stat_line-Same h

  parse-Same :
      (memory delta : ℕ) (p : CapProcess) → Same p0 p → Keeps (Same p0) (parse os memory delta p)
  unfolding parse
  parse-Same memory delta p h = elim (Bool-cases (p.pid == minus_one)) [
    | inl e ↦ rw (e, parse_proc) (returns-Keeps (Same p0) cap_process_init p h)
    | inr e ↦
        rw (e, parse_proc)
          (and_then-Keeps (Same p0) _ _ (parse_status-Same p h) λ p1 h1.
            and_then-Keeps (Same p0) _ _ (parse_cmdline-Same p1 h1) λ p2 h2.
              whatever-Keeps (Same p0) _ _ (parse_io-Same p2 h2) λ p3 h3.
                whatever-Keeps (Same p0) _ _ (parse_handle-Same _ (parse_user_and_group-Same p3 h3))
                  λ p5 h5.
                    and_then-Keeps (Same p0) _ _ (parse_stat-Same _ h5)
                      λ p6 h6. returns-Keeps (Same p0) 0 _ h6)
  ]

-- If Parse ends, it has kept the number of the process and its counts of received and sent bytes,
-- whatever it has read and whatever code it returns.
pub parse_keeps_traffic :
    (os : Os) (memory delta : ℕ) (p : CapProcess) (r : Status CapProcess)
    → parse os memory delta p ≡ some r
    → (r.state.pid ≡ p.pid) × (r.state.recv ≡ p.recv) × (r.state.send ≡ p.send)
parse_keeps_traffic os memory delta p = parse-Same os p memory delta p (refl, refl, refl)
