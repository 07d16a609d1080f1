-- ===== src/Process/Ending.antt =====
-- When `CapProcess::Parse` ends, and the code that it returns then.
use capture.Prelude.{
  ℕ, ◌≡◌, refl, sym, subst, false, ◌&&◌, some, arith, ◌==◌, if◌then◌else◌, Option-cases, Bool-cases,
  inl, inr,
}
use capture.Text.{Str, codes}
use capture.Errors.{minus_one, cap_process_open}
use capture.Outcome.{Status}
use capture.Outcome.Rules.{
  Ends, whatever-Ends, and_then-Ends, Gives, whatever-Gives, and_then-Gives,
}
use capture.Os.{Os, proc_path}
use capture.Process.{
  parse_file, parse_status, parse_cmdline, parse_io, parse_handle, parse_stat, parse_proc, parse,
}
use capture.ProcessFields.{CapProcess}
use capture.Process.Parsing.{
  Same, FileFits, opens, parse_file-Ends, parse_file-Gives, parse_status-Same, parse_cmdline-Same,
  parse_io-Same, parse_user_and_group-Same, parse_handle-Same, parse_stat-Same,
}

-- The three files that are read line by line fit the buffers.
pub record ProcFits (os : Os) (pid : ℕ) : Type 0 where
  pub status : FileFits (os.file (proc_path pid (codes "status")))
  pub io : FileFits (os.file (proc_path pid (codes "io")))
  pub stat : FileFits (os.file (proc_path pid (codes "stat")))

-- A host whose files have only lines of at most 1023 bytes.
abbrev pub HostFits : Os → Type 0
HostFits os = (path : Str) → FileFits (os.file path)

pub HostFits-ProcFits : (os : Os) (pid : ℕ) → HostFits os → ProcFits os pid
HostFits-ProcFits os pid h = record { status = h _; io = h _; stat = h _ }

module _ (os : Os) (p0 : CapProcess) where
  at_pid-Ends :
      (leaf : Str) (line : CapProcess → Str → CapProcess) (p : CapProcess)
      → Same p0 p
      → FileFits (os.file (proc_path p0.pid leaf))
      → Ends (parse_file (os.file (proc_path p.pid leaf)) line p)
  at_pid-Ends leaf line p h f =
      subst (λ k. Ends (parse_file (os.file (proc_path k leaf)) line p)) (sym h.0)
        (parse_file-Ends (os.file (proc_path p0.pid leaf)) line p f)

  at_pid-Gives :
      (leaf : Str) (line : CapProcess → Str → CapProcess) (p : CapProcess)
      → Same p0 p
      → Gives
          (parse_file (os.file (proc_path p.pid leaf)) line p)
          (if opens (os.file (proc_path p0.pid leaf)) then 0 else cap_process_open)
  at_pid-Gives leaf line p h =
      subst
        (λ k.
          Gives (parse_file (os.file (proc_path p.pid leaf)) line p)
            (if opens (os.file (proc_path k leaf)) then 0 else cap_process_open))
        (h.0) (parse_file-Gives (os.file (proc_path p.pid leaf)) line p)

  parse_cmdline-Ends : (p : CapProcess) → Ends (parse_cmdline os p)
  unfolding parse_cmdline
  parse_cmdline-Ends p = elim (Option-cases (os.file (proc_path p.pid (codes "cmdline")))) [
    | inl e ↦ rw (e, parse_cmdline) (_, refl)
    | inr (c, e) ↦ rw (e, parse_cmdline) (_, refl)
  ]

  parse_cmdline-Gives :
      (p : CapProcess)
      → Same p0 p
      → Gives
          (parse_cmdline os p)
          (if opens (os.file (proc_path p0.pid (codes "cmdline"))) then 0 else cap_process_open)
  unfolding parse_cmdline
  parse_cmdline-Gives p h =
      subst
        (λ k.
          Gives (parse_cmdline os p)
            (if opens (os.file (proc_path k (codes "cmdline"))) then 0 else cap_process_open))
        (h.0) (λ r e. ground arith)

  parse_handle-Ends : (p : CapProcess) → Ends (parse_handle os p)
  unfolding parse_handle
  parse_handle-Ends p = elim (Option-cases (os.dir (proc_path p.pid (codes "fd")))) [
    | inl e ↦ rw (e, parse_handle) (_, refl)
    | inr (c, e) ↦ rw (e, parse_handle) (_, refl)
  ]

  parse-Ends :
      (memory delta : ℕ) (p : CapProcess)
      → Same p0 p
      → ProcFits os p0.pid
      → Ends (parse os memory delta p)
  unfolding parse parse_status parse_io parse_stat
  parse-Ends memory delta p h f = elim (Bool-cases (p.pid == minus_one)) [
    | inl e ↦ rw (e, parse_proc) (_, refl)
    | inr e ↦
        rw (e, parse_proc)
          (and_then-Ends (Same p0) _ _ (at_pid-Ends _ _ p h f.status) (parse_status-Same os p0 p h)
            λ p1 h1.
              and_then-Ends (Same p0) _ _ (parse_cmdline-Ends p1) (parse_cmdline-Same os p0 p1 h1)
                λ p2 h2.
                  whatever-Ends (Same p0) _ _ (at_pid-Ends _ _ p2 h2 f.io)
                    (parse_io-Same os p0 p2 h2)
                    λ p3 h3.
                      whatever-Ends (Same p0) _ _ (parse_handle-Ends _)
                        (parse_handle-Same os p0 _ (parse_user_and_group-Same os p0 p3 h3))
                        λ p5 h5.
                          and_then-Ends (Same p0) _ _ (at_pid-Ends _ _ _ h5 f.stat)
                            (parse_stat-Same os p0 _ h5) λ p6 h6. (_, refl))
  ]

  -- The codes of the steps in turn, as `if (ret != 0) return ret;` passes them on.
  abbrev step_code : Str → ℕ → ℕ
  step_code leaf rest =
      let code : ℕ = if opens (os.file (proc_path p0.pid leaf)) then 0 else cap_process_open in
      if code == 0 then rest else code

  parse-Gives :
      (memory delta : ℕ) (p : CapProcess)
      → Same p0 p
      → (p.pid == minus_one) ≡ false
      → Gives
          (parse os memory delta p)
          (step_code (codes "status") (step_code (codes "cmdline") (step_code (codes "stat") 0)))
  unfolding parse parse_status parse_io parse_stat
  parse-Gives memory delta p h e =
      rw (e, parse_proc)
        (and_then-Gives (Same p0) _ _ _ _ (at_pid-Gives _ _ p h) (parse_status-Same os p0 p h)
          λ p1 h1.
            and_then-Gives (Same p0) _ _ _ _ (parse_cmdline-Gives p1 h1)
              (parse_cmdline-Same os p0 p1 h1)
              λ p2 h2. whatever-Gives (Same p0) _ _ _ (parse_io-Same os p0 p2 h2) λ p3 h3.
                whatever-Gives (Same p0) _ _ _
                  (parse_handle-Same os p0 _ (parse_user_and_group-Same os p0 p3 h3))
                  λ p5 h5.
                    and_then-Gives (Same p0) _ _ _ _ (at_pid-Gives _ _ _ h5)
                      (parse_stat-Same os p0 _ h5) λ p6 h6. λ r q. ground arith)

-- If each line of the files status, io and stat of a process, where they are there, fits the buffer
-- of 1024 bytes, Parse ends.
pub parse_ends :
    (os : Os) (memory delta : ℕ) (p : CapProcess)
    → ProcFits os p.pid
    → (r : Status CapProcess) × (parse os memory delta p ≡ some r)
parse_ends os memory delta p f = parse-Ends os p memory delta p (refl, refl, refl) f

-- Parse of a process whose number is not -1, if it ends, returns 0 if the files status, cmdline and
-- stat can be opened, and CAP_PROCESS_OPEN otherwise: neither the file io nor the directory fd
-- matters.
pub parse_code :
    (os : Os) (memory delta : ℕ) (p : CapProcess) (r : Status CapProcess)
    → (p.pid == minus_one) ≡ false
    → parse os memory delta p ≡ some r
    → r.ret ≡ (
        if opens (os.file (proc_path p.pid (codes "status")))
          && (opens (os.file (proc_path p.pid (codes "cmdline")))
              && opens (os.file (proc_path p.pid (codes "stat"))))
        then 0
        else cap_process_open)
parse_code os memory delta p r n e =
    ground (arith, parse-Gives os p memory delta p (refl, refl, refl) n r e)
