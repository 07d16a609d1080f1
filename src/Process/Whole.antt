-- ===== src/Process/Whole.antt =====
-- `Parse` of src/cap_process.cpp on a whole directory /proc/<pid> in the layout of proc(5).
use capture.Prelude.{
  ℕ, ◌+◌, ◌-◌, ◌%◌, ◌^◌, ◌≡◌, refl, ap, ◌∙◌, false, List, [], ◌∷◌, some, map, All, ◌==◌, arith,
}
use capture.Text.{Str, codes}
use capture.Errors.{minus_one}
use capture.Outcome.{returns}
use capture.Os.{Os, DirEntry, proc_path}
use capture.Stream.Unlines.{unlines, fold, IsWhole}
use capture.Process.{
  parse_file, parse_status, parse_cmdline, parse_io, parse_user_and_group, parse_handle, parse_stat,
  parse_proc, parse, first_word, count_links, percent,
}
use capture.ProcessFields.{CapProcess, stat_line}
use capture.Process.IoLines.{
  IoLine, rchar_line, wchar_line, io_other, io_text, IsIoLine, io_stated, io_told, rchar_line,
  wchar_line, io_other,
}
use capture.Process.Lines.{
  StatusLine, name_line, rss_line, uid_line, gid_line, other_line, status_text, IsStatusLine,
  stated, name_line, rss_line, uid_line, gid_line, other_line,
}
use capture.Process.StatLine.{StatLine, stat_text, IsStatLine, stat_line-times}
use capture.Process.Reading.{told, parse_status-told, parse_io-told, parse_file-unlines}

-- What the kernel shows of a process.
pub record ProcDir : Type 0 where
  pub status : List StatusLine
  pub cmdline : Str
  pub io : List IoLine
  pub fd : List DirEntry
  pub stat : StatLine

-- The files of a process, as texts whose lines fit the buffers.
pub record Shows (os : Os) (pid : ℕ) (d : ProcDir) : Type 0 where
  pub status : os.file (proc_path pid (codes "status")) ≡ some (unlines (map status_text d.status))
  pub status_lines : All IsStatusLine d.status
  pub status_fits : All (IsWhole 1023) (map status_text d.status)
  pub cmdline : os.file (proc_path pid (codes "cmdline")) ≡ some d.cmdline
  pub io : os.file (proc_path pid (codes "io")) ≡ some (unlines (map io_text d.io))
  pub io_lines : All IsIoLine d.io
  pub io_fits : All (IsWhole 1023) (map io_text d.io)
  pub fd : os.dir (proc_path pid (codes "fd")) ≡ some d.fd
  pub stat :
      os.file (proc_path pid (codes "stat")) ≡ some (unlines (stat_text d.stat d.stat.more ∷ []))
  pub stat_row : IsStatLine d.stat
  pub stat_fits : IsWhole 1023 (stat_text d.stat d.stat.more)

-- The times of the row, and what they add to those that were read before.
abbrev pub timed : StatLine → CapProcess → CapProcess
timed l p = record p {
  delta_cpu = ((l.utime + l.stime) % 2 ^ 64 + 2 ^ 64 - p.cpu) % 2 ^ 64;
  cpu = (l.utime + l.stime) % 2 ^ 64;
}

module _ (os : Os) (d : ProcDir) where
  -- The process up to the handles, as its directory describes it.
  abbrev pub described : CapProcess → CapProcess
  described p =
      let q = told d.status p in
      record (parse_user_and_group os
        (io_told d.io (record q { cmdline = first_word d.cmdline q.cmdline }))) {
          fd_cnt = count_links d.fd % 2 ^ 32;
        }

  -- The process with the two percentages, of the memory and of the time of the system.
  abbrev pub measured : ℕ → ℕ → CapProcess → CapProcess
  measured memory delta p =
      let q = described p in
      let r = timed d.stat (record q { mem_percent = percent q.memory memory }) in
      record r { cpu_percent = percent r.delta_cpu delta }

told-pid : (ls : List StatusLine) (p : CapProcess) → (told ls p).pid ≡ p.pid
told-pid [] p = refl
told-pid (l ∷ ls) p = told-pid ls (stated l p) ∙ stated-pid l
  where
    stated-pid : (l : StatusLine) → (stated l p).pid ≡ p.pid
    stated-pid (name_line w rest) = refl
    stated-pid (rss_line n m) = refl
    stated-pid (uid_line u rest) = refl
    stated-pid (gid_line g rest) = refl
    stated-pid (other_line k rest) = refl

io_told-pid : (ls : List IoLine) (p : CapProcess) → (io_told ls p).pid ≡ p.pid
io_told-pid [] p = refl
io_told-pid (l ∷ ls) p = io_told-pid ls (io_stated l p) ∙ stated-pid l
  where
    stated-pid : (l : IoLine) → (io_stated l p).pid ≡ p.pid
    stated-pid (rchar_line n) = refl
    stated-pid (wchar_line n) = refl
    stated-pid (io_other k rest) = refl

user-pid : (os : Os) (p : CapProcess) → (parse_user_and_group os p).pid ≡ p.pid
unfolding parse_user_and_group
user-pid os p = ground arith

module _ (os : Os) (pid : ℕ) (d : ProcDir) (h : Shows os pid d) (q : CapProcess)
    (e : q.pid ≡ pid) where
  -- The file at the path of `q`.
  at :
      (leaf : Str) {f : Str}
      → os.file (proc_path pid leaf) ≡ some f
      → os.file (proc_path q.pid leaf) ≡ some f
  at leaf x = ap (λ n. os.file (proc_path n leaf)) e ∙ x

  cmdline_read :
      parse_cmdline os q ≡ returns 0 (record q { cmdline = first_word d.cmdline q.cmdline })
  unfolding parse_cmdline
  cmdline_read = rw (at (codes "cmdline") h.cmdline, parse_cmdline) refl

  handles_read : parse_handle os q ≡ returns 0 (record q { fd_cnt = count_links d.fd % 2 ^ 32 })
  unfolding parse_handle
  handles_read = rw (ap (λ n. os.dir (proc_path n (codes "fd"))) e ∙ h.fd, parse_handle) refl

  times_read : parse_stat os q ≡ returns 0 (timed d.stat q)
  unfolding parse_stat fold
  times_read =
      ap (λ o. parse_file o stat_line q) (at (codes "stat") h.stat)
      ∙ parse_file-unlines stat_line (stat_text d.stat d.stat.more ∷ []) q (h.stat_fits, tt)
      ∙ ap (returns 0) (stat_line-times q d.stat h.stat_row)

  io_read : parse_io os q ≡ returns 0 (io_told d.io q)
  io_read = parse_io-told os q d.io (at (codes "io") h.io) h.io_lines h.io_fits

  status_read : parse_status os q ≡ returns 0 (told d.status q)
  status_read =
      parse_status-told os q d.status (at (codes "status") h.status) h.status_lines h.status_fits

module _ (os : Os) (memory delta : ℕ) (p : CapProcess) (d : ProcDir) (h : Shows os p.pid d) where
  parse_proc-told :
      (p.pid == minus_one) ≡ false
      → parse_proc os memory delta p ≡ returns 0 (measured os d memory delta p)
  unfolding parse_proc
  parse_proc-told alive =
      let p1 = told d.status p in
      let e1 = told-pid d.status p in
      let p2 = record p1 { cmdline = first_word d.cmdline p1.cmdline } in
      let p3 = io_told d.io p2 in
      let e3 : p3.pid ≡ p.pid = io_told-pid d.io p2 ∙ e1 in
      let p4 = parse_user_and_group os p3 in
      let e4 : p4.pid ≡ p.pid = user-pid os p3 ∙ e3 in
      let p5 = record p4 { fd_cnt = count_links d.fd % 2 ^ 32 } in
      let p6 = record p5 { mem_percent = percent p5.memory memory } in
      rw
        (
          alive,
          status_read os p.pid d h p refl,
          cmdline_read os p.pid d h p1 e1,
          io_read os p.pid d h p2 e1,
          handles_read os p.pid d h p4 e4,
          times_read os p.pid d h p6 e4,
        )
        refl

  -- If /proc/<pid> shows a process, other than the number -1, in files of the layout of proc(5), with a name of
  -- one word in the file stat, names of less than 128 bytes in the file status, users and groups below 2 ^ 32, other
  -- numbers below 2 ^ 63, and lines of at most 1023 bytes, then Parse ends, returns 0 and leaves in the
  -- process: what the lines of status and io state, the first word of cmdline, what ParseUserAndGroup makes of its
  -- user and group, the number of links in fd, the times of stat and what they add to those read before, and as the
  -- percentages the memory over that of the system and the added time over that of the system. The traffic and
  -- all else stay.
  pub parse-told :
      (p.pid == minus_one) ≡ false
      → parse os memory delta p ≡ returns 0 (measured os d memory delta p)
  unfolding parse
  parse-told alive = parse_proc-told alive
