-- ===== src/Process.antt =====
-- src/cap_process.h and src/cap_process.cpp: what is known of a process, read from /proc/<pid>.
pub mod Parsing
pub mod Ending
pub mod Traffic
pub mod Lines
pub mod Times
pub mod StatLine
pub mod IoLines
pub mod Reading
pub mod Whole
use capture.Prelude.{
  ℕ, ◌+◌, ◌-◌, ◌*◌, ◌%◌, ◌^◌, ◌≡◌, refl, Bool, true, false, List, [], ◌∷◌, ◌++◌, Option, none, some,
  ◌==◌, if◌then◌else◌, length,
}
use capture.Text.{Str, codes, to_string, print_int, labelled}
use capture.Errors.{minus_one, cap_process_init, cap_process_open, cap_process_open_dir}
use capture.Outcome.{Status, returns, and_then, whatever}
use capture.Scan.{
  Directive, space, lit, conv, skip, dec, hex, word, hex_set, lits, Value, num, text, Scanned,
  sscanf, nonzero, int, skip_int, skip_space, span, is_space,
}
use capture.Stream.{Next, next, for_lines}
use capture.Os.{Os, DirEntry, dt_lnk, dt_dir, dt_other, proc_path}
use capture.ProcessFields.{
  CapProcess, Percent, zero_percent, quotient, status_line, io_line, stat_line,
}
use capture.Inet.{Inet}
use capture.Device.{CapDevice}
use capture.Packet.{CapPacket, is_outgoing}

-- A file of lines; a file that cannot be opened is CAP_PROCESS_OPEN. The paths are short and `sprintf`
-- does not fail, so CAP_PROCESS_FORMAT is not returned.
unfoldable pub parse_file :
    Option Str → (CapProcess → Str → CapProcess) → CapProcess → Option (Status CapProcess)
parse_file none line p = returns cap_process_open p
parse_file (some contents) line p =
    elim (for_lines 1024 (λ q buffer. next (line q buffer)) contents p) [
      | none ↦ none
      | some q ↦ returns 0 q
    ]

-- s >> cmdline: the first word of the file; with none the field stays.
unfoldable pub first_word : Str → Str → Str
unfolding skip_space span is_space
first_word contents old = elim (skip_space contents) [
  | [] ↦ old
  | c ∷ s ↦ (span (λ d. if is_space d then false else true) (length (c ∷ s)) (c ∷ s)).0
]

unfoldable pub count_links : List DirEntry → ℕ
count_links [] = 0
count_links (e ∷ es) = elim e.d_type [ dt_lnk ↦ 1 | dt_dir ↦ 0 | dt_other ↦ 0 ] + count_links es

-- percent = (total == 0 ? 0 : (double)(part * 100) / (double)total)
unfoldable pub percent : ℕ → ℕ → Percent
percent part total = if total == 0 then zero_percent else quotient (part * 100 % 2 ^ 64) total

module _ (os : Os) where
  -- CapProcess::ParseStatus
  unfoldable pub parse_status : CapProcess → Option (Status CapProcess)
  parse_status p = parse_file (os.file (proc_path p.pid (codes "status"))) status_line p

  -- CapProcess::ParseCmdline
  unfoldable pub parse_cmdline : CapProcess → Option (Status CapProcess)
  parse_cmdline p = elim (os.file (proc_path p.pid (codes "cmdline"))) [
    | none ↦ returns cap_process_open p
    | some contents ↦ returns 0 (record p { cmdline = first_word contents p.cmdline })
  ]

  -- CapProcess::ParseIo
  unfoldable pub parse_io : CapProcess → Option (Status CapProcess)
  parse_io p = parse_file (os.file (proc_path p.pid (codes "io"))) io_line p

  -- CapProcess::ParseUserAndGroup. The last branch assigns to `user`, as the source does.
  unfoldable pub parse_user_and_group : CapProcess → CapProcess
  parse_user_and_group p =
      let u : Str = elim (os.user_name p.uid) [ none ↦ to_string p.uid | some n ↦ n ] in
      elim (os.group_name p.gid) [
        | some g ↦ record p { user = u; group = g }
        | none ↦ record p { user = to_string p.gid }
      ]

  -- CapProcess::ParseHandle
  unfoldable pub parse_handle : CapProcess → Option (Status CapProcess)
  unfolding count_links
  parse_handle p = elim (os.dir (proc_path p.pid (codes "fd"))) [
    | none ↦ returns cap_process_open_dir p
    | some es ↦ returns 0 (record p { fd_cnt = count_links es % 2 ^ 32 })
  ]

  -- CapProcess::ParseStat
  unfoldable pub parse_stat : CapProcess → Option (Status CapProcess)
  parse_stat p = parse_file (os.file (proc_path p.pid (codes "stat"))) stat_line p

  -- CapProcess::ParseProc
  unfoldable pub parse_proc : ℕ → ℕ → CapProcess → Option (Status CapProcess)
  parse_proc memory delta p =
      if p.pid == minus_one
      then returns cap_process_init p
      else and_then (parse_status p) λ p1. and_then (parse_cmdline p1) λ p2.
        whatever (parse_io p2) λ p3.
          let p4 = parse_user_and_group p3 in
          whatever (parse_handle p4) λ p5.
            and_then (parse_stat (record p5 { mem_percent = percent p5.memory memory }))
              λ p6. returns 0 (record p6 { cpu_percent = percent p6.delta_cpu delta })

  -- CapProcess::Parse
  unfoldable pub parse : ℕ → ℕ → CapProcess → Option (Status CapProcess)
  unfolding parse_proc parse_status parse_cmdline parse_io parse_user_and_group parse_handle
      parse_stat parse_file
  parse memory delta p = parse_proc memory delta p

-- CapProcess::AddPacket; the packet finds out its direction if it has none.
unfoldable pub add_packet : Inet → List CapDevice → CapPacket → CapProcess → CapProcess × CapPacket
unfolding is_outgoing
add_packet inet ds k p =
    let (out, k') = is_outgoing inet ds k in
    if out
    then (record p { send = (p.send + k'.len) % 2 ^ 64 }, k')
    else (record p { recv = (p.recv + k'.len) % 2 ^ 64 }, k')

-- CapProcess::Info: the line that it prints, where `show` is how std::cout prints a double.
unfoldable pub info : (Percent → Str) → CapProcess → Str
info show p = labelled (
    (codes "name:", p.name)
    ∷ (codes " cmdline:", p.cmdline)
    ∷ (codes " user:", p.user)
    ∷ (codes " group:", p.group)
    ∷ (codes " pid:", print_int p.pid)
    ∷ (codes " uid:", to_string p.uid)
    ∷ (codes " gid:", to_string p.gid)
    ∷ (codes " fdCnt:", to_string p.fd_cnt)
    ∷ (codes " memory:", to_string p.memory)
    ∷ (codes " cpuPercent:", show p.cpu_percent)
    ∷ (codes " memPercent:", show p.mem_percent)
    ∷ (codes " ioRead:", to_string p.io_read)
    ∷ (codes " ioWrite:", to_string p.io_write)
    ∷ (codes " recv:", to_string p.recv)
    ∷ (codes " send:", to_string p.send)
    ∷ [])
