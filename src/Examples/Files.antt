-- ===== src/Examples/Files.antt =====
-- Files of processes, and loops over lines.
use capture.Prelude.{
  ℕ, ◌+◌, ◌≡◌, refl, false, ◌&&◌, [], ◌∷◌, none, some, if◌then◌else◌, length, ◌==◌, str_eq, ◌*◌,
  arith,
}
use capture.Text.{Str, codes, to_string, print_int, c_str}
use capture.Errors.{cap_process_open}
use capture.Stream.{next, opened, read_loop, for_lines}
use capture.Stream.Lines.{lines, run, for_lines-run, read_loop-none, fits}
use capture.Outcome.{Status}
use capture.Os.{proc_path}
use capture.Process.{parse, percent, first_word}
use capture.ProcessFields.{
  CapProcess, new_process, add_times, quotient, zero_percent, status_line, stat_line,
}
use capture.Process.Parsing.{opens, parse_keeps_traffic}
use capture.Process.Ending.{parse_ends, parse_code, ProcFits}
use capture.Process.Traffic.{cpu_between_readings}
use capture.Scan.{num, lits, sscanf, clamp}
use capture.Examples.Hosts.{host}

-- The number of bytes of all lines.
abbrev count_bytes : ℕ → Str → ℕ
count_bytes n line = n + length line

for_lines-run_example :
    for_lines 4 (λ n l. next (count_bytes n l)) (codes "ab\n\nc") 0
    ≡ some (run (λ n l. next (count_bytes n l)) 0 (lines (codes "ab\n\nc")))
unfolding fits
for_lines-run_example = for_lines-run 4 (λ n l. next (count_bytes n l)) (codes "ab\n\nc") 0 refl

read_loop-none_example :
    read_loop 100 4 (λ n l. next (count_bytes n l)) (opened (codes "ab\nabcd\n")) 0 ≡ none
unfolding fits
read_loop-none_example = read_loop-none 4 count_bytes 100 (codes "ab\nabcd\n") refl 0

host-ProcFits : ProcFits host 7
unfolding fits proc_path print_int to_string str_eq
host-ProcFits = record { status = refl; io = tt; stat = refl }

parse_ends_example : (r : Status CapProcess) × (parse host 1000 0 (new_process 7) ≡ some r)
parse_ends_example = parse_ends host 1000 0 (new_process 7) host-ProcFits

-- What Parse makes of the process 7.
abbrev pub parsed : CapProcess
parsed = record (new_process 7) {
  cmdline = codes "cat";
  user = codes "6";
  gid = 6;
  fd_cnt = 1;
  mem_percent = quotient 0 1000;
}

reading_runs : parse host 1000 0 (new_process 7) ≡ some (record { ret = 0; state = parsed })
unfolding parse str_eq proc_path for_lines c_str status_line to_string stat_line percent add_times
    first_word lits sscanf clamp
reading_runs = refl

parse_keeps_traffic_example :
    (parsed.pid ≡ (new_process 7).pid)
    × (parsed.recv ≡ (new_process 7).recv)
    × (parsed.send ≡ (new_process 7).send)
parse_keeps_traffic_example =
    parse_keeps_traffic host 1000 0 (new_process 7) (record { ret = 0; state = parsed })
      reading_runs

parse_code_example : 0 ≡ (
    if opens (host.file (proc_path 7 (codes "status")))
      && (opens (host.file (proc_path 7 (codes "cmdline")))
          && opens (host.file (proc_path 7 (codes "stat"))))
    then 0
    else cap_process_open)
parse_code_example =
    parse_code host 1000 0 (new_process 7) (record { ret = 0; state = parsed }) refl reading_runs

cpu_between_readings_example :
    let q = add_times (record { values = num 30 ∷ num 10 ∷ []; ended = false }) parsed in
    let r = add_times (record { values = num 45 ∷ num 12 ∷ []; ended = false }) q in
    (r.delta_cpu + 30 + 10 ≡ 45 + 12)
    × (r.cpu ≡ 45 + 12)
    × (percent r.delta_cpu 170
        ≡ (if 170 == 0 then zero_percent else quotient (r.delta_cpu * 100) 170))
cpu_between_readings_example =
    cpu_between_readings parsed 30 10 45 12 170 (omega arith) (omega arith)
