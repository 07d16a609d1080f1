-- ===== src/Examples/Readings.antt =====
-- The files of a process, line by line.
use capture.Scan.Keys.{number_line}
use capture.Capture.Totals.{get_cpu_total, get_mem_total}
use capture.Capture.Totals.Reading.{
  CpuTimes, cpu_text, total, get_cpu_total-total, get_mem_total-total,
}
use capture.Library.{fresh}
use capture.Prelude.{
  ◌≡◌, refl, arith, true, false, [], ◌∷◌, some, none, ◌+◌, ◌-◌, ◌%◌, ◌^◌, map, str_eq,
  if◌then◌else◌, List, All,
}
use capture.Text.{codes, to_string, print_int}
use capture.Outcome.{returns}
use capture.Os.{Os, proc_path, dt_lnk}
use capture.Scan.Keys.{is_key}
use capture.Scan.Words.{is_word}
use capture.Scan.{is_space}
use capture.Stream.Unlines.{unlines, one_line, starts, IsWhole}
use capture.ProcessFields.{new_process, stat_line, quotient}
use capture.Process.{parse, parse_user_and_group, first_word, percent, count_links}
use capture.Process.Lines.{
  StatusLine, name_line, rss_line, uid_line, gid_line, other_line, status_text, IsStatusLine,
}
use capture.Process.IoLines.{IoLine, rchar_line, wchar_line, io_other, io_text}
use capture.Process.StatLine.{StatLine, stat_text, blank_name_text, stat_line_blank}
use capture.Process.Whole.{ProcDir, Shows, parse-told}
use capture.Examples.Hosts.{host}

abbrev status_lines : List StatusLine
status_lines =
    name_line (codes "cat") []
    ∷ other_line (codes "State") (codes "\tS (sleeping)")
    ∷ uid_line 5 (codes "5\t5\t5")
    ∷ gid_line 6 (codes "6\t6\t6")
    ∷ rss_line 4 1200
    ∷ []

abbrev io_lines : List IoLine
io_lines = rchar_line 700 ∷ wchar_line 20 ∷ io_other (codes "syscr") (codes " 9") ∷ []

-- "7 (cat) S 1 7 7 0 -1 0 0 0 0 0 30 10 0"
abbrev cat_line : StatLine
cat_line = record {
  pid = 7;
  name = codes "(cat)";
  status = codes "S";
  before =
      (false, 1)
      ∷ (false, 7)
      ∷ (false, 7)
      ∷ (false, 0)
      ∷ (true, 1)
      ∷ (false, 0)
      ∷ (false, 0)
      ∷ (false, 0)
      ∷ (false, 0)
      ∷ (false, 0)
      ∷ [];
  utime = 30;
  stime = 10;
  more = codes "0";
}

-- A host with these files.
abbrev filed : Os
filed = record host {
  file = λ path.
      if str_eq path (proc_path 7 (codes "status"))
      then some (unlines (map status_text status_lines))
      else if str_eq path (proc_path 7 (codes "io"))
      then some (unlines (map io_text io_lines))
      else if str_eq path (proc_path 7 (codes "cmdline"))
      then some (codes "cat")
      else if str_eq path (proc_path 7 (codes "stat"))
      then some (unlines (stat_text cat_line cat_line.more ∷ []))
      else none;
}

status_lines-All : All IsStatusLine status_lines
unfolding is_word is_space is_key str_eq
status_lines-All =
    ((refl, omega arith, omega arith, tt), (refl, (omega arith, (omega arith, (omega arith, tt)))))

status_lines-IsWhole : All (IsWhole 1023) (map status_text status_lines)
unfolding to_string one_line starts
status_lines-IsWhole = (
  record { one = refl; begun = refl; size = omega arith },
  (
    record { one = refl; begun = refl; size = omega arith },
    (
      record { one = refl; begun = refl; size = omega arith },
      (
        record { one = refl; begun = refl; size = omega arith },
        (record { one = refl; begun = refl; size = omega arith }, tt),
      ),
    ),
  ),
)

abbrev cat_dir : ProcDir
cat_dir = record {
  status = status_lines;
  cmdline = codes "cat";
  io = io_lines;
  fd = record { d_type = dt_lnk; d_name = codes "3" } ∷ [];
  stat = cat_line;
}

filed-Shows : Shows filed 7 cat_dir
unfolding proc_path print_int to_string str_eq is_key one_line starts is_word is_space
filed-Shows = record {
  status = refl;
  status_lines = status_lines-All;
  status_fits = status_lines-IsWhole;
  cmdline = refl;
  io = refl;
  io_lines = (omega arith, (omega arith, (refl, tt)));
  io_fits = (
    record { one = refl; begun = refl; size = omega arith },
    (
      record { one = refl; begun = refl; size = omega arith },
      (record { one = refl; begun = refl; size = omega arith }, tt),
    ),
  );
  fd = refl;
  stat = refl;
  stat_row = record {
    name = (refl, omega arith);
    status = (refl, omega arith);
    before = refl;
    utime = omega arith;
    stime = omega arith;
  };
  stat_fits = record { one = refl; begun = refl; size = omega arith };
}

-- The number of the group, which has no name, stands in the field of the user.
parse-told_example :
    parse filed 4000 100 (new_process 7)
    ≡ returns 0 (record (new_process 7) {
      name = codes "cat";
      cmdline = codes "cat";
      user = codes "6";
      uid = 5;
      gid = 6;
      fd_cnt = 1;
      memory = 1200;
      cpu_percent = quotient 4000 100;
      mem_percent = quotient 120000 4000;
      io_read = 700;
      io_write = 20;
      cpu = 40;
      delta_cpu = 40;
    })
unfolding parse_user_and_group to_string first_word percent count_links
parse-told_example = parse-told filed 4000 100 (new_process 7) cat_dir filed-Shows refl

-- "7 (my prog) S 1"
stat_line_blank_example :
    stat_line (new_process 7) (blank_name_text 7 (codes "(my") (codes "prog)") (codes "S 1"))
    ≡ new_process 7
unfolding is_word is_space
stat_line_blank_example =
    stat_line_blank (new_process 7) 7 (codes "(my") (codes "prog)") 83 (codes " 1") refl
      (omega arith) refl (omega arith) refl

-- "cpu  10 20 30 40 50 60 70 0 0 0"
abbrev cpu_times : CpuTimes
cpu_times = record {
  user = 10;
  nice = 20;
  system = 30;
  idle = 40;
  iowait = 50;
  irq = 60;
  softirq = 70;
}

abbrev totals_host : Os
totals_host = record host {
  file = λ path.
      if str_eq path (codes "/proc/stat")
      then some (unlines (cpu_text cpu_times (codes "0 0 0") ∷ codes "cpu0 1 2" ∷ []))
      else some (unlines (number_line (codes "MemTotal") 32 7 16000 (codes " kB") ∷ []));
}

get_cpu_total-total_example :
    get_cpu_total totals_host (record fresh { cpu = 100 })
    ≡ returns 0 (record fresh {
      delta_cpu = (total cpu_times % 2 ^ 64 + 2 ^ 64 - 100) % 2 ^ 64;
      cpu = total cpu_times % 2 ^ 64;
    })
unfolding str_eq one_line starts to_string
get_cpu_total-total_example =
    get_cpu_total-total totals_host (record fresh { cpu = 100 }) cpu_times (codes "0 0 0")
      (codes "cpu0 1 2" ∷ []) refl
      (record {
        user = omega arith;
        nice = omega arith;
        system = omega arith;
        idle = omega arith;
        iowait = omega arith;
        irq = omega arith;
        softirq = omega arith;
      })
      (
        record { one = refl; begun = refl; size = omega arith },
        (record { one = refl; begun = refl; size = omega arith }, tt),
      )

get_mem_total-total_example :
    get_mem_total totals_host fresh ≡ returns 0 (record fresh { memory = 16000 })
unfolding str_eq one_line starts to_string
get_mem_total-total_example =
    get_mem_total-total totals_host fresh 7 16000 [] refl (omega arith)
      (record { one = refl; begun = refl; size = omega arith }, tt)
