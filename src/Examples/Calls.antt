-- ===== src/Examples/Calls.antt =====
-- One update, and what the callbacks are told.
use capture.Prelude.{
  ◌≡◌, refl, [], ◌∷◌, some, none, str_eq, if◌then◌else◌, arith, true, false, find,
}
use capture.Text.{codes, c_str, print_int, to_string}
use capture.Inet.{ntop4}
use capture.Device.{get_local_addr}
use capture.Scan.{lits, nonzero}
use capture.Stream.{for_lines}
use capture.Protocol
use capture.Protocol.{handle_packets, handle_packet, word_at}
use capture.Handle.{dispatch, set_context4, ip4}
use capture.Inode.{refresh, get_pid_by_ip, refresh_to_inodes, refresh_to_pids}
use capture.Process.{parse}
use capture.Capture.Totals.{get_cpu_total, update_pids}
use capture.Capture.Account.{be16, process_tcp}
use capture.Capture.Sync.{sync, sync_processes}
use capture.Capture.Report.{report_processes}
use capture.Outcome.{Status, finished}
use capture.Os.{Os, dt_dir, proc_path}
use capture.ProcessFields.{new_process}
use capture.Capture.{Capture}
use capture.Capture.Sound.{IsSound}
use capture.Library.{fresh, update, poll, settle, refresh_inodes, report_packets}
use capture.Library.Polling.{last_result}
use capture.Capture.{p_tcp}
use capture.Library.{Polled}
use capture.Library.Stale.{update_reads_none}
use capture.Capture.Untouched.{SameReadings}
use capture.Library.Reports.{Tells}
use capture.Library.Told.{update_told}
use capture.Examples.Hosts.{dotted, eth0, bare, own_addr, peer_addr}
use capture.Examples.Sessions.{one_frame, outcome, ready_handle}

-- A host with the process 7.
abbrev host_of_seven : Os
host_of_seven = record bare {
  dir = λ path.
      if str_eq path (codes "/proc")
      then some (record { d_type = dt_dir; d_name = codes "7" } ∷ [])
      else none;
  file = λ path.
      if str_eq path (codes "/proc/stat") then some (codes "cpu  1 2 3 4 5 6 7\n") else none;
}

-- A table with the processes 5 and 7.
abbrev two_processes : Capture
two_processes = record fresh {
  devices = eth0 ∷ [];
  handles = ready_handle ∷ [];
  processes = (5, new_process 5) ∷ (7, new_process 7) ∷ [];
  process_callback = true;
}

-- With a packet callback and a packet that it has been told of.
abbrev listening : Capture
listening = record two_processes {
  packet_callback = true;
  packet_data = record { hash = codes "old"; family = p_tcp; packet = none; packet_size = 90 } ∷ [];
}

abbrev told : Status Capture
told = outcome (update dotted host_of_seven one_frame 10 false listening)

told_runs : update dotted host_of_seven one_frame 10 false listening ≡ finished told
unfolding update update_pids str_eq refresh_inodes refresh refresh_to_inodes refresh_to_pids poll
    handle_packets dispatch handle_packet Protocol.parse be16 word_at process_tcp set_context4
    get_pid_by_ip find settle get_cpu_total for_lines c_str lits nonzero sync_processes parse
    proc_path print_int to_string report_processes report_packets sync ntop4 get_local_addr
told_runs = refl

listening-IsSound : IsSound listening
listening-IsSound = record {
  pids = tt;
  sorted = (omega arith, tt);
  named = (refl, (refl, tt));
  within = omega arith;
  brief = ((refl, omega arith), tt);
  no_copies = refl;
}

update_told_example : Tells listening 1 told
unfolding last_result dispatch
update_told_example =
    update_told dotted host_of_seven one_frame 10 false listening told refl listening-IsSound
      told_runs

-- The process 7 is there before and after, and is not read.
abbrev stable : Capture
stable = record two_processes { processes = (7, new_process 7) ∷ [] }

abbrev listed : Status Capture
listed = record { ret = 0; state = record stable { pids = 7 ∷ [] } }

abbrev polled : Polled
polled = record {
  polled = record ready_handle { context = ip4 own_addr peer_addr } ∷ [];
  last = 1;
  state = listed.state;
}

stable_runs :
    update dotted host_of_seven one_frame 10 false stable
    ≡ finished (outcome (update dotted host_of_seven one_frame 10 false stable))
unfolding update update_pids str_eq refresh_inodes refresh refresh_to_inodes refresh_to_pids poll
    handle_packets dispatch handle_packet Protocol.parse be16 word_at process_tcp set_context4
    get_pid_by_ip find settle get_cpu_total for_lines c_str lits nonzero sync_processes parse
    proc_path print_int to_string report_processes report_packets sync ntop4 get_local_addr
stable_runs = refl

update_reads_none_example :
    SameReadings stable.processes
      (outcome (update dotted host_of_seven one_frame 10 false stable)).state.processes
unfolding update_pids str_eq refresh_inodes refresh refresh_to_inodes refresh_to_pids poll
    handle_packets dispatch handle_packet Protocol.parse be16 word_at process_tcp set_context4
    get_pid_by_ip find proc_path print_int to_string ntop4 get_local_addr
update_reads_none_example =
    update_reads_none dotted host_of_seven one_frame 10 false stable listed.state listed
      (outcome (update dotted host_of_seven one_frame 10 false stable)) polled refl refl refl refl
      stable_runs
