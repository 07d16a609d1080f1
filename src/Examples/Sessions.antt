-- ===== src/Examples/Sessions.antt =====
-- A session: the library is initialised and updated once, while a frame arrives.
use capture.Prelude.{
  ◌≡◌, refl, true, [], ◌∷◌, none, some, str_eq, if◌then◌else◌, find, put, All, mem_nat,
}
use capture.Text.{codes, c_str, print_int, to_string}
use capture.Device.{init_device, get_local_addr}
use capture.Stream.{for_lines}
use capture.Inode.{refresh, get_pid_by_ip, refresh_to_inodes, refresh_to_pids}
use capture.NetRow.{words_of, row_ends, row_key, device_key, scan_in4}
use capture.Process.{parse, percent, first_word}
use capture.ProcessFields.{new_process, add_times, stat_line, status_line}
use capture.Capture.Totals.{get_mem_total, get_cpu_total, update_pids}
use capture.Capture.Account.{be16, process_tcp, put_process}
use capture.Protocol
use capture.Protocol.{handle_packets, handle_packet, word_at}
use capture.Inet.{ntop4}
use capture.Scan.{clamp, lits, nonzero}
use capture.Outcome.{Status, Run, finished}
use capture.Os.{proc_path, Os, dt_dir}
use capture.Handle.{
  Frame, Pcap, CapHandle, new_handle, dispatch, set_context4, open_live, set_non_block,
  set_callback,
}
use capture.Logger.{Logger, err, warn, daily_file, console_sink, start_log, set_level}
use capture.Logger
use capture.Capture.{Capture}
use capture.Capture.Sound.{IsSound}
use capture.Library.{
  CaptureInit, poll, settle, open_handles, open_handle, init, update, refresh_inodes, add_processes,
  Request, capture_init, capture_update, fresh, request,
}
use capture.Library.Handles.{IsReady, open_handles-IsReady}
use capture.Capture.Totals.Pids.{any_names, mem-update_pids}
use capture.Library.Reachable.{untouched, served, Reaches-IsSound}
use capture.Protocol.Headers.{link_bytes, header_bytes}
use capture.Examples.Hosts.{dotted, interface, noon, eth0, bare}
use capture.Examples.Packets.{link_header, ip_header}
use capture.Examples.Sockets.{net_host, net_inodes}

-- The host with the process 7, whose number stands in /proc.
abbrev live_host : Os
live_host = record net_host {
  dir = λ path.
      if str_eq path (codes "/proc")
      then some (record { d_type = dt_dir; d_name = codes "7" } ∷ [])
      else net_host.dir path;
}

abbrev frame : Frame
frame = record {
  len = 60;
  ts = noon;
  bytes = link_bytes link_header 8 0 (header_bytes ip_header (156 ∷ 64 ∷ 0 ∷ 80 ∷ []));
}

-- A libpcap with one frame on each device.
abbrev pub one_frame : Pcap
one_frame = record {
  pcap_open_live = λ device snaplen promise ms. some 1;
  pcap_lookupnet = λ device. none;
  pcap_compile = λ p text net. 0;
  pcap_setfilter = λ p text. 0;
  pcap_datalink = λ p. 1;
  pcap_get_selectable_fd = λ p. 3;
  pcap_setnonblock = λ p n. 0;
  pcap_dispatch = λ p cnt. record { frames = frame ∷ []; ret = 1 };
  pcap_geterr = λ p. [];
}

abbrev pub start_request : Request
start_request =
    capture_init
      (record { logfile = codes "/a.log"; ms = 100; snaplen = 512; promise = 0; fliter = none })
      true true

-- The result of a run that finishes.
abbrev pub outcome : Run (Status Capture) → Status Capture
outcome (finished r) = r
outcome _ = record { ret = 0; state = fresh }

-- The logger that Init starts.
abbrev started_logger : Logger
started_logger = record {
  is_inited = true;
  log_level = err;
  sinks = daily_file (codes "/a.log") ∷ console_sink ∷ [];
  spdlog_level = err;
  flush_level = warn;
  written = [];
}

abbrev started : Status Capture
started = record {
  ret = 0;
  state = record fresh {
    devices = eth0 ∷ [];
    handles = record new_handle { handle = some 1; linktype = 1; fd = 3; callback = true } ∷ [];
    pids = 7 ∷ [];
    processes = (7, record (new_process 7) { user = codes "0"; fd_cnt = 1 }) ∷ [];
    process_callback = true;
    packet_callback = true;
    inodes = net_inodes;
    logger = started_logger;
  };
}

start_runs :
    request dotted live_host one_frame (some (interface ∷ [])) start_request fresh
    ≡ finished started
unfolding request init get_mem_total str_eq for_lines c_str init_device update_pids refresh_inodes
    refresh add_processes parse open_handles put_process open_handle open_live set_non_block
    set_callback refresh_to_inodes refresh_to_pids proc_path print_int to_string lits words_of
    nonzero ntop4 get_local_addr row_ends row_key device_key scan_in4 find put percent first_word
    add_times stat_line status_line clamp start_log Logger.init set_level
start_runs = refl

-- The next update finds no /proc: the frame belongs to no process, and GetCpuTotal fails.
abbrev updated : Status Capture
updated = outcome (request dotted bare one_frame none (capture_update 10) started.state)

update_runs :
    request dotted bare one_frame none (capture_update 10) started.state ≡ finished updated
unfolding request update update_pids refresh_inodes refresh poll handle_packets dispatch
    handle_packet Protocol.parse be16 word_at process_tcp set_context4 get_pid_by_ip find settle
    get_cpu_total
update_runs = refl

Reaches-IsSound_example : IsSound updated.state
Reaches-IsSound_example = Reaches-IsSound dotted updated.state (
    served bare one_frame none (capture_update 10) started.state updated
      (served live_host one_frame (some (interface ∷ [])) start_request fresh started untouched
        start_runs)
      update_runs)

mem-update_pids_example :
    mem_nat 7 (7 ∷ []) ≡ any_names 7 (record { d_type = dt_dir; d_name = codes "7" } ∷ [])
unfolding update_pids str_eq
mem-update_pids_example =
    mem-update_pids live_host fresh (record { d_type = dt_dir; d_name = codes "7" } ∷ [])
      (record { ret = 0; state = record fresh { pids = 7 ∷ [] } }) 7 refl refl

-- The two devices of the host, one of which is open already.
abbrev settings : CaptureInit
settings = record {
  logfile = codes "/a.log";
  ms = 100;
  snaplen = 512;
  promise = 0;
  fliter = some (codes "tcp");
}

abbrev pub ready_handle : CapHandle
ready_handle = record new_handle { handle = some 1; linktype = 1; fd = 3; callback = true }

open_handles-IsReady_example :
    All (IsReady one_frame) (open_handles one_frame settings (eth0 ∷ []) (ready_handle ∷ []))
open_handles-IsReady_example =
    open_handles-IsReady one_frame settings (eth0 ∷ []) (ready_handle ∷ [])
      (record { p = 1; is_open = refl; callback = refl; linktype = refl }, tt)
