-- ===== src/Library.antt =====
-- CaptureCxx::Init, Update and Shutdown, and the C interface of src/libcapture.cpp over the one
-- instance that the singleton keeps.
pub mod Steps
pub mod Reachable
pub mod Handles
pub mod Finishing
pub mod Reports
pub mod Told
pub mod Polling
pub mod Touching
pub mod Stale
pub mod LogFile
pub mod Delivery
pub mod Shares
use capture.Prelude.{
  ℕ, ◌^◌, Bool, false, ◌&&◌, List, [], ◌∷◌, ◌++◌, Option, none, some, ltb, ◌==◌, if◌then◌else◌,
  length,
}
use capture.Text.{Str}
use capture.Errors.{cap_device_init}
use capture.Inet.{Inet}
use capture.Device.{IfAddrs, CapDevice, init_device}
use capture.Outcome.{Status, Run, finished, ◌>>=◌, ended}
use capture.Os.{Os}
use capture.ProcessFields.{CapProcess, new_process}
use capture.Process
use capture.Inode.{refresh}
use capture.Logger.{fresh_logger, start_log}
use capture.Handle.{Pcap, CapHandle, new_handle, open_live, set_callback, set_non_block, dispatch}
use capture.Protocol.{Sink, handle_packets}
use capture.Capture.{Capture, packets_called}
use capture.Capture.Account.{process_tcp, process_udp, put_process}
use capture.Capture.Totals.{update_pids, get_cpu_total, get_mem_total}
use capture.Capture.Sync.{sync_processes}
use capture.Capture.Report.{report_processes}

-- The fields of CaptureInitt that are read.
pub record CaptureInit : Type 0 where
  pub logfile : Str
  pub ms : ℕ
  pub snaplen : ℕ
  pub promise : ℕ
  pub fliter : Option Str

-- The singleton before Init.
abbrev pub fresh : Capture
fresh = record {
  devices = [];
  handles = [];
  pids = [];
  processes = [];
  process_callback = false;
  packet_callback = false;
  process_data = [];
  packet_data = [];
  packet_idx = 0;
  capture_all = false;
  memory = 0;
  cpu = 0;
  delta_cpu = 0;
  inodes = record { net_to_inodes = []; inode_to_pids = [] };
  logger = fresh_logger;
  calls = [];
}

-- The handle of one device: opened, given its callback and made non-blocking, or left out.
unfoldable pub open_handle : Pcap → CaptureInit → CapDevice → Option CapHandle
open_handle pcap config d =
    let opened =
      open_live pcap
        (record {
          device = d.name;
          snaplen = config.snaplen;
          promise = config.promise;
          ms = config.ms;
          fliter = config.fliter;
        })
        new_handle in
    let h = set_callback opened.1 in
    if opened.0 == 0 then (if set_non_block pcap h 1 == 0 then some h else none) else none

unfoldable pub open_handles : Pcap → CaptureInit → List CapDevice → List CapHandle → List CapHandle
open_handles pcap config [] hs = hs
open_handles pcap config (d ∷ ds) hs =
    open_handles pcap config ds
      (elim (open_handle pcap config d) [ none ↦ hs | some h ↦ hs ++ h ∷ [] ])

module _ (inet : Inet) (os : Os) where
  -- Singleton<CapInodeHelper>::Get().Refresh(pids); its code is dropped.
  unfoldable pub refresh_inodes : Capture → Run Capture
  refresh_inodes s = do
    r ← ended (refresh inet os s.devices s.pids)
    finished (record s { inodes = r.state })

  -- The last loop of Init: every process is read, and added whatever the reading returns.
  unfoldable pub add_processes : List ℕ → Capture → Run Capture
  add_processes [] s = finished s
  add_processes (pid ∷ pids) s = do
    r ← ended (Process.parse os s.memory s.delta_cpu (new_process pid))
    add_processes pids (record s { processes = put_process pid r.state s.processes })

-- CaptureCxx::Init
unfoldable pub init :
    Inet
    → Os
    → Pcap
    → Option (List IfAddrs)
    → CaptureInit
    → Bool
    → Bool
    → Capture
    → Run (Status Capture)
init inet os pcap its config processes packets s0 = do
  l ← start_log os.spdlog config.logfile s0.logger
  m ← ended (
      get_mem_total os (record s0 {
        process_callback = processes;
        packet_callback = packets;
        logger = l;
        devices = init_device inet its s0.devices;
      }))
  let s = m.state
  if length s.devices == 0 then finished (record { ret = cap_device_init; state = s }) else (do
    p ← update_pids os (record s { handles = open_handles pcap config s.devices s.handles })
    r ← refresh_inodes inet os p.state
    q ← add_processes inet os r.pids r
    finished (record { ret = 0; state = q }))

-- The handles with their contexts, the last result of Dispatch, and the state.
pub record Polled : Type 0 where
  pub polled : List CapHandle
  pub last : ℕ
  pub state : Capture

-- 0 < ret, as an `int32_t`
abbrev pub positive : ℕ → Bool
positive ret = ltb 0 ret && ltb ret (2 ^ 31)

-- `if (packetCallback != nullptr && ret > 0 && !packetData.empty()) { … }`: the size is what the last
-- handle returned.
unfoldable pub report_packets : ℕ → Capture → Capture
report_packets ret s =
    if s.packet_callback && (positive ret && ltb 0 (length s.packet_data))
    then record s { calls = s.calls ++ packets_called s.packet_data ret ∷ [] }
    else s

module _ (inet : Inet) (os : Os) (pcap : Pcap) where
  abbrev pub sink : Sink Capture
  sink = record { tcp = process_tcp inet os; udp = process_udp inet os }

  -- The loop over the handles.
  unfoldable pub poll : ℕ → List CapHandle → ℕ → Capture → Run Polled
  poll cnt [] ret s = finished (record { polled = []; last = ret; state = s })
  poll cnt (h ∷ hs) ret s = do
    let d = dispatch pcap h cnt
    seen ← handle_packets sink h d.frames s
    rest ← poll cnt hs d.ret seen.state
    finished (record rest { polled = seen.ctx ∷ rest.polled })

  -- From GetCpuTotal on.
  unfoldable pub settle : ℕ → Capture → Run (Status Capture)
  settle ret s = do
    c ← ended (get_cpu_total os s)
    if c.ret == 0
        then (do
          q ← sync_processes os c.state
          finished (record { ret = 0; state = report_packets ret (report_processes q) }))
        else finished c

  -- CaptureCxx::Update. The parameter `icaptureAll` is not read.
  unfoldable pub update : ℕ → Bool → Capture → Run (Status Capture)
  update cnt icapture_all s = do
    p ← update_pids os (record s { packet_idx = 0 })
    r ← refresh_inodes inet os p.state
    d ← poll cnt r.handles 0 r
    settle d.last (record d.state { handles = d.polled })

-- CaptureCxx::Shutdown
unfoldable pub shutdown : Capture → Status Capture
shutdown s = record { ret = 0; state = s }

-- CaptureInit, CaptureUpdate and CaptureExit of src/libcapture.cpp, as calls on the instance.
pub data Request : Type 0 where
  capture_init : CaptureInit → Bool → Bool → Request
  capture_update : ℕ → Request
  capture_exit : Request

unfoldable pub request :
    Inet → Os → Pcap → Option (List IfAddrs) → Request → Capture → Run (Status Capture)
request inet os pcap its (capture_init config processes packets) s =
    init inet os pcap its config processes packets s
request inet os pcap its (capture_update cnt) s = update inet os pcap cnt false s
request inet os pcap its capture_exit s = finished (shutdown s)
