-- ===== src/ExaCapture.antt =====
-- examples/exa_capture.cpp: a program that prints what the library reports, and calls Update in a loop.
pub mod Rounds
pub mod Printing
use capture.Prelude.{ℕ, zero, suc, ◌++◌, List, [], ◌∷◌, Option, none, some, true, take, map}
use capture.Text.{Str, codes, to_string, print_int, labelled}
use capture.Errors.{minus_one}
use capture.Inet.{Inet}
use capture.Device.{IfAddrs}
use capture.Os.{Os}
use capture.Outcome.{Status, Run, finished, ◌>>=◌}
use capture.Handle.{Pcap}
use capture.ProcessFields.{Percent}
use capture.Capture.{Capture, ProcessInfo, Call, remove_called, update_called, packets_called}
use capture.Library.{CaptureInit, capture_init, capture_update, request, fresh}

-- The line for an entry of the array, where `show` is how std::cout prints a double.
unfoldable pub entry_line : (Percent → Str) → ProcessInfo → Str
entry_line show i = labelled (
    (codes "name:", i.name)
    ∷ (codes " cmdline:", i.cmdline)
    ∷ (codes " user:", i.user)
    ∷ (codes " group:", i.group)
    ∷ (codes " pid:", print_int i.pid)
    ∷ (codes " uid:", to_string i.uid)
    ∷ (codes " gid:", to_string i.gid)
    ∷ (codes " fdCnt:", to_string i.fd_cnt)
    ∷ (codes " memory:", to_string i.memory)
    ∷ (codes " cpuPercent:", show i.cpu_percent)
    ∷ (codes " memPercent:", show i.mem_percent)
    ∷ (codes " ioRead:", to_string i.io_read)
    ∷ (codes " ioWrite:", to_string i.io_write)
    ∷ (codes " recv:", to_string i.recv)
    ∷ (codes " send:", to_string i.send)
    ∷ [])

-- Process and Packet, the two callbacks: the lines that a call prints.
unfoldable pub printed : (Percent → Str) → Call → List Str
printed show (remove_called pid) = (codes "remove pid:" ++ print_int pid) ∷ []
printed show (update_called entries size) = map (entry_line show) (take size entries)
printed show (packets_called entries size) = []

abbrev pub main_config : CaptureInit
main_config = record {
  logfile = codes "./logs/exa_capture.log";
  ms = 100;
  snaplen = 100;
  promise = 0;
  fliter = none;
}

-- The host and its libpcap as they stand at a call, which is numbered.
pub record Host : Type 0 where
  pub os : ℕ → Os
  pub pcap : ℕ → Pcap
  pub interfaces : Option (List IfAddrs)

module _ (inet : Inet) (host : Host) where
  -- The state after `n` rounds of `while (true) { CaptureUpdate(-1); … }`.
  unfoldable pub rounds : ℕ → Capture → Run Capture
  rounds zero s = finished s
  rounds (suc n) s = do
    r ← rounds n s
    q ←
        request inet (host.os (suc n)) (host.pcap (suc n)) host.interfaces
          (capture_update minus_one) r
    finished q.state

  -- main, up to the end of `n` rounds; the result of CaptureInit is printed and not tested.
  unfoldable pub main : ℕ → Run Capture
  unfolding rounds
  main n = do
    r ←
        request inet (host.os 0) (host.pcap 0) host.interfaces (capture_init main_config true true)
          fresh
    rounds n r.state
