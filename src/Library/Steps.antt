-- ===== src/Library/Steps.antt =====
-- The invariant of the state, and the calls of the C interface.
use capture.Prelude.{
  ℕ, Bool, true, false, ◌&&◌, List, [], ◌∷◌, Option, arith, ◌==◌, ltb, if◌then◌else◌, length,
}
use capture.Inet.{Inet}
use capture.Device.{IfAddrs}
use capture.Outcome.{ended}
use capture.Outcome.Yields.{
  Yields, finished-Yields, bind-Yields, ended-Yields, if-Yields, result-Yields,
}
use capture.Os.{Os}
use capture.ProcessFields.{new_process}
use capture.Process
use capture.Process.Parsing.{parse_keeps_traffic}
use capture.Inode.{refresh}
use capture.Handle.{Pcap, CapHandle}
use capture.Capture.{Capture}
use capture.Capture.Account.{put_process}
use capture.Capture.Table.{IsSorted-put}
use capture.Capture.Report.{report_processes}
use capture.Capture.Sound.{IsSound, process_packet-IsSound}
use capture.Capture.Sound.Parts.{put-IsNamed}
use capture.Capture.Sound.Syncing.{sync_processes-IsSound}
use capture.Capture.Sound.Readings.{
  update_pids-IsSound, get_cpu_total-IsSound, get_mem_total-IsSound,
}
use capture.Library.Polling.{poll-Kept}
use capture.Library.{
  CaptureInit, open_handles, refresh_inodes, add_processes, init, report_packets, poll, settle,
  update, shutdown, Request, capture_init, capture_update, capture_exit, request, positive,
  start_log,
}

if-IsSound : (b : Bool) {x y : Capture} → IsSound x → IsSound y → IsSound (if b then x else y)
if-IsSound true h k = h
if-IsSound false h k = k

pub rewound-IsSound : (s : Capture) → IsSound s → IsSound (record s { packet_idx = 0 })
rewound-IsSound s h = record {
  pids = h.pids;
  sorted = h.sorted;
  named = h.named;
  within = omega arith;
  brief = h.brief;
  no_copies = h.no_copies;
}

pub polled-IsSound :
    (s : Capture) (hs : List CapHandle) → IsSound s → IsSound (record s { handles = hs })
polled-IsSound s hs h = record {
  pids = h.pids;
  sorted = h.sorted;
  named = h.named;
  within = h.within;
  brief = h.brief;
  no_copies = h.no_copies;
}

report_processes-IsSound : (s : Capture) → IsSound s → IsSound (report_processes s)
unfolding report_processes
report_processes-IsSound s h =
    if-IsSound s.process_callback
      (record {
        pids = h.pids;
        sorted = h.sorted;
        named = h.named;
        within = h.within;
        brief = h.brief;
        no_copies = h.no_copies;
      })
      h

report_packets-IsSound : (ret : ℕ) (s : Capture) → IsSound s → IsSound (report_packets ret s)
unfolding report_packets
report_packets-IsSound ret s h =
    if-IsSound (s.packet_callback && (positive ret && ltb 0 (length s.packet_data)))
      (record {
        pids = h.pids;
        sorted = h.sorted;
        named = h.named;
        within = h.within;
        brief = h.brief;
        no_copies = h.no_copies;
      })
      h

module _ (inet : Inet) (os : Os) where
  pub refresh_inodes-IsSound : (s : Capture) → IsSound s → Yields IsSound (refresh_inodes inet os s)
  unfolding refresh_inodes
  refresh_inodes-IsSound s h =
      bind-Yields {P = λ _. Unit {0}} (ended (refresh inet os s.devices s.pids))
        (record { result = λ _ _. tt })
        λ r _. finished-Yields _ (record {
          pids = h.pids;
          sorted = h.sorted;
          named = h.named;
          within = h.within;
          brief = h.brief;
          no_copies = h.no_copies;
        })

  add_processes-IsSound :
      (pids : List ℕ) (s : Capture) → IsSound s → Yields IsSound (add_processes inet os pids s)
  unfolding add_processes
  add_processes-IsSound [] s h = finished-Yields s h
  add_processes-IsSound (pid ∷ pids) s h =
      bind-Yields _
        (ended-Yields (Process.parse os s.memory s.delta_cpu (new_process pid))
          (parse_keeps_traffic os s.memory s.delta_cpu (new_process pid)))
        λ r e.
          add_processes-IsSound pids (record s { processes = put_process pid r.state s.processes })
            (record {
              pids = h.pids;
              sorted = IsSorted-put pid r.state s.processes h.sorted;
              named = put-IsNamed pid r.state s.processes e.0 h.named;
              within = h.within;
              brief = h.brief;
              no_copies = h.no_copies;
            })

  module _ (pcap : Pcap) where
    pub poll-IsSound :
        (cnt : ℕ) (hs : List CapHandle) (ret : ℕ) (s : Capture)
        → IsSound s
        → Yields (λ d. IsSound d.state) (poll inet os pcap cnt hs ret s)
    poll-IsSound = poll-Kept inet os pcap IsSound (process_packet-IsSound inet os)

    settle-IsSound :
        (ret : ℕ) (s : Capture)
        → IsSound s
        → Yields (λ q. IsSound q.state) (settle inet os pcap ret s)
    unfolding settle
    settle-IsSound ret s h = bind-Yields _ (get_cpu_total-IsSound os s h) λ c e.
        if-Yields (c.ret == 0)
          (bind-Yields _ (sync_processes-IsSound os c.state e)
            λ q g. finished-Yields _ (report_packets-IsSound ret _ (report_processes-IsSound q g)))
          (finished-Yields c e)

    update-IsSound :
        (cnt : ℕ) (all : Bool) (s : Capture)
        → IsSound s
        → Yields (λ q. IsSound q.state) (update inet os pcap cnt all s)
    unfolding update
    update-IsSound cnt all s h =
        bind-Yields _ (update_pids-IsSound os (record s { packet_idx = 0 }) (rewound-IsSound s h))
          λ p e. bind-Yields _ (refresh_inodes-IsSound p.state e) λ r g.
            bind-Yields _ (poll-IsSound cnt r.handles 0 r g) λ d k.
              settle-IsSound d.last (record d.state { handles = d.polled })
                (polled-IsSound d.state d.polled k)

    init-IsSound :
        (its : Option (List IfAddrs)) (config : CaptureInit) (processes packets : Bool)
        (s : Capture)
        → IsSound s
        → Yields (λ q. IsSound q.state) (init inet os pcap its config processes packets s)
    unfolding init
    init-IsSound its config processes packets s h =
        bind-Yields _ (result-Yields (start_log os.spdlog config.logfile s.logger)) λ l _.
          bind-Yields _
            (get_mem_total-IsSound os _ (record {
              pids = h.pids;
              sorted = h.sorted;
              named = h.named;
              within = h.within;
              brief = h.brief;
              no_copies = h.no_copies;
            }))
            λ m e. if-Yields (length m.state.devices == 0) (finished-Yields _ e) (
              bind-Yields _
                (update_pids-IsSound os
                  (record m.state {
                    handles = open_handles pcap config m.state.devices m.state.handles;
                  })
                  (record {
                    pids = e.pids;
                    sorted = e.sorted;
                    named = e.named;
                    within = e.within;
                    brief = e.brief;
                    no_copies = e.no_copies;
                  }))
                λ p g. bind-Yields _ (refresh_inodes-IsSound p.state g) λ r k.
                  bind-Yields _ (add_processes-IsSound r.pids r k) λ q l. finished-Yields _ l)

    pub request-IsSound :
        (its : Option (List IfAddrs)) (req : Request) (s : Capture)
        → IsSound s
        → Yields (λ q. IsSound q.state) (request inet os pcap its req s)
    unfolding request shutdown
    request-IsSound its (capture_init config processes packets) s h =
        init-IsSound its config processes packets s h
    request-IsSound its (capture_update cnt) s h = update-IsSound cnt false s h
    request-IsSound its capture_exit s h = finished-Yields _ h
