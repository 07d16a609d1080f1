-- ===== src/Library/Finishing.antt =====
-- Init and Update of src/capturecxx.cpp finish on a host whose files fit the buffers, and so does each round
-- of a program that calls them.
use capture.Prelude.{
  ℕ, ◌≤◌, ◌≡◌, refl, Bool, false, List, [], ◌∷◌, Option, some, none, length, All, ◌==◌,
  Option-cases, Bool-cases, inl, inr, ◌∙◌,
}
use capture.Text.{Str, codes}
use capture.Inet.{Inet}
use capture.Device.{IfAddrs}
use capture.Os.{Os, DirEntry}
use capture.Outcome.{Status, finished}
use capture.Outcome.Rules.{Ends}
use capture.Outcome.Finishes.{
  Any-Finishes, Any, Finishes, bind-Finishes, if-Finishes, ended-Finishes,
}
use capture.Stream.Lines.{for_lines-run}
use capture.Logger.Starting.{CanLog, start_log-CanLog}
use capture.Handle.{Pcap, CapHandle, dispatch}
use capture.ProcessFields.{CapProcess, new_process}
use capture.Process.Parsing.{FileFits}
use capture.Process.Ending.{HostFits, HostFits-ProcFits, parse_ends}
use capture.Protocol.InBounds.{handle_packets-Finishes}
use capture.Inode.Finishing.{refresh-Ends}
use capture.Capture.{Capture, p_tcp, p_udp}
use capture.Capture.Account.{process_tcp, process_udp}
use capture.Stream.{Next}
use capture.Capture.Totals.{get_cpu_total, get_mem_total, read_total, cpu_line, mem_line}
use capture.Capture.Totals.Small.{IsShort, update_pids-Finishes}
use capture.Capture.Sync.{sync, sync_processes}
use capture.Capture.Finishing.{CopiesNone, process_packet-Goes}
use capture.Library.{
  poll, settle, update, refresh_inodes, add_processes, sink, init, CaptureInit, Request, request,
  capture_init, capture_update, capture_exit,
}

-- What a host promises so that no call waits for ever or throws: short lines in its files, short names in
-- /proc, and from libpcap frames of which at least 58 bytes are captured.
pub record IsPlain (os : Os) (pcap : Pcap) : Type 0 where
  pub files : HostFits os
  pub names : (es : List DirEntry) → os.dir (codes "/proc") ≡ some es → All IsShort es
  pub frames : (p cnt : ℕ) → All (λ f. 58 ≤ length f.bytes) (pcap.pcap_dispatch p cnt).frames

dispatch-All :
    (os : Os) (pcap : Pcap) (h : CapHandle) (cnt : ℕ)
    → IsPlain os pcap
    → All (λ f. 58 ≤ length f.bytes) (dispatch pcap h cnt).frames
unfolding dispatch
dispatch-All os pcap h cnt plain = elim (Option-cases h.handle) [
  | inl e ↦ rw (e, dispatch) tt
  | inr (p, e) ↦ rw (e, dispatch) (plain.frames p cnt)
]

read_total-Ends :
    (f : Option Str) (line : Capture → Str → Next Capture) (s : Capture)
    → FileFits f
    → Ends (read_total f line s)
unfolding read_total
read_total-Ends none line s h = (_, refl)
read_total-Ends (some contents) line s h =
    rw (for_lines-run 1024 line contents s h, read_total) (_, refl)

module _ (inet : Inet) (os : Os) (pcap : Pcap) (plain : IsPlain os pcap) where
  refresh_inodes-Finishes :
      (s : Capture) → Finishes (λ t. t.capture_all ≡ s.capture_all) (refresh_inodes inet os s)
  unfolding refresh_inodes
  refresh_inodes-Finishes s =
      bind-Finishes Any (λ t. t.capture_all ≡ s.capture_all) _ _
        (ended-Finishes _ _ (refresh-Ends inet os s.devices s.pids plain.files) λ r e. tt)
        λ r u. (_, refl, refl)

  poll-Finishes :
      (cnt : ℕ) (hs : List CapHandle) (ret : ℕ) (s : Capture)
      → CopiesNone s
      → Finishes Any (poll inet os pcap cnt hs ret s)
  unfolding poll process_tcp process_udp
  poll-Finishes cnt [] ret s h = (_, refl, tt)
  poll-Finishes cnt (c ∷ hs) ret s h =
      bind-Finishes (λ q. CopiesNone q.state) Any _ _
        (handle_packets-Finishes (sink inet os pcap) CopiesNone
          (process_packet-Goes inet os plain.files p_tcp p_tcp)
          (process_packet-Goes inet os plain.files p_tcp p_udp) c _ s
          (dispatch-All os pcap c cnt plain) h)
        λ q k. bind-Finishes Any Any _ _ (poll-Finishes cnt hs _ q.state k) λ r u. (_, refl, tt)

  sync-Finishes :
      (memory delta : ℕ) (ps : List ℕ) (m : List (ℕ × CapProcess))
      → Finishes Any (sync os memory delta ps m)
  unfolding sync
  sync-Finishes memory delta [] m = (_, refl, tt)
  sync-Finishes memory delta (p ∷ ps) [] = (_, refl, tt)
  sync-Finishes memory delta (p ∷ ps) ((k, q) ∷ m) = elim (Bool-cases (p == k)) [
    | inl e ↦
        rw (e, sync)
          (bind-Finishes Any Any _ _
            (ended-Finishes _ _
              (parse_ends os memory delta q (HostFits-ProcFits os q.pid plain.files)) λ r x. tt)
            λ r u. bind-Finishes Any Any _ _ (sync-Finishes memory delta ps m) λ t v. (_, refl, tt))
    | inr e ↦
        rw (e, sync)
          (bind-Finishes Any Any _ _ (sync-Finishes memory delta (p ∷ ps) m) λ t v. (_, refl, tt))
  ]

  sync_processes-Finishes : (s : Capture) → Finishes Any (sync_processes os s)
  unfolding sync_processes
  sync_processes-Finishes s =
      if-Finishes Any (length s.pids == length s.processes) (_, refl, tt)
        (bind-Finishes Any Any _ _ (sync-Finishes s.memory s.delta_cpu s.pids s.processes)
          λ r v. (_, refl, tt))

  settle-Finishes : (ret : ℕ) (s : Capture) → Finishes Any (settle inet os pcap ret s)
  unfolding settle get_cpu_total
  settle-Finishes ret s =
      bind-Finishes Any Any _ _
        (ended-Finishes _ _
          (read_total-Ends (os.file (codes "/proc/stat")) cpu_line s
            (plain.files (codes "/proc/stat")))
          λ r e. tt)
        λ c u.
          if-Finishes Any (c.ret == 0)
            (bind-Finishes Any Any _ _ (sync_processes-Finishes c.state) λ q v. (_, refl, tt))
            (_, refl, tt)

  update-Finishes :
      (cnt : ℕ) (all : Bool) (s : Capture)
      → CopiesNone s
      → Finishes Any (update inet os pcap cnt all s)
  unfolding update
  update-Finishes cnt all s h =
      bind-Finishes (λ r. r.state.capture_all ≡ s.capture_all) Any _ _
        (update_pids-Finishes os (record s { packet_idx = 0 }) plain.names)
        λ p e.
          bind-Finishes (λ t. t.capture_all ≡ p.state.capture_all) Any _ _
            (refresh_inodes-Finishes p.state)
            λ r x.
              bind-Finishes Any Any _ _ (poll-Finishes cnt r.handles 0 r (x ∙ (e ∙ h)))
                λ d u. settle-Finishes d.last (record d.state { handles = d.polled })

  add_processes-Finishes :
      (pids : List ℕ) (s : Capture) → Finishes Any (add_processes inet os pids s)
  unfolding add_processes
  add_processes-Finishes [] s = (_, refl, tt)
  add_processes-Finishes (pid ∷ pids) s =
      bind-Finishes Any Any _ _
        (ended-Finishes _ _
          (parse_ends os s.memory s.delta_cpu (new_process pid)
            (HostFits-ProcFits os pid plain.files))
          λ r e. tt)
        λ r u. add_processes-Finishes pids _

  init-Finishes :
      (its : Option (List IfAddrs)) (config : CaptureInit) (processes packets : Bool) (s : Capture)
      → CanLog os.spdlog config.logfile s.logger
      → Finishes Any (init inet os pcap its config processes packets s)
  unfolding init get_mem_total
  init-Finishes its config processes packets s log =
      bind-Finishes Any Any _ _
        (let (l, e, k) = start_log-CanLog os.spdlog config.logfile s.logger log in (l, e, tt))
        λ l k.
          bind-Finishes Any Any _ _
            (ended-Finishes _ _
              (read_total-Ends (os.file (codes "/proc/meminfo")) mem_line _
                (plain.files (codes "/proc/meminfo")))
              λ r e. tt)
            λ m u.
              if-Finishes Any (length m.state.devices == 0) (_, refl, tt)
                (bind-Finishes Any Any _ _ (Any-Finishes _ (update_pids-Finishes os _ plain.names))
                  λ p v.
                    bind-Finishes Any Any _ _ (Any-Finishes _ (refresh_inodes-Finishes p.state))
                      λ r w.
                        bind-Finishes Any Any _ _ (add_processes-Finishes r.pids r)
                          λ q x. (_, refl, tt))

  -- What CaptureInit needs besides: a logger, or a log file that can be opened.
  abbrev pub IsLogged : Request → Capture → Type 0
  IsLogged (capture_init config processes packets) s = CanLog os.spdlog config.logfile s.logger
  IsLogged (capture_update cnt) s = Unit
  IsLogged capture_exit s = Unit

  -- On a host whose files have lines of at most 1023 bytes and whose directory /proc has names of one to eighteen
  -- bytes, with frames of which at least 58 bytes are captured, each call of the C interface finishes, from every
  -- state in which no packet is copied, CaptureInit if the logger is initialised or its log file can be opened: it
  -- neither waits for ever, nor reads behind the captured bytes, nor throws.
  pub request_finishes :
      (its : Option (List IfAddrs)) (req : Request) (s : Capture)
      → s.capture_all ≡ false
      → IsLogged req s
      → (r : Status Capture) × (request inet os pcap its req s ≡ finished r)
  unfolding request
  request_finishes its (capture_init config processes packets) s h g =
      let f = init-Finishes its config processes packets s g in (f.0, f.1)
  request_finishes its (capture_update cnt) s h g =
      let f = update-Finishes cnt false s h in (f.0, f.1)
  request_finishes its capture_exit s h g = (_, refl)
