-- ===== src/Library/Told.antt =====
-- What one call of CaptureCxx::Update tells the callbacks.
use mathlib.Core.List.{append-nil}
use capture.Prelude.{
  subst, ℕ, ◌≡◌, inl, inr, refl, sym, ◌∙◌, Bool, true, List, [], ◌++◌, arith, ◌==◌, if◌then◌else◌,
  length, map, Bool-cases, Option-cases, ap,
}
use capture.Text.{Str, codes}
use capture.Scan.{nonzero, sscanf}
use capture.Inet.{Inet}
use capture.Outcome.{Status, finished, ended, ◌>>=◌}
use capture.Outcome.Yields.{
  Yields, finished-Yields, bind-Yields, ended-Yields, both-Yields, thrown-Yields,
}
use capture.Os.{Os}
use capture.Inode.{refresh}
use capture.Handle.{Pcap}
use capture.Stream.Invariant.{Leaves}
use capture.Capture.{Capture, remove_called}
use capture.Capture.Growth.{Grows, process_packet-Grows}
use capture.Capture.Totals.{update_pids, add_pids, cpu_line, cpu_format, get_cpu_total}
use capture.Capture.Sync.{sync_processes}
use capture.Capture.Sync.Order.{keys}
use capture.Capture.Sync.Split.{Apart, Covers, Covers-intro, sync-Splits}
use capture.Capture.Report.{report_processes}
use capture.Capture.Sound.{IsSound}
use capture.Capture.Sound.Readings.{update_pids-IsSound, read_total-Keeps, get_cpu_total-IsSound}
use capture.Library.{refresh_inodes, report_packets, poll, settle, update}
use capture.Library.Touching.{update_pids-only, refresh_inodes-only}
use capture.Library.Polling.{last_result, poll-last, poll-Kept}
use capture.Library.Steps.{refresh_inodes-IsSound, poll-IsSound, rewound-IsSound, polled-IsSound}
use capture.Library.Reports.{Tells, reports-IsTold}

module _ (s0 : Capture) where
  -- What the synchronisation leaves for the report.
  abbrev Synchronised : Capture → Type 0
  Synchronised q =
      (gone : List ℕ) × (q.process_callback ≡ true)
      × (q.calls ≡ s0.calls ++ map remove_called gone)
      × Covers (keys s0.processes) gone (keys q.processes)
      × Apart gone (keys q.processes)
      × (q.packet_callback ≡ s0.packet_callback)

  sync_processes-Synchronised :
      (os : Os) (s : Capture)
      → s0.process_callback ≡ true
      → Grows s0 s
      → IsSound s
      → Yields Synchronised (sync_processes os s)
  unfolding sync_processes
  sync_processes-Synchronised os s on g h =
      elim (Bool-cases (length s.pids == length s.processes)) [
        | inl e ↦
            rw (e, sync_processes)
              (finished-Yields s (
                [],
                g.callback ∙ on,
                g.calls ∙ sym (append-nil s0.calls),
                Covers-intro (keys s0.processes) [] (keys s.processes) g.kept,
                tt,
                g.listens,
              ))
        | inr e ↦
            let reports : s.process_callback ≡ true = g.callback ∙ on in
            rw (e, sync_processes)
              (bind-Yields _ (sync-Splits os s.memory s.delta_cpu s.pids s.processes h.sorted)
                λ r t. finished-Yields _ (
                  r.erased,
                  reports,
                  rw (reports, g.calls) refl,
                  Covers-intro (keys s0.processes) r.erased (keys r.left)
                      (λ k m. t.covered k (g.kept k m)),
                  t.apart,
                  g.listens,
                ))
      ]

  cpu_line-Grows : (t : Capture) (b : Str) → Grows s0 t → Leaves (Grows s0) (cpu_line t b)
  unfolding cpu_line
  cpu_line-Grows t b k = elim (Bool-cases (nonzero (sscanf b cpu_format))) [
    | inl e ↦
        rw (e, cpu_line)
          (record { calls = k.calls; callback = k.callback; listens = k.listens; kept = k.kept })
    | inr e ↦ rw (e, cpu_line) k
  ]

  get_cpu_total-Grows :
      (os : Os) (s : Capture)
      → Grows s0 s
      → Yields (λ q. Grows s0 q.state) (ended (get_cpu_total os s))
  unfolding get_cpu_total
  get_cpu_total-Grows os s h =
      ended-Yields (get_cpu_total os s)
        (read_total-Keeps (Grows s0) (os.file (codes "/proc/stat")) cpu_line s cpu_line-Grows h)

module _ (inet : Inet) (os : Os) (pcap : Pcap) (s0 : Capture)
    (on : s0.process_callback ≡ true) where
  settle-Tells :
      (ret : ℕ) (s : Capture)
      → Grows s0 s
      → IsSound s
      → Yields (Tells s0 ret) (settle inet os pcap ret s)
  unfolding settle
  settle-Tells ret s g h =
      bind-Yields _
        (both-Yields (ended (get_cpu_total os s)) (get_cpu_total-Grows s0 os s g)
          (get_cpu_total-IsSound os s h))
        λ c k. told c k.0 k.1
    where
      told :
          (c : Status Capture)
          → Grows s0 c.state
          → IsSound c.state
          → Yields (Tells s0 ret) (
              if c.ret == 0
              then (do
                q ← sync_processes os c.state
                finished (record { ret = 0; state = report_packets ret (report_processes q) }))
              else finished c)
      told c k l = elim (Bool-cases (c.ret == 0)) [
        | inl e ↦ rw e (
            bind-Yields _ (sync_processes-Synchronised s0 os c.state on k l)
              λ q t. finished-Yields _ (reports-IsTold s0 ret q t.0 t.1 t.2 t.3 t.4 t.5))
        | inr e ↦ rw e (finished-Yields c (inr (ground arith, k.calls)))
      ]

  update_pids-Grows : (s : Capture) → Grows s0 s → Yields (λ q. Grows s0 q.state) (update_pids os s)
  unfolding update_pids
  update_pids-Grows s h = elim (Option-cases (os.dir (codes "/proc"))) [
    | inl e ↦
        rw (e, update_pids)
          (finished-Yields _
            (record { calls = h.calls; callback = h.callback; listens = h.listens; kept = h.kept }))
    | inr (es, e) ↦ elim (Option-cases (add_pids es [])) [
      | inl x ↦ rw (e, x, update_pids) thrown-Yields
      | inr (ps, x) ↦
          rw (e, x, update_pids)
            (finished-Yields _ (record {
              calls = h.calls;
              callback = h.callback;
              listens = h.listens;
              kept = h.kept;
            }))
    ]
  ]

  refresh_inodes-Grows : (s : Capture) → Grows s0 s → Yields (Grows s0) (refresh_inodes inet os s)
  unfolding refresh_inodes
  refresh_inodes-Grows s h =
      bind-Yields {P = λ _. Unit {0}} (ended (refresh inet os s.devices s.pids))
        (record { result = λ _ _. tt })
        λ r _.
          finished-Yields _
            (record { calls = h.calls; callback = h.callback; listens = h.listens; kept = h.kept })

  update-Tells :
      (cnt : ℕ) (all : Bool)
      → IsSound s0
      → Yields (Tells s0 (last_result pcap cnt s0.handles 0)) (update inet os pcap cnt all s0)
  unfolding update
  update-Tells cnt all h =
      bind-Yields _
        (both-Yields (update_pids os start)
          (both-Yields (update_pids os start) (update_pids-Grows start begins)
            (update_pids-IsSound os start (rewound-IsSound s0 h)))
          (update_pids-only os start))
        λ p a.
          bind-Yields _
            (both-Yields (refresh_inodes inet os p.state)
              (both-Yields (refresh_inodes inet os p.state) (refresh_inodes-Grows p.state a.0.0)
                (refresh_inodes-IsSound inet os p.state a.0.1))
              (refresh_inodes-only inet os p.state))
            λ r b.
              bind-Yields _
                (both-Yields (poll inet os pcap cnt r.handles 0 r)
                  (both-Yields (poll inet os pcap cnt r.handles 0 r)
                    (poll-Kept inet os pcap (Grows s0)
                      (λ reused added. process_packet-Grows inet os reused added s0) cnt r.handles 0
                      r b.0.0)
                    (poll-IsSound inet os pcap cnt r.handles 0 r b.0.1))
                  (poll-last inet os pcap cnt r.handles 0 r))
                λ d e.
                  let c = e.0 in
                  let handles = ap (λ t. t.handles) b.1 ∙ ap (λ t. t.handles) a.1 in
                  subst
                    (λ n.
                      Yields (Tells s0 n)
                        (settle inet os pcap d.last (record d.state { handles = d.polled })))
                    (e.1 ∙ ap (λ hs. last_result pcap cnt hs 0) handles)
                    (settle-Tells d.last (record d.state { handles = d.polled })
                      (record {
                        calls = c.0.calls;
                        callback = c.0.callback;
                        listens = c.0.listens;
                        kept = c.0.kept;
                      })
                      (polled-IsSound d.state d.polled c.1))
    where
      start : Capture
      start = record s0 { packet_idx = 0 }

      begins : Grows s0 (record s0 { packet_idx = 0 })
      begins = record { calls = refl; callback = refl; listens = refl; kept = λ k g. g }

-- Where there is a process callback, a call of Update that finishes from a sound state does one of two things.
-- If it returns 0, it tells the callbacks, behind what they were told before: the removal of the processes that
-- are gone, one by one; then the update, with the number of the processes that are left and an array that begins
-- with their entries, in the order of the table; then, if there are a packet callback and packets, and what
-- Dispatch returned for the last handle is positive, the packets, with that number as the size. Every process
-- that was in the table before is told as gone or is left in it, and none is both. If it returns another code, it tells nothing.
pub update_told :
    (inet : Inet) (os : Os) (pcap : Pcap) (cnt : ℕ) (all : Bool) (s : Capture) (r : Status Capture)
    → s.process_callback ≡ true
    → IsSound s
    → update inet os pcap cnt all s ≡ finished r
    → Tells s (last_result pcap cnt s.handles 0) r
update_told inet os pcap cnt all s r on h e = (update-Tells inet os pcap s on cnt all h).result r e
