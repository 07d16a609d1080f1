-- ===== src/Library/Stale.antt =====
-- The processes that CaptureCxx::Update does not read again.
use capture.Prelude.{
  ℕ, ◌≡◌, refl, sym, ap, ◌∙◌, Bool, true, arith, ◌==◌, length, Bool-cases, inl, inr, subst,
  if◌then◌else◌,
}
use capture.Text.{Str, codes}
use capture.Scan.{nonzero, sscanf}
use capture.Inet.{Inet}
use capture.Outcome.{Status, finished, ended, ◌>>=◌}
use capture.Outcome.Yields.{Yields, finished-Yields, bind-Yields, ended-Yields}
use capture.Os.{Os}
use capture.Handle.{Pcap}
use capture.Stream.Invariant.{Leaves}
use capture.Capture.{Capture}
use capture.Capture.Totals.{update_pids, cpu_line, cpu_format, get_cpu_total}
use capture.Capture.Sync.{sync_processes}
use capture.Capture.Report.{report_processes}
use capture.Capture.Sound.Readings.{read_total-Keeps}
use capture.Capture.Untouched.{SameReadings, SameReadings-refl, process_packet-SameReadings}
use capture.Library.{Polled, refresh_inodes, report_packets, poll, settle, update}
use capture.Library.Touching.{update_pids-only, refresh_inodes-only}
use capture.Library.Polling.{poll-Kept}
use capture.Library.Reports.{report_processes-processes, report_packets-processes}

-- The same processes, and as many numbers of processes.
abbrev Unread : Capture → Capture → Type 0
Unread s0 s = (s.processes ≡ s0.processes) × (s.pids ≡ s0.pids)

cpu_line-Unread : (s0 t : Capture) (b : Str) → Unread s0 t → Leaves (Unread s0) (cpu_line t b)
unfolding cpu_line
cpu_line-Unread s0 t b k = elim (Bool-cases (nonzero (sscanf b cpu_format))) [
  | inl e ↦ rw (e, cpu_line) k
  | inr e ↦ rw (e, cpu_line) k
]

get_cpu_total-Unread :
    (os : Os) (s : Capture) → Yields (λ q. Unread s q.state) (ended (get_cpu_total os s))
unfolding get_cpu_total
get_cpu_total-Unread os s = ended-Yields (get_cpu_total os s) (
    read_total-Keeps (Unread s) (os.file (codes "/proc/stat")) cpu_line s (cpu_line-Unread s)
      (refl, refl))

sync_processes-skip :
    (os : Os) (s : Capture) → length s.pids ≡ length s.processes → sync_processes os s ≡ finished s
unfolding sync_processes
sync_processes-skip os s h =
    let e : (length s.pids == length s.processes) ≡ true = ground arith in
    rw (e, sync_processes) refl

module _ (inet : Inet) (os : Os) (pcap : Pcap) where
  -- With as many processes as numbers, the rest of Update leaves the table as it is.
  settle-processes :
      (ret : ℕ) (s : Capture)
      → length s.pids ≡ length s.processes
      → Yields (λ q. q.state.processes ≡ s.processes) (settle inet os pcap ret s)
  unfolding settle
  settle-processes ret s h = bind-Yields _ (get_cpu_total-Unread os s) λ c k. rest c k.0 k.1
    where
      rest :
          (c : Status Capture)
          → c.state.processes ≡ s.processes
          → c.state.pids ≡ s.pids
          → Yields
              (λ q. q.state.processes ≡ s.processes)
              (if c.ret == 0
                then (do
                  q ← sync_processes os c.state
                  finished (record { ret = 0; state = report_packets ret (report_processes q) }))
                else finished c)
      rest c a b = elim (Bool-cases (c.ret == 0)) [
        | inr e ↦ rw e (finished-Yields c a)
        | inl e ↦
            let same = sync_processes-skip os c.state (ap length b ∙ h ∙ ap length (sym a)) in
            rw (e, same)
              (finished-Yields _ (
                report_packets-processes ret (report_processes c.state)
                ∙ report_processes-processes c.state
                ∙ a))
      ]

  -- If, once Update has read the numbers in /proc and handled the packets, there are as many numbers as processes
  -- in the table, then it reads no process again: whatever its code, each process that was in the table is still
  -- there, with what was read of it before; only what it has sent and received may differ.
  pub update_reads_none :
      (cnt : ℕ) (all : Bool) (s r : Capture) (p q : Status Capture) (d : Polled)
      → update_pids os (record s { packet_idx = 0 }) ≡ finished p
      → refresh_inodes inet os p.state ≡ finished r
      → poll inet os pcap cnt r.handles 0 r ≡ finished d
      → length d.state.pids ≡ length d.state.processes
      → update inet os pcap cnt all s ≡ finished q
      → SameReadings s.processes q.state.processes
  unfolding update
  update_reads_none cnt all s r p q d ep er ed h e =
      let same : r.processes ≡ s.processes =
        ap (λ t. t.processes) ((refresh_inodes-only inet os p.state).result r er)
        ∙ ap (λ t. t.processes) ((update_pids-only os (record s { packet_idx = 0 })).result p ep) in
      let kept : SameReadings s.processes d.state.processes =
        (poll-Kept inet os pcap (λ t. SameReadings s.processes t.processes)
            (λ reused added. process_packet-SameReadings inet os reused added s.processes) cnt
            r.handles 0 r
            (subst (SameReadings s.processes) (sym same) (SameReadings-refl s.processes))).result
          d ed in
      let left =
        (settle-processes d.last (record d.state { handles = d.polled }) h).result q
          (rw (ep, er, ed, update) at e) in
      subst (SameReadings s.processes) (sym left) kept
