-- ===== src/Library/Reports.antt =====
-- What the end of CaptureCxx::Update tells the callbacks.
use mathlib.Core.List.{append-nil, append_assoc}
use capture.Prelude.{
  ℕ, ◌≡◌, ◌≢◌, ◌⊎◌, inl, inr, refl, sym, ap, ◌∙◌, true, ◌&&◌, List, [], ◌∷◌, ◌++◌, arith, ltb,
  if◌then◌else◌, length, map, take, Bool-cases,
}
use capture.Outcome.{Status}
use capture.Capture.{Capture, ProcessInfo, Call, remove_called, update_called, packets_called}
use capture.Capture.Sync.Order.{keys}
use capture.Capture.Sync.Split.{Apart, Covers}
use capture.Capture.Report.{report_processes}
use capture.Capture.Report.Filling.{entry_of, report_shows_processes}
use capture.Library.{positive, report_packets}

-- The call of the packet callback, if there is one: with what the last handle returned as the size.
abbrev pub packets_told : ℕ → Capture → List Call
packets_told ret s =
    if s.packet_callback && (positive ret && ltb 0 (length s.packet_data))
    then packets_called s.packet_data ret ∷ []
    else []

-- What a run of `Update` from one state to another tells: the processes that are gone, then the others.
pub record IsTold (s0 s : Capture) (ret : ℕ) (gone : List ℕ) (shown : List ProcessInfo)
    : Type 0 where
  pub calls :
      s.calls
      ≡ s0.calls
        ++ (map remove_called gone ++ update_called shown (length s.processes) ∷ packets_told ret s)
  pub shows : take (length s.processes) shown ≡ map entry_of s.processes
  pub covers : Covers (keys s0.processes) gone (keys s.processes)
  pub apart : Apart gone (keys s.processes)
  pub listens : s.packet_callback ≡ s0.packet_callback

pub report_processes-processes : (s : Capture) → (report_processes s).processes ≡ s.processes
unfolding report_processes
report_processes-processes s = ground arith

pub report_packets-processes :
    (ret : ℕ) (s : Capture) → (report_packets ret s).processes ≡ s.processes
unfolding report_packets
report_packets-processes ret s = ground arith

report_packets-calls :
    (ret : ℕ) (s : Capture)
    → (report_packets ret s).calls ≡ s.calls ++ packets_told ret (report_packets ret s)
unfolding report_packets
report_packets-calls ret s =
    elim (Bool-cases (s.packet_callback && (positive ret && ltb 0 (length s.packet_data)))) [
      | inl e ↦ rw (e, report_packets) (rw e refl)
      | inr e ↦ rw (e, report_packets) (rw e (sym (append-nil s.calls)))
    ]

reports-listens :
    (ret : ℕ) (q : Capture)
    → (report_packets ret (report_processes q)).packet_callback ≡ q.packet_callback
unfolding report_packets report_processes
reports-listens ret q = ground arith

-- The two outcomes of `Update`, where the last handle returned `ret`.
abbrev pub Tells : Capture → ℕ → Status Capture → Type 0
Tells s0 ret q =
    ((gone : List ℕ) × (shown : List ProcessInfo) × (q.ret ≡ 0) × IsTold s0 q.state ret gone shown)
    ⊎ ((q.ret ≢ 0) × (q.state.calls ≡ s0.calls))

module _ (s0 : Capture) (ret : ℕ) where
  pub reports-IsTold :
      (q : Capture) (gone : List ℕ)
      → q.process_callback ≡ true
      → q.calls ≡ s0.calls ++ map remove_called gone
      → Covers (keys s0.processes) gone (keys q.processes)
      → Apart gone (keys q.processes)
      → q.packet_callback ≡ s0.packet_callback
      → Tells s0 ret (record { ret = 0; state = report_packets ret (report_processes q) })
  reports-IsTold q gone on said c a listens =
      let t = report_processes q in
      let (shown, told, shows) = report_shows_processes q on in
      let same : (report_packets ret t).processes ≡ q.processes =
        report_packets-processes ret t ∙ report_processes-processes q in
      let end = packets_told ret (report_packets ret t) in
      inl (
        gone,
        shown,
        refl,
        record {
          calls = rw same (
              report_packets-calls ret t
              ∙ ap (λ x. x ++ end)
                  (told ∙ ap (λ x. x ++ update_called shown (length q.processes) ∷ []) said)
              ∙ append_assoc (s0.calls ++ map remove_called gone)
                  (update_called shown (length q.processes) ∷ []) end
              ∙ append_assoc s0.calls (map remove_called gone)
                  (update_called shown (length q.processes) ∷ end));
          shows = rw same shows;
          covers = rw same c;
          apart = rw same a;
          listens = reports-listens ret q ∙ listens;
        },
      )
