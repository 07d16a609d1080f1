-- ===== src/Capture/Growth.antt =====
-- CaptureCxx::ProcessTcp and ProcessUdp call no callback, and take no process from the table.
use capture.Prelude.{ℕ, ◌≡◌, true, List, [], ◌∷◌, arith, ltb, ◌==◌, Bool-cases, inl, inr, mem_nat}
use capture.Inet.{Inet}
use capture.Outcome.Yields.{Yields}
use capture.Os.{Os}
use capture.ProcessFields.{CapProcess}
use capture.Handle.{Frame, PcapCtx}
use capture.Capture.{Capture, PacketType}
use capture.Capture.Account.{put_process, process_packet}
use capture.Capture.Kept.{process_packet-Kept}
use capture.Capture.Sync.Order.{keys}

-- A state with the calls and callbacks of another one, and at least its processes.
pub record Grows (s0 s : Capture) : Type 0 where
  pub calls : s.calls ≡ s0.calls
  pub callback : s.process_callback ≡ s0.process_callback
  pub listens : s.packet_callback ≡ s0.packet_callback
  pub kept : (k : ℕ) → mem_nat k (keys s0.processes) ≡ true → mem_nat k (keys s.processes) ≡ true

pub mem-put :
    (k j : ℕ) (p : CapProcess) (m : List (ℕ × CapProcess))
    → mem_nat k (keys m) ≡ true
    → mem_nat k (keys (put_process j p m)) ≡ true
unfolding mem_nat put_process
mem-put k j p [] h = cc
mem-put k j p ((i, q) ∷ m) h = elim (Bool-cases (ltb j i)) [
  | inl x ↦ ground arith
  | inr x ↦ elim (Bool-cases (i == j)) [
    | inl y ↦ ground arith
    | inr y ↦ elim (Bool-cases (i == k)) [
      | inl z ↦ ground arith
      | inr z ↦ ground (arith, mem-put k j p m)
    ]
  ]
]

module _ (inet : Inet) (os : Os) (reused added : PacketType) (s0 : Capture) where
  -- ProcessTcp and ProcessUdp.
  pub process_packet-Grows :
      (ctx : PcapCtx) (f : Frame) (off : ℕ) (s : Capture)
      → Grows s0 s
      → Yields (λ q. Grows s0 q.state) (process_packet inet os reused added ctx f off s)
  process_packet-Grows =
      process_packet-Kept inet os reused added (Grows s0)
        (λ s xs i h. record {
          calls = h.calls;
          callback = h.callback;
          listens = h.listens;
          kept = h.kept;
        })
        λ pid k s p h e. record {
          calls = h.calls;
          callback = h.callback;
          listens = h.listens;
          kept = λ j g. mem-put j pid _ s.processes (h.kept j g);
        }
