-- ===== src/Capture/Untouched.antt =====
-- What CaptureCxx::Update leaves of the processes that it does not read again.
use capture.Prelude.{
  ℕ, ◌≡◌, refl, sym, ◌∙◌, List, [], ◌∷◌, some, arith, ◌==◌, Bool-cases, inl, inr, find, nat_eq,
  if◌then◌else◌, subst,
}
use capture.Inet.{Inet}
use capture.Device.{CapDevice}
use capture.Packet.{CapPacket, is_outgoing}
use capture.Outcome.{finished}
use capture.Outcome.Yields.{Yields}
use capture.Outcome.Rules.{finished-injective}
use capture.Os.{Os}
use capture.Process.{add_packet}
use capture.ProcessFields.{CapProcess}
use capture.Handle.{Frame, PcapCtx}
use capture.Capture.{Capture, PacketType}
use capture.Capture.Account.{put_process, process_of, process_packet}
use capture.Capture.Kept.{process_packet-Kept}
use capture.Capture.Owner.{process_of-found}

-- The process without its traffic: what Parse has read.
abbrev pub readings : CapProcess → CapProcess
readings p = record p { send = 0; recv = 0 }

-- Each process of the first table is in the second, with the same readings.
pub record SameReadings (m m' : List (ℕ × CapProcess)) : Type 0 where
  pub same :
      (k : ℕ) (p : CapProcess)
      → find k m ≡ some p
      → (q : CapProcess) × (find k m' ≡ some q) × (readings q ≡ readings p)

pub SameReadings-refl : (m : List (ℕ × CapProcess)) → SameReadings m m
SameReadings-refl m = record { same = λ k p h. (p, h, refl) }

pub find-put_process :
    (k j : ℕ) (q : CapProcess) (m : List (ℕ × CapProcess))
    → find k (put_process j q m) ≡ (if j == k then some q else find k m)
unfolding find put_process
find-put_process k j q [] = refl
find-put_process k j q ((i, x) ∷ m) = ground (arith, find-put_process k j q m)

readings-add_packet :
    (inet : Inet) (ds : List CapDevice) (k : CapPacket) (p : CapProcess)
    → readings (add_packet inet ds k p).0 ≡ readings p
unfolding add_packet is_outgoing
readings-add_packet inet ds k p = ground arith

module _ (inet : Inet) (os : Os) (reused added : PacketType) (m : List (ℕ × CapProcess)) where
  charged-SameReadings :
      (pid : ℕ) (k : CapPacket) (s : Capture) (p : CapProcess)
      → SameReadings m s.processes
      → process_of inet os reused added pid s ≡ finished p
      → SameReadings m (put_process pid (add_packet inet s.devices k p).0 s.processes)
  charged-SameReadings pid k s p h e = record { same = kept }
    where
      kept :
          (j : ℕ) (a : CapProcess)
          → find j m ≡ some a
          → (q : CapProcess) × (find j
                (put_process pid (add_packet inet s.devices k p).0 s.processes)
              ≡ some q)
            × (readings q ≡ readings a)
      kept j a f =
          let (q, g, same) = h.same j a f in
          let placed = find-put_process j pid (add_packet inet s.devices k p).0 s.processes in
          elim (Bool-cases (pid == j)) [
            | inr x ↦ (q, placed ∙ rw x g, same)
            | inl x ↦
                let y : j ≡ pid = ground arith in
                let own : q ≡ p = finished-injective q p (
                  sym (
                    process_of-found inet os reused added pid s q
                      (subst (λ i. find i s.processes ≡ some q) y g))
                  ∙ e) in
                (
                  (add_packet inet s.devices k p).0,
                  placed ∙ rw x refl,
                  readings-add_packet inet s.devices k p ∙ rw (← own) same,
                )
          ]

  -- A packet changes no reading of a process that is in the table.
  pub process_packet-SameReadings :
      (ctx : PcapCtx) (f : Frame) (off : ℕ) (s : Capture)
      → SameReadings m s.processes
      → Yields
          (λ q. SameReadings m q.state.processes)
          (process_packet inet os reused added ctx f off s)
  process_packet-SameReadings =
      process_packet-Kept inet os reused added (λ s. SameReadings m s.processes) (λ s xs i h. h)
        charged-SameReadings
