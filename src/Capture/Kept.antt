-- ===== src/Capture/Kept.antt =====
-- CaptureCxx::ProcessTcp and ProcessUdp: what their two effects keep, they keep.
use capture.Prelude.{ℕ, ◌≡◌, refl, List, Option, none, some}
use capture.Inet.{Inet}
use capture.Errors.{cap_net_unknow}
use capture.Packet.{CapPacket, hash}
use capture.Outcome.{Status, Run, finished}
use capture.Outcome.Yields.{Yields, finished-Yields, result-Yields, bind-Yields, if-Yields}
use capture.Os.{Os}
use capture.Process.{add_packet}
use capture.ProcessFields.{CapProcess}
use capture.Inode.{Owner, owner, failed, get_pid_by_ip}
use capture.Handle.{Frame, PcapCtx}
use capture.Capture.{Capture, PacketType, PacketInfo}
use capture.Capture.Account.{
  copied, put_process, record_packet, process_of, charge, attribute, build, process_packet,
}

module _ (inet : Inet) (os : Os) (reused added : PacketType) (P : Capture → Type 0)
    (recorded : (s : Capture) (xs : List PacketInfo) (i : ℕ)
      → P s
      → P (record s { packet_data = xs; packet_idx = i }))
    (charged : (pid : ℕ) (k : CapPacket) (s : Capture) (p : CapProcess)
      → P s
      → process_of inet os reused added pid s ≡ finished p
      → P (record s {
        processes = put_process pid (add_packet inet s.devices k p).0 s.processes;
      })) where
  record_packet-Kept :
      (f : Frame) (off : ℕ) (k : CapPacket) (s : Capture)
      → P s
      → Yields (λ q. P q.state) (record_packet inet os reused added f off k s)
  unfolding record_packet
  record_packet-Kept f off k s h =
      if-Yields s.packet_callback
        (bind-Yields {P = λ _. Unit {0}} (copied s.capture_all f off)
          (record { result = λ _ _. tt }) λ bag _. finished-Yields _ (recorded s _ _ h))
        (finished-Yields _ h)

  charge-Kept :
      (pid : ℕ) (k : CapPacket) (f : Frame) (off : ℕ) (s : Capture)
      → P s
      → Yields (λ q. P q.state) (charge inet os reused added pid k f off s)
  unfolding charge
  charge-Kept pid k f off s h =
      bind-Yields (process_of inet os reused added pid s) (result-Yields _) λ p e.
        let c = add_packet inet s.devices k p in
        record_packet-Kept f off c.1 (record s { processes = put_process pid c.0 s.processes })
          (charged pid k s p h e)

  attribute-Kept :
      (k : CapPacket) (f : Frame) (off : ℕ) (s : Capture)
      → P s
      → Yields (λ q. P q.state) (attribute inet os reused added k f off s)
  unfolding attribute
  attribute-Kept k f off s h = go (get_pid_by_ip s.inodes (hash inet s.devices k).0) refl
    where
      go :
          (o : Owner)
          → get_pid_by_ip s.inodes (hash inet s.devices k).0 ≡ o
          → Yields (λ q. P q.state) (attribute inet os reused added k f off s)
      go (failed code) g = rw (g, attribute) (finished-Yields _ h)
      go (owner pid) g = rw (g, attribute) (charge-Kept pid (hash inet s.devices k).1 f off s h)

  pub process_packet-Kept :
      (ctx : PcapCtx) (f : Frame) (off : ℕ) (s : Capture)
      → P s
      → Yields (λ q. P q.state) (process_packet inet os reused added ctx f off s)
  unfolding process_packet
  process_packet-Kept ctx f off s h =
      bind-Yields {P = λ _. Unit {0}} (build inet os reused added ctx f off s)
        (record { result = λ _ _. tt }) built
    where
      built :
          (o : Option CapPacket)
          → Unit {0}
          → Yields
              (λ q. P q.state)
              (elim o as (λ _. Run (Status Capture)) [
                | none ↦ finished (record { ret = cap_net_unknow; state = s })
                | some k ↦ attribute inet os reused added k f off s
              ])
      built none u = finished-Yields _ h
      built (some k) u = attribute-Kept k f off s h
