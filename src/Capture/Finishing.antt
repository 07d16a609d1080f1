-- ===== src/Capture/Finishing.antt =====
-- When the operations of src/capturecxx.cpp finish.
use capture.Prelude.{
  ℕ, ◌+◌, ◌≤◌, ◌≡◌, refl, false, true, some, none, arith, length, Option, Option-cases, inl, inr,
  Bool, find, nat_eq,
}
use capture.Inet.{Inet}
use capture.Os.{Os}
use capture.Outcome.{Status, Run, finished}
use capture.Errors.{cap_net_unknow}
use capture.Outcome.Finishes.{
  Any, Finishes, bind-Finishes, read-Finishes, if-Finishes, ended-Finishes,
}
use capture.Packet.{CapPacket, hash}
use capture.Handle.{Frame, PcapCtx, unspec, ip4, ip6}
use capture.ProcessFields.{new_process}
use capture.Process.Ending.{HostFits, HostFits-ProcFits, parse_ends}
use capture.Inode.{get_pid_by_ip, owner, failed, Owner}
use capture.Protocol.InBounds.{be16-some}
use capture.Capture.{Capture, PacketType}
use capture.Capture.Account.{
  be16, copied, record_packet, process_of, charge, attribute, build, process_packet,
}

-- No packet is copied.
abbrev pub CopiesNone : Capture → Type 0
CopiesNone s = s.capture_all ≡ false

abbrev Goes : Run (Status Capture) → Type 0
Goes r = Finishes (λ q. CopiesNone q.state) r

copied-Goes : (b : Bool) (f : Frame) (off : ℕ) → b ≡ false → Finishes Any (copied b f off)
unfolding copied
copied-Goes true f off h = absurd (ground (arith, h))
copied-Goes false f off h = (_, refl, tt)

module _ (inet : Inet) (os : Os) (fits : HostFits os) (reused added : PacketType) where
  record_packet-Goes :
      (f : Frame) (off : ℕ) (k : CapPacket) (s : Capture)
      → CopiesNone s
      → Goes (record_packet inet os reused added f off k s)
  unfolding record_packet
  record_packet-Goes f off k s h =
      if-Finishes _ s.packet_callback
        (bind-Finishes Any (λ q. CopiesNone q.state) _ _ (copied-Goes s.capture_all f off h)
          λ bag u. (_, refl, h))
        (_, refl, h)

  process_of-Goes : (pid : ℕ) (s : Capture) → Finishes Any (process_of inet os reused added pid s)
  unfolding process_of
  process_of-Goes pid s = elim (Option-cases (find pid s.processes)) [
    | inr (p, e) ↦ rw (e, process_of) (p, refl, tt)
    | inl e ↦
        rw (e, process_of)
          (bind-Finishes Any Any _ _
            (ended-Finishes _ _
              (parse_ends os s.memory s.delta_cpu (new_process pid) (HostFits-ProcFits os pid fits))
              λ a x. tt)
            λ r u. (_, refl, tt))
  ]

  charge-Goes :
      (pid : ℕ) (k : CapPacket) (f : Frame) (off : ℕ) (s : Capture)
      → CopiesNone s
      → Goes (charge inet os reused added pid k f off s)
  unfolding charge
  charge-Goes pid k f off s h =
      bind-Finishes Any (λ q. CopiesNone q.state) _ _ (process_of-Goes pid s)
        λ p u. record_packet-Goes f off _ _ h

  attribute-Goes :
      (k : CapPacket) (f : Frame) (off : ℕ) (s : Capture)
      → CopiesNone s
      → Goes (attribute inet os reused added k f off s)
  unfolding attribute
  attribute-Goes k f off s h = owned (get_pid_by_ip s.inodes (hash inet s.devices k).0)
    where
      owned :
          (o : Owner)
          → Goes (elim o [
            | failed code ↦ finished (record { ret = code; state = s })
            | owner pid ↦ charge inet os reused added pid (hash inet s.devices k).1 f off s
          ])
      owned (failed code) = (_, refl, h)
      owned (owner pid) = charge-Goes pid _ f off s h

  build-Goes :
      (ctx : PcapCtx) (f : Frame) (off : ℕ) (s : Capture)
      → off + 4 ≤ length f.bytes
      → Finishes Any (build inet os reused added ctx f off s)
  unfolding build
  build-Goes unspec f off s b = (_, refl, tt)
  build-Goes (ip4 src dst) f off s b =
      read-Finishes _ (be16 f.bytes off) _ (be16-some f.bytes off (omega arith)) λ x.
        read-Finishes _ (be16 f.bytes (off + 2)) _ (be16-some f.bytes (off + 2) (omega arith))
          λ y. (_, refl, tt)
  build-Goes (ip6 src dst) f off s b =
      read-Finishes _ (be16 f.bytes off) _ (be16-some f.bytes off (omega arith)) λ x.
        read-Finishes _ (be16 f.bytes (off + 2)) _ (be16-some f.bytes (off + 2) (omega arith))
          λ y. (_, refl, tt)

  pub process_packet-Goes :
      (ctx : PcapCtx) (f : Frame) (off : ℕ) (s : Capture)
      → off + 4 ≤ length f.bytes
      → CopiesNone s
      → Goes (process_packet inet os reused added ctx f off s)
  unfolding process_packet
  process_packet-Goes ctx f off s b h =
      bind-Finishes Any (λ q. CopiesNone q.state) _ _ (build-Goes ctx f off s b) next
    where
      next :
          (o : Option CapPacket)
          → Any o
          → Goes (elim o [
            | none ↦ finished (record { ret = cap_net_unknow; state = s })
            | some k ↦ attribute inet os reused added k f off s
          ])
      next none u = (_, refl, h)
      next (some k) u = attribute-Goes k f off s h
