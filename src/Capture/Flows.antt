-- ===== src/Capture/Flows.antt =====
-- CaptureCxx::ProcessTcp and ProcessUdp: the packet that is made of the ends and ports of a frame.
use capture.Prelude.{
  ℕ, ◌+◌, ◌%◌, ◌^◌, ◌≡◌, ◌≢◌, refl, Bool, true, false, List, [], arith, if◌then◌else◌, Bool-cases,
  inl, inr, nat_eq,
}
use capture.Text.{Str}
use capture.Inet.{Inet, In6, ntop4, ntop6}
use capture.Device.{CapDevice, contains4, contains6, af_inet, af_inet6}
use capture.Packet.{
  CapPacket, TimeVal, unknown, incoming, outgoing, blank_packet, joined, init4, init6, hash,
  is_outgoing, is_local, key, source_text, dest_text,
}
use capture.Packet.Keys.{hash_kept, joined-ne-nil}
use capture.Process.{add_packet}
use capture.ProcessFields.{CapProcess}
use capture.Handle.{PcapCtx, unspec, ip4, ip6}

-- The process after `n` more bytes, sent or received.
abbrev pub with_bytes : Bool → ℕ → CapProcess → CapProcess
with_bytes out n p =
    if out
    then record p { send = (p.send + n) % 2 ^ 64 }
    else record p { recv = (p.recv + n) % 2 ^ 64 }

-- Whether the source of a context is an address of a device.
abbrev pub is_sender : List CapDevice → PcapCtx → Bool
is_sender ds unspec = false
is_sender ds (ip4 src dst) = contains4 ds src
is_sender ds (ip6 src dst) = contains6 ds src

abbrev pub IsIp : PcapCtx → Type 0
IsIp unspec = ⊥
IsIp (ip4 src dst) = Unit
IsIp (ip6 src dst) = Unit

module _ (inet : Inet) where
  -- The key of a packet with the ends of a context, the local end first.
  abbrev pub flow_key : Bool → PcapCtx → ℕ → ℕ → Str
  flow_key out unspec sport dport = []
  flow_key true (ip4 src dst) sport dport =
      joined (ntop4 inet src 49) sport (ntop4 inet dst 49) dport
  flow_key false (ip4 src dst) sport dport =
      joined (ntop4 inet dst 49) dport (ntop4 inet src 49) sport
  flow_key true (ip6 src dst) sport dport =
      joined (ntop6 inet src 49) sport (ntop6 inet dst 49) dport
  flow_key false (ip6 src dst) sport dport =
      joined (ntop6 inet dst 49) dport (ntop6 inet src 49) sport

  flow_key-ne-nil :
      (out : Bool) (ctx : PcapCtx) (sport dport : ℕ) → IsIp ctx → flow_key out ctx sport dport ≢ []
  flow_key-ne-nil out unspec sport dport h = absurd h
  flow_key-ne-nil true (ip4 src dst) sport dport h =
      joined-ne-nil (ntop4 inet src 49) sport (ntop4 inet dst 49) dport
  flow_key-ne-nil false (ip4 src dst) sport dport h =
      joined-ne-nil (ntop4 inet dst 49) dport (ntop4 inet src 49) sport
  flow_key-ne-nil true (ip6 src dst) sport dport h =
      joined-ne-nil (ntop6 inet src 49) sport (ntop6 inet dst 49) dport
  flow_key-ne-nil false (ip6 src dst) sport dport h =
      joined-ne-nil (ntop6 inet dst 49) dport (ntop6 inet src 49) sport

module _ (inet : Inet) (ds : List CapDevice) (sport dport n : ℕ) (t : TimeVal) where
  -- A packet between two ports, before its ends are set.
  abbrev pub flow : Bool → Str → CapPacket
  flow out h = record blank_packet {
    sport = sport;
    dport = dport;
    len = n;
    time = t;
    dir = if out then outgoing else incoming;
    hashstring = h;
  }

  -- What ProcessTcp and ProcessUdp make of a context.
  abbrev pub flow_packet : PcapCtx → CapPacket
  flow_packet unspec = blank_packet
  flow_packet (ip4 src dst) =
      record (flow (contains4 ds src)
        (flow_key inet (contains4 ds src) (ip4 src dst) sport dport)) {
          sip = src;
          dip = dst;
          family = af_inet;
        }
  flow_packet (ip6 src dst) =
      record (flow (contains6 ds src)
        (flow_key inet (contains6 ds src) (ip6 src dst) sport dport)) {
          sip6 = src;
          dip6 = dst;
          family = af_inet6;
        }

  pub init4-flow :
      (src dst : ℕ)
      → init4 inet ds src sport dst dport n t unknown blank_packet ≡ flow_packet (ip4 src dst)
  unfolding init4 hash is_outgoing is_local key source_text dest_text
  init4-flow src dst = ground arith

  pub init6-flow :
      (src dst : In6)
      → init6 inet ds src sport dst dport n t unknown blank_packet ≡ flow_packet (ip6 src dst)
  unfolding init6 hash is_outgoing is_local key source_text dest_text
  init6-flow src dst = ground arith

  pub hash-flow :
      (ctx : PcapCtx)
      → IsIp ctx
      → hash inet ds (flow_packet ctx)
        ≡ (flow_key inet (is_sender ds ctx) ctx sport dport, flow_packet ctx)
  hash-flow unspec h = absurd h
  hash-flow (ip4 src dst) h =
      hash_kept inet ds (flow_packet (ip4 src dst))
        (flow_key-ne-nil inet (contains4 ds src) (ip4 src dst) sport dport h)
  hash-flow (ip6 src dst) h =
      hash_kept inet ds (flow_packet (ip6 src dst))
        (flow_key-ne-nil inet (contains6 ds src) (ip6 src dst) sport dport h)

  pub add_packet-flow :
      (ctx : PcapCtx) (p : CapProcess)
      → IsIp ctx
      → add_packet inet ds (flow_packet ctx) p
        ≡ (with_bytes (is_sender ds ctx) n p, flow_packet ctx)
  unfolding add_packet is_outgoing
  add_packet-flow unspec p h = absurd h
  add_packet-flow (ip4 src dst) p h = elim (Bool-cases (contains4 ds src)) [
    | inl e ↦ rw e refl
    | inr e ↦ rw e refl
  ]
  add_packet-flow (ip6 src dst) p h = elim (Bool-cases (contains6 ds src)) [
    | inl e ↦ rw e refl
    | inr e ↦ rw e refl
  ]
