-- ===== src/Protocol.antt =====
-- src/cap_protocol.h and src/cap_protocol.cpp: from a captured frame to the transport header.
-- The reads go through the pointer with no test of the captured length: a read behind the captured
-- bytes ends the run with `overread`.
pub mod Headers
pub mod Datagrams
pub mod Invariant
pub mod Overread
pub mod InBounds
use capture.Prelude.{
  ℕ, ◌+◌, ◌*◌, ◌/◌, ◌^◌, ◌<◌, Bool, true, false, List, [], ◌∷◌, Option, none, some, ltb, ◌==◌,
  if◌then◌else◌, get_elem?,
}
use capture.Inet.{In6}
use capture.Outcome.{Status, Run, finished, overread, endless, thrown, ◌>>=◌, in_bounds}
use capture.Handle.{Frame, PcapCtx, CapHandle, set_context4, set_context6}
use capture.Capture.Account.{be16}

-- Where the protocol layer hands a packet on to: ProcessTcp and ProcessUdp over a state of their own.
pub record Sink (S : Type 0) : Type 0 where
  pub tcp : PcapCtx → Frame → ℕ → S → Run (Status S)
  pub udp : PcapCtx → Frame → ℕ → S → Run (Status S)

abbrev pub dlt_en10mb : ℕ
dlt_en10mb = 1

-- DLT_RAW is 12 on Linux.
abbrev pub dlt_raw : ℕ
dlt_raw = 12

-- A 32 bit word of an address, as a little-endian host reads it.
unfoldable pub word_at : List ℕ → ℕ → Option ℕ
word_at b i = elim (get_elem? b i) [
  | none ↦ none
  | some x ↦ elim (get_elem? b (i + 1)) [
    | none ↦ none
    | some y ↦ elim (get_elem? b (i + 2)) [
      | none ↦ none
      | some z ↦ elim (get_elem? b (i + 3)) [
        | none ↦ none
        | some w ↦ some (x + 256 * y + 65536 * z + 16777216 * w)
      ]
    ]
  ]
]

unfoldable pub in6_at : List ℕ → ℕ → Option In6
unfolding word_at
in6_at b i = elim (word_at b i) [
  | none ↦ none
  | some x ↦ elim (word_at b (i + 4)) [
    | none ↦ none
    | some y ↦ elim (word_at b (i + 8)) [
      | none ↦ none
      | some z ↦ elim (word_at b (i + 12)) [
        | none ↦ none
        | some w ↦ some (record { w0 = x; w1 = y; w2 = z; w3 = w })
      ]
    ]
  ]
]

-- A handle, whose context the operations set, and the state of the sink.
pub record Seen (S : Type 0) : Type 0 where
  pub ctx : CapHandle
  pub state : S

module _ {S : Type 0} (sink : Sink S) where
  -- The result of ProcessTcp or ProcessUdp is dropped.
  abbrev pub handed : CapHandle → Run (Status S) → Run (Seen S)
  handed h r = do q ← r; finished (record { ctx = h; state = q.state })

  -- The switch over the protocol number; IPPROTO_TCP is 6 and IPPROTO_UDP 17.
  unfoldable pub transport : ℕ → CapHandle → Frame → ℕ → S → Run (Seen S)
  transport proto h f off s =
      if proto == 6
      then handed h (sink.tcp h.context f off s)
      else if proto == 17
      then handed h (sink.udp h.context f off s)
      else finished (record { ctx = h; state = s })

  -- CapProtocol::ProtocolIp4: `ip_src` at 12, `ip_dst` at 16, `ip_p` at 9, sizeof(struct ip) is 20
  unfoldable pub protocol_ip4 : CapHandle → Frame → ℕ → S → Run (Seen S)
  protocol_ip4 h f at s = do
    src ← in_bounds (word_at f.bytes (at + 12))
    dst ← in_bounds (word_at f.bytes (at + 16))
    proto ← in_bounds (get_elem? f.bytes (at + 9))
    transport proto (set_context4 src dst h) f (at + 20) s

  -- CapProtocol::ProtocolIp6: `ip6_src` at 8, `ip6_dst` at 24, the next header at 6, and 40 bytes
  unfoldable pub protocol_ip6 : CapHandle → Frame → ℕ → S → Run (Seen S)
  protocol_ip6 h f at s = do
    src ← in_bounds (in6_at f.bytes (at + 8))
    dst ← in_bounds (in6_at f.bytes (at + 24))
    proto ← in_bounds (get_elem? f.bytes (at + 6))
    transport proto (set_context6 src dst h) f (at + 40) s

  -- CapProtocol::ProtocolIp: `version & 0xF0`
  unfoldable pub protocol_ip : CapHandle → Frame → S → Run (Seen S)
  protocol_ip h f s = if ltb f.len 1 then finished (record { ctx = h; state = s }) else do
    version ← in_bounds (get_elem? f.bytes 0)
    if version / 16 == 4
        then protocol_ip4 h f 0 s
        else if version / 16 == 6
        then protocol_ip6 h f 0 s
        else finished (record { ctx = h; state = s })

  -- CapProtocol::ProtocolEN10MB: ETHERTYPE_IP and ETHERTYPE_IPV6 behind the two addresses
  unfoldable pub protocol_en10mb : CapHandle → Frame → S → Run (Seen S)
  protocol_en10mb h f s = do
    protocol ← in_bounds (be16 f.bytes 12)
    if protocol == 0x0800
        then protocol_ip4 h f 14 s
        else if protocol == 0x86dd
        then protocol_ip6 h f 14 s
        else finished (record { ctx = h; state = s })

  -- CapProtocol::Parse
  unfoldable pub parse : CapHandle → Frame → S → Run (Seen S)
  unfolding protocol_ip protocol_en10mb protocol_ip4 protocol_ip6 transport
  parse h f s =
      if h.linktype == dlt_en10mb
      then protocol_en10mb h f s
      else if h.linktype == dlt_raw
      then protocol_ip h f s
      else finished (record { ctx = h; state = s })

  -- CapHandle::HandlePacket, the callback of pcap_dispatch: without a callback the frame is dropped.
  unfoldable pub handle_packet : CapHandle → Frame → S → Run (Seen S)
  handle_packet h f s = if h.callback then parse h f s else finished (record { ctx = h; state = s })

  -- The frames of one call of pcap_dispatch.
  unfoldable pub handle_packets : CapHandle → List Frame → S → Run (Seen S)
  handle_packets h [] s = finished (record { ctx = h; state = s })
  handle_packets h (f ∷ fs) s = do r ← handle_packet h f s; handle_packets r.ctx fs r.state
