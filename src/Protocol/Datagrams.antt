-- ===== src/Protocol/Datagrams.antt =====
-- What the protocol layer makes of a frame: an IPv4 or IPv6 packet on an Ethernet or on a raw device.
use capture.Prelude.{ℕ, ◌/◌, ◌<◌, ◌≡◌, refl, List, ◌∷◌, ◌==◌, ltb, arith, if◌then◌else◌, false}
use capture.Inet.{In6}
use capture.Packet.{TimeVal}
use capture.Outcome.{Run, finished}
use capture.Handle.{Frame, PcapCtx, ip4, ip6, CapHandle, set_context4, set_context6}
use capture.Capture.Account.{be16}
use capture.Protocol.{Sink, Seen, dlt_en10mb, dlt_raw, word_at, in6_at, handed, parse}
use capture.Protocol.Headers.{Ip4Header, header_bytes, s_addr, LinkHeader, link_bytes, ethernet_ip4}

-- Sixteen bytes, in four words.
pub record Quads : Type 0 where
  pub first : ℕ × ℕ × ℕ × ℕ
  pub second : ℕ × ℕ × ℕ × ℕ
  pub third : ℕ × ℕ × ℕ × ℕ
  pub fourth : ℕ × ℕ × ℕ × ℕ

abbrev pub quads_bytes : Quads → List ℕ → List ℕ
quads_bytes q rest =
    q.first.0 ∷ q.first.1 ∷ q.first.2 ∷ q.first.3 ∷ q.second.0 ∷ q.second.1 ∷ q.second.2
    ∷ q.second.3 ∷ q.third.0 ∷ q.third.1 ∷ q.third.2 ∷ q.third.3 ∷ q.fourth.0 ∷ q.fourth.1
    ∷ q.fourth.2 ∷ q.fourth.3 ∷ rest

-- The in6_addr of sixteen bytes, in the words of a little-endian host.
abbrev pub in6_of : Quads → In6
in6_of q = record {
  w0 = s_addr q.first;
  w1 = s_addr q.second;
  w2 = s_addr q.third;
  w3 = s_addr q.fourth;
}

-- The forty bytes of an IPv6 header.
pub record Ip6Header : Type 0 where
  pub version : ℕ
  pub flow : ℕ × ℕ × ℕ
  pub size : ℕ × ℕ
  pub next : ℕ
  pub hops : ℕ
  pub src : Quads
  pub dst : Quads

abbrev pub header6_bytes : Ip6Header → List ℕ → List ℕ
header6_bytes h rest =
    h.version
    ∷ h.flow.0
    ∷ h.flow.1
    ∷ h.flow.2
    ∷ h.size.0
    ∷ h.size.1
    ∷ h.next
    ∷ h.hops
    ∷ quads_bytes h.src (quads_bytes h.dst rest)

pub data Datagram : Type 0 where
  v4 : Ip4Header → Datagram
  v6 : Ip6Header → Datagram

pub data LinkLayer : Type 0 where
  ethernet : LinkHeader → LinkLayer
  raw : LinkLayer

abbrev pub datagram_bytes : Datagram → List ℕ → List ℕ
datagram_bytes (v4 h) rest = header_bytes h rest
datagram_bytes (v6 h) rest = header6_bytes h rest

abbrev pub on_wire : LinkLayer → Datagram → List ℕ → List ℕ
on_wire (ethernet l) (v4 h) rest = link_bytes l 8 0 (header_bytes h rest)
on_wire (ethernet l) (v6 h) rest = link_bytes l 134 221 (header6_bytes h rest)
on_wire raw d rest = datagram_bytes d rest

abbrev pub link_type : LinkLayer → ℕ
link_type (ethernet l) = dlt_en10mb
link_type raw = dlt_raw

-- A raw frame is not empty, and begins with the version.
abbrev pub IsVersioned : LinkLayer → Datagram → ℕ → Type 0
IsVersioned (ethernet l) d n = Unit
IsVersioned raw (v4 h) n = (0 < n) × (h.version / 16 ≡ 4)
IsVersioned raw (v6 h) n = (0 < n) × (h.version / 16 ≡ 6)

-- The two addresses, the number of the transport protocol, and where its header stands.
abbrev pub ends_of : Datagram → PcapCtx
ends_of (v4 h) = ip4 (s_addr h.src) (s_addr h.dst)
ends_of (v6 h) = ip6 (in6_of h.src) (in6_of h.dst)

abbrev pub transport_of : Datagram → ℕ
transport_of (v4 h) = h.proto
transport_of (v6 h) = h.next

abbrev pub payload_at : LinkLayer → Datagram → ℕ
payload_at (ethernet l) (v4 h) = 34
payload_at (ethernet l) (v6 h) = 54
payload_at raw (v4 h) = 20
payload_at raw (v6 h) = 40

abbrev pub frame_of : LinkLayer → Datagram → List ℕ → ℕ → TimeVal → Frame
frame_of link d rest n ts = record { len = n; ts = ts; bytes = on_wire link d rest }

module _ {S : Type 0} (sink : Sink S) where
  -- Where a packet goes by the number of its protocol.
  abbrev pub delivered : ℕ → CapHandle → Frame → ℕ → S → Run (Seen S)
  delivered proto h f off s =
      if proto == 6
      then handed sink h (sink.tcp h.context f off s)
      else if proto == 17
      then handed sink h (sink.udp h.context f off s)
      else finished (record { ctx = h; state = s })

  -- A frame with an IPv4 or IPv6 packet, on an Ethernet device or a raw one, goes to ProcessTcp or ProcessUdp by
  -- its protocol number, with its two addresses as the context and the offset behind headers of 14, 20 and 40
  -- bytes, whatever lengths the headers state; any other protocol only sets the context. The raw frame is not
  -- empty, and begins with the version of its packet.
  pub parse_datagram :
      (h : CapHandle) (link : LinkLayer) (d : Datagram) (rest : List ℕ) (n : ℕ) (ts : TimeVal)
      (s : S)
      → h.linktype ≡ link_type link
      → IsVersioned link d n
      → parse sink h (frame_of link d rest n ts) s
        ≡ delivered
            (transport_of d)
            (record h { context = ends_of d })
            (frame_of link d rest n ts)
            (payload_at link d)
            s
  unfolding parse be16 word_at in6_at set_context4 set_context6
  parse_datagram h (ethernet l) (v4 ip) rest n ts s e v = ethernet_ip4 sink h l ip rest n ts s e
  parse_datagram h (ethernet l) (v6 ip) rest n ts s e v = rw e refl
  parse_datagram h raw (v4 ip) rest n ts s e v =
      let some_bytes : ltb n 1 ≡ false = ground arith in rw (e, some_bytes, v.1) refl
  parse_datagram h raw (v6 ip) rest n ts s e v =
      let some_bytes : ltb n 1 ≡ false = ground arith in rw (e, some_bytes, v.1) refl
