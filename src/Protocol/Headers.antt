-- ===== src/Protocol/Headers.antt =====
-- What the protocol layer makes of a frame: the ends and the place of the transport header.
use capture.Prelude.{ℕ, ◌+◌, ◌*◌, ◌≡◌, refl, List, ◌∷◌, ◌==◌, if◌then◌else◌}
use capture.Packet.{TimeVal}
use capture.Outcome.{finished}
use capture.Handle.{Frame, ip4, CapHandle, set_context4}
use capture.Capture.Account.{be16}
use capture.Protocol.{Sink, dlt_en10mb, word_at, handed, parse}

-- An Ethernet frame with an IPv4 packet: the two link addresses, the type, the twenty bytes of a header,
-- and what follows.
pub record Ip4Header : Type 0 where
  pub version : ℕ
  pub tos : ℕ
  pub size : ℕ × ℕ
  pub ident : ℕ × ℕ
  pub fragment : ℕ × ℕ
  pub ttl : ℕ
  pub proto : ℕ
  pub checksum : ℕ × ℕ
  pub src : ℕ × ℕ × ℕ × ℕ
  pub dst : ℕ × ℕ × ℕ × ℕ

abbrev pub header_bytes : Ip4Header → List ℕ → List ℕ
header_bytes h rest =
    h.version ∷ h.tos ∷ h.size.0 ∷ h.size.1 ∷ h.ident.0 ∷ h.ident.1 ∷ h.fragment.0 ∷ h.fragment.1
    ∷ h.ttl ∷ h.proto ∷ h.checksum.0 ∷ h.checksum.1 ∷ h.src.0 ∷ h.src.1 ∷ h.src.2 ∷ h.src.3
    ∷ h.dst.0 ∷ h.dst.1 ∷ h.dst.2 ∷ h.dst.3 ∷ rest

-- The `s_addr` of four bytes on a little-endian host.
abbrev pub s_addr : ℕ × ℕ × ℕ × ℕ → ℕ
s_addr a = a.0 + 256 * a.1 + 65536 * a.2 + 16777216 * a.3

pub record LinkHeader : Type 0 where
  pub dest : ℕ × ℕ × ℕ × ℕ × ℕ × ℕ
  pub source : ℕ × ℕ × ℕ × ℕ × ℕ × ℕ

abbrev pub link_bytes : LinkHeader → ℕ → ℕ → List ℕ → List ℕ
link_bytes l hi lo rest =
    l.dest.0 ∷ l.dest.1 ∷ l.dest.2 ∷ l.dest.3 ∷ l.dest.4 ∷ l.dest.5 ∷ l.source.0 ∷ l.source.1
    ∷ l.source.2 ∷ l.source.3 ∷ l.source.4 ∷ l.source.5 ∷ hi ∷ lo ∷ rest

module _ {S : Type 0} (sink : Sink S) where
  -- An Ethernet frame with an IPv4 packet goes to ProcessTcp or ProcessUdp by its protocol number, with
  -- its two addresses as the context and the offset 34, whatever the length that its header states; any
  -- other protocol only sets the context.
  pub ethernet_ip4 :
      (h : CapHandle) (l : LinkHeader) (ip : Ip4Header) (rest : List ℕ) (n : ℕ) (ts : TimeVal)
      (s : S)
      → h.linktype ≡ dlt_en10mb
      → let f : Frame = record {
        len = n;
        ts = ts;
        bytes = link_bytes l 8 0 (header_bytes ip rest);
      } in
        let ctx = ip4 (s_addr ip.src) (s_addr ip.dst) in
        let h' = record h { context = ctx } in
        parse sink h f s ≡ (
          if ip.proto == 6
          then handed sink h' (sink.tcp ctx f 34 s)
          else if ip.proto == 17
          then handed sink h' (sink.udp ctx f 34 s)
          else finished (record { ctx = h'; state = s }))
  unfolding parse be16 word_at set_context4
  ethernet_ip4 h l ip rest n ts s e = rw e refl
