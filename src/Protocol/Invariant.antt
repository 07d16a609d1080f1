-- ===== src/Protocol/Invariant.antt =====
-- Invariants of the state behind a sink, through the layers of src/cap_protocol.cpp.
use capture.Prelude.{ℕ, ◌+◌, ◌/◌, List, [], ◌∷◌, ◌==◌, ltb, get_elem?}
use capture.Outcome.{Status, Run}
use capture.Outcome.Yields.{Yields, bind-Yields, read-Yields, if-Yields, finished-Yields}
use capture.Handle.{Frame, PcapCtx, CapHandle, set_context4, set_context6}
use capture.Capture.Account.{be16}
use capture.Protocol.{
  Sink, Seen, dlt_en10mb, dlt_raw, word_at, in6_at, handed, transport, protocol_ip4, protocol_ip6,
  protocol_ip, protocol_en10mb, parse, handle_packet, handle_packets,
}

module _ {κ} {S : Type 0} (sink : Sink S) (P : S → Type κ)
    (tcp : (ctx : PcapCtx) (f : Frame) (off : ℕ) (s : S)
      → P s
      → Yields (λ q. P q.state) (sink.tcp ctx f off s))
    (udp : (ctx : PcapCtx) (f : Frame) (off : ℕ) (s : S)
      → P s
      → Yields (λ q. P q.state) (sink.udp ctx f off s)) where
  -- The state that is seen next.
  abbrev Kept : Run (Seen S) → Type κ
  Kept r = Yields (λ q. P q.state) r

  handed-Kept :
      (h : CapHandle) (r : Run (Status S)) → Yields (λ q. P q.state) r → Kept (handed sink h r)
  handed-Kept h r k = bind-Yields r k λ q e. finished-Yields _ e

  transport-Kept :
      (n : ℕ) (h : CapHandle) (f : Frame) (off : ℕ) (s : S)
      → P s
      → Kept (transport sink n h f off s)
  unfolding transport
  transport-Kept n h f off s k =
      if-Yields (n == 6) (handed-Kept h _ (tcp h.context f off s k))
        (if-Yields (n == 17) (handed-Kept h _ (udp h.context f off s k)) (finished-Yields _ k))

  protocol_ip4-Kept :
      (h : CapHandle) (f : Frame) (at : ℕ) (s : S) → P s → Kept (protocol_ip4 sink h f at s)
  unfolding protocol_ip4
  protocol_ip4-Kept h f at s k = read-Yields (word_at f.bytes (at + 12)) λ src.
      read-Yields (word_at f.bytes (at + 16)) λ dst.
        read-Yields (get_elem? f.bytes (at + 9))
          λ n. transport-Kept n (set_context4 src dst h) f (at + 20) s k

  protocol_ip6-Kept :
      (h : CapHandle) (f : Frame) (at : ℕ) (s : S) → P s → Kept (protocol_ip6 sink h f at s)
  unfolding protocol_ip6
  protocol_ip6-Kept h f at s k = read-Yields (in6_at f.bytes (at + 8)) λ src.
      read-Yields (in6_at f.bytes (at + 24)) λ dst.
        read-Yields (get_elem? f.bytes (at + 6))
          λ n. transport-Kept n (set_context6 src dst h) f (at + 40) s k

  parse-Kept : (h : CapHandle) (f : Frame) (s : S) → P s → Kept (parse sink h f s)
  unfolding parse
  parse-Kept h f s k =
      if-Yields (h.linktype == dlt_en10mb) en10mb
        (if-Yields (h.linktype == dlt_raw) raw (finished-Yields _ k))
    where
      en10mb : Kept (protocol_en10mb sink h f s)
      en10mb =
          unfold protocol_en10mb in
          read-Yields (be16 f.bytes 12) λ n.
            if-Yields (n == 0x0800) (protocol_ip4-Kept h f 14 s k)
              (if-Yields (n == 0x86dd) (protocol_ip6-Kept h f 14 s k) (finished-Yields _ k))

      raw : Kept (protocol_ip sink h f s)
      raw =
          unfold protocol_ip in
          if-Yields (ltb f.len 1) (finished-Yields _ k) (
            read-Yields (get_elem? f.bytes 0) λ v.
              if-Yields (v / 16 == 4) (protocol_ip4-Kept h f 0 s k)
                (if-Yields (v / 16 == 6) (protocol_ip6-Kept h f 0 s k) (finished-Yields _ k)))

  pub handle_packets-Kept :
      (h : CapHandle) (fs : List Frame) (s : S)
      → P s
      → Yields (λ q. P q.state) (handle_packets sink h fs s)
  unfolding handle_packets handle_packet
  handle_packets-Kept h [] s k = finished-Yields _ k
  handle_packets-Kept h (f ∷ fs) s k =
      bind-Yields _ (if-Yields h.callback (parse-Kept h f s k) (finished-Yields _ k))
        λ q e. handle_packets-Kept q.ctx fs q.state e
