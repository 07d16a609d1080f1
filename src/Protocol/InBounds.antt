-- ===== src/Protocol/InBounds.antt =====
-- Frames that the layers of src/cap_protocol.cpp read within their captured bytes.
use capture.Prelude.{
  ℕ, zero, suc, ◌+◌, ◌/◌, ◌≤◌, ◌<◌, ◌≡◌, refl, List, [], ◌∷◌, some, arith, ltb, ◌==◌, length,
  get_elem?, All,
}
use capture.Outcome.{Status, Run}
use capture.Outcome.Finishes.{Finishes, bind-Finishes, read-Finishes, if-Finishes}
use capture.Handle.{Frame, PcapCtx, CapHandle, set_context4, set_context6}
use capture.Capture.Account.{be16}
use capture.Inet.{In6}
use capture.Protocol.{
  Sink, Seen, dlt_en10mb, dlt_raw, word_at, in6_at, handed, transport, protocol_ip4, protocol_ip6,
  protocol_ip, protocol_en10mb, parse, handle_packet, handle_packets,
}

get_elem?-some :
    {A : Type 0} (xs : List A) (i : ℕ) → i < length xs → (x : A) × (get_elem? xs i ≡ some x)
get_elem?-some [] i h = absurd (omega arith)
get_elem?-some (x ∷ xs) zero h = (x, refl)
get_elem?-some (x ∷ xs) (suc i) h = get_elem?-some xs i (omega arith)

pub be16-some : (b : List ℕ) (i : ℕ) → i + 2 ≤ length b → (n : ℕ) × (be16 b i ≡ some n)
unfolding be16
be16-some b i h =
    let x = get_elem?-some b i (omega arith) in
    let y = get_elem?-some b (i + 1) (omega arith) in rw (x.1, be16, y.1) (_, refl)

word_at-some : (b : List ℕ) (i : ℕ) → i + 4 ≤ length b → (n : ℕ) × (word_at b i ≡ some n)
unfolding word_at
word_at-some b i h =
    let x = get_elem?-some b i (omega arith) in
    let y = get_elem?-some b (i + 1) (omega arith) in
    let z = get_elem?-some b (i + 2) (omega arith) in
    let w = get_elem?-some b (i + 3) (omega arith) in rw (x.1, word_at, y.1, z.1, w.1) (_, refl)

in6_at-some : (b : List ℕ) (i : ℕ) → i + 16 ≤ length b → (a : In6) × (in6_at b i ≡ some a)
unfolding in6_at
in6_at-some b i h =
    let x = word_at-some b i (omega arith) in
    let y = word_at-some b (i + 4) (omega arith) in
    let z = word_at-some b (i + 8) (omega arith) in
    let w = word_at-some b (i + 12) (omega arith) in rw (x.1, in6_at, y.1, z.1, w.1) (_, refl)

-- A sink that finishes on packets whose two ports are captured, and keeps an invariant.
module _ {κ} {S : Type 0} (sink : Sink S) (P : S → Type κ)
    (tcp : (ctx : PcapCtx) (f : Frame) (off : ℕ) (s : S)
      → off + 4 ≤ length f.bytes
      → P s
      → Finishes (λ q. P q.state) (sink.tcp ctx f off s))
    (udp : (ctx : PcapCtx) (f : Frame) (off : ℕ) (s : S)
      → off + 4 ≤ length f.bytes
      → P s
      → Finishes (λ q. P q.state) (sink.udp ctx f off s)) where
  abbrev pub Seeing : Run (Seen S) → Type κ
  Seeing r = Finishes (λ q. P q.state) r

  handed-Finishes :
      (h : CapHandle) (r : Run (Status S)) → Finishes (λ q. P q.state) r → Seeing (handed sink h r)
  handed-Finishes h r k = bind-Finishes (λ q. P q.state) (λ q. P q.state) r _ k λ q e. (_, refl, e)

  transport-Finishes :
      (n : ℕ) (h : CapHandle) (f : Frame) (off : ℕ) (s : S)
      → off + 4 ≤ length f.bytes
      → P s
      → Seeing (transport sink n h f off s)
  unfolding transport
  transport-Finishes n h f off s b k =
      if-Finishes _ (n == 6) (handed-Finishes h _ (tcp h.context f off s b k))
        (if-Finishes _ (n == 17) (handed-Finishes h _ (udp h.context f off s b k)) (_, refl, k))

  protocol_ip4-Finishes :
      (h : CapHandle) (f : Frame) (at : ℕ) (s : S)
      → at + 24 ≤ length f.bytes
      → P s
      → Seeing (protocol_ip4 sink h f at s)
  unfolding protocol_ip4
  protocol_ip4-Finishes h f at s b k =
      read-Finishes _ (word_at f.bytes (at + 12)) _ (word_at-some f.bytes (at + 12) (omega arith))
        λ src.
          read-Finishes _ (word_at f.bytes (at + 16)) _
            (word_at-some f.bytes (at + 16) (omega arith))
            λ dst.
              read-Finishes _ (get_elem? f.bytes (at + 9)) _
                (get_elem?-some f.bytes (at + 9) (omega arith))
                λ n. transport-Finishes n (set_context4 src dst h) f (at + 20) s (omega arith) k

  protocol_ip6-Finishes :
      (h : CapHandle) (f : Frame) (at : ℕ) (s : S)
      → at + 44 ≤ length f.bytes
      → P s
      → Seeing (protocol_ip6 sink h f at s)
  unfolding protocol_ip6
  protocol_ip6-Finishes h f at s b k =
      read-Finishes _ (in6_at f.bytes (at + 8)) _ (in6_at-some f.bytes (at + 8) (omega arith))
        λ src.
          read-Finishes _ (in6_at f.bytes (at + 24)) _ (in6_at-some f.bytes (at + 24) (omega arith))
            λ dst.
              read-Finishes _ (get_elem? f.bytes (at + 6)) _
                (get_elem?-some f.bytes (at + 6) (omega arith))
                λ n. transport-Finishes n (set_context6 src dst h) f (at + 40) s (omega arith) k

  protocol_en10mb-Finishes :
      (h : CapHandle) (f : Frame) (s : S)
      → 58 ≤ length f.bytes
      → P s
      → Seeing (protocol_en10mb sink h f s)
  unfolding protocol_en10mb
  protocol_en10mb-Finishes h f s b k =
      read-Finishes _ (be16 f.bytes 12) _ (be16-some f.bytes 12 (omega arith)) λ n.
        if-Finishes _ (n == 0x0800) (protocol_ip4-Finishes h f 14 s (omega arith) k) (
          if-Finishes _ (n == 0x86dd) (protocol_ip6-Finishes h f 14 s (omega arith) k) (_, refl, k))

  protocol_ip-Finishes :
      (h : CapHandle) (f : Frame) (s : S)
      → 58 ≤ length f.bytes
      → P s
      → Seeing (protocol_ip sink h f s)
  unfolding protocol_ip
  protocol_ip-Finishes h f s b k =
      if-Finishes _ (ltb f.len 1) (_, refl, k)
        (read-Finishes _ (get_elem? f.bytes 0) _ (get_elem?-some f.bytes 0 (omega arith)) λ v.
          if-Finishes _ (v / 16 == 4) (protocol_ip4-Finishes h f 0 s (omega arith) k) (
            if-Finishes _ (v / 16 == 6) (protocol_ip6-Finishes h f 0 s (omega arith) k)
              (_, refl, k)))

  -- A frame of which at least 58 bytes are captured, an Ethernet, an IPv6 header and the two ports, is read
  -- within its captured bytes, whatever they are and whatever the link type is; so Parse finishes, if the sink
  -- does for packets whose ports are captured.
  pub parse_in_bounds :
      (h : CapHandle) (f : Frame) (s : S)
      → 58 ≤ length f.bytes
      → P s
      → Finishes (λ q. P q.state) (parse sink h f s)
  unfolding parse
  parse_in_bounds h f s b k =
      if-Finishes _ (h.linktype == dlt_en10mb) (protocol_en10mb-Finishes h f s b k)
        (if-Finishes _ (h.linktype == dlt_raw) (protocol_ip-Finishes h f s b k) (_, refl, k))

  pub handle_packets-Finishes :
      (h : CapHandle) (fs : List Frame) (s : S)
      → All (λ f. 58 ≤ length f.bytes) fs
      → P s
      → Seeing (handle_packets sink h fs s)
  unfolding handle_packets handle_packet
  handle_packets-Finishes h [] s b k = (_, refl, k)
  handle_packets-Finishes h (f ∷ fs) s b k =
      bind-Finishes (λ q. P q.state) (λ q. P q.state) _ _
        (if-Finishes _ h.callback (parse_in_bounds h f s b.0 k) (_, refl, k))
        λ q e. handle_packets-Finishes q.ctx fs q.state b.1 e
