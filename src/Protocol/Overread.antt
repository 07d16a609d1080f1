-- ===== src/Protocol/Overread.antt =====
-- Which frames are read behind their captured bytes.
use capture.Prelude.{
  ℕ, zero, suc, ◌+◌, ◌≤◌, ◌<◌, ◌≡◌, refl, true, List, [], ◌∷◌, none, some, arith, ◌==◌, length,
  get_elem?, Option-cases, inl, inr, ◌⊎◌, ◌∙◌,
}
use capture.Outcome.{overread}
use capture.Handle.{Frame, CapHandle}
use capture.Capture.Account.{be16}
use capture.Protocol.{Sink, dlt_en10mb, word_at, protocol_ip4, protocol_en10mb, parse}

get_elem?-none : {A : Type 0} (xs : List A) (i : ℕ) → length xs ≤ i → get_elem? xs i ≡ none
get_elem?-none [] i h = refl
get_elem?-none (x ∷ xs) zero h = absurd (omega arith)
get_elem?-none (x ∷ xs) (suc i) h = get_elem?-none xs i (omega arith)

be16-none : (b : List ℕ) (i : ℕ) → length b < i + 2 → be16 b i ≡ none
unfolding be16
be16-none b i h = ground (arith, get_elem?-none b (i + 1) (omega arith))

word_at-none : (b : List ℕ) (i : ℕ) → length b < i + 4 → word_at b i ≡ none
unfolding word_at
word_at-none b i h = ground (arith, get_elem?-none b (i + 3) (omega arith))

module _ {S : Type 0} (sink : Sink S) where
  -- An Ethernet frame of which less than the fourteen bytes of its own header are captured is read behind
  -- its end.
  ethernet-overread :
      (h : CapHandle) (f : Frame) (s : S)
      → length f.bytes < 14
      → protocol_en10mb sink h f s ≡ overread
  unfolding protocol_en10mb
  ethernet-overread h f s k = rw (be16-none f.bytes 12 (omega arith))

  ip4-overread :
      (h : CapHandle) (f : Frame) (at : ℕ) (s : S)
      → length f.bytes < at + 20
      → protocol_ip4 sink h f at s ≡ overread
  unfolding protocol_ip4
  ip4-overread h f at s k = elim (Option-cases (word_at f.bytes (at + 12))) [
    | inl e ↦ rw e
    | inr (x, e) ↦ rw (e, word_at-none f.bytes (at + 16) (omega arith))
  ]

  parse-ethernet :
      (h : CapHandle) (f : Frame) (s : S)
      → h.linktype ≡ dlt_en10mb
      → parse sink h f s ≡ protocol_en10mb sink h f s
  unfolding parse
  parse-ethernet h f s e = let b : (h.linktype == dlt_en10mb) ≡ true = ground arith in rw b refl

  en10mb-ip4 :
      (h : CapHandle) (f : Frame) (s : S)
      → be16 f.bytes 12 ≡ some 0x0800
      → protocol_en10mb sink h f s ≡ protocol_ip4 sink h f 14 s
  unfolding protocol_en10mb
  en10mb-ip4 h f s k = rw k refl

  -- A frame on an Ethernet device is read behind its captured bytes, whatever length it claims, if they are
  -- fewer than 14, or fewer than 34 with the type of IPv4.
  pub parse-overread :
      (h : CapHandle) (f : Frame) (s : S)
      → h.linktype ≡ dlt_en10mb
      → (length f.bytes < 14) ⊎ ((length f.bytes < 34) × (be16 f.bytes 12 ≡ some 0x0800))
      → parse sink h f s ≡ overread
  parse-overread h f s e (inl k) = parse-ethernet h f s e ∙ ethernet-overread h f s k
  parse-overread h f s e (inr k) =
      parse-ethernet h f s e ∙ (en10mb-ip4 h f s k.1 ∙ ip4-overread h f 14 s k.0)
