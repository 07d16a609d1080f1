-- ===== src/Scan/Words.antt =====
-- `%s` on a word with white space or nothing behind it.
use capture.Prelude.{
  ℕ, zero, suc, ◌<◌, ◌≤◌, ◌≡◌, refl, Bool, true, false, ◌&&◌, not, List, [], ◌∷◌, ◌++◌, none, arith,
  ◌==◌, length, length-append, ◌∙◌, ap, Bool-cases, inl, inr,
}
use capture.Text.{Str, c_str}
use capture.Scan.Fields.{scan-conv, scan-skip}
use capture.Scan.Keys.{
  is_key, is_gap, spaces, c_str-key, c_str-gap, scan-own, scan-spaces, skip_space-gap,
}
use capture.Scan.{
  Directive, skip, space, lit, lits, conv, scan, sscanf, word, span, not_space, is_space,
  skip_space, convert, non_empty, got, text,
}

-- No white space and no NUL.
unfoldable pub is_word : Str → Bool
is_word [] = true
is_word (c ∷ s) = not (is_space c) && (not (c == 0) && is_word s)

-- White space or the end.
abbrev pub SpaceNext : Str → Type 0
SpaceNext [] = Unit
SpaceNext (c ∷ s) = is_space c ≡ true

span-word :
    (n : ℕ) (w rest : Str)
    → is_word w ≡ true
    → SpaceNext rest
    → length w ≤ n
    → span not_space n (w ++ rest) ≡ (w, rest)
unfolding span is_word not_space
span-word n [] [] h b l = refl
span-word zero [] (c ∷ r) h b l = refl
span-word (suc n) [] (c ∷ r) h b l = rw b refl
span-word zero (c ∷ w) rest h b l = absurd (omega arith)
span-word (suc n) (c ∷ w) rest h b l =
    rw (span-word n w rest (ground (arith, h)) b (omega arith)) (ground (arith, h))

pub skip_space-word :
    (w rest : Str) → is_word w ≡ true → 0 < length w → skip_space (w ++ rest) ≡ w ++ rest
unfolding skip_space is_word
skip_space-word [] rest h p = absurd (omega arith)
skip_space-word (c ∷ w) rest h p = ground (arith, h)

pub c_str-word : (w rest : Str) → is_word w ≡ true → c_str (w ++ rest) ≡ w ++ c_str rest
unfolding c_str is_word
c_str-word [] rest h = refl
c_str-word (c ∷ w) rest h = ground (arith, c_str-word w rest)

pub convert-word :
    (w rest : Str)
    → is_word w ≡ true
    → 0 < length w
    → SpaceNext rest
    → convert word none (w ++ rest) ≡ got (text w) rest
unfolding convert non_empty
convert-word [] rest h p b = absurd (omega arith)
convert-word (c ∷ w) rest h p b =
    rw
      (
        skip_space-word (c ∷ w) rest h p,
        convert,
        span-word (length (c ∷ (w ++ rest))) (c ∷ w) rest h b (omega (arith, length-append w rest)),
      )
      refl

SpaceNext-c_str : (s : Str) → SpaceNext s → SpaceNext (c_str s)
unfolding c_str is_space
SpaceNext-c_str [] h = tt
SpaceNext-c_str (c ∷ s) h = elim (Bool-cases (c == 0)) [
  | inl e ↦ rw (e, c_str) tt
  | inr e ↦ rw (e, c_str) h
]

-- A line that states a word under the key of the format.
pub sscanf-word_line :
    (l : Str) (g k : ℕ) (w rest : Str)
    → is_key l ≡ true
    → is_gap g ≡ true
    → is_word w ≡ true
    → 0 < length w
    → SpaceNext rest
    → sscanf
        (l ++ (58 ∷ g ∷ (w ++ rest)))
        (lits l ++ (lit 58 ∷ spaces (suc k) (conv word none ∷ [])))
      ≡ record { values = text w ∷ []; ended = false }
unfolding sscanf scan
sscanf-word_line l g k w rest hl hg hw p hr =
    let r = c_str rest in
    ap (scan (lits l ++ (lit 58 ∷ spaces (suc k) (conv word none ∷ [])))) (
      c_str-key l (g ∷ (w ++ rest)) hl
      ∙ ap (λ t. l ++ (58 ∷ t)) (c_str-gap g 0 (w ++ rest) hg ∙ ap (◌∷◌ g) (c_str-word w rest hw)))
    ∙ (scan-own l _ _ hl
        ∙ (scan-spaces k (conv word none ∷ []) (g ∷ (w ++ r))
            ∙ (ap (scan (conv word none ∷ []))
                  (skip_space-gap g 0 (w ++ r) hg ∙ skip_space-word w r hw p)
                ∙ scan-conv word none (w ++ r) r (text w) []
                    (convert-word w r hw p (SpaceNext-c_str rest hr)))))

-- The text goes on with something that is not white space.
abbrev pub Dense : Str → Type 0
Dense s = skip_space s ≡ s

pub Dense-minus : (s : Str) → Dense (45 ∷ s)
unfolding skip_space is_space
Dense-minus s = refl

-- A blank of the format and one of the text.
pub scan-blank :
    (fmt : List Directive) (s : Str) → Dense s → scan (space ∷ fmt) (32 ∷ s) ≡ scan fmt s
unfolding scan skip_space is_space
scan-blank fmt s h = ap (scan fmt) h

pub scan-skip_word :
    (w : Str) (fmt : List Directive) (rest : Str)
    → is_word w ≡ true
    → 0 < length w
    → Dense rest
    → scan (skip word none ∷ space ∷ fmt) (w ++ (32 ∷ rest)) ≡ scan fmt rest
unfolding is_space
scan-skip_word w fmt rest h p d =
    scan-skip word none (w ++ (32 ∷ rest)) (32 ∷ rest) _ _ (convert-word w (32 ∷ rest) h p refl)
    ∙ scan-blank fmt rest d
