-- ===== src/Scan/Fields.antt =====
-- A scan field by field: how each directive advances over a number, a literal or a blank.
use capture.Prelude.{
  subst, ℕ, ◌<◌, ◌≤◌, ◌≡◌, refl, true, List, [], ◌∷◌, ◌++◌, Option, none, some, arith, length, ◌==◌,
  ap, ◌∙◌, zero, suc, false, suc, subst, leb,
}
use mathlib.Core.List.{append-nil}
use capture.Scan.Signs.{convert-hex_set}
use capture.Text.{Str, c_str}
use capture.Scan.{
  clamp, Conversion, hex, hex_set, word, Directive, lit, space, skip, conv, Scanned, Value, num,
  text, stored, scan, convert, skip_space, got, mismatch, input_end, Converted, sscanf,
}
use capture.Scan.Numbers.{
  IsNumeric, IsDigits, is_digit, is_break, value_of, blanks, skip_space-blanks, skip_space-digits,
  convert-number, digit_above,
}

pub scan-lit :
    (c : ℕ) (fmt : List Directive) (rest : Str) → scan (lit c ∷ fmt) (c ∷ rest) ≡ scan fmt rest
unfolding scan
scan-lit c fmt rest = ground arith

pub scan-skip :
    (k : Conversion) (w : Option ℕ) (s rest : Str) (v : Value) (fmt : List Directive)
    → convert k w s ≡ got v rest
    → scan (skip k w ∷ fmt) s ≡ scan fmt rest
unfolding scan
scan-skip k w s rest v fmt e = rw (e, scan) refl

pub scan-mismatch :
    (k : Conversion) (w : Option ℕ) (s : Str) (fmt : List Directive)
    → convert k w s ≡ mismatch
    → scan (skip k w ∷ fmt) s ≡ record { values = []; ended = false }
unfolding scan
scan-mismatch k w s fmt e = rw (e, scan) refl

pub scan-conv :
    (k : Conversion) (w : Option ℕ) (s rest : Str) (v : Value) (fmt : List Directive)
    → convert k w s ≡ got v rest
    → scan (conv k w ∷ fmt) s ≡ stored v (scan fmt rest)
unfolding scan
scan-conv k w s rest v fmt e = rw (e, scan) refl

module _ (k : Conversion) (i : IsNumeric k) (n : ℕ) (s : Str) (c : ℕ) (h : IsDigits k s)
    (p : 0 < length s) (b : is_break c ≡ true) where
  pub skip_number :
      (fmt : List Directive) (rest : Str)
      → scan (skip k none ∷ fmt) (blanks n (s ++ (c ∷ rest))) ≡ scan fmt (c ∷ rest)
  skip_number fmt rest =
      scan-skip k none (blanks n (s ++ (c ∷ rest))) (c ∷ rest) _ fmt
        (convert-number k n s (c ∷ rest) i h p b)

  pub conv_number :
      (fmt : List Directive) (rest : Str)
      → scan (conv k none ∷ fmt) (blanks n (s ++ (c ∷ rest)))
        ≡ stored (num (clamp k false (value_of k 0 s))) (scan fmt (c ∷ rest))
  conv_number fmt rest =
      scan-conv k none (blanks n (s ++ (c ∷ rest))) (c ∷ rest) _ fmt
        (convert-number k n s (c ∷ rest) i h p b)

-- A blank of the format takes the blanks before a number.
pub space_number :
    (k : Conversion) (n : ℕ) (s : Str)
    → IsDigits k s
    → 0 < length s
    → (fmt : List Directive) (rest : Str)
    → scan (space ∷ fmt) (blanks n (s ++ rest)) ≡ scan fmt (s ++ rest)
unfolding scan
space_number k n s h p fmt rest =
    ap (scan fmt) (skip_space-blanks n (s ++ rest) ∙ skip_space-digits k s rest h p)

pub conv_hex_set :
    (w : ℕ) (s : Str) (c : ℕ)
    → IsDigits hex s
    → 0 < length s
    → is_break c ≡ true
    → length s ≤ w
    → (fmt : List Directive) (rest : Str)
    → scan (conv hex_set (some w) ∷ fmt) (s ++ (c ∷ rest)) ≡ stored (text s) (scan fmt (c ∷ rest))
conv_hex_set w s c h p b l fmt rest =
    scan-conv hex_set (some w) (s ++ (c ∷ rest)) (c ∷ rest) _ fmt
      (convert-hex_set w s (c ∷ rest) h p b l)

-- The end of a format that stores nothing.
pub values-skip :
    (k : Conversion) (w : Option ℕ) (fmt : List Directive)
    → ((t : Str) → (scan fmt t).values ≡ [])
    → (s : Str) → (scan (skip k w ∷ fmt) s).values ≡ []
unfolding scan
values-skip k w fmt h s = unstored (convert k w s)
  where
    unstored :
        (r : Converted)
        → (elim r as (λ x. Scanned) [
          | got v t ↦ scan fmt t
          | mismatch ↦ record { values = []; ended = false }
          | input_end ↦ record { values = []; ended = true }
        ]).values
          ≡ []
    unstored (got v t) = h t
    unstored mismatch = refl
    unstored input_end = refl

pub values-space :
    (fmt : List Directive)
    → ((t : Str) → (scan fmt t).values ≡ [])
    → (s : Str) → (scan (space ∷ fmt) s).values ≡ []
unfolding scan
values-space fmt h s = h (skip_space s)

pub values-end : (s : Str) → (scan [] s).values ≡ []
unfolding scan
values-end s = refl

pub values-skip_word :
    (w : Option ℕ) (s : Str) → (scan (space ∷ skip word w ∷ space ∷ []) s).values ≡ []
values-skip_word w = values-space _ (values-skip word w (space ∷ []) (values-space [] values-end))

-- Digits and blanks are not the NUL that ends a C string.
digit_not_nul : (k : Conversion) (c : ℕ) → is_digit k c ≡ true → (c == 0) ≡ false
digit_not_nul k c h = ground (arith, digit_above k c h)

pub c_str-digits :
    (k : Conversion) (s : Str) → IsDigits k s → (t : Str) → c_str (s ++ t) ≡ s ++ c_str t
unfolding c_str
c_str-digits k [] h t = refl
c_str-digits k (c ∷ s) h t = rw (digit_not_nul k c h.0) (ap (◌∷◌ c) (c_str-digits k s h.1 t))

pub c_str-blanks : (n : ℕ) (t : Str) → c_str (blanks n t) ≡ blanks n (c_str t)
unfolding c_str
c_str-blanks zero t = refl
c_str-blanks (suc n) t = ap (◌∷◌ 32) (c_str-blanks n t)

pub c_str_blank : (t : Str) → c_str (32 ∷ t) ≡ 32 ∷ c_str t
unfolding c_str
c_str_blank t = refl

pub c_str_minus : (t : Str) → c_str (45 ∷ t) ≡ 45 ∷ c_str t
unfolding c_str
c_str_minus t = refl

pub c_str-letter : (c : ℕ) (t : Str) → leb 65 c ≡ true → c_str (c ∷ t) ≡ c ∷ c_str t
unfolding c_str
c_str-letter c t h = ground arith

pub c_str_colon : (t : Str) → c_str (58 ∷ t) ≡ 58 ∷ c_str t
unfolding c_str
c_str_colon t = refl

-- A text that is one number.
pub sscanf-digits :
    (k : Conversion) (s : Str)
    → IsNumeric k
    → IsDigits k s
    → 0 < length s
    → sscanf s (conv k none ∷ [])
      ≡ record { values = num (clamp k false (value_of k 0 s)) ∷ []; ended = false }
unfolding sscanf scan c_str
sscanf-digits k s i h p =
    subst
      (λ t.
        sscanf t (conv k none ∷ [])
        ≡ record { values = num (clamp k false (value_of k 0 s)) ∷ []; ended = false })
      (append-nil s)
      (rw (c_str-digits k s h [])
        (scan-conv k none (s ++ []) [] _ [] (convert-number k 0 s [] i h p tt)))
