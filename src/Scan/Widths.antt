-- ===== src/Scan/Widths.antt =====
-- `%08X` and the like: as many digits as the width says, with more digits behind them.
use capture.Prelude.{
  ℕ, suc, ◌+◌, ◌*◌, ◌≡◌, sym, ap, ◌∙◌, [], ◌∷◌, ◌++◌, some, arith, length, Option-cases, inl, inr,
  false, true,
}
use capture.Text.{Str}
use capture.Scan.{
  clamp, Conversion, hex, digit, digits, base, number, after_prefix, signed, convert, got, num,
}
use capture.Scan.Numbers.{
  is_digit, IsDigits, value_of, digit_no_sign, is_digit_no_x, skip_space-digits,
}

digits_width :
    (k : Conversion) (acc n : ℕ) (s rest : Str)
    → IsDigits k s
    → digits k (length s) acc n (s ++ rest)
      ≡ record { value = value_of k acc s; count = n + length s; rest = rest }
unfolding digits value_of is_digit
digits_width k acc n [] [] h = ground arith
digits_width k acc n [] (c ∷ r) h = ground arith
digits_width k acc n (c ∷ s) rest h = elim (Option-cases (digit k c)) [
  | inl e ↦ absurd (ground (arith, h.0, e))
  | inr (d, e) ↦
      rw (e, digits) (digits_width k (acc * base k + d) (n + 1) s rest h.1 ∙ ground (arith, e))
]

number_width :
    (c : ℕ) (s rest : Str)
    → IsDigits hex (c ∷ s)
    → number hex false (suc (length s), c ∷ (s ++ rest))
      ≡ got (num (clamp hex false (value_of hex 0 (c ∷ s)))) rest
unfolding number
number_width c s rest h = rw (digits_width hex 0 0 (c ∷ s) rest h) (ground arith)

prefix_digits :
    (w c d : ℕ) (s : Str)
    → is_digit hex d ≡ true
    → after_prefix hex (suc (suc w)) (c ∷ d ∷ s) ≡ (suc (suc w), c ∷ d ∷ s)
unfolding after_prefix
prefix_digits w c d s h = ground (arith, is_digit_no_x d h)

signed_width :
    (c d : ℕ) (s rest : Str)
    → IsDigits hex (c ∷ d ∷ s)
    → signed hex (suc (suc (length s))) (c ∷ d ∷ (s ++ rest))
      ≡ got (num (clamp hex false (value_of hex 0 (c ∷ d ∷ s)))) rest
unfolding signed
signed_width c d s rest h =
    let q = digit_no_sign hex c h.0 in
    rw (q.0, q.1, prefix_digits (length s) c d (s ++ rest) h.1.0) (number_width c (d ∷ s) rest h)

-- A conversion that is as wide as a text of hexadecimal digits, of which there are at least two, reads them.
pub convert_width :
    (w : ℕ) (s rest : Str)
    → IsDigits hex s
    → length s ≡ suc (suc w)
    → convert hex (some (suc (suc w))) (s ++ rest)
      ≡ got (num (clamp hex false (value_of hex 0 s))) rest
unfolding convert
convert_width w [] rest h l = absurd (omega arith)
convert_width w (c ∷ []) rest h l = absurd (omega arith)
convert_width w (c ∷ d ∷ s) rest h l =
    ap (signed hex (suc (suc w))) (skip_space-digits hex (c ∷ d ∷ s) rest h (omega arith))
    ∙ ap (λ v. signed hex v (c ∷ d ∷ (s ++ rest))) (sym l)
    ∙ signed_width c d s rest h
