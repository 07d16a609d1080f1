-- ===== src/Scan/Signs.antt =====
-- Numbers with a minus sign, letters where a number is expected, and runs of hexadecimal digits.
use capture.Prelude.{
  ℕ, zero, suc, ◌≤◌, ◌<◌, ◌≡◌, refl, true, false, [], ◌∷◌, ◌++◌, none, some, arith, leb, ◌==◌,
  length, length-append, inl, ◌∙◌, ap,
}
use capture.Text.{Str}
use capture.Scan.{
  clamp, Conversion, dec, hex, hex_set, span, non_empty, is_hex, text, mismatch, digit, digits,
  number, after_prefix, signed, is_space, skip_space, convert, got, num, span, non_empty, is_hex,
  hex_set, text,
}
use capture.Scan.Numbers.{
  IsDigits, is_digit, value_of, Breaks, digits-append, convert_numeric, break_no_digit,
}

-- A number with a minus sign.
number-minus :
    (k : Conversion) (w : ℕ) (s rest : Str)
    → IsDigits k s
    → Breaks rest
    → 0 < length s
    → length s ≤ w
    → number k true (w, s ++ rest) ≡ got (num (clamp k true (value_of k 0 s))) rest
unfolding number
number-minus k w s rest h b p l = rw (digits-append k w 0 0 s rest h b l) (ground (arith, p))

pub convert-minus :
    (s rest : Str)
    → IsDigits dec s
    → 0 < length s
    → Breaks rest
    → convert dec none (45 ∷ (s ++ rest)) ≡ got (num (clamp dec true (value_of dec 0 s))) rest
unfolding convert skip_space is_space signed after_prefix
convert-minus s rest h p b =
    number-minus dec (length (s ++ rest)) s rest h b p (omega (arith, length-append s rest))

letter_facts :
    (c : ℕ)
    → leb 65 c ≡ true
    → (is_space c ≡ false) × ((c == 45) ≡ false) × ((c == 43) ≡ false) × (digit dec c ≡ none)
unfolding is_space digit
letter_facts c h = ground arith

pub skip_space-letter : (c : ℕ) (s : Str) → leb 65 c ≡ true → skip_space (c ∷ s) ≡ c ∷ s
unfolding skip_space
skip_space-letter c s h = rw ((letter_facts c h).0) refl

signed-letter : (c : ℕ) (s : Str) → leb 65 c ≡ true → signed dec (length (c ∷ s)) (c ∷ s) ≡ mismatch
unfolding signed after_prefix number digits
signed-letter c s h = let q = letter_facts c h in ground (arith, q.1, q.2, q.3)

-- No number begins with a letter.
pub convert-letter : (c : ℕ) (s : Str) → leb 65 c ≡ true → convert dec none (c ∷ s) ≡ mismatch
convert-letter c s h =
    convert_numeric dec (c ∷ s) (inl refl)
    ∙ (ap (λ t. signed dec (length t) t) (skip_space-letter c s h) ∙ signed-letter c s h)

-- A run of hexadecimal digits with ":" or a blank behind it, as `%64[0-9A-Fa-f]` reads it.
span-digits :
    (w : ℕ) (s rest : Str)
    → IsDigits hex s
    → Breaks rest
    → length s ≤ w
    → span is_hex w (s ++ rest) ≡ (s, rest)
unfolding span is_digit digit
span-digits w [] [] h b l = refl
span-digits zero [] (c ∷ r) h b l = refl
span-digits (suc w) [] (c ∷ r) h b l = ground (arith, break_no_digit hex c b)
span-digits zero (c ∷ s) rest h b l = absurd (omega arith)
span-digits (suc w) (c ∷ s) rest h b l =
    rw (span-digits w s rest h.1 b (omega arith)) (ground (arith, h.0))

pub convert-hex_set :
    (w : ℕ) (s rest : Str)
    → IsDigits hex s
    → 0 < length s
    → Breaks rest
    → length s ≤ w
    → convert hex_set (some w) (s ++ rest) ≡ got (text s) rest
unfolding convert non_empty
convert-hex_set w [] rest h p b l = absurd (omega arith)
convert-hex_set w (c ∷ s) rest h p b l = rw (span-digits w (c ∷ s) rest h b l) refl
