-- ===== src/Scan/Printed.antt =====
-- Numbers that were printed are read back: `std::to_string` and `%d`.
use mathlib.Core.Logic.{dif_pos, dif_neg}
use mathlib.Core.WellFounded.{Acc}
use native.Mathlib.Nat.{pow-suc}
use native.Mathlib.Bridge.{le_prop}
use capture.Prelude.{
  zero, ℕ, ◌+◌, ◌/◌, ◌%◌, ◌^◌, ◌≤◌, ◌<◌, ◌≡◌, refl, some, [], ◌∷◌, ◌++◌, none, arith, ◌==◌, length,
  dec_lt, All, Bool-cases, inl, inr, ◌∙◌, ap, suc, if◌then◌else◌, ltb, leb, ◌⊎◌, subst, ◌&&◌, sym,
  ◌*◌, ◌-◌, false,
}
use capture.Prelude.Order.{lt_wf}
use capture.Text.{Str, emit, to_string}
use capture.Text.Decimal.{IsDigit, to_string-All}
use capture.Scan.{
  Conversion, udec, clamp, dec, hex, digit, convert, got, num, Conversion, udec, clamp,
}
use capture.Scan.Numbers.{
  is_digit, IsDigits, value_of, Breaks, blanks, convert-number, limit, clamp-limit,
}

digit_of : (d : ℕ) → d < 10 → digit dec (48 + d) ≡ some d
unfolding digit
digit_of d h = ground arith

value-emit :
    (n : ℕ) (w : Acc ◌<◌ n) (out : Str) → value_of dec 0 (emit n w out) ≡ value_of dec n out
unfolding emit value_of
value-emit n (Acc.intro _ smaller) out = elim (dec_lt 0 n) [
  | yes p ↦ rw (dif_pos _ le_prop p) (
      value-emit (n / 10) (smaller (n / 10) _) ((48 + n % 10) ∷ out)
      ∙ rw (digit_of (n % 10) (omega arith), value_of) (ap (λ m. value_of dec m out) (omega arith)))
  | no p ↦ rw (dif_neg _ p) (ap (λ m. value_of dec m out) (omega arith))
]

pub value-to_string : (n : ℕ) → value_of dec 0 (to_string n) ≡ n
unfolding to_string value_of digit
value-to_string n = elim (Bool-cases (n == 0)) [
  | inl e ↦ rw e (ground (arith, e))
  | inr e ↦ rw e (value-emit n (lt_wf.apply n) [])
]

IsDigits-All : (s : Str) → All IsDigit s → IsDigits dec s
unfolding is_digit digit
IsDigits-All [] h = tt
IsDigits-All (c ∷ s) h = (ground (arith, h.0), IsDigits-All s h.1)

pub to_string-IsDigits : (n : ℕ) → IsDigits dec (to_string n)
to_string-IsDigits n = IsDigits-All (to_string n) (to_string-All n)

le_of_suc : (a b : ℕ) → suc a ≤ b → a ≤ b
le_of_suc a b h = omega arith

emit-grows : (n : ℕ) (w : Acc ◌<◌ n) (out : Str) → length out ≤ length (emit n w out)
unfolding emit
emit-grows n (Acc.intro _ smaller) out = elim (dec_lt 0 n) [
  | yes p ↦
      rw (dif_pos _ le_prop p)
        (le_of_suc _ _ (emit-grows (n / 10) (smaller (n / 10) _) ((48 + n % 10) ∷ out)))
  | no p ↦ rw (dif_neg _ p) (omega arith)
]

emit-some : (n : ℕ) (w : Acc ◌<◌ n) → 0 < n → 0 < length (emit n w [])
unfolding emit
emit-some n (Acc.intro _ smaller) h =
    rw (dif_pos _ le_prop h) (emit-grows (n / 10) (smaller (n / 10) _) ((48 + n % 10) ∷ []))

pub to_string_some : (n : ℕ) → 0 < length (to_string n)
unfolding to_string
to_string_some n = elim (Bool-cases (n == 0)) [
  | inl e ↦ rw e (omega arith)
  | inr e ↦ rw e (emit-some n (lt_wf.apply n) (ground (arith, e)))
]

-- `%d` and `%u` take the same digits.
abbrev pub IsDecimal : Conversion → Type 0
IsDecimal k = (k ≡ dec) ⊎ (k ≡ udec)

udec-IsDigits : (s : Str) → IsDigits dec s → IsDigits udec s
unfolding is_digit digit
udec-IsDigits [] h = tt
udec-IsDigits (c ∷ s) h = (h.0, udec-IsDigits s h.1)

value_of-udec : (acc : ℕ) (s : Str) → value_of udec acc s ≡ value_of dec acc s
unfolding value_of digit
value_of-udec acc [] = refl
value_of-udec acc (c ∷ s) = elim (Bool-cases (leb 48 c && leb c 57)) [
  | inl e ↦ rw (e, value_of) (value_of-udec (acc * 10 + (c - 48)) s)
  | inr e ↦ rw (e, value_of) refl
]

-- `%d` of any number, which stays in its range.
pub convert-clamped :
    (b n : ℕ) (rest : Str)
    → Breaks rest
    → convert dec none (blanks b (to_string n ++ rest)) ≡ got (num (clamp dec false n)) rest
convert-clamped b n rest h =
    convert-number dec b (to_string n) rest (inl refl) (to_string-IsDigits n) (to_string_some n) h
    ∙ ap (λ m. got (num (clamp dec false m)) rest) (value-to_string n)

pub convert-to_string :
    (k : Conversion) (b n : ℕ) (rest : Str)
    → IsDecimal k
    → Breaks rest
    → n < limit k
    → convert k none (blanks b (to_string n ++ rest)) ≡ got (num n) rest
convert-to_string k b n rest (inl e) h l =
    subst (λ j. n < limit j → convert j none (blanks b (to_string n ++ rest)) ≡ got (num n) rest)
      (sym e) (λ g. convert-clamped b n rest h ∙ ap (λ m. got (num m) rest) (clamp-limit dec n g)) l
convert-to_string k b n rest (inr e) h l =
    subst (λ j. n < limit j → convert j none (blanks b (to_string n ++ rest)) ≡ got (num n) rest)
      (sym e)
      (λ g.
        convert-number udec b (to_string n) rest (inr (inr refl))
          (udec-IsDigits (to_string n) (to_string-IsDigits n)) (to_string_some n) h
        ∙ ap (λ m. got (num m) rest)
            (ap (clamp udec false) (value_of-udec 0 (to_string n) ∙ value-to_string n)
              ∙ clamp-limit udec n g))
      l

-- `%0wX` of a number that `w` digits hold, with `out` behind it.
abbrev hex_digit : ℕ → ℕ
hex_digit d = if ltb d 10 then 48 + d else 55 + d

unfoldable hex_onto : ℕ → ℕ → Str → Str
hex_onto zero n out = out
hex_onto (suc w) n out = hex_onto w (n / 16) (hex_digit (n % 16) ∷ out)

unfoldable pub hex_text : ℕ → ℕ → Str
unfolding hex_onto
hex_text w n = hex_onto w n []

digit_hex : (d : ℕ) → d < 16 → digit hex (hex_digit d) ≡ some d
unfolding digit
digit_hex d h = ground arith

value-hex_onto :
    (w n : ℕ) (out : Str) → n < 16 ^ w → value_of hex 0 (hex_onto w n out) ≡ value_of hex n out
unfolding hex_onto value_of
value-hex_onto zero n out h = ap (λ m. value_of hex m out) (omega arith)
value-hex_onto (suc w) n out h =
    value-hex_onto w (n / 16) (hex_digit (n % 16) ∷ out) (omega (arith, pow-suc 16 w))
    ∙ rw (digit_hex (n % 16) (omega arith), value_of) (ap (λ m. value_of hex m out) (omega arith))

hex_onto-IsDigits : (w n : ℕ) (out : Str) → IsDigits hex out → IsDigits hex (hex_onto w n out)
unfolding hex_onto is_digit
hex_onto-IsDigits zero n out h = h
hex_onto-IsDigits (suc w) n out h =
    hex_onto-IsDigits w (n / 16) (hex_digit (n % 16) ∷ out)
      (rw (digit_hex (n % 16) (omega arith), is_digit) refl, h)

length-hex_onto : (w n : ℕ) (out : Str) → length (hex_onto w n out) ≡ w + length out
unfolding hex_onto
length-hex_onto zero n out = omega arith
length-hex_onto (suc w) n out = omega (arith, length-hex_onto w (n / 16) (hex_digit (n % 16) ∷ out))

pub value-hex_text : (w n : ℕ) → n < 16 ^ w → value_of hex 0 (hex_text w n) ≡ n
unfolding hex_text value_of
value-hex_text w n h = value-hex_onto w n [] h

pub hex_text-IsDigits : (w n : ℕ) → IsDigits hex (hex_text w n)
unfolding hex_text
hex_text-IsDigits w n = hex_onto-IsDigits w n [] tt

pub length-hex_text : (w n : ℕ) → length (hex_text w n) ≡ w
unfolding hex_text
length-hex_text w n = omega (arith, length-hex_onto w n [])
