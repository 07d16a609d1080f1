-- ===== src/Text/Colons.antt =====
-- How many ":" a text has, which tells the two kinds of keys apart.
use capture.Prelude.{
  ℕ, ◌+◌, ◌-◌, ◌^◌, ◌≡◌, refl, [], ◌∷◌, ◌++◌, arith, ◌==◌, if◌then◌else◌, All, false,
}
use capture.Text.{Str, to_string, print_int}
use capture.Text.Decimal.{IsDigit, to_string-All}

unfoldable pub colons : Str → ℕ
colons [] = 0
colons (c ∷ s) = (if c == 58 then 1 else 0) + colons s

pub colons-append : (s t : Str) → colons (s ++ t) ≡ colons s + colons t
unfolding colons
colons-append [] t = omega arith
colons-append (c ∷ s) t = ground (arith, colons-append s t)

pub colons-plain : (s : Str) → All (λ c. (c == 58) ≡ false) s → colons s ≡ 0
unfolding colons
colons-plain [] h = refl
colons-plain (c ∷ s) h = ground (arith, colons-plain s h.1)

colons-digits : (s : Str) → All IsDigit s → colons s ≡ 0
unfolding colons
colons-digits [] h = refl
colons-digits (c ∷ s) h = ground (arith, colons-digits s h.1)

pub colons-to_string : (n : ℕ) → colons (to_string n) ≡ 0
colons-to_string n = colons-digits (to_string n) (to_string-All n)

pub colons-print_int : (n : ℕ) → colons (print_int n) ≡ 0
unfolding print_int colons
colons-print_int n = ground (arith, colons-to_string n, colons-to_string (2 ^ 32 - n))

pub ruleset colon_counts = (colons-append, colons-to_string, colons-print_int)
