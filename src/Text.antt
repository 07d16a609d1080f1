-- ===== src/Text.antt =====
-- Texts as lists of bytes: C strings, `std::to_string`, and the bounded copies of `strncpy`.
pub mod Decimal
pub mod Colons
use Prim.Native.Char.{code}
use Prim.Native.String.{String}
use mathlib.Core.Logic.{dite}
use mathlib.Core.WellFounded.{Acc}
use capture.Prelude.{
  ℕ, ◌+◌, ◌-◌, ◌/◌, ◌%◌, ◌^◌, ◌<◌, ◌≡◌, refl, List, [], ◌∷◌, ◌++◌, arith, dec_lt, ltb, ◌==◌,
  if◌then◌else◌, take,
}
use capture.Prelude.Order.{lt_wf}

abbrev pub Str : Type 0
Str = List ℕ

-- The bytes of a literal.
abbrev pub codes : String → Str
codes String.[] = []
codes (String.◌∷◌ c s) = code c ∷ codes s

-- A `char *` ends at its first NUL.
unfoldable pub c_str : Str → Str
c_str [] = []
c_str (c ∷ s) = let rest = c_str s in if c == 0 then [] else c ∷ rest

-- strncpy(dst, s, n) into zeroed memory that is longer than n: at most n bytes are kept.
unfoldable pub strncpy : Str → ℕ → Str
unfolding c_str
strncpy s n = take n (c_str s)

unfoldable pub emit : (n : ℕ) → Acc ◌<◌ n → Str → Str
emit n (Acc.intro _ smaller) out =
    dite (dec_lt 0 n) (λ h. emit (n / 10) (smaller (n / 10) (omega arith)) ((48 + n % 10) ∷ out))
      (λ _. out)

-- std::to_string of an unsigned number.
unfoldable pub to_string : ℕ → Str
unfolding emit lt_wf dec_lt
to_string n = if n == 0 then 48 ∷ [] else emit n (lt_wf.apply n) []

-- A 32 bit pattern printed as `int` (`%d`, std::to_string(int)).
unfoldable pub print_int : ℕ → Str
unfolding to_string
print_int n = if ltb n (2 ^ 31) then to_string n else 45 ∷ to_string (2 ^ 32 - n)

-- Texts behind their labels, as `<<` prints them one after the other.
abbrev pub labelled : List (Str × Str) → Str
labelled [] = []
labelled ((label, value) ∷ fields) = label ++ (value ++ labelled fields)

to_string_runs : to_string 40312 ≡ codes "40312"
unfolding to_string
to_string_runs = refl
