-- ===== src/Scan.antt =====
-- The part of `sscanf` that the program uses: white space, literals, `%d` and `%u` in every width (`dec`, `udec`),
-- `%X`, `%s` and `%[0-9A-Fa-f]`, with widths and suppression.
pub mod Numbers
pub mod Signs
pub mod Printed
pub mod Fields
pub mod Keys
pub mod Words
pub mod Ints
pub mod Widths
use capture.Prelude.{
  ℕ, zero, suc, ◌+◌, ◌-◌, ◌*◌, ◌%◌, ◌^◌, ◌≡◌, refl, Bool, true, false, ◌&&◌, ◌||◌, List, [], ◌∷◌,
  ◌++◌, Option, none, some, leb, ltb, ◌==◌, if◌then◌else◌, length,
}
use capture.Text.{Str, codes, c_str}

pub data Conversion : Type 0 where
  dec udec hex word hex_set : Conversion

pub data Directive : Type 0 where
  space : Directive
  lit : ℕ → Directive
  conv skip : Conversion → Option ℕ → Directive

-- Literal characters of a format; a blank stands for any white space.
unfoldable pub lits : Str → List Directive
lits [] = []
lits (c ∷ s) = (if c == 32 || c == 10 then space else lit c) ∷ lits s

-- What a conversion stores: a number as its 64 bit pattern, or a text.
pub data Value : Type 0 where
  num : ℕ → Value
  text : Str → Value

-- How a conversion ends. `input_end` is C's input failure, `mismatch` its matching failure.
pub data Converted : Type 0 where
  got : Value → Str → Converted
  mismatch input_end : Converted

unfoldable pub is_space : ℕ → Bool
is_space c = c == 32 || (leb 9 c && leb c 13)

unfoldable pub skip_space : Str → Str
unfolding is_space
skip_space [] = []
skip_space (c ∷ s) = let rest = skip_space s in if is_space c then rest else c ∷ s

unfoldable pub digit : Conversion → ℕ → Option ℕ
digit hex c =
    if leb 48 c && leb c 57
    then some (c - 48)
    else if leb 65 c && leb c 70
    then some (c - 55)
    else if leb 97 c && leb c 102
    then some (c - 87)
    else none
digit _ c = if leb 48 c && leb c 57 then some (c - 48) else none

abbrev pub base : Conversion → ℕ
base hex = 16
base _ = 10

-- Up to `w` digits: the value so far, how many there were, and what follows them.
pub record Digits : Type 0 where
  pub value : ℕ
  pub count : ℕ
  pub rest : Str

unfoldable pub digits : Conversion → ℕ → ℕ → ℕ → Str → Digits
unfolding digit
digits k w acc n [] = record { value = acc; count = n; rest = [] }
digits k zero acc n (c ∷ s) = record { value = acc; count = n; rest = c ∷ s }
digits k (suc w) acc n (c ∷ s) = elim (digit k c) [
  | none ↦ record { value = acc; count = n; rest = c ∷ s }
  | some d ↦ digits k w (acc * base k + d) (n + 1) s
]

-- The `0x` that `%X` admits before its digits.
unfoldable pub after_prefix : Conversion → ℕ → Str → ℕ × Str
after_prefix hex (suc (suc w)) (c ∷ d ∷ s) =
    if c == 48 && (d == 120 || d == 88) then (w, s) else (suc (suc w), c ∷ d ∷ s)
after_prefix _ w s = (w, s)

-- What strtol(3) or strtoul(3) gives for a sign and the value of the digits, as a 64 bit pattern: `%d` stays
-- at the ends of its range, `%u` and `%X` at 2 ^ 64 - 1.
unfoldable pub clamp : Conversion → Bool → ℕ → ℕ
clamp dec true v = if ltb v (2 ^ 63) then (2 ^ 64 - v) % 2 ^ 64 else 2 ^ 63
clamp dec false v = if ltb v (2 ^ 63) then v else 2 ^ 63 - 1
clamp _ true v = if ltb v (2 ^ 64) then (2 ^ 64 - v) % 2 ^ 64 else 2 ^ 64 - 1
clamp _ false v = if ltb v (2 ^ 64) then v else 2 ^ 64 - 1

unfoldable pub number : Conversion → Bool → ℕ × Str → Converted
unfolding digits
number k negative (w, s) =
    let r = digits k w 0 0 s in
    if r.count == 0 then mismatch else got (num (clamp k negative r.value)) r.rest

unfoldable pub signed : Conversion → ℕ → Str → Converted
unfolding number after_prefix
signed k w [] = input_end
signed k zero (c ∷ s) = mismatch
signed k (suc w) (c ∷ s) =
    if c == 45
    then number k true (after_prefix k w s)
    else if c == 43
    then number k false (after_prefix k w s)
    else number k false (after_prefix k (suc w) (c ∷ s))

-- The longest start of the input, of at most `w` bytes, that passes a test.
unfoldable pub span : (ℕ → Bool) → ℕ → Str → Str × Str
span p w [] = ([], [])
span p zero (c ∷ s) = ([], c ∷ s)
span p (suc w) (c ∷ s) =
    let (run, rest) = span p w s in if p c then (c ∷ run, rest) else ([], c ∷ s)

abbrev pub not_space : ℕ → Bool
unfolding is_space
not_space c = if is_space c then false else true

abbrev pub is_hex : ℕ → Bool
unfolding digit
is_hex c = elim (digit hex c) [ none ↦ false | some d ↦ true ]

unfoldable pub non_empty : Str × Str → Converted
non_empty ([], rest) = mismatch
non_empty (c ∷ run, rest) = got (text (c ∷ run)) rest

abbrev pub room : Option ℕ → Str → ℕ
room none s = length s
room (some w) s = w

-- Every conversion but `%[` skips white space first; all fail at the end of the input.
unfoldable pub convert : Conversion → Option ℕ → Str → Converted
unfolding skip_space signed span non_empty is_space digit
convert hex_set w s = elim s [
  | [] ↦ input_end
  | c ∷ r ↦ non_empty (span is_hex (room w (c ∷ r)) (c ∷ r))
]
convert word w s = elim (skip_space s) [
  | [] ↦ input_end
  | c ∷ r ↦ non_empty (span not_space (room w (c ∷ r)) (c ∷ r))
]
convert k w s = let t = skip_space s in signed k (room w t) t

-- The values stored, in order, and whether the scan stopped at the end of the input.
pub record Scanned : Type 0 where
  pub values : List Value
  pub ended : Bool

abbrev pub stored : Value → Scanned → Scanned
stored v r = record r { values = v ∷ r.values }

unfoldable pub scan : List Directive → Str → Scanned
unfolding skip_space convert
scan [] s = record { values = []; ended = false }
scan (space ∷ fmt) s = scan fmt (skip_space s)
scan (lit c ∷ fmt) s = elim s [
  | [] ↦ record { values = []; ended = true }
  | d ∷ r ↦ elim (d == c) [ true ↦ scan fmt r | false ↦ record { values = []; ended = false } ]
]
scan (conv k w ∷ fmt) s = elim (convert k w s) [
  | got v r ↦ stored v (scan fmt r)
  | mismatch ↦ record { values = []; ended = false }
  | input_end ↦ record { values = []; ended = true }
]
scan (skip k w ∷ fmt) s = elim (convert k w s) [
  | got v r ↦ scan fmt r
  | mismatch ↦ record { values = []; ended = false }
  | input_end ↦ record { values = []; ended = true }
]

unfoldable pub sscanf : Str → List Directive → Scanned
unfolding scan
sscanf buffer fmt = scan fmt (c_str buffer)

-- `if (sscanf(…))`: a count of zero is false, and EOF (-1) is true.
unfoldable pub nonzero : Scanned → Bool
nonzero r = elim r.values [ [] ↦ r.ended | v ∷ vs ↦ true ]

-- `%d` and `%ld`, `%u` and `%lu`: a shorter field takes the lower bits of the 64.
abbrev pub int : Directive
int = conv dec none

abbrev pub uint : Directive
uint = conv udec none

abbrev pub skip_int : Directive
skip_int = skip dec none

row_runs :
    scan
      (skip_int ∷ lits (codes ": ") ++ conv hex_set (some 64) ∷ lit 58 ∷ conv hex none ∷ [])
      (codes "  12: 0100007F:1F90 00000000:0000")
    ≡ record { values = text (codes "0100007F") ∷ num 8080 ∷ []; ended = false }
unfolding scan lits clamp
row_runs = refl
