-- ===== src/Scan/Keys.antt =====
-- Lines of the form "key: value", and formats that begin with another key.
use capture.Prelude.{
  ℕ, zero, suc, none, ◌<◌, ◌≡◌, refl, Bool, true, false, ◌&&◌, ◌||◌, not, List, [], ◌∷◌, ◌++◌,
  arith, ◌==◌, str_eq, Bool-cases, inl, inr, ◌∙◌, ap,
}
use capture.Text.{Str, c_str, to_string}
use capture.Scan.{
  dec, num, Directive, lit, lits, space, conv, scan, sscanf, Scanned, stored, skip_space, is_space,
  Conversion,
}
use capture.Scan.Numbers.{blanks, Breaks, is_break, skip_space-blanks, skip_space-digits, limit}
use capture.Scan.Printed.{to_string-IsDigits, to_string_some, convert-to_string, IsDecimal}
use capture.Scan.Fields.{scan-conv, c_str-digits, c_str-blanks}

-- A key is printable: no NUL, line feed, blank or ":".
unfoldable pub is_key : Str → Bool
is_key [] = true
is_key (c ∷ s) = not (c == 0 || (c == 10 || (c == 32 || c == 58))) && is_key s

abbrev pub nothing : Scanned
nothing = record { values = []; ended = false }

-- A format for one key stores nothing of the line of another.
scan-other :
    (l k : Str) (fmt : List Directive) (rest : Str)
    → is_key l ≡ true
    → is_key k ≡ true
    → str_eq l k ≡ false
    → scan (lits l ++ (lit 58 ∷ fmt)) (k ++ (58 ∷ rest)) ≡ nothing
unfolding is_key str_eq scan lits
scan-other [] [] fmt rest hl hk e = cc
scan-other [] (c ∷ k) fmt rest hl hk e = ground arith
scan-other (a ∷ l) [] fmt rest hl hk e = ground arith
scan-other (a ∷ l) (c ∷ k) fmt rest hl hk e = ground (arith, scan-other l k fmt rest)

pub c_str-key :
    (k : Str) (rest : Str) → is_key k ≡ true → c_str (k ++ (58 ∷ rest)) ≡ k ++ (58 ∷ c_str rest)
unfolding is_key c_str
c_str-key [] rest h = refl
c_str-key (c ∷ k) rest h = ground (arith, c_str-key k rest)

pub sscanf-other :
    (l k : Str) (fmt : List Directive) (rest : Str)
    → is_key l ≡ true
    → is_key k ≡ true
    → str_eq l k ≡ false
    → sscanf (k ++ (58 ∷ rest)) (lits l ++ (lit 58 ∷ fmt)) ≡ nothing
unfolding sscanf
sscanf-other l k fmt rest hl hk e =
    ap (scan (lits l ++ (lit 58 ∷ fmt))) (c_str-key k rest hk)
    ∙ scan-other l k fmt (c_str rest) hl hk e

pub scan-own :
    (l : Str) (fmt : List Directive) (rest : Str)
    → is_key l ≡ true
    → scan (lits l ++ (lit 58 ∷ fmt)) (l ++ (58 ∷ rest)) ≡ scan fmt rest
unfolding is_key scan lits
scan-own [] fmt rest h = refl
scan-own (c ∷ l) fmt rest h = ground (arith, scan-own l fmt rest)

-- Blanks of a format, one or more, are one.
abbrev pub spaces : ℕ → List Directive → List Directive
spaces zero fmt = fmt
spaces (suc n) fmt = space ∷ spaces n fmt

skip_space-skip_space : (s : Str) → skip_space (skip_space s) ≡ skip_space s
unfolding skip_space
skip_space-skip_space [] = refl
skip_space-skip_space (c ∷ s) = ground (arith, skip_space-skip_space s)

pub scan-spaces :
    (n : ℕ) (fmt : List Directive) (s : Str) → scan (spaces (suc n) fmt) s ≡ scan fmt (skip_space s)
unfolding scan
scan-spaces zero fmt s = refl
scan-spaces (suc n) fmt s =
    scan-spaces n fmt (skip_space s) ∙ ap (scan fmt) (skip_space-skip_space s)

-- The white space between a key and its value: a blank or a tab, and blanks.
unfoldable pub is_gap : ℕ → Bool
is_gap c = c == 32 || c == 9

pub skip_space-gap :
    (g n : ℕ) (s : Str) → is_gap g ≡ true → skip_space (g ∷ blanks n s) ≡ skip_space s
unfolding skip_space is_space is_gap
skip_space-gap g n s h = ground (arith, skip_space-blanks n s)

pub c_str-gap :
    (g n : ℕ) (s : Str) → is_gap g ≡ true → c_str (g ∷ blanks n s) ≡ g ∷ blanks n (c_str s)
unfolding c_str is_gap
c_str-gap g n s h = ground (arith, c_str-blanks n s)

Breaks-c_str : (s : Str) → Breaks s → Breaks (c_str s)
unfolding c_str is_break
Breaks-c_str [] h = tt
Breaks-c_str (c ∷ s) h = elim (Bool-cases (c == 0)) [
  | inl e ↦ rw (e, c_str) tt
  | inr e ↦ rw (e, c_str) h
]

-- A line that states a number under the key of the format.
abbrev pub number_line : Str → ℕ → ℕ → ℕ → Str → Str
number_line l g n m rest = l ++ (58 ∷ g ∷ blanks n (to_string m ++ rest))

module _ (d : Conversion) (i : IsDecimal d) (l : Str) (g n m : ℕ) (rest : Str)
    (hl : is_key l ≡ true) (hg : is_gap g ≡ true) (hm : m < limit d) (hr : Breaks rest) where
  c_str-number_line :
      c_str (number_line l g n m rest) ≡ l ++ (58 ∷ g ∷ blanks n (to_string m ++ c_str rest))
  c_str-number_line =
      simp
        (
          c_str-key l (g ∷ blanks n (to_string m ++ rest)) hl,
          c_str-gap g n (to_string m ++ rest) hg,
          c_str-digits dec (to_string m) (to_string-IsDigits m) rest,
        )
        refl

  pub sscanf-number_line :
      (k : ℕ) (fmt : List Directive)
      → sscanf (number_line l g n m rest) (lits l ++ (lit 58 ∷ spaces (suc k) (conv d none ∷ fmt)))
        ≡ stored (num m) (scan fmt (c_str rest))
  unfolding sscanf
  sscanf-number_line k fmt =
      let t = to_string m ++ c_str rest in
      ap (scan (lits l ++ (lit 58 ∷ spaces (suc k) (conv d none ∷ fmt)))) c_str-number_line
      ∙ (scan-own l _ _ hl
          ∙ (scan-spaces k (conv d none ∷ fmt) (g ∷ blanks n t)
              ∙ (ap (scan (conv d none ∷ fmt)) (
                    skip_space-gap g n t hg
                    ∙ skip_space-digits dec (to_string m) (c_str rest) (to_string-IsDigits m)
                        (to_string_some m))
                  ∙ scan-conv d none t (c_str rest) (num m) fmt
                      (convert-to_string d 0 m (c_str rest) i (Breaks-c_str rest hr) hm))))
