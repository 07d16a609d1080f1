-- ===== src/Process/Times.antt =====
-- The numbers of /proc/<pid>/stat, as the format of `ParseStat` of src/cap_process.cpp passes over them.
use capture.Prelude.{
  ℕ, zero, suc, ◌≡◌, refl, Bool, true, false, List, [], ◌∷◌, ◌++◌, none, length, ◌∙◌, inl,
}
use capture.Text.{Str, to_string}
use capture.Scan.{Directive, Value, dec, space, scan, convert, got}
use capture.Scan.Numbers.{break_blank, convert-number, skip_space-digits}
use capture.Scan.Signs.{convert-minus}
use capture.Scan.Printed.{to_string-IsDigits, to_string_some}
use capture.Scan.Fields.{values-skip, values-space, values-end, scan-skip}
use capture.Scan.Words.{Dense, Dense-minus, scan-blank}
use capture.ProcessFields.{skip_ints}

-- A number of the line, with a minus or without.
abbrev pub signed_text : Bool × ℕ → Str
signed_text (true, n) = 45 ∷ to_string n
signed_text (false, n) = to_string n

-- Numbers with a blank behind each.
abbrev pub ints_text : List (Bool × ℕ) → Str → Str
ints_text [] rest = rest
ints_text (i ∷ is) rest = signed_text i ++ (32 ∷ ints_text is rest)

pub convert-signed :
    (i : Bool × ℕ) (rest : Str)
    → (v : Value) × (convert dec none (signed_text i ++ (32 ∷ rest)) ≡ got v (32 ∷ rest))
convert-signed (true, n) rest = (
  _,
  convert-minus (to_string n) (32 ∷ rest) (to_string-IsDigits n) (to_string_some n) break_blank,
)
convert-signed (false, n) rest = (
  _,
  convert-number dec 0 (to_string n) (32 ∷ rest) (inl refl) (to_string-IsDigits n)
      (to_string_some n) break_blank,
)

pub Dense-signed : (i : Bool × ℕ) (rest : Str) → Dense (signed_text i ++ rest)
Dense-signed (true, n) rest = Dense-minus (to_string n ++ rest)
Dense-signed (false, n) rest =
    skip_space-digits dec (to_string n) rest (to_string-IsDigits n) (to_string_some n)

pub Dense-ints : (is : List (Bool × ℕ)) (rest : Str) → Dense rest → Dense (ints_text is rest)
Dense-ints [] rest h = h
Dense-ints (i ∷ is) rest h = Dense-signed i (32 ∷ ints_text is rest)

pub scan-skip_ints :
    (is : List (Bool × ℕ)) (fmt : List Directive) (rest : Str)
    → Dense rest
    → scan (skip_ints (length is) fmt) (ints_text is rest) ≡ scan fmt rest
scan-skip_ints [] fmt rest h = refl
scan-skip_ints (i ∷ is) fmt rest h =
    let c = convert-signed i (ints_text is rest) in
    scan-skip dec none (signed_text i ++ (32 ∷ ints_text is rest)) _ c.0 _ c.1
    ∙ (scan-blank _ (ints_text is rest) (Dense-ints is rest h) ∙ scan-skip_ints is fmt rest h)

-- The blanks between more numbers store nothing.
pub values-skip_ints : (n : ℕ) (s : Str) → (scan (skip_ints n []) s).values ≡ []
values-skip_ints zero s = values-end s
values-skip_ints (suc n) s =
    values-skip dec none (space ∷ skip_ints n []) (values-space _ (values-skip_ints n)) s
