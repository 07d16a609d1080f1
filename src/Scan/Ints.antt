-- ===== src/Scan/Ints.antt =====
-- Numbers with a blank between them, as `%lu %lu …` reads them.
use capture.Prelude.{ℕ, ◌<◌, ◌^◌, ◌≡◌, List, refl, inr, ◌∷◌, ◌++◌, none}
use capture.Text.{Str, c_str, to_string}
use capture.Scan.{Directive, dec, udec, uint, space, num, scan, stored}
use capture.Scan.Numbers.{break_blank, blanks}
use capture.Scan.Printed.{to_string-IsDigits, to_string_some, convert-to_string}
use capture.Scan.Fields.{scan-conv, space_number, c_str-digits}

pub read_uint :
    (n : ℕ)
    → n < 2 ^ 64
    → (fmt : List Directive) (t : Str)
    → scan (uint ∷ fmt) (to_string n ++ (32 ∷ t)) ≡ stored (num n) (scan fmt (32 ∷ t))
read_uint n h fmt t =
    scan-conv udec none (to_string n ++ (32 ∷ t)) (32 ∷ t) (num n) fmt
      (convert-to_string udec 0 n (32 ∷ t) (inr refl) break_blank h)

-- A blank of the format takes all blanks before a number.
pub blank_int :
    (b n : ℕ) (fmt : List Directive) (t : Str)
    → scan (space ∷ fmt) (blanks b (to_string n ++ t)) ≡ scan fmt (to_string n ++ t)
blank_int b n = space_number dec b (to_string n) (to_string-IsDigits n) (to_string_some n)

pub c_str-number : (n : ℕ) (t : Str) → c_str (to_string n ++ t) ≡ to_string n ++ c_str t
c_str-number n = c_str-digits dec (to_string n) (to_string-IsDigits n)
