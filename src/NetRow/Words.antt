-- ===== src/NetRow/Words.antt =====
-- The addresses of a row of /proc/net/tcp6 in the layout of proc(5): four words of eight digits, and how
-- `CapInodeHelper::ParseBuffer` of src/cap_inode_helper.cpp reads them.
use mathlib.Core.List.{append-nil}
use capture.Prelude.{
  ℕ, ◌<◌, ◌%◌, ◌^◌, ◌≡◌, refl, sym, ap, ◌∙◌, List, [], ◌∷◌, ◌++◌, some, arith, false,
}
use capture.Text.{Str, c_str}
use capture.Inet.{In6}
use capture.Scan.Numbers.{clamp-limit}
use capture.Scan.{clamp, hex, num, scan, sscanf, stored, Directive, clamp}
use capture.Scan.Fields.{scan-conv, c_str-digits}
use capture.Scan.Printed.{hex_text, value-hex_text, hex_text-IsDigits, length-hex_text}
use capture.Scan.Widths.{convert_width}
use capture.NetRow.{scan_in6, words_of, hex8, false}

-- An address of four 32 bit words.
pub record IsWords (a : In6) : Type 0 where
  pub w0 : a.w0 < 2 ^ 32
  pub w1 : a.w1 < 2 ^ 32
  pub w2 : a.w2 < 2 ^ 32
  pub w3 : a.w3 < 2 ^ 32

abbrev pub words_text : In6 → Str
words_text a = hex_text 8 a.w0 ++ (hex_text 8 a.w1 ++ (hex_text 8 a.w2 ++ hex_text 8 a.w3))

scan_word :
    (n : ℕ) (fmt : List Directive) (rest : Str)
    → n < 2 ^ 32
    → scan (hex8 ∷ fmt) (hex_text 8 n ++ rest) ≡ stored (num n) (scan fmt rest)
scan_word n fmt rest h =
    scan-conv hex (some 8) (hex_text 8 n ++ rest) rest _ fmt
      (convert_width 6 (hex_text 8 n) rest (hex_text-IsDigits 8 n) (length-hex_text 8 n))
    ∙ ap (λ v. stored (num v) (scan fmt rest))
        (ap (clamp hex false) (value-hex_text 8 n (omega arith)) ∙ clamp-limit hex n (omega arith))

scan_last : (n : ℕ) → n < 2 ^ 32 → (scan (hex8 ∷ []) (hex_text 8 n)).values ≡ num n ∷ []
unfolding scan
scan_last n h =
    ap (λ s. (scan (hex8 ∷ []) s).values) (sym (append-nil (hex_text 8 n)))
    ∙ ap (λ r. r.values) (scan_word n [] [] h)

c_str-hex_text : (n : ℕ) (t : Str) → c_str (hex_text 8 n ++ t) ≡ hex_text 8 n ++ c_str t
c_str-hex_text n t = c_str-digits hex (hex_text 8 n) (hex_text-IsDigits 8 n) t

c_str-last : (n : ℕ) → c_str (hex_text 8 n) ≡ hex_text 8 n
unfolding c_str
c_str-last n =
    ap c_str (sym (append-nil (hex_text 8 n))) ∙ (c_str-hex_text n [] ∙ append-nil (hex_text 8 n))

values-words :
    (a : In6)
    → IsWords a
    → (sscanf (words_text a) (hex8 ∷ hex8 ∷ hex8 ∷ hex8 ∷ [])).values
      ≡ num a.w0 ∷ num a.w1 ∷ num a.w2 ∷ num a.w3 ∷ []
unfolding sscanf
values-words a h =
    ap (λ s. (scan (hex8 ∷ hex8 ∷ hex8 ∷ hex8 ∷ []) s).values) whole
    ∙ ap (λ r. r.values) (scan_word a.w0 (hex8 ∷ hex8 ∷ hex8 ∷ []) _ h.w0)
    ∙ ap (λ r. num a.w0 ∷ r.values) (scan_word a.w1 (hex8 ∷ hex8 ∷ []) _ h.w1)
    ∙ ap (λ r. num a.w0 ∷ num a.w1 ∷ r.values) (scan_word a.w2 (hex8 ∷ []) _ h.w2)
    ∙ ap (λ vs. num a.w0 ∷ num a.w1 ∷ num a.w2 ∷ vs) (scan_last a.w3 h.w3)
  where
    whole : c_str (words_text a) ≡ words_text a
    whole = simp (c_str-hex_text, c_str-last) refl

-- The four words are read back.
pub scan_in6-words_text : (a : In6) → IsWords a → scan_in6 (words_text a) ≡ a
unfolding scan_in6 words_of
scan_in6-words_text a h = ap words_of (values-words a h) ∙ (λ i. record {
  w0 = low a.w0 h.w0 i;
  w1 = low a.w1 h.w1 i;
  w2 = low a.w2 h.w2 i;
  w3 = low a.w3 h.w3 i;
})
  where
    low : (n : ℕ) → n < 2 ^ 32 → n % 2 ^ 32 ≡ n
    low n l = omega arith
