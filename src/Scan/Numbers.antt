-- ===== src/Scan/Numbers.antt =====
-- What a conversion of a number makes of a run of digits with something behind it.
use capture.Prelude.{
  ℕ, zero, suc, ◌+◌, ◌*◌, ◌^◌, ◌≤◌, ◌<◌, ◌≡◌, refl, Bool, true, false, ◌||◌, [], ◌∷◌, ◌++◌, none,
  some, arith, ◌==◌, length, length-append, All, Option-cases, inl, inr, ◌⊎◌, ◌∙◌, ap, subst,
}
use capture.Text.{Str}
use capture.Scan.{
  Conversion, dec, udec, clamp, hex, word, hex_set, digit, digits, base, number, after_prefix,
  signed, is_space, skip_space, convert, got, num, hex_set,
}

-- A conversion of a number.
abbrev pub IsNumeric : Conversion → Type 0
IsNumeric k = (k ≡ dec) ⊎ ((k ≡ hex) ⊎ (k ≡ udec))

-- Below this number a conversion reads what the digits say.
abbrev pub limit : Conversion → ℕ
limit dec = 2 ^ 63
limit _ = 2 ^ 64

pub clamp-limit : (k : Conversion) (n : ℕ) → n < limit k → clamp k false n ≡ n
unfolding clamp
clamp-limit dec n h = ground arith
clamp-limit udec n h = ground arith
clamp-limit hex n h = ground arith
clamp-limit word n h = ground arith
clamp-limit hex_set n h = ground arith

unfoldable pub is_digit : Conversion → ℕ → Bool
unfolding digit
is_digit k c = elim (digit k c) [ none ↦ false | some d ↦ true ]

-- The text is one run of digits.
abbrev pub IsDigits : Conversion → Str → Type 0
IsDigits k s = All (λ c. is_digit k c ≡ true) s

-- The number that a run of digits stands for, with `acc` before it.
unfoldable pub value_of : Conversion → ℕ → Str → ℕ
unfolding digit
value_of k acc [] = acc
value_of k acc (c ∷ s) = elim (digit k c) [ none ↦ acc | some d ↦ value_of k (acc * base k + d) s ]

-- What may follow a number: the end, a blank, a tab, a line feed, ":" or "]".
unfoldable pub is_break : ℕ → Bool
is_break c = c == 32 || (c == 58 || (c == 10 || (c == 93 || c == 9)))

abbrev pub Breaks : Str → Type 0
Breaks [] = Unit
Breaks (c ∷ s) = is_break c ≡ true

pub break_blank : is_break 32 ≡ true
unfolding is_break
break_blank = refl

pub break_colon : is_break 58 ≡ true
unfolding is_break
break_colon = refl

pub break_bracket : is_break 93 ≡ true
unfolding is_break
break_bracket = refl

pub break_no_digit : (k : Conversion) (c : ℕ) → is_break c ≡ true → digit k c ≡ none
unfolding digit is_break
break_no_digit dec c h = ground arith
break_no_digit hex c h = ground arith
break_no_digit _ c h = ground arith

pub digits-append :
    (k : Conversion) (w acc n : ℕ) (s rest : Str)
    → IsDigits k s
    → Breaks rest
    → length s ≤ w
    → digits k w acc n (s ++ rest)
      ≡ record { value = value_of k acc s; count = n + length s; rest = rest }
unfolding digits value_of is_digit
digits-append k w acc n [] [] h b l = ground arith
digits-append k zero acc n [] (c ∷ r) h b l = ground arith
digits-append k (suc w) acc n [] (c ∷ r) h b l = ground (arith, break_no_digit k c b)
digits-append k zero acc n (c ∷ s) rest h b l = absurd (omega arith)
digits-append k (suc w) acc n (c ∷ s) rest h b l = elim (Option-cases (digit k c)) [
  | inl e ↦ absurd (ground (arith, h.0, e))
  | inr (d, e) ↦
      rw (e, digits)
        (digits-append k w (acc * base k + d) (n + 1) s rest h.1 b (omega arith)
          ∙ ground (arith, e))
]

number-append :
    (k : Conversion) (w : ℕ) (s rest : Str)
    → IsDigits k s
    → Breaks rest
    → 0 < length s
    → length s ≤ w
    → number k false (w, s ++ rest) ≡ got (num (clamp k false (value_of k 0 s))) rest
unfolding number
number-append k w s rest h b p l = rw (digits-append k w 0 0 s rest h b l) (ground (arith, p))

pub digit_above : (k : Conversion) (c : ℕ) → is_digit k c ≡ true → 48 ≤ c
unfolding is_digit digit
digit_above hex c h = ground arith
digit_above dec c h = ground arith
digit_above udec c h = ground arith
digit_above word c h = ground arith
digit_above hex_set c h = ground arith

-- Digits are no signs, and none of them is the `x` of a prefix.
pub digit_no_sign :
    (k : Conversion) (c : ℕ) → is_digit k c ≡ true → ((c == 45) ≡ false) × ((c == 43) ≡ false)
digit_no_sign k c h = ground (arith, digit_above k c h)

pub is_digit_no_x : (c : ℕ) → is_digit hex c ≡ true → (c == 120 || c == 88) ≡ false
unfolding is_digit digit
is_digit_no_x c h = ground arith

break_no_x : (c : ℕ) → is_break c ≡ true → (c == 120 || c == 88) ≡ false
unfolding is_break
break_no_x c h = ground arith

hex_prefix-append :
    (w c : ℕ) (s rest : Str)
    → IsDigits hex s
    → Breaks rest
    → after_prefix hex w (c ∷ (s ++ rest)) ≡ (w, c ∷ (s ++ rest))
unfolding after_prefix
hex_prefix-append zero c s rest h b = refl
hex_prefix-append (suc zero) c s rest h b = refl
hex_prefix-append (suc (suc w)) c [] [] h b = refl
hex_prefix-append (suc (suc w)) c [] (d ∷ r) h b = ground (arith, break_no_x d b)
hex_prefix-append (suc (suc w)) c (d ∷ s) rest h b = ground (arith, is_digit_no_x d h.0)

after_prefix-append :
    (k : Conversion) (w c : ℕ) (s rest : Str)
    → IsNumeric k
    → IsDigits k s
    → Breaks rest
    → after_prefix k w (c ∷ (s ++ rest)) ≡ (w, c ∷ (s ++ rest))
unfolding after_prefix
after_prefix-append k w c s rest (inl e) h b = rw e refl
after_prefix-append k w c s rest (inr (inr e)) h b = rw e refl
after_prefix-append k w c s rest (inr (inl e)) h b =
    rw e (hex_prefix-append w c s rest (subst (λ j. IsDigits j s) e h) b)

-- A number that something other than a digit follows is read to its end.
signed-append :
    (k : Conversion) (w : ℕ) (s rest : Str)
    → IsNumeric k
    → IsDigits k s
    → Breaks rest
    → 0 < length s
    → length s ≤ w
    → signed k w (s ++ rest) ≡ got (num (clamp k false (value_of k 0 s))) rest
unfolding signed
signed-append k w [] rest i h b p l = absurd (omega arith)
signed-append k zero (c ∷ s) rest i h b p l = absurd (omega arith)
signed-append k (suc w) (c ∷ s) rest i h b p l =
    let q = digit_no_sign k c h.0 in
    rw (q.0, q.1, after_prefix-append k (suc w) c s rest i h.1 b)
      (number-append k (suc w) (c ∷ s) rest h b p l)

digit_no_space : (k : Conversion) (c : ℕ) → is_digit k c ≡ true → is_space c ≡ false
unfolding is_space
digit_no_space k c h = ground (arith, digit_above k c h)

-- The white space before a number.
abbrev pub blanks : ℕ → Str → Str
blanks zero s = s
blanks (suc n) s = 32 ∷ blanks n s

pub skip_space-blanks : (n : ℕ) (s : Str) → skip_space (blanks n s) ≡ skip_space s
unfolding skip_space
skip_space-blanks zero s = refl
skip_space-blanks (suc n) s = skip_space-blanks n s

pub skip_space-digits :
    (k : Conversion) (s rest : Str)
    → IsDigits k s
    → 0 < length s
    → skip_space (s ++ rest) ≡ s ++ rest
unfolding skip_space
skip_space-digits k [] rest h p = absurd (omega arith)
skip_space-digits k (c ∷ s) rest h p = rw (digit_no_space k c h.0) refl

pub convert_numeric :
    (k : Conversion) (s : Str)
    → IsNumeric k
    → convert k none s ≡ signed k (length (skip_space s)) (skip_space s)
unfolding convert
convert_numeric k s (inl e) = rw e refl
convert_numeric k s (inr (inl e)) = rw e refl
convert_numeric k s (inr (inr e)) = rw e refl

-- `%d`, `%u` and `%X` with no width read the number behind any blanks.
pub convert-number :
    (k : Conversion) (n : ℕ) (s rest : Str)
    → IsNumeric k
    → IsDigits k s
    → 0 < length s
    → Breaks rest
    → convert k none (blanks n (s ++ rest)) ≡ got (num (clamp k false (value_of k 0 s))) rest
convert-number k n s rest i h p b =
    convert_numeric k (blanks n (s ++ rest)) i
    ∙ (ap (λ t. signed k (length t) t)
          (skip_space-blanks n (s ++ rest) ∙ skip_space-digits k s rest h p)
        ∙ signed-append k (length (s ++ rest)) s rest i h b p (omega (arith, length-append s rest)))
