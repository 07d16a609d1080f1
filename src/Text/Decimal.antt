-- ===== src/Text/Decimal.antt =====
-- The digits of `std::to_string`.
use mathlib.Core.Logic.{dif_pos, dif_neg}
use mathlib.Core.WellFounded.{Acc}
use native.Mathlib.Nat.{pow-suc}
use native.Mathlib.Bridge.{le_prop}
use capture.Prelude.{
  ℕ, zero, suc, ◌+◌, ◌/◌, ◌%◌, ◌^◌, ◌≤◌, ◌<◌, ◌≡◌, [], ◌∷◌, arith, length, All, dec_lt, ◌==◌,
  Bool-cases, inl, inr, lt→ltb,
}
use capture.Prelude.Order.{lt_wf}
use capture.Text.{Str, emit, to_string, print_int}

abbrev pub IsDigit : ℕ → Type 0
IsDigit c = (48 ≤ c) × (c ≤ 57)

emit-All : (n : ℕ) (w : Acc ◌<◌ n) (out : Str) → All IsDigit out → All IsDigit (emit n w out)
unfolding emit
emit-All n (Acc.intro _ smaller) out h = elim (dec_lt 0 n) [
  | yes p ↦
      rw (dif_pos _ le_prop p) (
        emit-All (n / 10) (smaller (n / 10) _) ((48 + n % 10) ∷ out)
          ((omega arith, omega arith), h))
  | no p ↦ rw (dif_neg _ p) h
]

emit-length :
    (k n : ℕ) (w : Acc ◌<◌ n) (out : Str) → n < 10 ^ k → length (emit n w out) ≤ length out + k
unfolding emit
emit-length zero n (Acc.intro _ smaller) out h = elim (dec_lt 0 n) [
  | yes p ↦ absurd (omega arith)
  | no p ↦ rw (dif_neg _ p) (omega arith)
]
emit-length (suc k) n (Acc.intro _ smaller) out h = elim (dec_lt 0 n) [
  | yes p ↦ rw (dif_pos _ le_prop p) (
      omega (
        arith,
        emit-length k (n / 10) (smaller (n / 10) _) ((48 + n % 10) ∷ out)
            (omega (arith, pow-suc 10 k)),
      ))
  | no p ↦ rw (dif_neg _ p) (omega arith)
]

pub to_string-All : (n : ℕ) → All IsDigit (to_string n)
unfolding to_string
to_string-All n = elim (Bool-cases (n == 0)) [
  | inl e ↦ rw e (omega arith)
  | inr e ↦ rw e (emit-All n (lt_wf.apply n) [] tt)
]

-- Of a number below 10 ^ k it writes at most k digits.
pub length-to_string : (k n : ℕ) → 0 < k → n < 10 ^ k → length (to_string n) ≤ k
unfolding to_string
length-to_string k n p h = elim (Bool-cases (n == 0)) [
  | inl e ↦ rw e (omega arith)
  | inr e ↦ rw e (omega (arith, emit-length k n (lt_wf.apply n) [] h))
]

-- `int` and `unsigned` are printed alike below 2 ^ 31.
pub print_int-eq-to_string : (n : ℕ) → n < 2 ^ 31 → print_int n ≡ to_string n
unfolding print_int
print_int-eq-to_string n h = rw (lt→ltb n (2 ^ 31) h)
