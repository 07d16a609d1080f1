-- ===== src/Capture/Sound/Parts.antt =====
-- The fields of the state one by one: lists of packets, and tables of processes.
use mathlib.Core.List.{List, [], ◌∷◌, ◌++◌}
use capture.Prelude.{
  ℕ, zero, suc, ◌≡◌, some, arith, ltb, ◌==◌, All, Bool-cases, inl, inr, find, nat_eq, set,
}
use capture.ProcessFields.{CapProcess}
use capture.Capture.Account.{put_process}

module _ {ℓ κ} {A : Type ℓ} (P : A → Type κ) where
  pub All-set : (xs : List A) (i : ℕ) (v : A) → P v → All P xs → All P (set xs i v)
  All-set [] i v h k = k
  All-set (x ∷ xs) zero v h k = (h, k.1)
  All-set (x ∷ xs) (suc i) v h k = (k.0, All-set xs i v h k.1)

  pub All-snoc : (xs : List A) (v : A) → P v → All P xs → All P (xs ++ v ∷ [])
  All-snoc [] v h k = (h, tt)
  All-snoc (x ∷ xs) v h k = (k.0, All-snoc xs v h k.1)

-- Every process stands under its own number.
abbrev pub IsNamed : List (ℕ × CapProcess) → Type 0
IsNamed m = All (λ x. x.1.pid ≡ x.0) m

pub put-IsNamed :
    (k : ℕ) (p : CapProcess) (m : List (ℕ × CapProcess))
    → p.pid ≡ k
    → IsNamed m
    → IsNamed (put_process k p m)
unfolding put_process
put-IsNamed k p [] e h = (e, tt)
put-IsNamed k p ((j, q) ∷ m) e h = elim (Bool-cases (ltb k j)) [
  | inl x ↦ rw x (e, h)
  | inr x ↦ elim (Bool-cases (j == k)) [
    | inl y ↦ rw (x, y) (e, h.1)
    | inr y ↦ rw (x, y) (h.0, put-IsNamed k p m e h.1)
  ]
]

pub find-IsNamed :
    (k : ℕ) (p : CapProcess) (m : List (ℕ × CapProcess)) → IsNamed m → find k m ≡ some p → p.pid ≡ k
unfolding find
find-IsNamed k p [] h e = cc
find-IsNamed k p ((j, q) ∷ m) h e = elim (Bool-cases (j == k)) [
  | inl x ↦ ground arith
  | inr x ↦ find-IsNamed k p m h.1 (rw x at e)
]
