-- ===== src/Capture/Buffer/Slots.antt =====
-- The two ways in which packetData takes a packet.
use capture.Prelude.{
  ℕ, zero, suc, ◌≤◌, ◌<◌, ◌≡◌, refl, ap, List, [], ◌∷◌, ◌++◌, arith, ltb, if◌then◌else◌, length,
  set, take, drop, Bool-cases, inl, inr, length-append, length-set, ltb→lt,
}
use capture.Capture.{PacketInfo}
use capture.Capture.Account.{store}

module _ {A : Type 0} where
  take-set :
      (i : ℕ) (a : A) (xs : List A)
      → i < length xs
      → take (suc i) (set xs i a) ≡ take i xs ++ a ∷ []
  take-set zero a [] h = absurd (omega arith)
  take-set zero a (x ∷ xs) h = refl
  take-set (suc i) a [] h = absurd (omega arith)
  take-set (suc i) a (x ∷ xs) h = ap (◌∷◌ x) (take-set i a xs (omega arith))

  take-append :
      (i : ℕ) (a : A) (xs : List A)
      → i ≡ length xs
      → take (suc i) (xs ++ a ∷ []) ≡ take i xs ++ a ∷ []
  take-append zero a [] h = refl
  take-append zero a (x ∷ xs) h = absurd (omega arith)
  take-append (suc i) a [] h = absurd (omega arith)
  take-append (suc i) a (x ∷ xs) h = ap (◌∷◌ x) (take-append i a xs (omega arith))

  drop-set : (i : ℕ) (a : A) (xs : List A) → drop (suc i) (set xs i a) ≡ drop (suc i) xs
  drop-set zero a [] = refl
  drop-set zero a (x ∷ xs) = refl
  drop-set (suc i) a [] = refl
  drop-set (suc i) a (x ∷ xs) = drop-set i a xs

  drop-append :
      (i : ℕ) (a : A) (xs : List A) → i ≡ length xs → drop (suc i) (xs ++ a ∷ []) ≡ drop (suc i) xs
  drop-append zero a [] h = refl
  drop-append zero a (x ∷ xs) h = absurd (omega arith)
  drop-append (suc i) a [] h = absurd (omega arith)
  drop-append (suc i) a (x ∷ xs) h = drop-append i a xs (omega arith)

-- What `store` leaves: the slots before, the new packet, the slots behind.
pub store_lem :
    (i : ℕ) (a b : PacketInfo) (xs : List PacketInfo)
    → i ≤ length xs
    → (take (suc i) (store i a b xs) ≡ take i xs ++ (if ltb i (length xs) then a else b) ∷ [])
      × (drop (suc i) (store i a b xs) ≡ drop (suc i) xs)
      × (suc i ≤ length (store i a b xs))
unfolding store
store_lem i a b xs h = elim (Bool-cases (ltb i (length xs))) [
  | inl e ↦ rw e (
    take-set i a xs (ground arith),
    drop-set i a xs,
    omega (arith, length-set xs i a, ltb→lt i (length xs) e),
  )
  | inr e ↦ rw e (
    take-append i b xs (ground arith),
    drop-append i b xs (ground arith),
    omega (arith, length-append xs (b ∷ [])),
  )
]
