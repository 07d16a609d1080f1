-- ===== src/Outcome/Rules.antt =====
-- What holds of the state after a chain of operations, and when a chain ends.
use capture.Prelude.{
  ℕ, Option, none, some, ◌==◌, ◌≡◌, refl, Bool-cases, inl, inr, arith, subst, if◌then◌else◌, ap,
}
use capture.Outcome.{
  Run, finished, overread, endless, thrown, ◌>>=◌, Status, returns, and_then, whatever,
}

module _ {ℓ κ} {S : Type ℓ} (P : S → Type κ) where
  -- `P` holds of the state, if the operation ends.
  abbrev pub Keeps : Option (Status S) → Type (ℓ ⊔ κ)
  Keeps m = (r : Status S) → m ≡ some r → P r.state

  pub returns-Keeps : (code : ℕ) (s : S) → P s → Keeps (returns code s)
  returns-Keeps code s h r e = subst P (ground arith) h

  pub whatever-Keeps :
      (m : Option (Status S)) (k : S → Option (Status S))
      → Keeps m
      → ((s : S) → P s → Keeps (k s))
      → Keeps (whatever m k)
  whatever-Keeps none k h g r e = absurd (ground arith)
  whatever-Keeps (some q) k h g r e = g q.state (h q refl) r e

  pub and_then-Keeps :
      (m : Option (Status S)) (k : S → Option (Status S))
      → Keeps m
      → ((s : S) → P s → Keeps (k s))
      → Keeps (and_then m k)
  and_then-Keeps none k h g r e = absurd (ground arith)
  and_then-Keeps (some q) k h g r e = elim (Bool-cases (q.ret == 0)) [
    | inl x ↦ g q.state (h q refl) r (ground arith)
    | inr x ↦ subst P (ground arith) (h q refl)
  ]

module _ {ℓ} {S : Type ℓ} where
  abbrev pub Ends : Option (Status S) → Type ℓ
  Ends m = (r : Status S) × (m ≡ some r)

  -- The code that an operation returns, if it ends.
  abbrev pub Gives : Option (Status S) → ℕ → Type ℓ
  Gives m code = (r : Status S) → m ≡ some r → r.ret ≡ code

module _ {ℓ κ} {S : Type ℓ} (P : S → Type κ) where
  pub whatever-Ends :
      (m : Option (Status S)) (k : S → Option (Status S))
      → Ends m
      → Keeps P m
      → ((s : S) → P s → Ends (k s))
      → Ends (whatever m k)
  whatever-Ends none k h keep g = absurd (ground arith)
  whatever-Ends (some q) k h keep g = g q.state (keep q refl)

  pub and_then-Ends :
      (m : Option (Status S)) (k : S → Option (Status S))
      → Ends m
      → Keeps P m
      → ((s : S) → P s → Ends (k s))
      → Ends (and_then m k)
  and_then-Ends none k h keep g = absurd (ground arith)
  and_then-Ends (some q) k h keep g = elim (Bool-cases (q.ret == 0)) [
    | inl x ↦ rw (x, and_then) (g q.state (keep q refl))
    | inr x ↦ rw (x, and_then) (q, refl)
  ]

  pub whatever-Gives :
      (m : Option (Status S)) (k : S → Option (Status S)) (b : ℕ)
      → Keeps P m
      → ((s : S) → P s → Gives (k s) b)
      → Gives (whatever m k) b
  whatever-Gives none k b keep g r e = absurd (ground arith)
  whatever-Gives (some q) k b keep g r e = g q.state (keep q refl) r e

  pub and_then-Gives :
      (m : Option (Status S)) (k : S → Option (Status S)) (a b : ℕ)
      → Gives m a
      → Keeps P m
      → ((s : S) → P s → Gives (k s) b)
      → Gives (and_then m k) (if a == 0 then b else a)
  and_then-Gives none k a b h keep g r e = absurd (ground arith)
  and_then-Gives (some q) k a b h keep g r e = elim (Bool-cases (q.ret == 0)) [
    | inl x ↦ ground (arith, g q.state (keep q refl) r, h q refl)
    | inr x ↦ ground (arith, h q refl)
  ]

-- A run that finishes has finished each of its parts.
pub >>=-eq-finished {ℓ κ} :
    {A : Type ℓ} {B : Type κ} (m : Run A) (f : A → Run B) {b : B}
    → (m >>= f) ≡ finished b
    → (a : A) × (m ≡ finished a) × (f a ≡ finished b)
>>=-eq-finished (finished a) f h = (a, refl, h)
>>=-eq-finished overread f h = cc
>>=-eq-finished endless f h = cc
>>=-eq-finished thrown f h = cc

pub finished-injective {ℓ} : {A : Type ℓ} (a b : A) → finished a ≡ finished b → a ≡ b
finished-injective a b h = cc

-- What follows two operations that end.
pub finished-bind {ℓ κ μ} :
    {S : Type ℓ} {T : Type κ} {U : Type μ} (m : Run S) (f : S → Run T) (g : T → Run U) (t : T)
    → (m >>= f) ≡ finished t
    → (m >>= λ s. f s >>= g) ≡ g t
finished-bind (finished s) f g t e = ap (λ r. r >>= g) e
finished-bind overread f g t e = ap (λ r. r >>= g) e
finished-bind endless f g t e = ap (λ r. r >>= g) e
finished-bind thrown f g t e = ap (λ r. r >>= g) e
