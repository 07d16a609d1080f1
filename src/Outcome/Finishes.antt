-- ===== src/Outcome/Finishes.antt =====
-- Runs that finish, with what holds of their result.
use capture.Prelude.{◌≡◌, refl, Option, some, Bool, true, false, if◌then◌else◌}
use capture.Outcome.{Run, finished, ◌>>=◌, in_bounds, ended}

abbrev pub Finishes {ℓ κ} : {A : Type ℓ} → (A → Type κ) → Run A → Type (ℓ ⊔ κ)
Finishes {A = A} P r = (a : A) × (r ≡ finished a) × P a

-- Any result.
abbrev pub Any {ℓ} : {A : Type ℓ} → A → Type 0
Any a = Unit

module _ {ℓ ℓ' κ κ'} {A : Type ℓ} {B : Type ℓ'} (P : A → Type κ) (Q : B → Type κ') where
  pub bind-Finishes :
      (r : Run A) (f : A → Run B)
      → Finishes P r
      → ((a : A) → P a → Finishes Q (f a))
      → Finishes Q (r >>= f)
  bind-Finishes r f (a, e, p) g = rw e (g a p)

module _ {ℓ ℓ' κ} {A : Type ℓ} {B : Type ℓ'} (Q : B → Type κ) where
  -- A read of bytes that are there.
  pub read-Finishes :
      (o : Option A) (f : A → Run B)
      → (a : A) × (o ≡ some a)
      → ((a : A) → Finishes Q (f a))
      → Finishes Q (in_bounds o >>= f)
  read-Finishes o f (a, e) g = rw e (g a)

module _ {ℓ κ} {A : Type ℓ} (P : A → Type κ) where
  pub Any-Finishes : {r : Run A} → Finishes P r → Finishes Any r
  Any-Finishes (a, e, p) = (a, e, tt)

  pub if-Finishes :
      (b : Bool) {x y : Run A} → Finishes P x → Finishes P y → Finishes P (if b then x else y)
  if-Finishes true h k = h
  if-Finishes false h k = k

  pub ended-Finishes :
      (o : Option A) → (a : A) × (o ≡ some a) → ((a : A) → o ≡ some a → P a) → Finishes P (ended o)
  ended-Finishes o (a, e) g = rw e (a, refl, g a e)
