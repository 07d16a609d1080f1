-- ===== src/Outcome/Yields.antt =====
-- What holds of the result of a `Run`, if it has one.
use capture.Prelude.{◌≡◌, refl, Option, none, some, subst, Bool, true, false, if◌then◌else◌}
use capture.Outcome.{Run, finished, overread, endless, thrown, ◌>>=◌, in_bounds, ended}
use capture.Outcome.Rules.{finished-injective}

pub record Yields {ℓ κ} {A : Type ℓ} (P : A → Type κ) (r : Run A) : Type (ℓ ⊔ κ) where
  pub result : (a : A) → r ≡ finished a → P a

module _ {ℓ κ} {A : Type ℓ} {P : A → Type κ} where
  pub finished-Yields : (a : A) → P a → Yields P (finished a)
  finished-Yields a h = record { result = λ b e. subst P (finished-injective a b e) h }

  pub both-Yields {κ'} :
      {Q : A → Type κ'} (r : Run A) → Yields P r → Yields Q r → Yields (λ a. P a × Q a) r
  both-Yields r h k = record { result = λ a e. (h.result a e, k.result a e) }

  pub overread-Yields : Yields P overread
  overread-Yields = record { result = λ b e. absurd cc }

  pub endless-Yields : Yields P endless
  endless-Yields = record { result = λ b e. absurd cc }

  pub thrown-Yields : Yields P thrown
  thrown-Yields = record { result = λ b e. absurd cc }

  pub ended-Yields : (o : Option A) → ((a : A) → o ≡ some a → P a) → Yields P (ended o)
  ended-Yields none h = endless-Yields
  ended-Yields (some a) h = finished-Yields a (h a refl)

  pub if-Yields : (b : Bool) {x y : Run A} → Yields P x → Yields P y → Yields P (if b then x else y)
  if-Yields true h k = h
  if-Yields false h k = k

pub bind-Yields {ℓ ℓ' κ κ'} :
    {A : Type ℓ} {P : A → Type κ} {B : Type ℓ'} {Q : B → Type κ'} (r : Run A) {f : A → Run B}
    → Yields P r
    → ((a : A) → P a → Yields Q (f a))
    → Yields Q (r >>= f)
bind-Yields (finished a) h k = k a (h.result a refl)
bind-Yields overread h k = overread-Yields
bind-Yields endless h k = endless-Yields
bind-Yields thrown h k = thrown-Yields

-- A run yields what it finishes with.
pub result-Yields {ℓ} : {A : Type ℓ} (r : Run A) → Yields (λ a. r ≡ finished a) r
result-Yields r = record { result = λ a e. e }

-- A read of captured bytes goes on with any value.
pub read-Yields {ℓ ℓ' κ} :
    {A : Type ℓ} {B : Type ℓ'} {Q : B → Type κ} (o : Option A) {f : A → Run B}
    → ((a : A) → Yields Q (f a))
    → Yields Q (in_bounds o >>= f)
read-Yields none k = overread-Yields
read-Yields (some a) k = k a
