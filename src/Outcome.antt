-- ===== src/Outcome.antt =====
-- What an operation returns that changes a state, reports a code, and may read a file for ever.
pub mod Rules
pub mod Yields
pub mod Finishes
use capture.Prelude.{ℕ, Option, none, some, ◌==◌, true, false}

-- `ret` is the `int32_t` that is returned.
pub record Status {ℓ} (S : Type ℓ) : Type ℓ where
  pub ret : ℕ
  pub state : S

module _ {ℓ} {S : Type ℓ} where
  abbrev pub returns : ℕ → S → Option (Status S)
  returns code s = some (record { ret = code; state = s })

  -- `ret = f(); if (ret != 0) return ret;`
  abbrev pub and_then : Option (Status S) → (S → Option (Status S)) → Option (Status S)
  and_then none rest = none
  and_then (some r) rest = elim (r.ret == 0) [ true ↦ rest r.state | false ↦ some r ]

  -- `f();`
  abbrev pub whatever : Option (Status S) → (S → Option (Status S)) → Option (Status S)
  whatever none rest = none
  whatever (some r) rest = rest r.state

-- An operation on packets: it may also read behind the captured bytes, wait for a loop that does not
-- end, or throw an exception that nobody catches.
pub data Run {ℓ} (S : Type ℓ) : Type ℓ where
  finished : S → Run S
  overread endless thrown : Run S

infixl 5 ◌>>=◌
abbrev pub ◌>>=◌ {ℓ κ} : {S : Type ℓ} {T : Type κ} → Run S → (S → Run T) → Run T
finished s >>= f = f s
overread >>= f = overread
endless >>= f = endless
thrown >>= f = thrown

-- A read of captured bytes, and an operation on files.
abbrev pub in_bounds {ℓ} : {A : Type ℓ} → Option A → Run A
in_bounds none = overread
in_bounds (some a) = finished a

abbrev pub ended {ℓ} : {A : Type ℓ} → Option A → Run A
ended none = endless
ended (some a) = finished a
