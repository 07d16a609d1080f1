-- ===== src/Logger/Starting.antt =====
-- How Logger::Init of src/utils/logger.hpp ends, as CaptureCxx::Init calls it.
use capture.Prelude.{◌≡◌, ◌⊎◌, inl, inr, refl, true, false, Bool-cases}
use capture.Text.{Str}
use capture.Outcome.{finished, thrown}
use capture.Logger.{Logger, Spdlog, err, start_log, set_level}
use capture.Logger

-- There is a logger, or its file can be opened.
abbrev pub CanLog : Spdlog → Str → Logger → Type 0
CanLog spdlog path l = (l.is_inited ≡ true) ⊎ (spdlog.opens path ≡ true)

-- Neither is so.
abbrev pub IsClosed : Spdlog → Str → Logger → Type 0
IsClosed spdlog path l = (l.is_inited ≡ false) × (spdlog.opens path ≡ false)

-- An initialised logger at the level of errors.
abbrev pub IsStarted : Logger → Type 0
IsStarted l = (l.is_inited ≡ true) × (l.spdlog_level ≡ err)

pub start_log-CanLog :
    (spdlog : Spdlog) (path : Str) (l : Logger)
    → CanLog spdlog path l
    → (l' : Logger) × (start_log spdlog path l ≡ finished l') × IsStarted l'
unfolding start_log Logger.init set_level
start_log-CanLog spdlog path l (inl e) = rw (e, Logger.init) (_, refl, (refl, refl))
start_log-CanLog spdlog path l (inr x) = elim (Bool-cases l.is_inited) [
  | inl e ↦ rw (e, Logger.init) (_, refl, (refl, refl))
  | inr e ↦ rw (e, x, Logger.init) (_, refl, (refl, refl))
]

pub start_log-IsClosed :
    (spdlog : Spdlog) (path : Str) (l : Logger)
    → IsClosed spdlog path l
    → start_log spdlog path l ≡ thrown
unfolding start_log Logger.init
start_log-IsClosed spdlog path l (e, x) = rw (e, x, Logger.init) refl

-- One of the two is so.
pub CanLog-IsClosed :
    (spdlog : Spdlog) (path : Str) (l : Logger) → CanLog spdlog path l ⊎ IsClosed spdlog path l
CanLog-IsClosed spdlog path l = elim (Bool-cases l.is_inited) [
  | inl e ↦ inl (inl e)
  | inr e ↦ elim (Bool-cases (spdlog.opens path)) [ inl x ↦ inl (inr x) | inr x ↦ inr (e, x) ]
]
