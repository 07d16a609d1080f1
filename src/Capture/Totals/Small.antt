-- ===== src/Capture/Totals/Small.antt =====
-- Numbers in /proc that `std::stol` takes, so that UpdatePids of src/capturecxx.cpp finishes.
use native.Mathlib.Nat.{pow-suc, one-le-pow}
use capture.Prelude.{
  ℕ, suc, ◌+◌, ◌-◌, ◌*◌, ◌^◌, ◌≤◌, ◌<◌, ◌≡◌, refl, true, ◌&&◌, List, [], ◌∷◌, some, arith, length,
  All, Bool-cases, inl, inr, Option-cases, subst, lt→ltb,
}
use capture.Text.{Str, codes}
use capture.Os.{Os, DirEntry}
use capture.Outcome.Finishes.{Finishes}
use capture.Capture.{Capture}
use capture.Capture.Totals.{all_digits, digits_value, stol, add_pids, is_dir, update_pids}

-- A name of an entry of a directory: not empty, and of at most eighteen bytes.
abbrev pub IsShort : DirEntry → Type 0
IsShort e = (0 < length e.d_name) × (length e.d_name ≤ 18)

digits_value-bound :
    (k acc : ℕ) (s : Str)
    → all_digits s ≡ true
    → acc < 10 ^ k
    → digits_value acc s < 10 ^ (k + length s)
unfolding all_digits digits_value
digits_value-bound k acc [] h b = subst (λ n. acc < 10 ^ n) (omega arith) b
digits_value-bound k acc (c ∷ s) h b =
    let q = digit_facts c s h in
    subst (λ n. digits_value (acc * 10 + (c - 48)) s < 10 ^ n) (omega arith)
      (digits_value-bound (suc k) (acc * 10 + (c - 48)) s q.1 (omega (arith, pow-suc 10 k, q.0)))
  where
    digit_facts : (c : ℕ) (s : Str) → all_digits (c ∷ s) ≡ true → (c ≤ 57) × (all_digits s ≡ true)
    digit_facts c s h = ground arith

digits_value-small : (s : Str) → length s ≤ 18 → all_digits s ≡ true → digits_value 0 s < 10 ^ 18
digits_value-small s l h =
    let e : 18 - length s + length s ≡ 18 = omega arith in
    subst (λ n. digits_value 0 s < 10 ^ n) e
      (digits_value-bound (18 - length s) 0 s h (one-le-pow (18 - length s) 10 (omega arith)))

stol-some :
    (s : Str) → 0 < length s → length s ≤ 18 → all_digits s ≡ true → (n : ℕ) × (stol s ≡ some n)
unfolding stol
stol-some [] p l h = absurd (omega arith)
stol-some (c ∷ s) p l h =
    rw
      (
        lt→ltb (digits_value 0 (c ∷ s)) (2 ^ 63) (omega (arith, digits_value-small (c ∷ s) l h)),
        stol,
      )
      (_, refl)

add_pids-some :
    (es : List DirEntry) (pids : List ℕ)
    → All IsShort es
    → (ps : List ℕ) × (add_pids es pids ≡ some ps)
unfolding add_pids
add_pids-some [] pids h = (pids, refl)
add_pids-some (e ∷ es) pids h = elim (Bool-cases (is_dir e && all_digits e.d_name)) [
  | inr x ↦ rw (x, add_pids) (add_pids-some es pids h.1)
  | inl x ↦
      let n = stol-some e.d_name h.0.0 h.0.1 (ground (arith, x)) in
      rw (x, add_pids, n.1) (add_pids-some es _ h.1)
]

-- UpdatePids finishes, whatever it returns.
pub update_pids-Finishes :
    (os : Os) (s : Capture)
    → ((es : List DirEntry) → os.dir (codes "/proc") ≡ some es → All IsShort es)
    → Finishes (λ r. r.state.capture_all ≡ s.capture_all) (update_pids os s)
unfolding update_pids
update_pids-Finishes os s h = elim (Option-cases (os.dir (codes "/proc"))) [
  | inl e ↦ rw (e, update_pids) (_, refl, refl)
  | inr (es, e) ↦ let q = add_pids-some es [] (h es e) in rw (e, update_pids, q.1) (_, refl, refl)
]
