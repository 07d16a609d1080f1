-- ===== src/Capture/Totals/Pids.antt =====
-- Which numbers UpdatePids finds in /proc.
use capture.Prelude.{
  ℕ, ◌+◌, ◌-◌, ◌*◌, ◌%◌, ◌^◌, ◌≡◌, refl, sym, ap, ◌∙◌, Bool, true, false, ◌&&◌, List, [], ◌∷◌, some,
  arith, ◌==◌, if◌then◌else◌, Bool-cases, Option-cases, inl, inr, subst, mem_nat,
}
use capture.Text.{Str, codes}
use capture.Scan.{dec, digit}
use capture.Scan.Numbers.{is_digit, value_of}
use capture.Outcome.{Status, finished, thrown}
use capture.Outcome.Rules.{finished-injective}
use capture.Os.{Os, DirEntry, dt_dir, dt_lnk, dt_other}
use capture.Capture.{Capture}
use capture.Capture.Totals.{
  all_digits, digits_value, stol, insert_pid, add_pids, is_dir, update_pids,
}

mem-insert :
    (k n : ℕ) (ks : List ℕ) → mem_nat n (insert_pid k ks) ≡ (if k == n then true else mem_nat n ks)
unfolding mem_nat insert_pid
mem-insert k n [] = refl
mem-insert k n (j ∷ js) = ground (arith, mem-insert k n js)

-- The text has no character but decimal digits.
unfoldable pub is_decimal : Str → Bool
is_decimal [] = true
is_decimal (c ∷ s) = is_digit dec c && is_decimal s

-- The entry is a directory whose name is decimal digits with the value `n`, modulo 2 ^ 32.
unfoldable pub names : ℕ → DirEntry → Bool
names n e =
    elim e.d_type [ dt_dir ↦ true | dt_lnk ↦ false | dt_other ↦ false ]
    && (is_decimal e.d_name && value_of dec 0 e.d_name % 2 ^ 32 == n)

is_decimal-all_digits : (s : Str) → is_decimal s ≡ all_digits s
unfolding is_decimal all_digits is_digit digit
is_decimal-all_digits [] = refl
is_decimal-all_digits (c ∷ s) = ground (arith, is_decimal-all_digits s)

digit_value :
    (c : ℕ) (s : Str)
    → all_digits (c ∷ s) ≡ true
    → (digit dec c ≡ some (c - 48)) × (all_digits s ≡ true)
unfolding all_digits digit
digit_value c s h = ground arith

value_of-digits_value :
    (acc : ℕ) (s : Str) → all_digits s ≡ true → value_of dec acc s ≡ digits_value acc s
unfolding value_of digits_value
value_of-digits_value acc [] h = refl
value_of-digits_value acc (c ∷ s) h =
    let q = digit_value c s h in
    rw (q.0, value_of) (value_of-digits_value (acc * 10 + (c - 48)) s q.1)

stol_value :
    (s : Str) (k : ℕ) → all_digits s ≡ true → stol s ≡ some k → k ≡ value_of dec 0 s % 2 ^ 32
unfolding stol
stol_value [] k h e = absurd (ground arith)
stol_value (c ∷ s) k h e = let v = value_of-digits_value 0 (c ∷ s) h in ground (arith, v)

-- Which names are taken, in the terms of the loop.
names-is_dir :
    (n : ℕ) (e : DirEntry)
    → names n e ≡ ((is_dir e && all_digits e.d_name) && value_of dec 0 e.d_name % 2 ^ 32 == n)
unfolding names is_dir
names-is_dir n e = ground (arith, is_decimal-all_digits e.d_name)

names-stol :
    (n k : ℕ) (e : DirEntry)
    → (is_dir e && all_digits e.d_name) ≡ true
    → stol e.d_name ≡ some k
    → names n e ≡ (k == n)
names-stol n k e h g =
    let digital : all_digits e.d_name ≡ true = ground arith in
    names-is_dir n e ∙ rw h (ap (λ v. v == n) (sym (stol_value e.d_name k digital g)))

names-skipped :
    (n : ℕ) (e : DirEntry) → (is_dir e && all_digits e.d_name) ≡ false → names n e ≡ false
names-skipped n e h = names-is_dir n e ∙ rw h refl

unfoldable pub any_names : ℕ → List DirEntry → Bool
any_names n [] = false
any_names n (e ∷ es) = let rest = any_names n es in if names n e then true else rest

mem-add_pids :
    (n : ℕ) (es : List DirEntry) (pids ps : List ℕ)
    → add_pids es pids ≡ some ps
    → mem_nat n ps ≡ (if mem_nat n pids then true else any_names n es)
unfolding add_pids any_names
mem-add_pids n [] pids ps h = ground arith
mem-add_pids n (e ∷ es) pids ps h = elim (Bool-cases (is_dir e && all_digits e.d_name)) [
  | inr x ↦ ground (arith, names-skipped n e x, mem-add_pids n es pids ps (rw (x, add_pids) at h))
  | inl x ↦ elim (Option-cases (stol e.d_name)) [
    | inl y ↦ absurd (ground arith)
    | inr (k, y) ↦ ground (
      arith,
      mem-add_pids n es (insert_pid k pids) ps (rw (x, y, add_pids) at h),
      mem-insert k n pids,
      names-stol n k e x y,
    )
  ]
]

-- If UpdatePids succeeds, a number is in `pids` exactly if /proc has a directory whose name is decimal digits with
-- that value, modulo 2 ^ 32; what was there before is forgotten.
pub mem-update_pids :
    (os : Os) (s : Capture) (es : List DirEntry) (r : Status Capture) (n : ℕ)
    → os.dir (codes "/proc") ≡ some es
    → update_pids os s ≡ finished r
    → mem_nat n r.state.pids ≡ any_names n es
unfolding update_pids mem_nat
mem-update_pids os s es r n d h = elim (Option-cases (add_pids es [])) [
  | inl x ↦ absurd (no_result (rw (d, x, update_pids) at h))
  | inr (ps, x) ↦
      let y = finished-injective _ r (rw (d, x, update_pids) at h) in
      subst (λ (t : Status Capture). mem_nat n t.state.pids ≡ any_names n es) y
        (mem-add_pids n es [] ps x)
]
  where
    no_result : thrown ≡ finished r → ⊥
    no_result e = cc
