-- ===== src/Stream/Unlines.antt =====
-- A file that is written line by line, as the loops of `getline` read it.
use capture.Prelude.{
  ℕ, zero, suc, ◌-◌, ◌≤◌, ◌≡◌, refl, Bool, true, false, ◌&&◌, not, List, [], ◌∷◌, ◌++◌, some, arith,
  ◌==◌, length, All, ◌∙◌, ap, subst,
}
use capture.Text.{Str, c_str}
use capture.Stream.{is_empty, next, for_lines, Next, break}
use capture.Stream.Lines.{lines, fits, run, for_lines-run}

unfoldable pub unlines : List Str → Str
unlines [] = []
unlines (l ∷ ls) = l ++ (10 ∷ unlines ls)

unfoldable pub fold {ℓ} : {S : Type ℓ} → (S → Str → S) → S → List Str → S
fold f s [] = s
fold f s (l ∷ ls) = fold f (f s l) ls

unfoldable pub one_line : Str → Bool
one_line [] = true
one_line (c ∷ s) = not (c == 10) && one_line s

unfoldable pub starts : Str → Bool
starts [] = false
starts (c ∷ s) = not (c == 0)

-- A line that a buffer of `n + 1` bytes holds and that is not taken to be empty.
pub record IsWhole (n : ℕ) (l : Str) : Type 0 where
  pub one : one_line l ≡ true
  pub begun : starts l ≡ true
  pub size : length l ≤ n

lines-line : (l t : Str) → one_line l ≡ true → lines (l ++ (10 ∷ t)) ≡ l ∷ lines t
unfolding lines one_line
lines-line [] t h = refl
lines-line (c ∷ l) t h = ground (arith, lines-line l t)

fits-line :
    (n k : ℕ) (l t : Str) → one_line l ≡ true → length l ≤ k → fits n k (l ++ (10 ∷ t)) ≡ fits n n t
unfolding fits one_line
fits-line n zero [] t h p = refl
fits-line n (suc k) [] t h p = refl
fits-line n zero (c ∷ l) t h p = absurd (omega arith)
fits-line n (suc k) (c ∷ l) t h p = ground (arith, fits-line n k l t)

starts-is_empty : (l : Str) → starts l ≡ true → is_empty (c_str l) ≡ false
unfolding starts is_empty c_str
starts-is_empty [] h = cc
starts-is_empty (c ∷ l) h = ground arith

fits-unlines : (n : ℕ) (ls : List Str) → All (IsWhole n) ls → fits n n (unlines ls) ≡ true
unfolding unlines
fits-unlines n [] h = unfold fits in refl
fits-unlines n (l ∷ ls) h = fits-line n n l (unlines ls) h.0.one h.0.size ∙ fits-unlines n ls h.1

module _ {ℓ} {S : Type ℓ} (f : S → Str → S) (n : ℕ) where
  run-unlines :
      (s : S) (ls : List Str)
      → All (IsWhole n) ls
      → run (λ q b. next (f q b)) s (lines (unlines ls)) ≡ fold f s ls
  unfolding unlines fold run
  run-unlines s [] h = unfold lines is_empty c_str in refl
  run-unlines s (l ∷ ls) h =
      rw (lines-line l (unlines ls) h.0.one, run, starts-is_empty l h.0.begun)
        (run-unlines (f s l) ls h.1)

  -- The loop folds its body over the lines that were written.
  pub for_lines-unlines :
      (s : S) (ls : List Str)
      → All (IsWhole n) ls
      → for_lines (suc n) (λ q b. next (f q b)) (unlines ls) s ≡ some (fold f s ls)
  for_lines-unlines s ls h =
      let e : n ≡ suc n - 1 = omega arith in
      for_lines-run (suc n) (λ q b. next (f q b)) (unlines ls) s
        (subst (λ k. fits k k (unlines ls) ≡ true) e (fits-unlines n ls h))
      ∙ ap some (run-unlines s ls h)

-- A loop that breaks on the first line.
pub for_lines-break {ℓ} :
    {S : Type ℓ} (body : S → Str → Next S) (n : ℕ) (s t : S) (l : Str) (ls : List Str)
    → All (IsWhole n) (l ∷ ls)
    → body s l ≡ break t
    → for_lines (suc n) body (unlines (l ∷ ls)) s ≡ some t
for_lines-break body n s t l ls h e =
    let z : n ≡ suc n - 1 = omega arith in
    for_lines-run (suc n) body (unlines (l ∷ ls)) s
      (subst (λ k. fits k k (unlines (l ∷ ls)) ≡ true) z (fits-unlines n (l ∷ ls) h))
    ∙ ap some first_breaks
  where
    first_breaks : run body s (lines (unlines (l ∷ ls))) ≡ t
    first_breaks =
        unfold unlines run in
        rw (lines-line l (unlines ls) h.0.one, run, starts-is_empty l h.0.begun, e) refl
