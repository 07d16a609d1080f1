-- ===== src/Stream/Invariant.antt =====
-- What a `getline` loop keeps.
use capture.Prelude.{
  ℕ, zero, suc, ◌≡◌, Option, some, arith, length, Bool-cases, inl, inr, subst, ◌+◌,
}
use capture.Text.{Str, c_str}
use capture.Stream.{
  FileStream, opened, Next, next, break, is_empty, on_line, on_next, getline, read_loop, for_lines,
}

-- `P` holds of the state that a line leaves, whether the loop goes on or not.
abbrev pub Leaves {ℓ κ} : {S : Type ℓ} → (S → Type κ) → Next S → Type κ
Leaves P (next s) = P s
Leaves P (break s) = P s

module _ {ℓ κ} {S : Type ℓ} (P : S → Type κ) (size : ℕ) (body : S → Str → Next S)
    (keep : (s : S) (l : Str) → P s → Leaves P (body s l)) where
  on_next-keeps :
      (loop : FileStream → S → Option S) (st : FileStream) (n : Next S) (y : S)
      → ((st : FileStream) (x : S) → P x → loop st x ≡ some y → P y)
      → Leaves P n
      → on_next loop st n ≡ some y
      → P y
  unfolding on_next
  on_next-keeps loop st (next x) y h p e = h st x p e
  on_next-keeps loop st (break x) y h p e = subst P (ground arith) p

  on_line-keeps :
      (loop : FileStream → S → Option S) (b : Str × FileStream) (x y : S)
      → ((st : FileStream) (x : S) → P x → loop st x ≡ some y → P y)
      → P x
      → on_line loop body b x ≡ some y
      → P y
  unfolding on_line
  on_line-keeps loop (buffer, st) x y h p e = elim (Bool-cases (is_empty (c_str buffer))) [
    | inl q ↦ h st x p (rw q at e)
    | inr q ↦ on_next-keeps loop st (body x buffer) y h (keep x buffer p) (rw q at e)
  ]

  read_loop-keeps :
      (fuel : ℕ) (st : FileStream) (x y : S) → P x → read_loop fuel size body st x ≡ some y → P y
  unfolding read_loop
  read_loop-keeps zero st x y p e = absurd (ground arith)
  read_loop-keeps (suc fuel) st x y p e = elim (Bool-cases st.at_eof) [
    | inl q ↦ subst P (ground arith) p
    | inr q ↦
        on_line-keeps (read_loop fuel size body) (getline size st) x y
          (λ st' x' p' e'. read_loop-keeps fuel st' x' y p' e') p (rw (q, read_loop) at e)
  ]

  -- What every line keeps, the loop keeps.
  pub for_lines-keeps :
      (contents : Str) (x y : S) → P x → for_lines size body contents x ≡ some y → P y
  unfolding for_lines
  for_lines-keeps contents x y p e = read_loop-keeps (length contents + 2) (opened contents) x y p e
