-- ===== src/Stream/Lines.antt =====
-- The `getline` loops as folds over the lines of a file, and lines that the buffer does not hold.
use capture.Prelude.{
  ℕ, zero, suc, ◌<◌, ◌≡◌, refl, inl, inr, Bool, true, false, List, [], ◌∷◌, arith, ◌==◌,
  if◌then◌else◌, length, Bool-cases, some, ◌-◌, ◌+◌, Option, none, ◌≤◌, sym, ◌∙◌,
}
use capture.Text.{Str, c_str}
use capture.Stream.{
  Line, hit_eof, delimiter, full, extract, is_empty, Next, next, break, read_loop, getline,
  FileStream, opened, after_line, on_line, on_next, for_lines,
}

abbrev cons_head : ℕ → List Str → List Str
cons_head c [] = (c ∷ []) ∷ []
cons_head c (l ∷ ls) = (c ∷ l) ∷ ls

-- The text between the line ends; the last line has none.
unfoldable pub lines : Str → List Str
lines [] = [] ∷ []
lines (c ∷ s) = let ls = lines s in if c == 10 then [] ∷ ls else cons_head c ls

-- No line is longer than `n`, and the first no longer than `k`.
unfoldable pub fits : ℕ → ℕ → Str → Bool
fits n k [] = true
fits n zero (c ∷ s) = let rest = fits n n s in if c == 10 then rest else false
fits n (suc k) (c ∷ s) = fits n (if c == 10 then n else k) s

-- The fold: empty lines are passed over, and a `break` ends it.
unfoldable pub run {ℓ} : {S : Type ℓ} → (S → Str → Next S) → S → List Str → S
unfolding is_empty
run body s [] = s
run body s (l ∷ ls) = elim (is_empty (c_str l)) [
  | true ↦ run body s ls
  | false ↦ elim (body s l) [ next s' ↦ run body s' ls | break s' ↦ s' ]
]

data Extracts (n k : ℕ) (s : Str) (l : Line) : Type 0 where
  last : l.why ≡ hit_eof → lines s ≡ l.line ∷ [] → fits n k s ≡ true → Extracts n k s l
  more :
      l.why ≡ delimiter
      → lines s ≡ l.line ∷ lines l.after
      → length l.after < length s
      → fits n k s ≡ fits n n l.after
      → Extracts n k s l
  cut : l.why ≡ full → fits n k s ≡ false → Extracts n k s l

Extracts-end : (n k c : ℕ) (s : Str) → c ≡ 10 → Extracts n k (c ∷ s) (extract k (c ∷ s))
unfolding extract lines fits
Extracts-end n zero c s e = more (ground arith) (ground arith) (ground arith) (ground arith)
Extracts-end n (suc k) c s e = more (ground arith) (ground arith) (ground arith) (ground arith)

Extracts-longer :
    (n k c : ℕ) (s : Str)
    → (c == 10) ≡ false
    → Extracts n k s (extract k s)
    → Extracts n (suc k) (c ∷ s) (extract (suc k) (c ∷ s))
unfolding extract lines fits
Extracts-longer n k c s e (last w h f) = last (ground arith) (ground arith) (ground arith)
Extracts-longer n k c s e (more w h d f) =
    more (ground arith) (ground arith) (ground arith) (ground arith)
Extracts-longer n k c s e (cut w f) = cut (ground arith) (ground arith)

extract-Extracts : (n k : ℕ) (s : Str) → Extracts n k s (extract k s)
unfolding extract lines fits
extract-Extracts n zero [] = last refl refl refl
extract-Extracts n (suc k) [] = last refl refl refl
extract-Extracts n zero (c ∷ s) = elim (Bool-cases (c == 10)) [
  | inl e ↦ Extracts-end n zero c s (ground arith)
  | inr e ↦ cut (rw e) (rw e)
]
extract-Extracts n (suc k) (c ∷ s) = elim (Bool-cases (c == 10)) [
  | inl e ↦ Extracts-end n (suc k) c s (ground arith)
  | inr e ↦ Extracts-longer n k c s e (extract-Extracts n k s)
]

module _ (size : ℕ) (s : Str) where
  getline-last :
      (extract (size - 1) s).why ≡ hit_eof
      → getline size (opened s) ≡ (
        (extract (size - 1) s).line,
        record {
          rest = (extract (size - 1) s).after;
          at_eof = true;
          failed = is_empty (extract (size - 1) s).line;
        },
      )
  unfolding getline opened after_line
  getline-last w = rw w

  getline-more :
      (extract (size - 1) s).why ≡ delimiter
      → getline size (opened s) ≡ ((extract (size - 1) s).line, opened (extract (size - 1) s).after)
  unfolding getline opened after_line
  getline-more w = rw w

  getline-cut :
      (extract (size - 1) s).why ≡ full
      → getline size (opened s) ≡ (
        (extract (size - 1) s).line,
        record { rest = (extract (size - 1) s).after; at_eof = false; failed = true },
      )
  unfolding getline opened after_line
  getline-cut w = rw w

module _ {ℓ} {S : Type ℓ} (size : ℕ) (body : S → Str → Next S) where
  on_line-run :
      (loop : FileStream → S → Option S) (buffer : Str) (st : FileStream) (ls : List Str)
      → ((y : S) → loop st y ≡ some (run body y ls))
      → (x : S) → on_line loop body (buffer, st) x ≡ some (run body x (buffer ∷ ls))
  unfolding on_line run
  on_line-run loop buffer st ls h x = elim (Bool-cases (is_empty (c_str buffer))) [
    | inl e ↦ rw (e, run) (h x)
    | inr e ↦ rw (e, run) (on_body (body x buffer))
  ]
    where
      on_body :
          (b : Next S)
          → on_next loop st b ≡ some (elim b [ next s' ↦ run body s' ls | break s' ↦ s' ])
      on_body (next y) = h y
      on_body (break y) = refl

  at_end :
      (fuel : ℕ) (st : FileStream)
      → st.at_eof ≡ true
      → (x : S) → read_loop (suc fuel) size body st x ≡ some (run body x [])
  unfolding read_loop run
  at_end fuel st e x = rw e

  -- With enough fuel the loop folds its body over the lines of the file.
  pub read_loop-run :
      (fuel : ℕ) (s : Str)
      → fits (size - 1) (size - 1) s ≡ true
      → length s + 2 ≤ fuel
      → (x : S) → read_loop fuel size body (opened s) x ≡ some (run body x (lines s))
  unfolding read_loop opened
  read_loop-run zero s f h x = absurd (omega arith)
  read_loop-run (suc zero) s f h x = absurd (omega arith)
  read_loop-run (suc (suc fuel)) s f h x = elim (extract-Extracts (size - 1) (size - 1) s) [
    | last w e _ ↦
        rw (getline-last size s w, e)
          (on_line-run _ _ _ []
            (at_end fuel
              (record {
                rest = (extract (size - 1) s).after;
                at_eof = true;
                failed = is_empty (extract (size - 1) s).line;
              })
              refl)
            x)
    | more w e d g ↦
        rw (getline-more size s w, e)
          (on_line-run _ _ _ _ (read_loop-run (suc fuel) _ (sym g ∙ f) (omega arith)) x)
    | cut w g ↦ cc
  ]

  -- The loop over a file whose lines fit the buffer ends, and has folded its body over the lines that
  -- are not empty, up to a `break`.
  pub for_lines-run :
      (contents : Str) (x : S)
      → fits (size - 1) (size - 1) contents ≡ true
      → for_lines size body contents x ≡ some (run body x (lines contents))
  unfolding for_lines
  for_lines-run contents x h = read_loop-run (length contents + 2) contents h (omega arith) x

  -- A stream that has failed short of the end of the file is read for ever.
  failed_loop :
      (fuel : ℕ) (r : Str) (x : S)
      → read_loop fuel size body (record { rest = r; at_eof = false; failed = true }) x ≡ none
  unfolding read_loop on_line getline c_str
  failed_loop zero r x = refl
  failed_loop (suc fuel) r x = failed_loop fuel r x

module _ {ℓ} {S : Type ℓ} (size : ℕ) (f : S → Str → S) where
  on_line-none :
      (loop : FileStream → S → Option S) (buffer : Str) (st : FileStream)
      → ((y : S) → loop st y ≡ none)
      → (x : S) → on_line loop (λ y l. next (f y l)) (buffer, st) x ≡ none
  unfolding on_line
  on_line-none loop buffer st h x = elim (Bool-cases (is_empty (c_str buffer))) [
    | inl e ↦ rw e (h x)
    | inr e ↦ rw e (h (f x buffer))
  ]

  -- A loop that never breaks does not end on a file with a line that the buffer does not hold,
  -- whatever the fuel.
  pub read_loop-none :
      (fuel : ℕ) (s : Str)
      → fits (size - 1) (size - 1) s ≡ false
      → (x : S) → read_loop fuel size (λ y l. next (f y l)) (opened s) x ≡ none
  unfolding read_loop opened
  read_loop-none zero s h x = refl
  read_loop-none (suc fuel) s h x = elim (extract-Extracts (size - 1) (size - 1) s) [
    | last w e g ↦ cc
    | more w e d g ↦
        rw (getline-more size s w) (on_line-none _ _ _ (read_loop-none fuel _ (sym g ∙ h)) x)
    | cut w g ↦
        rw (getline-cut size s w)
          (on_line-none _ _ _ (failed_loop size (λ y l. next (f y l)) fuel _) x)
  ]
