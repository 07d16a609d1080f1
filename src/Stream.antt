-- ===== src/Stream.antt =====
-- `std::fstream` opened for reading, `getline` into a buffer, and the loop
-- `while (!s.eof()) { s.getline(buffer, size); if (strcmp(buffer, "") == 0) continue; … }`
-- of cap_process.cpp, cap_inode_helper.cpp and capturecxx.cpp.
pub mod Lines
pub mod Unlines
pub mod Invariant
use capture.Prelude.{
  ℕ, zero, suc, ◌+◌, ◌-◌, ◌≡◌, refl, Bool, true, false, ◌||◌, [], ◌∷◌, Option, none, some, ◌==◌,
  if◌then◌else◌, length,
}
use capture.Text.{Str, codes, c_str}

-- What is left of the file, and the two flags that `getline` sets.
pub record FileStream : Type 0 where
  pub rest : Str
  pub at_eof : Bool
  pub failed : Bool

pub opened : Str → FileStream
opened contents = record { rest = contents; at_eof = false; failed = false }

-- Why an extraction stopped, in the order of the tests.
pub data Stop : Type 0 where
  hit_eof delimiter full : Stop

pub record Line : Type 0 where
  pub line : Str
  pub after : Str
  pub why : Stop

abbrev longer : ℕ → Line → Line
longer c l = record l { line = c ∷ l.line }

pub extract : ℕ → Str → Line
extract n [] = record { line = []; after = []; why = hit_eof }
extract zero (c ∷ s) =
    if c == 10
    then record { line = []; after = s; why = delimiter }
    else record { line = []; after = c ∷ s; why = full }
extract (suc n) (c ∷ s) =
    let l = extract n s in
    if c == 10 then record { line = []; after = s; why = delimiter } else longer c l

is_empty : Str → Bool
is_empty [] = true
is_empty (c ∷ s) = false

after_line : Line → FileStream
unfolding is_empty
after_line l = elim l.why [
  | hit_eof ↦ record { rest = l.after; at_eof = true; failed = is_empty l.line }
  | delimiter ↦ record { rest = l.after; at_eof = false; failed = false }
  | full ↦ record { rest = l.after; at_eof = false; failed = true }
]

-- s.getline(buffer, size): on a stream that is not good it stores an empty text and fails again.
pub getline : ℕ → FileStream → Str × FileStream
unfolding extract after_line
getline size s =
    if s.at_eof || s.failed
    then ([], record s { failed = true })
    else (let l = extract (size - 1) s.rest in (l.line, after_line l))

-- What the body of a loop does with a line: go on, or `break`.
pub data Next {ℓ} (S : Type ℓ) : Type ℓ where
  next break : S → Next S

module _ {ℓ} {S : Type ℓ} where
  on_next : (FileStream → S → Option S) → FileStream → Next S → Option S
  on_next loop st (next s) = loop st s
  on_next loop st (break s) = some s

  on_line : (FileStream → S → Option S) → (S → Str → Next S) → Str × FileStream → S → Option S
  unfolding on_next is_empty
  on_line loop body (buffer, st) s =
      if is_empty (c_str buffer) then loop st s else on_next loop st (body s buffer)

  -- `none`: the fuel ran out before the loop ended.
  pub read_loop : ℕ → ℕ → (S → Str → Next S) → FileStream → S → Option S
  read_loop zero size body st s = none
  read_loop (suc fuel) size body st s = elim st.at_eof [
    | true ↦ some s
    | false ↦ on_line (read_loop fuel size body) body (getline size st) s
  ]

  -- The loop over a whole file; each round but the last takes a byte.
  unfoldable pub for_lines : ℕ → (S → Str → Next S) → Str → S → Option S
  unfolding read_loop opened on_line getline
  for_lines size body contents s = read_loop (length contents + 2) size body (opened contents) s

three_lines : for_lines 1024 (λ (k : ℕ) l. next (k + length l)) (codes "ab\n\ncde\n") 0 ≡ some 5
unfolding for_lines c_str
three_lines = refl
