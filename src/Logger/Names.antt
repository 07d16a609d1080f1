-- ===== src/Logger/Names.antt =====
-- The short name of a file, as `Logger::GetShortName` of src/utils/logger.hpp finds it.
use capture.Prelude.{
  ℕ, suc, ◌≡◌, refl, true, false, [], ◌∷◌, ◌++◌, none, some, arith, All, drop, Option-cases, inl,
  inr, ◌⊎◌, Bool-cases, subst, ap,
}
use capture.Text.{Str}
use capture.Logger.{is_separator, find_last_of, get_short_name}

-- No byte of the text separates directories.
abbrev pub IsPlainName : Str → Type 0
IsPlainName s = All (λ c. is_separator c ≡ false) s

-- Empty, or with a separator at its end.
abbrev pub IsDirectory : Str → Type 0
IsDirectory dir = (dir ≡ []) ⊎ ((d : Str) × (c : ℕ) × (dir ≡ d ++ c ∷ []) × (is_separator c ≡ true))

none-IsPlainName : (s : Str) → find_last_of s ≡ none → IsPlainName s
unfolding find_last_of
none-IsPlainName [] e = tt
none-IsPlainName (c ∷ s) e = elim (Option-cases (find_last_of s)) [
  | inl x ↦ (ground (arith, x), none-IsPlainName s x)
  | inr (p, x) ↦ absurd (ground (arith, x))
]

-- A text that is cut behind its last separator, at a position.
record Split (s : Str) (pos : ℕ) : Type 0 where
  dir : Str
  separator : ℕ
  whole : s ≡ (dir ++ separator ∷ []) ++ drop (suc pos) s
  separates : is_separator separator ≡ true
  plain : IsPlainName (drop (suc pos) s)

find_last_of-Split : (s : Str) (pos : ℕ) → find_last_of s ≡ some pos → Split s pos
unfolding find_last_of
find_last_of-Split [] pos e = absurd cc
find_last_of-Split (c ∷ s) pos e = elim (Option-cases (find_last_of s)) [
  | inr (p, x) ↦
      let q = find_last_of-Split s p x in
      let f : suc p ≡ pos = ground (arith, x) in
      subst (Split (c ∷ s)) f (record {
        dir = c ∷ q.dir;
        separator = q.separator;
        whole = ap (◌∷◌ c) q.whole;
        separates = q.separates;
        plain = q.plain;
      })
  | inl x ↦ elim (Bool-cases (is_separator c)) [
    | inr y ↦ absurd (ground (arith, x, y))
    | inl y ↦
        let f : 0 ≡ pos = ground (arith, x, y) in
        subst (Split (c ∷ s)) f (record {
          dir = [];
          separator = c;
          whole = refl;
          separates = y;
          plain = none-IsPlainName s x;
        })
  ]
]

-- GetShortName cuts a path in two: a part that is empty or ends in "/" or "\\", and behind it the name, in
-- which there is neither.
pub get_short_name-split :
    (path : Str)
    → (dir : Str) × (path ≡ dir ++ get_short_name path)
      × IsDirectory dir
      × IsPlainName (get_short_name path)
unfolding get_short_name
get_short_name-split [] = ([], refl, inl refl, tt)
get_short_name-split (c ∷ s) = elim (Option-cases (find_last_of (c ∷ s))) [
  | inl x ↦ rw (x, get_short_name) ([], refl, inl refl, none-IsPlainName (c ∷ s) x)
  | inr (pos, x) ↦
      let q = find_last_of-Split (c ∷ s) pos x in
      rw (x, get_short_name)
        (q.dir ++ q.separator ∷ [], q.whole, inr (q.dir, q.separator, refl, q.separates), q.plain)
]
