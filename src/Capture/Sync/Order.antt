-- ===== src/Capture/Sync/Order.antt =====
-- Sorted numbers: which keys stay beside a set of process numbers.
use capture.Prelude.{
  ℕ, ◌<◌, ◌≡◌, refl, ap, Bool, true, false, ◌&&◌, ◌||◌, List, [], ◌∷◌, arith, ltb, ◌==◌,
  if◌then◌else◌, map, Bool-cases, inl, inr, mem_nat,
}
use capture.ProcessFields.{CapProcess}

abbrev pub keys : List (ℕ × CapProcess) → List ℕ
keys m = map (λ x. x.0) m

-- Each number is greater than those before it, as in a std::set and the keys of a std::map.
abbrev pub Above : ℕ → List ℕ → Type 0
Above n [] = Unit
Above n (k ∷ ks) = (n < k) × Above k ks

abbrev pub IsSorted : List ℕ → Type 0
IsSorted [] = Unit
IsSorted (k ∷ ks) = Above k ks

-- Every number of the list is less than `k`.
abbrev pub all_less : List ℕ → ℕ → Bool
all_less [] k = true
all_less (p ∷ ps) k = ltb p k && all_less ps k

-- What becomes of a process: it is kept if its number is still there, or behind all that are.
abbrev pub stays : List ℕ → ℕ → Bool
stays pids k = mem_nat k pids || all_less pids k

unfoldable pub kept_keys : List ℕ → List ℕ → List ℕ
kept_keys pids [] = []
kept_keys pids (k ∷ ks) = let rest = kept_keys pids ks in if stays pids k then k ∷ rest else rest

unfoldable pub erased_keys : List ℕ → List ℕ → List ℕ
erased_keys pids [] = []
erased_keys pids (k ∷ ks) =
    let rest = erased_keys pids ks in if stays pids k then rest else k ∷ rest

-- The numbers are among the keys.
abbrev pub Among : List ℕ → List ℕ → Type 0
Among pids ks = (k : ℕ) → mem_nat k pids ≡ true → mem_nat k ks ≡ true

pub mem-Above : (n x : ℕ) (ks : List ℕ) → Above n ks → mem_nat x ks ≡ true → n < x
unfolding mem_nat
mem-Above n x [] a h = cc
mem-Above n x (k ∷ ks) a h = elim (Bool-cases (k == x)) [
  | inl e ↦ ground arith
  | inr e ↦ let i : k < x = mem-Above k x ks a.1 (rw e at h) in omega arith
]

pub Above-mono : (n k : ℕ) (ks : List ℕ) → n < k → Above k ks → Above n ks
Above-mono n k [] h a = tt
Above-mono n k (j ∷ ks) h a = (omega arith, a.1)

pub kept_keys-nil : (ks : List ℕ) → kept_keys [] ks ≡ ks
unfolding kept_keys mem_nat
kept_keys-nil [] = refl
kept_keys-nil (k ∷ ks) = ap (◌∷◌ k) (kept_keys-nil ks)

pub erased_keys-nil : (ks : List ℕ) → erased_keys [] ks ≡ []
unfolding erased_keys mem_nat
erased_keys-nil [] = refl
erased_keys-nil (k ∷ ks) = erased_keys-nil ks

-- A number below all keys decides nothing about them.
pub stays-skip : (p k : ℕ) (ps : List ℕ) → p < k → stays (p ∷ ps) k ≡ stays ps k
unfolding mem_nat
stays-skip p k ps h = ground arith

pub kept_keys-skip : (p : ℕ) (ps ks : List ℕ) → Above p ks → kept_keys (p ∷ ps) ks ≡ kept_keys ps ks
unfolding kept_keys
kept_keys-skip p ps [] a = refl
kept_keys-skip p ps (k ∷ ks) a =
    rw (stays-skip p k ps a.0, kept_keys-skip p ps ks (Above-mono p k ks a.0 a.1))

pub erased_keys-skip :
    (p : ℕ) (ps ks : List ℕ) → Above p ks → erased_keys (p ∷ ps) ks ≡ erased_keys ps ks
unfolding erased_keys
erased_keys-skip p ps [] a = refl
erased_keys-skip p ps (k ∷ ks) a =
    rw (stays-skip p k ps a.0, erased_keys-skip p ps ks (Above-mono p k ks a.0 a.1))

pub Among-tails : (p : ℕ) (ps ks : List ℕ) → Above p ps → Among (p ∷ ps) (p ∷ ks) → Among ps ks
unfolding mem_nat
Among-tails p ps ks a h x i = let g = mem-Above p x ps a i in ground (arith, h x)

-- The first number is not the first key, so it is one of the others, which are all greater.
pub Among-skip :
    (p k : ℕ) (ps ks : List ℕ)
    → (p == k) ≡ false
    → Above p ps
    → Above k ks
    → Among (p ∷ ps) (k ∷ ks)
    → (k < p) × Among (p ∷ ps) ks
unfolding mem_nat
Among-skip p k ps ks e a b h = (first, others)
  where
    first : k < p
    first = mem-Above k p ks b (ground (arith, h p))

    others : Among (p ∷ ps) ks
    others x i = elim (Bool-cases (p == x)) [
      | inl y ↦ ground (arith, h x, first)
      | inr y ↦ let g = mem-Above p x ps a (rw y at i) in ground (arith, h x, first)
    ]

pub goes : (p k : ℕ) (ps : List ℕ) → k < p → Above p ps → stays (p ∷ ps) k ≡ false
unfolding mem_nat
goes p k ps h a = elim (Bool-cases (mem_nat k ps)) [
  | inl e ↦ let g = mem-Above p k ps a e in absurd (omega arith)
  | inr e ↦ ground arith
]

pub stays_self : (p k : ℕ) (ps : List ℕ) → (p == k) ≡ true → stays (p ∷ ps) k ≡ true
unfolding mem_nat
stays_self p k ps e = ground arith

pub IsSorted-tail : (n : ℕ) (ks : List ℕ) → Above n ks → IsSorted ks
IsSorted-tail n [] a = tt
IsSorted-tail n (k ∷ ks) a = a.1
