-- ===== src/Capture/Sync/Split.antt =====
-- The synchronisation of `Update` loses no process of the table: what is not left is reported as removed.
use capture.Prelude.{
  ℕ, ◌≡◌, refl, true, false, List, [], ◌∷◌, ◌++◌, arith, ◌==◌, Bool-cases, inl, inr, mem_nat, All,
  ◌<◌,
}
use capture.Outcome.{ended}
use capture.Outcome.Yields.{Yields, finished-Yields, bind-Yields}
use capture.Os.{Os}
use capture.ProcessFields.{CapProcess}
use capture.Process
use capture.Capture.Sync.{Synced, sync}
use capture.Capture.Sync.Order.{keys, Above, IsSorted, IsSorted-tail, Above-mono, mem-Above}

-- No number of the first list is in the second.
abbrev pub Apart : List ℕ → List ℕ → Type 0
Apart ks js = All (λ k. mem_nat k js ≡ false) ks

-- Each number of the first list is in one of the other two.
abbrev pub Covers : List ℕ → List ℕ → List ℕ → Type 0
Covers ks gone left = All (λ k. mem_nat k (gone ++ left) ≡ true) ks

-- The keys of a table are what is left and what is erased, and nothing is both.
pub record Splits (m : List (ℕ × CapProcess)) (r : Synced) : Type 0 where
  pub covered : (k : ℕ) → mem_nat k (keys m) ≡ true → mem_nat k (r.erased ++ keys r.left) ≡ true
  pub apart : Apart r.erased (keys r.left)
  pub above_left : (n : ℕ) → Above n (keys m) → Above n (keys r.left)
  pub above_erased : (n : ℕ) → Above n (keys m) → All (λ k. n < k) r.erased

pub mem-append :
    (k : ℕ) (xs ys : List ℕ)
    → mem_nat k (xs ++ ys) ≡ (elim (mem_nat k xs) [ true ↦ true | false ↦ mem_nat k ys ])
unfolding mem_nat
mem-append k [] ys = refl
mem-append k (x ∷ xs) ys = ground (arith, mem-append k xs ys)

not-mem-Above : (n : ℕ) (ks : List ℕ) → Above n ks → mem_nat n ks ≡ false
not-mem-Above n ks a = elim (Bool-cases (mem_nat n ks)) [
  | inl e ↦ let g = mem-Above n n ks a e in absurd (omega arith)
  | inr e ↦ e
]

Apart-cons : (k : ℕ) (xs ks : List ℕ) → All (λ x. k < x) xs → Apart xs ks → Apart xs (k ∷ ks)
unfolding mem_nat
Apart-cons k [] ks h a = tt
Apart-cons k (x ∷ xs) ks h a = (ground arith, Apart-cons k xs ks h.1 a.1)

All-mono : (n k : ℕ) (xs : List ℕ) → n < k → All (λ x. k < x) xs → All (λ x. n < x) xs
All-mono n k [] h a = tt
All-mono n k (x ∷ xs) h a = (omega arith, All-mono n k xs h a.1)

mem-head : (k : ℕ) (ks : List ℕ) → mem_nat k (k ∷ ks) ≡ true
unfolding mem_nat
mem-head k ks = ground arith

covered_middle :
    (k x : ℕ) (xs ys zs : List ℕ)
    → (mem_nat x zs ≡ true → mem_nat x (xs ++ ys) ≡ true)
    → mem_nat x (k ∷ zs) ≡ true
    → mem_nat x (xs ++ k ∷ ys) ≡ true
unfolding mem_nat
covered_middle k x xs ys zs h g = elim (Bool-cases (k == x)) [
  | inl e ↦ rw (mem-append x xs (k ∷ ys)) (ground arith)
  | inr e ↦
      let f : mem_nat x (xs ++ ys) ≡ true = h (rw e at g) in
      rw (mem-append x xs (k ∷ ys)) (ground (arith, mem-append x xs ys))
]

covered_front :
    (k x : ℕ) (xs zs : List ℕ)
    → (mem_nat x zs ≡ true → mem_nat x xs ≡ true)
    → mem_nat x (k ∷ zs) ≡ true
    → mem_nat x (k ∷ xs) ≡ true
unfolding mem_nat
covered_front k x xs zs h g = elim (Bool-cases (k == x)) [
  | inl e ↦ ground arith
  | inr e ↦ let f : mem_nat x xs ≡ true = h (rw e at g) in ground arith
]

Splits-match :
    (k : ℕ) (q q' : CapProcess) (m : List (ℕ × CapProcess)) (r : Synced)
    → Above k (keys m)
    → Splits m r
    → Splits ((k, q) ∷ m) (record { left = (k, q') ∷ r.left; erased = r.erased })
Splits-match k q q' m r a t = record {
  covered = λ x g. covered_middle k x r.erased (keys r.left) (keys m) (t.covered x) g;
  apart = Apart-cons k r.erased (keys r.left) (t.above_erased k a) t.apart;
  above_left = λ n b. (b.0, t.above_left k b.1);
  above_erased = λ n b. All-mono n k r.erased b.0 (t.above_erased k b.1);
}

Splits-erase :
    (k : ℕ) (q : CapProcess) (m : List (ℕ × CapProcess)) (r : Synced)
    → Above k (keys m)
    → Splits m r
    → Splits ((k, q) ∷ m) (record { left = r.left; erased = k ∷ r.erased })
Splits-erase k q m r a t = record {
  covered = λ x g. covered_front k x (r.erased ++ keys r.left) (keys m) (t.covered x) g;
  apart = (not-mem-Above k (keys r.left) (t.above_left k a), t.apart);
  above_left = λ n b. t.above_left n (Above-mono n k (keys m) b.0 b.1);
  above_erased = λ n b. (b.0, All-mono n k r.erased b.0 (t.above_erased k b.1));
}

pub sync-Splits :
    (os : Os) (memory delta : ℕ) (pids : List ℕ) (m : List (ℕ × CapProcess))
    → IsSorted (keys m)
    → Yields (Splits m) (sync os memory delta pids m)
unfolding sync
sync-Splits os memory delta [] m s =
    finished-Yields _
      (record { covered = λ k h. h; apart = tt; above_left = λ n a. a; above_erased = λ n a. tt })
sync-Splits os memory delta (p ∷ ps) [] s =
    finished-Yields _
      (record { covered = λ k h. h; apart = tt; above_left = λ n a. a; above_erased = λ n a. tt })
sync-Splits os memory delta (p ∷ ps) ((k, q) ∷ m) s = elim (Bool-cases (p == k)) [
  | inl e ↦
      rw (e, sync)
        (bind-Yields {P = λ _. Unit {0}} (ended (Process.parse os memory delta q))
          (record { result = λ _ _. tt })
          λ q' _.
            bind-Yields _ (sync-Splits os memory delta ps m (IsSorted-tail k (keys m) s))
              λ r t. finished-Yields _ (Splits-match k q q'.state m r s t))
  | inr e ↦
      rw (e, sync)
        (bind-Yields _ (sync-Splits os memory delta (p ∷ ps) m (IsSorted-tail k (keys m) s))
          λ r t. finished-Yields _ (Splits-erase k q m r s t))
]

All-mem {κ} : (P : ℕ → Type κ) (ks : List ℕ) → ((k : ℕ) → mem_nat k ks ≡ true → P k) → All P ks
unfolding mem_nat
All-mem P [] h = tt
All-mem P (k ∷ ks) h = (h k (mem-head k ks), All-mem P ks (λ x g. h x (ground (arith, g))))

pub Covers-intro :
    (ks gone left : List ℕ)
    → ((k : ℕ) → mem_nat k ks ≡ true → mem_nat k (gone ++ left) ≡ true)
    → Covers ks gone left
Covers-intro ks gone left h = All-mem (λ k. mem_nat k (gone ++ left) ≡ true) ks h
