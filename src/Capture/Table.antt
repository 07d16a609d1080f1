-- ===== src/Capture/Table.antt =====
-- The table of processes: what an assignment changes of its order, its entries and its traffic.
use capture.Prelude.{
  ℕ, ◌+◌, ◌≤◌, ◌<◌, ◌≡◌, refl, List, [], ◌∷◌, none, some, arith, ltb, ◌==◌, Bool-cases, inl, inr,
  find, nat_eq,
}
use capture.ProcessFields.{CapProcess}
use capture.Capture.Account.{put_process}
use capture.Capture.Sync.Order.{keys, IsSorted-tail, Above, IsSorted}

-- The bytes that a process has sent and received, and those of all processes.
abbrev pub traffic : CapProcess → ℕ
traffic p = p.send + p.recv

unfoldable pub total : List (ℕ × CapProcess) → ℕ
total [] = 0
total ((k, p) ∷ m) = traffic p + total m

Above-put :
    (n k : ℕ) (q : CapProcess) (m : List (ℕ × CapProcess))
    → n < k
    → Above n (keys m)
    → Above n (keys (put_process k q m))
unfolding put_process
Above-put n k q [] h a = (h, tt)
Above-put n k q ((j, p) ∷ m) h a = elim (Bool-cases (ltb k j)) [
  | inl e ↦ rw e (h, (ground arith, a.1))
  | inr e ↦ elim (Bool-cases (j == k)) [
    | inl x ↦ let y : j ≡ k = ground arith in rw (e, x) (h, rw (← y) a.1)
    | inr x ↦ rw (e, x) (a.0, Above-put j k q m (ground arith) a.1)
  ]
]

-- An assignment keeps the table sorted.
pub IsSorted-put :
    (k : ℕ) (q : CapProcess) (m : List (ℕ × CapProcess))
    → IsSorted (keys m)
    → IsSorted (keys (put_process k q m))
unfolding put_process
IsSorted-put k q [] s = tt
IsSorted-put k q ((j, p) ∷ m) s = elim (Bool-cases (ltb k j)) [
  | inl e ↦ rw e (ground arith, s)
  | inr e ↦ elim (Bool-cases (j == k)) [
    | inl x ↦ let y : j ≡ k = ground arith in rw (e, x) (rw (← y) s)
    | inr x ↦ rw (e, x) (Above-put j k q m (ground arith) s)
  ]
]

find-Above : (n k : ℕ) (m : List (ℕ × CapProcess)) → (k ≤ n) → Above n (keys m) → find k m ≡ none
unfolding find
find-Above n k [] h a = refl
find-Above n k ((j, p) ∷ m) h a = ground (arith, find-Above j k m (omega arith) a.1)

-- What an assignment to a new key adds.
pub total-put-none :
    (k : ℕ) (q : CapProcess) (m : List (ℕ × CapProcess))
    → IsSorted (keys m)
    → find k m ≡ none
    → total (put_process k q m) ≡ traffic q + total m
unfolding total put_process find
total-put-none k q [] s h = refl
total-put-none k q ((j, p) ∷ m) s h =
    ground (arith, total-put-none k q m (IsSorted-tail j (keys m) s))

-- What an assignment to an old key changes.
pub total-put-some :
    (k : ℕ) (p q : CapProcess) (m : List (ℕ × CapProcess))
    → IsSorted (keys m)
    → find k m ≡ some p
    → total (put_process k q m) + traffic p ≡ traffic q + total m
unfolding total put_process find
total-put-some k p q [] s h = cc
total-put-some k p q ((j, x) ∷ m) s h =
    let behind = λ (l : k ≤ j). find-Above j k m l s in
    ground (arith, total-put-some k p q m (IsSorted-tail j (keys m) s), behind)
