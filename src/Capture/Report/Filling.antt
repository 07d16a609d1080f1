-- ===== src/Capture/Report/Filling.antt =====
-- The two loops of CaptureCxx::Update that fill the array for the process callback.
use mathlib.Core.List.{append-nil, append_assoc}
use capture.Prelude.{
  ℕ, suc, ◌+◌, ◌≤◌, ◌≡◌, refl, sym, ap, ◌∙◌, true, false, List, [], ◌∷◌, ◌++◌, arith, ltb, length,
  map, set, drop, take, length-append, Bool-cases, inl, inr, lt→ltb,
}
use capture.ProcessFields.{CapProcess}
use capture.Capture.{Capture, ProcessInfo, update_called}
use capture.Capture.Report.{info_of, overwrite, push_all, fill, report_processes}

abbrev pub entry_of : ℕ × CapProcess → ProcessInfo
entry_of (k, p) = info_of p

-- Both loops without the index: what is written over, and what is left to add.
over : List (ℕ × CapProcess) → List ProcessInfo → List ProcessInfo
over [] ys = ys
over (x ∷ m) [] = []
over (x ∷ m) (y ∷ ys) = entry_of x ∷ over m ys

rest_of : List (ℕ × CapProcess) → List ProcessInfo → List (ℕ × CapProcess)
rest_of [] ys = []
rest_of (x ∷ m) [] = x ∷ m
rest_of (x ∷ m) (y ∷ ys) = rest_of m ys

set-append :
    (pre ys : List ProcessInfo) (y v : ProcessInfo)
    → set (pre ++ y ∷ ys) (length pre) v ≡ (pre ++ v ∷ []) ++ ys
set-append [] ys y v = refl
set-append (x ∷ pre) ys y v = ap (◌∷◌ x) (set-append pre ys y v)

overwrite-eq :
    (m : List (ℕ × CapProcess)) (pre ys : List ProcessInfo) (idx : ℕ)
    → idx ≡ length pre
    → overwrite idx m (pre ++ ys) ≡ record { entries = pre ++ over m ys; todo = rest_of m ys }
unfolding overwrite over rest_of
overwrite-eq [] pre ys idx e = refl
overwrite-eq ((k, p) ∷ m) pre [] idx e =
    let h : ltb idx (length (pre ++ [])) ≡ false = ground (arith, length-append pre []) in rw h
overwrite-eq ((k, p) ∷ m) pre (y ∷ ys) idx e =
    let h : ltb idx (length (pre ++ y ∷ ys)) ≡ true =
      lt→ltb _ _ (omega (arith, length-append pre (y ∷ ys))) in
    rw (h, e, set-append pre ys y (info_of p))
      (overwrite-eq m (pre ++ info_of p ∷ []) ys (length pre + 1)
          (omega (arith, length-append pre (info_of p ∷ [])))
        ∙ ap (λ (t : List ProcessInfo). record { entries = t; todo = rest_of m ys })
            (append_assoc pre (info_of p ∷ []) (over m ys)))

push_all-eq :
    (m : List (ℕ × CapProcess)) (xs : List ProcessInfo) → push_all m xs ≡ xs ++ map entry_of m
unfolding push_all
push_all-eq [] xs = sym (append-nil xs)
push_all-eq ((k, p) ∷ m) xs =
    push_all-eq m (xs ++ info_of p ∷ []) ∙ append_assoc xs (info_of p ∷ []) (map entry_of m)

over-rest :
    (m : List (ℕ × CapProcess)) (ys : List ProcessInfo)
    → over m ys ++ map entry_of (rest_of m ys) ≡ map entry_of m ++ drop (length m) ys
unfolding over rest_of
over-rest [] ys = append-nil ys
over-rest (x ∷ m) [] = sym (append-nil (map entry_of (x ∷ m)))
over-rest (x ∷ m) (y ∷ ys) = ap (◌∷◌ (entry_of x)) (over-rest m ys)

length-over : (m : List (ℕ × CapProcess)) (ys : List ProcessInfo) → length (over m ys) ≡ length ys
unfolding over
length-over [] ys = refl
length-over (x ∷ m) [] = refl
length-over (x ∷ m) (y ∷ ys) = ap suc (length-over m ys)

rest_of-nil :
    (m : List (ℕ × CapProcess)) (ys : List ProcessInfo) → length m ≤ length ys → rest_of m ys ≡ []
unfolding rest_of
rest_of-nil [] ys h = refl
rest_of-nil (x ∷ m) [] h = absurd (omega arith)
rest_of-nil (x ∷ m) (y ∷ ys) h = rest_of-nil m ys (omega arith)

-- The entries of all processes in the order of their numbers, then what was there behind them.
pub fill-eq :
    (m : List (ℕ × CapProcess)) (xs : List ProcessInfo)
    → fill m xs ≡ map entry_of m ++ drop (length m) xs
unfolding fill
fill-eq m xs =
    rw (overwrite-eq m [] xs 0 refl) (elim (Bool-cases (ltb (length (over m xs)) (length m))) [
      | inl e ↦ rw (e, push_all-eq (rest_of m xs) (over m xs)) (over-rest m xs)
      | inr e ↦ rw e (
          sym (append-nil (over m xs))
          ∙ (ap (λ t. over m xs ++ map entry_of t)
                (sym (rest_of-nil m xs (ground (arith, length-over m xs))))
              ∙ over-rest m xs))
    ])

take-map-append :
    (m : List (ℕ × CapProcess)) (ys : List ProcessInfo)
    → take (length m) (map entry_of m ++ ys) ≡ map entry_of m
take-map-append [] ys = refl
take-map-append (x ∷ m) ys = ap (◌∷◌ (entry_of x)) (take-map-append m ys)

-- If there is a process callback, it is told the number of processes, and so many entries of the
-- array that it is given are those of the processes, in the order of the table.
pub report_shows_processes :
    (s : Capture)
    → s.process_callback ≡ true
    → (xs : List ProcessInfo) × ((report_processes s).calls
        ≡ s.calls ++ update_called xs (length s.processes) ∷ [])
      × (take (length s.processes) xs ≡ map entry_of s.processes)
unfolding report_processes
report_shows_processes s h = (
  fill s.processes s.process_data,
  rw h,
  ap (take (length s.processes)) (fill-eq s.processes s.process_data)
      ∙ take-map-append s.processes (drop (length s.processes) s.process_data),
)
