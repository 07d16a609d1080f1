-- ===== src/Capture/Sync/Survivors.antt =====
-- Which processes the synchronisation of `Update` keeps.
use capture.Prelude.{
  ℕ, ◌<◌, ◌≡◌, refl, sym, ap, ◌∙◌, subst, true, false, List, [], ◌∷◌, arith, ◌==◌, Bool-cases, inl,
  inr, mem_nat,
}
use capture.Outcome.{finished, ended}
use capture.Outcome.Rules.{>>=-eq-finished, finished-injective}
use capture.Os.{Os}
use capture.ProcessFields.{CapProcess}
use capture.Process
use capture.Capture.Sync.{Synced, sync}
use capture.Capture.Sync.Order.{
  IsSorted-tail, keys, Above, IsSorted, Among, kept_keys, erased_keys, kept_keys-nil,
  erased_keys-nil, kept_keys-skip, erased_keys-skip, Among-tails, Among-skip, goes, stays_self,
}

-- If the next number of `pids` is that of no process, each process that is still to come is erased,
-- also those that are alive.
pub new_pid_erases_rest :
    (os : Os) (memory delta p : ℕ) (ps : List ℕ) (m : List (ℕ × CapProcess))
    → mem_nat p (keys m) ≡ false
    → sync os memory delta (p ∷ ps) m ≡ finished (record { left = []; erased = keys m })
unfolding sync mem_nat
new_pid_erases_rest os memory delta p ps [] h = refl
new_pid_erases_rest os memory delta p ps ((k, q) ∷ m) h = elim (Bool-cases (p == k)) [
  | inl e ↦ absurd (ground arith)
  | inr e ↦ rw (e, sync) (rw (new_pid_erases_rest os memory delta p ps m (ground arith)))
]

-- What the loop leaves is what stays of the keys, and it erases the others.
Survives : List ℕ → List (ℕ × CapProcess) → Synced → Type 0
Survives pids m r = (keys r.left ≡ kept_keys pids (keys m)) × (r.erased ≡ erased_keys pids (keys m))

Survives-match :
    (p k : ℕ) (q q' : CapProcess) (ps : List ℕ) (m : List (ℕ × CapProcess)) (r : Synced)
    → (p == k) ≡ true
    → Above k (keys m)
    → Survives ps m r
    → Survives (p ∷ ps) ((k, q) ∷ m) (record { left = (k, q') ∷ r.left; erased = r.erased })
unfolding Survives kept_keys erased_keys
Survives-match p k q q' ps m r e a h =
    let x = stays_self p k ps e in
    let y : p ≡ k = ground arith in
    rw x (
      ap (◌∷◌ k) (h.0 ∙ sym (kept_keys-skip p ps (keys m) (rw y a))),
      h.1 ∙ sym (erased_keys-skip p ps (keys m) (rw y a)),
    )

Survives-erase :
    (p k : ℕ) (q : CapProcess) (ps : List ℕ) (m : List (ℕ × CapProcess)) (r : Synced)
    → k < p
    → Above p ps
    → Survives (p ∷ ps) m r
    → Survives (p ∷ ps) ((k, q) ∷ m) (record { left = r.left; erased = k ∷ r.erased })
unfolding Survives kept_keys erased_keys
Survives-erase p k q ps m r l a h = rw (goes p k ps l a) (h.0, ap (◌∷◌ k) h.1)

sync-Survives :
    (os : Os) (memory delta : ℕ) (pids : List ℕ) (m : List (ℕ × CapProcess)) (r : Synced)
    → IsSorted pids
    → IsSorted (keys m)
    → Among pids (keys m)
    → sync os memory delta pids m ≡ finished r
    → Survives pids m r
unfolding sync
sync-Survives os memory delta [] m r sp sm h e =
    subst (Survives [] m) (finished-injective _ r e)
      (unfold Survives in (sym (kept_keys-nil (keys m)), sym (erased_keys-nil (keys m))))
sync-Survives os memory delta (p ∷ ps) [] r sp sm h e =
    subst (Survives (p ∷ ps) []) (finished-injective _ r e)
      (unfold Survives kept_keys erased_keys in (refl, refl))
sync-Survives os memory delta (p ∷ ps) ((k, q) ∷ m) r sp sm h e = elim (Bool-cases (p == k)) [
  | inl x ↦
      let (q', _, e1) =
        >>=-eq-finished (ended (Process.parse os memory delta q)) _ (rw (x, sync) at e) in
      let (t, e2, e3) = >>=-eq-finished (sync os memory delta ps m) _ e1 in
      let y : p ≡ k = ground arith in
      subst (Survives (p ∷ ps) ((k, q) ∷ m)) (finished-injective _ r e3) (
        Survives-match p k q q'.state ps m t x sm (
          sync-Survives os memory delta ps m t (IsSorted-tail p ps sp) (IsSorted-tail k (keys m) sm)
            (Among-tails p ps (keys m) sp (rw (← y) at h)) e2))
  | inr x ↦
      let (t, e2, e3) = >>=-eq-finished (sync os memory delta (p ∷ ps) m) _ (rw (x, sync) at e) in
      let g = Among-skip p k ps (keys m) x sp sm h in
      subst (Survives (p ∷ ps) ((k, q) ∷ m)) (finished-injective _ r e3) (
        Survives-erase p k q ps m t g.0 sp
          (sync-Survives os memory delta (p ∷ ps) m t sp (IsSorted-tail k (keys m) sm) g.1 e2))
]

-- If `pids` and the table are in order, every number of `pids` is that of a process, and the loop
-- finishes, exactly those processes are erased whose number is gone and is less than one that is
-- there; processes that have ended behind the last number stay.
pub sync_survivors :
    (os : Os) (memory delta : ℕ) (pids : List ℕ) (m : List (ℕ × CapProcess)) (r : Synced)
    → IsSorted pids
    → IsSorted (keys m)
    → Among pids (keys m)
    → sync os memory delta pids m ≡ finished r
    → (keys r.left ≡ kept_keys pids (keys m)) × (r.erased ≡ erased_keys pids (keys m))
unfolding Survives
sync_survivors os memory delta pids m r sp sm h e = sync-Survives os memory delta pids m r sp sm h e
