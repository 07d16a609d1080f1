-- ===== src/Capture/Sound/Syncing.antt =====
-- The invariant of the state, and the synchronisation of `Update`.
use capture.Prelude.{ℕ, ◌≡◌, List, [], ◌∷◌, ◌==◌, length, Bool-cases, inl, inr, ◌∙◌}
use capture.Outcome.Yields.{Yields, finished-Yields, bind-Yields, ended-Yields, if-Yields}
use capture.Os.{Os}
use capture.ProcessFields.{CapProcess}
use capture.Process
use capture.Process.Parsing.{parse_keeps_traffic}
use capture.Capture.{Capture}
use capture.Capture.Sync.{Synced, sync, sync_processes}
use capture.Capture.Sync.Order.{keys, Above, IsSorted, IsSorted-tail, Above-mono}
use capture.Capture.Sound.{IsSound}
use capture.Capture.Sound.Parts.{IsNamed}

-- What is left of a table is in order, begins no earlier, and has its own numbers.
record IsTrimmed (m : List (ℕ × CapProcess)) (r : Synced) : Type 0 where
  above : (n : ℕ) → Above n (keys m) → Above n (keys r.left)
  sorted : IsSorted (keys r.left)
  named : IsNamed r.left

IsTrimmed-erase :
    (k : ℕ) (q : CapProcess) (m : List (ℕ × CapProcess)) (r : Synced)
    → IsTrimmed m r
    → IsTrimmed ((k, q) ∷ m) (record { left = r.left; erased = k ∷ r.erased })
IsTrimmed-erase k q m r t = record {
  above = λ n a. t.above n (Above-mono n k (keys m) a.0 a.1);
  sorted = t.sorted;
  named = t.named;
}

IsTrimmed-match :
    (k : ℕ) (q q' : CapProcess) (m : List (ℕ × CapProcess)) (r : Synced)
    → IsSorted (keys ((k, q) ∷ m))
    → q'.pid ≡ k
    → IsTrimmed m r
    → IsTrimmed ((k, q) ∷ m) (record { left = (k, q') ∷ r.left; erased = r.erased })
IsTrimmed-match k q q' m r s e t = record {
  above = λ n a. (a.0, t.above k a.1);
  sorted = t.above k s;
  named = (e, t.named);
}

sync-IsTrimmed :
    (os : Os) (memory delta : ℕ) (pids : List ℕ) (m : List (ℕ × CapProcess))
    → IsSorted (keys m)
    → IsNamed m
    → Yields (IsTrimmed m) (sync os memory delta pids m)
unfolding sync
sync-IsTrimmed os memory delta [] m s n =
    finished-Yields _ (record { above = λ k a. a; sorted = s; named = n })
sync-IsTrimmed os memory delta (p ∷ ps) [] s n =
    finished-Yields _ (record { above = λ k a. a; sorted = s; named = n })
sync-IsTrimmed os memory delta (p ∷ ps) ((k, q) ∷ m) s n = elim (Bool-cases (p == k)) [
  | inl e ↦
      rw (e, sync)
        (bind-Yields _
          (ended-Yields (Process.parse os memory delta q) (parse_keeps_traffic os memory delta q))
          λ q' g.
            bind-Yields _ (sync-IsTrimmed os memory delta ps m (IsSorted-tail k (keys m) s) n.1)
              λ r t. finished-Yields _ (IsTrimmed-match k q q'.state m r s (g.0 ∙ n.0) t))
  | inr e ↦
      rw (e, sync)
        (bind-Yields _ (sync-IsTrimmed os memory delta (p ∷ ps) m (IsSorted-tail k (keys m) s) n.1)
          λ r t. finished-Yields _ (IsTrimmed-erase k q m r t))
]

pub sync_processes-IsSound :
    (os : Os) (s : Capture) → IsSound s → Yields IsSound (sync_processes os s)
unfolding sync_processes
sync_processes-IsSound os s h =
    if-Yields (length s.pids == length s.processes) (finished-Yields s h) (
      bind-Yields _ (sync-IsTrimmed os s.memory s.delta_cpu s.pids s.processes h.sorted h.named)
        λ r t. finished-Yields _ (record {
          pids = h.pids;
          sorted = t.sorted;
          named = t.named;
          within = h.within;
          brief = h.brief;
          no_copies = h.no_copies;
        }))
