-- ===== src/Capture/Sync.antt =====
-- The part of CaptureCxx::Update that brings `processes` in line with `pids`.
pub mod Order
pub mod Survivors
pub mod Split
use capture.Prelude.{
  ℕ, ◌+◌, Bool, true, false, List, [], ◌∷◌, ◌++◌, Option, none, some, ◌==◌, if◌then◌else◌, length,
  map,
}
use capture.Outcome.{Status, Run, finished, overread, endless, thrown, ◌>>=◌, ended}
use capture.Os.{Os}
use capture.ProcessFields.{CapProcess}
use capture.Process
use capture.Capture.{Capture, Call, remove_called}

-- The processes that are left, and those that were erased, in the order of their removal.
pub record Synced : Type 0 where
  pub left : List (ℕ × CapProcess)
  pub erased : List ℕ

-- The loop over the two iterators, with what it still has to see of `pids` and of `processes`.
unfoldable pub sync : Os → ℕ → ℕ → List ℕ → List (ℕ × CapProcess) → Run Synced
sync os memory delta [] m = finished (record { left = m; erased = [] })
sync os memory delta (p ∷ ps) [] = finished (record { left = []; erased = [] })
sync os memory delta (p ∷ ps) ((k, q) ∷ m) = elim (p == k) [
  | false ↦ do
    r ← sync os memory delta (p ∷ ps) m
    finished (record { left = r.left; erased = k ∷ r.erased })
  | true ↦ do
    q' ← ended (Process.parse os memory delta q)
    r ← sync os memory delta ps m
    finished (record { left = (k, q'.state) ∷ r.left; erased = r.erased })
]

-- `if (pids.size() != processes.size()) { … }`, with the removal callbacks
unfoldable pub sync_processes : Os → Capture → Run Capture
unfolding sync
sync_processes os s = if length s.pids == length s.processes then finished s else do
  r ← sync os s.memory s.delta_cpu s.pids s.processes
  finished (record s {
    processes = r.left;
    calls = s.calls ++ (if s.process_callback then map remove_called r.erased else []);
  })
