-- ===== src/Library/Touching.antt =====
-- The part of the state that UpdatePids and Refresh touch in CaptureCxx::Init and Update.
use capture.Prelude.{◌≡◌, refl, [], Option-cases, inl, inr}
use capture.Text.{codes}
use capture.Inet.{Inet}
use capture.Outcome.{ended}
use capture.Outcome.Yields.{Yields, finished-Yields, bind-Yields, thrown-Yields, result-Yields}
use capture.Os.{Os}
use capture.Inode.{refresh}
use capture.Capture.{Capture}
use capture.Capture.Totals.{update_pids, add_pids}
use capture.Library.{refresh_inodes}

-- UpdatePids sets the numbers.
pub update_pids-only :
    (os : Os) (s : Capture)
    → Yields (λ q. q.state ≡ record s { pids = q.state.pids }) (update_pids os s)
unfolding update_pids
update_pids-only os s = elim (Option-cases (os.dir (codes "/proc"))) [
  | inl e ↦ rw (e, update_pids) (finished-Yields _ refl)
  | inr (es, e) ↦ elim (Option-cases (add_pids es [])) [
    | inl x ↦ rw (e, x, update_pids) thrown-Yields
    | inr (ps, x) ↦ rw (e, x, update_pids) (finished-Yields _ refl)
  ]
]

-- Refresh sets the singleton.
pub refresh_inodes-only :
    (inet : Inet) (os : Os) (s : Capture)
    → Yields (λ q. q ≡ record s { inodes = q.inodes }) (refresh_inodes inet os s)
unfolding refresh_inodes
refresh_inodes-only inet os s =
    bind-Yields _ (result-Yields (ended (refresh inet os s.devices s.pids)))
      λ r _. finished-Yields _ refl
