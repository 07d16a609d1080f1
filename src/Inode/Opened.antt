-- ===== src/Inode/Opened.antt =====
-- CapInodeHelper::RefreshToPids over processes whose open files are shown: which process an inode leads to.
use capture.Prelude.{
  ℕ, ◌≡◌, refl, ◌∙◌, Bool, true, false, ◌&&◌, List, [], ◌∷◌, Option, none, some, arith, ◌==◌,
  if◌then◌else◌, All, map, Dict, find, find-put, nat_eq, text_eq, Option-cases, Bool-cases, inl,
  inr,
}
use capture.Text.{codes}
use capture.Os.{Os, DirEntry, proc_path}
use capture.NetRow.Tables.{or_find}
use capture.Inode.{socket_inode, is_link, add_link, add_links, refresh_to_pids}
use capture.Inode.Links.{link_path}

module _ (os : Os) where
  -- A link of a process to a socket with an inode.
  unfoldable pub links_to : ℕ → DirEntry → ℕ → Bool
  links_to pid e i =
      is_link os e && elim (socket_inode os (link_path os pid e)) [ none ↦ false | some j ↦ j == i ]

  unfoldable pub any_links_to : ℕ → List DirEntry → ℕ → Bool
  any_links_to pid [] i = false
  any_links_to pid (e ∷ es) i =
      let rest = any_links_to pid es i in if links_to pid e i then true else rest

  -- The last process that has an inode open.
  unfoldable pub latest_process : List (ℕ × List DirEntry) → ℕ → Option ℕ
  latest_process [] i = none
  latest_process ((pid, es) ∷ ds) i = elim (latest_process ds i) [
    | some q ↦ some q
    | none ↦ if any_links_to pid es i then some pid else none
  ]

  find-add_link :
      (pid i : ℕ) (e : DirEntry) (m : Dict ℕ ℕ)
      → find i (add_link os pid e m) ≡ (if links_to pid e i then some pid else find i m)
  unfolding add_link links_to
  find-add_link pid i e m = elim (Bool-cases (is_link os e)) [
    | inr x ↦ rw (x, add_link) refl
    | inl x ↦ elim (Option-cases (socket_inode os (link_path os pid e))) [
      | inl y ↦ rw (x, add_link, y) refl
      | inr (n, y) ↦ rw (x, add_link, y) (find-put n i pid m)
    ]
  ]

  find-add_links-all :
      (pid i : ℕ) (es : List DirEntry) (m : Dict ℕ ℕ)
      → find i (add_links os pid es m) ≡ (if any_links_to pid es i then some pid else find i m)
  unfolding add_links any_links_to
  find-add_links-all pid i [] m = refl
  find-add_links-all pid i (e ∷ es) m =
      find-add_links-all pid i es (add_link os pid e m)
      ∙ rw (find-add_link pid i e m) (ground arith)

  -- RefreshToPids goes through all processes.
  pub refresh_to_pids-shown :
      (ds : List (ℕ × List DirEntry)) (m : Dict ℕ ℕ)
      → All (λ x. os.dir (proc_path x.0 (codes "fd")) ≡ some x.1) ds
      → (r : Dict ℕ ℕ) × (refresh_to_pids os (map (λ x. x.0) ds) m ≡ record { ret = 0; state = r })
        × ((i : ℕ) → find i r ≡ or_find (latest_process ds i) (find i m))
  unfolding refresh_to_pids latest_process
  refresh_to_pids-shown [] m h = (m, refl, λ i. refl)
  refresh_to_pids-shown ((pid, es) ∷ ds) m h =
      let (r, e, f) = refresh_to_pids-shown ds (add_links os pid es m) h.1 in
      (r, rw (h.0, refresh_to_pids) e, λ i. f i ∙ step i)
    where
      step :
          (i : ℕ)
          → or_find (latest_process ds i) (find i (add_links os pid es m))
            ≡ or_find (latest_process ((pid, es) ∷ ds) i) (find i m)
      step i = elim (Option-cases (latest_process ds i)) [
        | inr (q, e) ↦ rw (e, latest_process) refl
        | inl e ↦ rw (e, latest_process) (find-add_links-all pid i es m ∙ ground arith)
      ]
