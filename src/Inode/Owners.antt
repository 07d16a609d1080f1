-- ===== src/Inode/Owners.antt =====
-- Which processes GetPidByIp can find after `Refresh`, and how it fails.
use capture.Prelude.{
  ℕ, ◌≡◌, refl, ◌⊎◌, true, List, [], ◌∷◌, ◌++◌, none, some, arith, ◌==◌, Dict, find, put, find-put,
  text_eq, nat_eq, Bool-cases, Option-cases, inl, inr, subst, mem_nat,
}
use capture.Text.{Str, codes}
use capture.Inet.{Inet}
use capture.Device.{CapDevice}
use capture.Outcome.{Status}
use capture.Os.{Os, DirEntry, proc_path}
use capture.Errors.{cap_process_open_dir, cap_find_ip, cap_find_inode}
use capture.Inode.{
  CapInodeHelper, owner, failed, get_pid_by_ip, socket_inode, add_links, refresh_to_pids,
  refresh_to_inodes, refresh, add_link,
}

-- Every process of the map is one of a list.
abbrev Owned : List ℕ → Dict ℕ ℕ → Type 0
Owned pids m = (k pid : ℕ) → find k m ≡ some pid → mem_nat pid pids ≡ true

Owned-put :
    (pids : List ℕ) (k pid : ℕ) (m : Dict ℕ ℕ)
    → mem_nat pid pids ≡ true
    → Owned pids m
    → Owned pids (put k pid m)
Owned-put pids k pid m h o j q e = ground (arith, find-put k j pid m, o j q)

add_link-Owned :
    (os : Os) (pids : List ℕ) (pid : ℕ) (e : DirEntry) (m : Dict ℕ ℕ)
    → mem_nat pid pids ≡ true
    → Owned pids m
    → Owned pids (add_link os pid e m)
unfolding add_link
add_link-Owned os pids pid e m h o k q g =
    elim (Option-cases (socket_inode os (proc_path pid (codes "fd") ++ (codes "/" ++ e.d_name)))) [
      | inl x ↦ ground (arith, o k q)
      | inr (inode, x) ↦ ground (arith, o k q, Owned-put pids inode pid m h o k q)
    ]

add_links-Owned :
    (os : Os) (pids : List ℕ) (pid : ℕ) (es : List DirEntry) (m : Dict ℕ ℕ)
    → mem_nat pid pids ≡ true
    → Owned pids m
    → Owned pids (add_links os pid es m)
unfolding add_links
add_links-Owned os pids pid [] m h o = o
add_links-Owned os pids pid (e ∷ es) m h o =
    add_links-Owned os pids pid es _ h (add_link-Owned os pids pid e m h o)

-- A part of a list, as a tail of it is.
abbrev Within : List ℕ → List ℕ → Type 0
Within qs pids = (k : ℕ) → mem_nat k qs ≡ true → mem_nat k pids ≡ true

refresh_to_pids-Owned :
    (os : Os) (pids qs : List ℕ) (m : Dict ℕ ℕ)
    → Within qs pids
    → Owned pids m
    → Owned pids (refresh_to_pids os qs m).state
unfolding refresh_to_pids mem_nat
refresh_to_pids-Owned os pids [] m w o = o
refresh_to_pids-Owned os pids (q ∷ qs) m w o =
    elim (Option-cases (os.dir (proc_path q (codes "fd")))) [
      | inl e ↦ rw (e, refresh_to_pids) o
      | inr (es, e) ↦
          rw (e, refresh_to_pids)
            (refresh_to_pids-Owned os pids qs _ (λ k h. w k (ground arith))
              (add_links-Owned os pids q es m (w q (ground arith)) o))
    ]

get_pid_by_ip-Owned :
    (pids : List ℕ) (h : CapInodeHelper) (k : Str) (pid : ℕ)
    → Owned pids h.inode_to_pids
    → get_pid_by_ip h k ≡ owner pid
    → mem_nat pid pids ≡ true
unfolding get_pid_by_ip
get_pid_by_ip-Owned pids h k pid o e = elim (Option-cases (find k h.net_to_inodes)) [
  | inl x ↦ ground arith
  | inr (inode, x) ↦ elim (Option-cases (find inode h.inode_to_pids)) [
    | inl y ↦ ground arith
    | inr (q, y) ↦ ground (arith, o inode q y)
  ]
]

Owned-nil : (pids : List ℕ) → Owned pids []
Owned-nil pids k pid e = absurd (no_entry e)
  where
    no_entry : {x : ℕ} → find k [] ≡ some x → ⊥
    no_entry e = unfold find in cc

refresh-Owned :
    (inet : Inet) (os : Os) (ds : List CapDevice) (pids : List ℕ) (r : Status CapInodeHelper)
    → refresh inet os ds pids ≡ some r
    → Owned pids r.state.inode_to_pids
unfolding refresh
refresh-Owned inet os ds pids r e = elim (Option-cases (refresh_to_inodes inet os ds [])) [
  | inl x ↦ absurd (ground arith)
  | inr (s, x) ↦ elim (Bool-cases (s.ret == 0)) [
    | inl y ↦
        subst (Owned pids) (ground arith)
          (refresh_to_pids-Owned os pids pids [] (λ k h. h) (Owned-nil pids))
    | inr y ↦ subst (Owned pids) (ground arith) (Owned-nil pids)
  ]
]

-- After `Refresh` whatever process GetPidByIp finds is one of those that `Refresh` was given.
pub get_pid_by_ip-refresh :
    (inet : Inet) (os : Os) (ds : List CapDevice) (pids : List ℕ) (r : Status CapInodeHelper)
    (k : Str) (pid : ℕ)
    → refresh inet os ds pids ≡ some r
    → get_pid_by_ip r.state k ≡ owner pid
    → mem_nat pid pids ≡ true
get_pid_by_ip-refresh inet os ds pids r k pid e =
    get_pid_by_ip-Owned pids r.state k pid (refresh-Owned inet os ds pids r e)

-- A process whose /proc/<pid>/fd cannot be opened ends the refresh with CAP_PROCESS_OPEN_DIR, or an
-- earlier one has: no socket of that process or of a later one is mapped.
pub refresh_to_pids-unreadable :
    (os : Os) (ps rest : List ℕ) (q : ℕ) (m : Dict ℕ ℕ)
    → os.dir (proc_path q (codes "fd")) ≡ none
    → ((refresh_to_pids os (ps ++ q ∷ rest) m).state ≡ (refresh_to_pids os ps m).state)
      × ((refresh_to_pids os (ps ++ q ∷ rest) m).ret ≡ cap_process_open_dir)
unfolding refresh_to_pids
refresh_to_pids-unreadable os [] rest q m e = rw e (refl, refl)
refresh_to_pids-unreadable os (p ∷ ps) rest q m e =
    elim (Option-cases (os.dir (proc_path p (codes "fd")))) [
      | inl x ↦ rw (x, refresh_to_pids) (refl, refl)
      | inr (es, x) ↦
          rw (x, refresh_to_pids) (refresh_to_pids-unreadable os ps rest q (add_links os p es m) e)
    ]

-- GetPidByIp fails with one of two codes.
pub get_pid_by_ip-codes :
    (h : CapInodeHelper) (k : Str) (code : ℕ)
    → get_pid_by_ip h k ≡ failed code
    → (code ≡ cap_find_ip) ⊎ (code ≡ cap_find_inode)
unfolding get_pid_by_ip
get_pid_by_ip-codes h k code e = ground arith
