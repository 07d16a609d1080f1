-- ===== src/Inode/Finishing.antt =====
-- Refresh of src/cap_inode_helper.cpp ends on a host whose files fit the buffers.
use capture.Prelude.{
  ℕ, ◌≡◌, refl, List, [], ◌∷◌, some, ◌==◌, Option-cases, Bool-cases, inl, inr, Dict, subst,
}
use capture.Text.{Str}
use capture.Inet.{Inet}
use capture.Device.{CapDevice}
use capture.Os.{Os}
use capture.Outcome.{Status}
use capture.Outcome.Rules.{Ends}
use capture.Stream.{next}
use capture.Stream.Lines.{for_lines-run}
use capture.Process.Parsing.{FileFits}
use capture.Process.Ending.{HostFits}
use capture.Inode
use capture.Inode.{CapInodeHelper, refresh, refresh_to_inodes, parse_all, net_files}
use capture.NetRow.{parse_buffer}

module _ (inet : Inet) (os : Os) (fits : HostFits os) (devices : List CapDevice) where
  net_file-Ends : (path : Str) (m : Dict Str ℕ) → Ends (Inode.parse inet os devices path m)
  unfolding Inode.parse
  net_file-Ends path m = elim (Option-cases (os.file path)) [
    | inl e ↦ rw (e, Inode.parse) (_, refl)
    | inr (contents, e) ↦
        rw
          (
            e,
            Inode.parse,
            for_lines-run 1024 (λ t b. next (parse_buffer inet devices t b)) contents m
                (subst FileFits e (fits path)),
          )
          (_, refl)
  ]

  parse_all-Ends : (paths : List Str) (m : Dict Str ℕ) → Ends (parse_all inet os devices paths m)
  unfolding parse_all
  parse_all-Ends [] m = (_, refl)
  parse_all-Ends (path ∷ paths) m =
      let r = net_file-Ends path m in
      elim (Bool-cases (r.0.ret == 0)) [
        | inl e ↦ rw (r.1, parse_all, e) (parse_all-Ends paths r.0.state)
        | inr e ↦ rw (r.1, parse_all, e) (_, refl)
      ]

pub refresh-Ends :
    (inet : Inet) (os : Os) (devices : List CapDevice) (pids : List ℕ)
    → HostFits os
    → (r : Status CapInodeHelper) × (refresh inet os devices pids ≡ some r)
unfolding refresh refresh_to_inodes
refresh-Ends inet os devices pids fits =
    let r = parse_all-Ends inet os fits devices (net_files inet os devices) [] in
    elim (Bool-cases (r.0.ret == 0)) [
      | inl e ↦ rw (r.1, refresh, e) (_, refl)
      | inr e ↦ rw (r.1, refresh, e) (_, refl)
    ]
