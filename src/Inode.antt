-- ===== src/Inode.antt =====
-- src/cap_inode_helper.h and src/cap_inode_helper.cpp: which process owns a socket.
-- The key of a socket leads to its inode, and the inode to the process that has it open.
pub mod Lookup
pub mod Owners
pub mod Finishing
pub mod Printed
pub mod Links
pub mod Opened
pub mod Whole
use capture.Prelude.{
  ℕ, ◌+◌, ◌-◌, ◌%◌, ◌^◌, ◌≡◌, refl, Bool, true, false, ◌&&◌, List, [], ◌∷◌, ◌++◌, Option, none,
  some, ltb, leb, ◌==◌, if◌then◌else◌, length, take, Dict, find, put, nat_eq, text_eq, str_eq,
}
use capture.Text.{Str, codes, c_str, print_int, strncpy, to_string}
use capture.Errors.{cap_process_open, cap_process_open_dir, cap_find_ip, cap_find_inode}
use capture.Inet.{In6, Inet, zero6, ntop4, ntop6}
use capture.Device.{CapDevice, get_local_addr}
use capture.Scan.{
  Directive, space, lit, conv, skip, dec, hex, word, hex_set, lits, Value, num, text, Scanned,
  sscanf, nonzero, int, skip_int,
}
use capture.Stream.{Next, next, for_lines}
use capture.Outcome.{Status}
use capture.Os.{Os, DirEntry, dt_lnk, dt_dir, dt_other, proc_path}
use capture.NetRow.{words_of, parse_buffer}

pub record CapInodeHelper : Type 0 where
  pub net_to_inodes : Dict Str ℕ
  pub inode_to_pids : Dict ℕ ℕ

module _ (inet : Inet) (os : Os) (devices : List CapDevice) where
  -- CapInodeHelper::Parse
  unfoldable pub parse : Str → Dict Str ℕ → Option (Status (Dict Str ℕ))
  unfolding parse_buffer for_lines
  parse path m = elim (os.file path) [
    | none ↦ some (record { ret = cap_process_open; state = m })
    | some contents ↦
        elim (for_lines 1024 (λ t buffer. next (parse_buffer inet devices t buffer)) contents m) [
          | none ↦ none
          | some m' ↦ some (record { ret = 0; state = m' })
        ]
  ]

  -- The four calls of RefreshToInodes, each after a success.
  unfoldable pub parse_all : List Str → Dict Str ℕ → Option (Status (Dict Str ℕ))
  unfolding parse
  parse_all [] m = some (record { ret = 0; state = m })
  parse_all (path ∷ paths) m = elim (parse path m) [
    | none ↦ none
    | some r ↦ elim (r.ret == 0) [ true ↦ parse_all paths r.state | false ↦ some r ]
  ]

  abbrev pub net_files : List Str
  net_files =
      codes "/proc/net/tcp"
      ∷ codes "/proc/net/tcp6"
      ∷ codes "/proc/net/udp"
      ∷ codes "/proc/net/udp6"
      ∷ []

  -- CapInodeHelper::RefreshToInodes
  unfoldable pub refresh_to_inodes : Dict Str ℕ → Option (Status (Dict Str ℕ))
  unfolding parse_all
  refresh_to_inodes m = parse_all net_files m

module _ (os : Os) where
  -- readlink into 79 bytes, and sscanf(linkname, "socket:[ %d]", &inode)
  unfoldable pub socket_inode : Str → Option ℕ
  unfolding sscanf nonzero words_of
  socket_inode path = elim (os.target path) [
    | none ↦ none
    | some link ↦
        let r = sscanf (take 79 link) (lits (codes "socket:[ ") ++ (int ∷ lit 93 ∷ [])) in
        if nonzero r then some (words_of r.values).w0 else none
  ]

  unfoldable pub is_link : DirEntry → Bool
  is_link e = elim e.d_type [ dt_dir ↦ false | dt_lnk ↦ true | dt_other ↦ false ]

  -- A round of the loop over the entries of /proc/<pid>/fd.
  unfoldable pub add_link : ℕ → DirEntry → Dict ℕ ℕ → Dict ℕ ℕ
  add_link pid e m =
      if is_link e
      then elim (socket_inode (proc_path pid (codes "fd") ++ (codes "/" ++ e.d_name))) [
        | none ↦ m
        | some inode ↦ put inode pid m
      ]
      else m

  unfoldable pub add_links : ℕ → List DirEntry → Dict ℕ ℕ → Dict ℕ ℕ
  add_links pid [] m = m
  add_links pid (e ∷ es) m = add_links pid es (add_link pid e m)

  -- CapInodeHelper::RefreshToPids
  unfoldable pub refresh_to_pids : List ℕ → Dict ℕ ℕ → Status (Dict ℕ ℕ)
  refresh_to_pids [] m = record { ret = 0; state = m }
  refresh_to_pids (pid ∷ pids) m = elim (os.dir (proc_path pid (codes "fd"))) [
    | none ↦ record { ret = cap_process_open_dir; state = m }
    | some es ↦ refresh_to_pids pids (add_links pid es m)
  ]

-- CapInodeHelper::Refresh
unfoldable pub refresh : Inet → Os → List CapDevice → List ℕ → Option (Status CapInodeHelper)
unfolding refresh_to_inodes refresh_to_pids add_links add_link is_link socket_inode proc_path
refresh inet os devices pids = elim (refresh_to_inodes inet os devices []) [
  | none ↦ none
  | some r ↦ elim (r.ret == 0) [
    | false ↦
        some
          (record { ret = r.ret; state = record { net_to_inodes = r.state; inode_to_pids = [] } })
    | true ↦
        let q = refresh_to_pids os pids [] in
        some (record {
          ret = q.ret;
          state = record { net_to_inodes = r.state; inode_to_pids = q.state };
        })
  ]
]

-- What GetPidByIp returns, and the pid that it stores.
pub data Owner : Type 0 where
  owner : ℕ → Owner
  failed : ℕ → Owner

-- CapInodeHelper::GetPidByIp
unfoldable pub get_pid_by_ip : CapInodeHelper → Str → Owner
get_pid_by_ip h key = elim (find key h.net_to_inodes) [
  | none ↦ failed cap_find_ip
  | some inode ↦ elim (find inode h.inode_to_pids) [
    | none ↦ failed cap_find_inode
    | some pid ↦ owner pid
  ]
]
