-- ===== src/Inode/Whole.antt =====
-- `CapInodeHelper::Refresh` of src/cap_inode_helper.cpp on a host that shows its tables of sockets in the layout
-- of proc(5), and GetPidByIp after it.
use capture.Prelude.{
  ℕ, ◌≡◌, refl, sym, ap, ◌∙◌, List, [], ◌∷◌, ◌++◌, Option, none, some, All, map, Dict, find, nat_eq,
  text_eq,
}
use capture.Text.{Str, codes}
use capture.Errors.{cap_find_ip, cap_find_inode}
use capture.Inet.{Inet}
use capture.Device.{CapDevice}
use capture.Os.{Os, DirEntry, proc_path}
use capture.Stream.Unlines.{unlines, IsWhole, for_lines-unlines}
use capture.NetRow.{Row, parse_buffer}
use capture.NetRow.Tables.{
  TableLine, table_text, IsTableLine, sockets, add_rows, latest_row, or_find, find-add_rows,
  add_rows-append, fold-table,
}
use capture.Inode.{
  CapInodeHelper, parse, parse_all, refresh_to_inodes, refresh, Owner, owner, failed, get_pid_by_ip,
}
use capture.Inode.Opened.{latest_process, refresh_to_pids-shown}

-- The four tables, and the open files of the processes.
pub record Shown : Type 0 where
  pub tcp : List TableLine
  pub tcp6 : List TableLine
  pub udp : List TableLine
  pub udp6 : List TableLine
  pub fds : List (ℕ × List DirEntry)

-- A table whose lines fit the buffer.
pub record ShowsTable (os : Os) (path : Str) (ls : List TableLine) : Type 0 where
  pub file : os.file path ≡ some (unlines (map table_text ls))
  pub lines : All IsTableLine ls
  pub fits : All (IsWhole 1023) (map table_text ls)

pub record ShowsSockets (os : Os) (d : Shown) : Type 0 where
  pub tcp : ShowsTable os (codes "/proc/net/tcp") d.tcp
  pub tcp6 : ShowsTable os (codes "/proc/net/tcp6") d.tcp6
  pub udp : ShowsTable os (codes "/proc/net/udp") d.udp
  pub udp6 : ShowsTable os (codes "/proc/net/udp6") d.udp6
  pub fds : All (λ x. os.dir (proc_path x.0 (codes "fd")) ≡ some x.1) d.fds

-- The tables by their files, in the order in which they are read, and the sockets of tables.
abbrev pub tables : Shown → List (Str × List TableLine)
tables d =
    (codes "/proc/net/tcp", d.tcp)
    ∷ (codes "/proc/net/tcp6", d.tcp6)
    ∷ (codes "/proc/net/udp", d.udp)
    ∷ (codes "/proc/net/udp6", d.udp6)
    ∷ []

abbrev pub table_sockets : List (Str × List TableLine) → List Row
table_sockets [] = []
table_sockets ((path, ls) ∷ ts) = sockets ls ++ table_sockets ts

none_first : (o : Option ℕ) → or_find o none ≡ o
none_first none = refl
none_first (some i) = refl

-- What two lookups give for a key.
abbrev found : Option ℕ → (ℕ → Option ℕ) → Owner
found o process = elim o [
  | none ↦ failed cap_find_ip
  | some i ↦ elim (process i) [ none ↦ failed cap_find_inode | some pid ↦ owner pid ]
]

answered :
    (h : CapInodeHelper) (k : Str) (o : Option ℕ) (process : ℕ → Option ℕ)
    → find k h.net_to_inodes ≡ o
    → ((i : ℕ) → find i h.inode_to_pids ≡ process i)
    → get_pid_by_ip h k ≡ found o process
unfolding get_pid_by_ip
answered h k none process e f = rw (e, get_pid_by_ip) refl
answered h k (some i) process e f = rw (e, get_pid_by_ip, f i) refl

module _ (inet : Inet) (os : Os) (ds : List CapDevice) where
  parse-shown :
      (path : Str) (ls : List TableLine) (m : Dict Str ℕ)
      → ShowsTable os path ls
      → parse inet os ds path m ≡ some (record { ret = 0; state = add_rows inet ds (sockets ls) m })
  unfolding parse
  parse-shown path ls m h =
      rw (h.file, parse)
        (rw
          (
            for_lines-unlines (parse_buffer inet ds) 1023 m (map table_text ls) h.fits,
            fold-table inet ds ls m h.lines,
          )
          refl)

  parse_all-shown :
      (ts : List (Str × List TableLine)) (m : Dict Str ℕ)
      → All (λ t. ShowsTable os t.0 t.1) ts
      → parse_all inet os ds (map (λ t. t.0) ts) m
        ≡ some (record { ret = 0; state = add_rows inet ds (table_sockets ts) m })
  unfolding parse_all
  parse_all-shown [] m h = refl
  parse_all-shown ((path, ls) ∷ ts) m h =
      rw (parse-shown path ls m h.0, parse_all)
        (parse_all-shown ts (add_rows inet ds (sockets ls) m) h.1
          ∙ ap (λ t. some (record { ret = 0; state = t }))
              (sym (add_rows-append inet ds (sockets ls) (table_sockets ts) m)))

  refresh_to_inodes-shown :
      (d : Shown)
      → ShowsSockets os d
      → refresh_to_inodes inet os ds []
        ≡ some (record { ret = 0; state = add_rows inet ds (table_sockets (tables d)) [] })
  unfolding refresh_to_inodes
  refresh_to_inodes-shown d h =
      parse_all-shown (tables d) [] (h.tcp, (h.tcp6, (h.udp, (h.udp6, tt))))

  -- What GetPidByIp is to answer for a key.
  abbrev pub answer : Shown → Str → Owner
  answer d k = elim (latest_row inet ds (table_sockets (tables d)) k) [
    | none ↦ failed cap_find_ip
    | some i ↦ elim (latest_process os d.fds i) [
      | none ↦ failed cap_find_inode
      | some pid ↦ owner pid
    ]
  ]

  -- The state after Refresh answers every key.
  pub refresh-shown :
      (d : Shown)
      → ShowsSockets os d
      → (h : CapInodeHelper) × (refresh inet os ds (map (λ x. x.0) d.fds)
          ≡ some (record { ret = 0; state = h }))
        × ((k : Str) → get_pid_by_ip h k ≡ answer d k)
  unfolding refresh
  refresh-shown d s =
      let (m, e, f) = refresh_to_pids-shown os d.fds [] s.fds in
      let h : CapInodeHelper = record {
        net_to_inodes = add_rows inet ds (table_sockets (tables d)) [];
        inode_to_pids = m;
      } in
      (
        h,
        rw (refresh_to_inodes-shown d s, refresh) (rw e refl),
        λ k.
            answered _ k (latest_row inet ds (table_sockets (tables d)) k) (latest_process os d.fds)
              (rows k) (λ i. unfold find in f i ∙ none_first (latest_process os d.fds i)),
      )
    where
      rows :
          (k : Str)
          → find k (add_rows inet ds (table_sockets (tables d)) [])
            ≡ latest_row inet ds (table_sockets (tables d)) k
      rows k =
          unfold find in
          find-add_rows inet ds (table_sockets (tables d)) k []
          ∙ none_first (latest_row inet ds (table_sockets (tables d)) k)

  -- On a host that shows its four tables of sockets and the open files of the processes in the layout of proc(5), with
  -- lines of at most 1023 bytes, Refresh for these processes ends and returns 0, and GetPidByIp then answers for a
  -- key: the last of the processes that have a link to the inode of the last row that states the key, as its own
  -- key or as that for a device, where inodes are what `%ld` and `%d` read of them in 32 bits, and rows with
  -- the inode 0 state nothing; and CAP_FIND_IP if no row states it,
  -- or CAP_FIND_INODE if no process has the inode open.
  pub refresh_answers :
      (d : Shown) (k : Str)
      → ShowsSockets os d
      → (h : CapInodeHelper) × (refresh inet os ds (map (λ x. x.0) d.fds)
          ≡ some (record { ret = 0; state = h }))
        × (get_pid_by_ip h k ≡ answer d k)
  refresh_answers d k s = let (h, e, f) = refresh-shown d s in (h, e, f k)
