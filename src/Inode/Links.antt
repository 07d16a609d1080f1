-- ===== src/Inode/Links.antt =====
-- The links of /proc/<pid>/fd to sockets, as text, and the process of a packet.
use capture.Prelude.{
  ℕ, zero, suc, ◌<◌, ◌≤◌, ◌%◌, ◌^◌, ◌≡◌, refl, ap, ◌∙◌, true, false, List, [], ◌∷◌, ◌++◌, some,
  none, arith, ◌==◌, length, length-append, take_all, Dict, find, find-put, nat_eq, get_elem?,
  Option-cases, Bool-cases, subst, inl, inr,
}
use capture.Text.{Str, codes, c_str, to_string}
use capture.Text.Decimal.{length-to_string}
use capture.Inet.{Inet}
use capture.Device.{CapDevice, get_local_addr}
use capture.Os.{Os, DirEntry, proc_path}
use capture.Packet.{CapPacket, key, source_text}
use capture.Scan.{clamp, dec, num, scan, sscanf, lits, lit, int, nonzero}
use capture.Scan.Numbers.{break_bracket}
use capture.Scan.Printed.{convert-clamped}
use capture.Scan.Fields.{scan-lit, scan-conv}
use capture.Scan.Ints.{blank_int, c_str-number}
use capture.NetRow.{words_of, parse_buffer}
use capture.NetRow.Columns.{Columns, IsRow, row_text}
use capture.NetRow.RoundTrip.{stating}
use capture.NetRow.Sockets.{RowKind, socket_row, Suits}
use capture.Inode.{owner, get_pid_by_ip, is_link, socket_inode, add_link, add_links}
use capture.Inode.Printed.{printed_row_found}

-- The target of a link to a socket.
abbrev pub socket_text : ℕ → Str
socket_text inode = codes "socket:[" ++ (to_string inode ++ 93 ∷ [])

length-socket_text : (n : ℕ) → n < 2 ^ 64 → length (socket_text n) ≤ 79
length-socket_text n h = omega (
  arith,
  length-to_string 20 n (omega arith) (omega arith),
  length-append (to_string n) (93 ∷ []),
)

c_str-socket_text : (n : ℕ) → c_str (socket_text n) ≡ socket_text n
c_str-socket_text n = prefixed (to_string n ++ 93 ∷ []) (c_str-number n (93 ∷ []) ∙ closed)
  where
    prefixed : (t : Str) → c_str t ≡ t → c_str (codes "socket:[" ++ t) ≡ codes "socket:[" ++ t
    prefixed t e = unfold c_str in ap (λ s. codes "socket:[" ++ s) e

    closed : to_string n ++ c_str (93 ∷ []) ≡ to_string n ++ 93 ∷ []
    closed = unfold c_str in refl

scan-socket_text :
    (n : ℕ)
    → (scan (lits (codes "socket:[ ") ++ (int ∷ lit 93 ∷ [])) (socket_text n)).values
      ≡ num (clamp dec false n) ∷ []
unfolding lits
scan-socket_text n =
    rw
      (
        scan-lit 115,
        scan-lit 111,
        scan-lit 99,
        scan-lit 107,
        scan-lit 101,
        scan-lit 116,
        scan-lit 58,
        scan-lit 91,
        blank_int 0 n,
        scan-conv dec none (to_string n ++ 93 ∷ []) (93 ∷ []) _ (lit 93 ∷ [])
            (convert-clamped 0 n (93 ∷ []) break_bracket),
      )
      (unfold scan in refl)

nonzero-socket_text :
    (n : ℕ)
    → nonzero (scan (lits (codes "socket:[ ") ++ (int ∷ lit 93 ∷ [])) (socket_text n)) ≡ true
unfolding nonzero
nonzero-socket_text n = rw (scan-socket_text n, nonzero) refl

module _ (os : Os) where
  -- A link to a socket gives the lower 32 bits of the inode as it is read.
  socket_inode-socket_text :
      (path : Str) (n : ℕ)
      → n < 2 ^ 64
      → os.target path ≡ some (socket_text n)
      → socket_inode os path ≡ some (clamp dec false n % 2 ^ 32)
  unfolding socket_inode words_of sscanf
  socket_inode-socket_text path n h e =
      rw
        (
          e,
          socket_inode,
          take_all 79 (socket_text n) (length-socket_text n h),
          c_str-socket_text n,
          nonzero-socket_text n,
          scan-socket_text n,
        )
        refl

  abbrev pub link_path : ℕ → DirEntry → Str
  link_path pid e = proc_path pid (codes "fd") ++ (codes "/" ++ e.d_name)

  add_link-keeps :
      (pid i : ℕ) (e : DirEntry) (m : Dict ℕ ℕ)
      → find i m ≡ some pid
      → find i (add_link os pid e m) ≡ some pid
  unfolding add_link
  add_link-keeps pid i e m h = elim (Bool-cases (is_link os e)) [
    | inr x ↦ rw (x, add_link) h
    | inl x ↦ elim (Option-cases (socket_inode os (link_path pid e))) [
      | inl y ↦ rw (x, add_link, y) h
      | inr (n, y) ↦ rw (x, add_link, y) (ground (arith, find-put n i pid m, h))
    ]
  ]

  add_links-keeps :
      (pid i : ℕ) (es : List DirEntry) (m : Dict ℕ ℕ)
      → find i m ≡ some pid
      → find i (add_links os pid es m) ≡ some pid
  unfolding add_links
  add_links-keeps pid i [] m h = h
  add_links-keeps pid i (e ∷ es) m h =
      add_links-keeps pid i es (add_link os pid e m) (add_link-keeps pid i e m h)

  -- A link of a process to a socket leads from its inode to the process.
  find-add_links :
      (pid i j : ℕ) (es : List DirEntry) (e : DirEntry) (m : Dict ℕ ℕ)
      → get_elem? es j ≡ some e
      → is_link os e ≡ true
      → socket_inode os (link_path pid e) ≡ some i
      → find i (add_links os pid es m) ≡ some pid
  unfolding add_links add_link
  find-add_links pid i j [] e m h l o = cc
  find-add_links pid i (suc j) (x ∷ es) e m h l o =
      find-add_links pid i j es e (add_link os pid x m) h l o
  find-add_links pid i zero (x ∷ es) e m h l o =
      let q : e ≡ x = cc in
      subst (λ y. find i (add_links os pid es (add_link os pid y m)) ≡ some pid) q
        (add_links-keeps pid i es (add_link os pid e m) added)
    where
      added : find i (add_link os pid e m) ≡ some pid
      added = rw (l, add_link, o) (ground (arith, find-put i i pid m))

-- From the texts that the kernel shows of a connection to its process: let ParseBuffer have read the row of
-- /proc/net that states a socket of IPv4, of IPv6, or of IPv6 with IPv4 addresses mapped into it, with an inode
-- that is not 0 and below 2 ^ 64, and the loop of RefreshToPids the directory fd of a process, in which a link
-- leads to "socket:[inode]". Then GetPidByIp finds the process by the key of each packet with the addresses and
-- ports of the socket, if the text of the source address is that of a device.
pub linked_packet_found :
    (inet : Inet) (os : Os) (v : RowKind) (ds : List CapDevice) (i j : ℕ) (d : CapDevice)
    (c : Columns) (p : CapPacket) (inode : ℕ) (m : Dict Str ℕ) (q : Dict ℕ ℕ) (pid : ℕ)
    (es : List DirEntry) (e : DirEntry)
    → IsRow c
    → Suits v p
    → get_elem? ds i ≡ some d
    → p.sport < 2 ^ 16
    → p.dport < 2 ^ 16
    → get_local_addr d ≡ source_text inet p
    → inode < 2 ^ 64
    → (inode == 0) ≡ false
    → get_elem? es j ≡ some e
    → is_link os e ≡ true
    → os.target (link_path os pid e) ≡ some (socket_text inode)
    → get_pid_by_ip
        (record {
          net_to_inodes = parse_buffer inet ds m (row_text (stating c (socket_row v p inode)));
          inode_to_pids = add_links os pid es q;
        })
        (key inet true p)
      ≡ owner pid
linked_packet_found inet os v ds i j d c p inode m q pid es e h sv hd ls rs g bi n he hl ht =
    printed_row_found inet v ds i d c p inode m (add_links os pid es q) pid h sv hd ls rs g bi n (
      find-add_links os pid (clamp dec false inode % 2 ^ 32) j es e q he hl
        (socket_inode-socket_text os (link_path os pid e) inode bi ht))
