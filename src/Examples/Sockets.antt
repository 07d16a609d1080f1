-- ===== src/Examples/Sockets.antt =====
-- Sockets of the host: rows of /proc/net, and the processes that have their inodes.
use capture.Prelude.{
  ℕ, ◌≡◌, ◌≢◌, refl, true, [], ◌∷◌, some, arith, if◌then◌else◌, inl, find, put, text_eq, nat_eq,
  str_eq, ◌++◌, put, mem_nat,
}
use capture.Text.{codes, to_string, print_int, c_str}
use capture.Inet.{ntop4}
use capture.Device.{CapDevice, get_local_addr, init_v4, blank_addr}
use capture.Packet.{CapPacket, key}
use capture.Stream.{for_lines}
use capture.Errors.{cap_process_open_dir}
use capture.Os.{proc_path, Os}
use capture.Scan.{clamp, sscanf, lits, nonzero}
use capture.NetRow.{scan_in4, words_of, Row, add_row, row_ends, row_key, scan_in4, device_key}
use capture.Inode.{
  is_link, socket_inode, add_link, add_links, CapInodeHelper, get_pid_by_ip, refresh_to_pids,
  refresh, add_links, add_link, socket_inode, refresh_to_inodes,
}
use capture.NetRow.Keys.{row_key-ne-key}
use capture.Inode.Lookup.{long_address_row_lost}
use capture.Inode.Owners.{get_pid_by_ip-refresh, refresh_to_pids-unreadable}
use capture.Examples.Hosts.{dotted, dotted-IsPosix, eth0, host}
use capture.Examples.Packets.{request_packet}

-- The row of the connection of `request_packet`.
abbrev pub row : Row
row = record {
  loc_addr = codes "0200000A";
  loc_port = 40000;
  rem_addr = codes "0100000A";
  rem_port = 80;
  inode = 55;
}

row_key-ne-key_example : row_key (row_ends dotted row) row ≢ key dotted true request_packet
row_key-ne-key_example =
    row_key-ne-key dotted dotted-IsPosix row true request_packet (inl (omega arith)) refl

-- An interface whose address 100.100.100.100 takes fifteen characters.
abbrev long_addr : ℕ
long_addr = 1684300900

abbrev eth1 : CapDevice
unfolding init_v4
eth1 = record { name = codes "eth1"; flags = 65; local_addr = init_v4 dotted long_addr blank_addr }

abbrev lost_packet : CapPacket
lost_packet = record request_packet { sip = long_addr }

long_address_row_lost_example :
    find (key dotted true lost_packet) (add_row dotted (eth1 ∷ []) row [])
    ≡ find (key dotted true lost_packet) []
unfolding to_string init_v4 ntop4 get_local_addr
long_address_row_lost_example =
    long_address_row_lost dotted dotted-IsPosix (eth1 ∷ []) row lost_packet [] refl
      ((long_addr, refl, refl), tt) (λ e. cc) (inl (omega arith))

-- The inodes of the host after a refresh for the process 7.
linking_runs : refresh_to_pids host (7 ∷ []) [] ≡ record { ret = 0; state = (55, 7) ∷ [] }
unfolding refresh_to_pids add_links add_link socket_inode is_link proc_path str_eq print_int
    to_string sscanf lits words_of nonzero c_str put clamp
linking_runs = refl

refresh_to_pids-unreadable_example :
    ((refresh_to_pids host ((7 ∷ []) ++ 9 ∷ 10 ∷ []) []).state
      ≡ (refresh_to_pids host (7 ∷ []) []).state)
    × ((refresh_to_pids host ((7 ∷ []) ++ 9 ∷ 10 ∷ []) []).ret ≡ cap_process_open_dir)
unfolding proc_path str_eq print_int to_string
refresh_to_pids-unreadable_example = refresh_to_pids-unreadable host (7 ∷ []) (10 ∷ []) 9 [] refl

-- The host with the four files of /proc/net, all but the first empty.
abbrev pub net_host : Os
net_host = record host {
  file = λ path.
      if str_eq path (codes "/proc/net/tcp")
      then some (codes "0: 0200000A:9C40 0100000A:50 1 0:0 0:0 0 0 0 55 1\n")
      else some [];
}

abbrev pub net_inodes : CapInodeHelper
net_inodes = record {
  net_to_inodes =
      (codes "10.0.0.2:40000-10.0.0.180", 55) ∷ (codes "10.0.0.2:40000-10.0.0.1:80", 55) ∷ [];
  inode_to_pids = (55, 7) ∷ [];
}

refreshing_runs :
    refresh dotted net_host (eth0 ∷ []) (7 ∷ []) ≡ some (record { ret = 0; state = net_inodes })
unfolding refresh refresh_to_inodes refresh_to_pids str_eq proc_path print_int to_string lits c_str
    words_of nonzero ntop4 get_local_addr row_ends row_key device_key scan_in4 find put for_lines
    clamp
refreshing_runs = refl

get_pid_by_ip-refresh_example : mem_nat 7 (7 ∷ []) ≡ true
unfolding find str_eq get_pid_by_ip
get_pid_by_ip-refresh_example =
    get_pid_by_ip-refresh dotted net_host (eth0 ∷ []) (7 ∷ [])
      (record { ret = 0; state = net_inodes }) (codes "10.0.0.2:40000-10.0.0.1:80") 7
      refreshing_runs refl
