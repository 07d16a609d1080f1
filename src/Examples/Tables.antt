-- ===== src/Examples/Tables.antt =====
-- The tables of sockets of a host, and what the lookup answers.
use capture.Prelude.{
  ℕ, ◌≡◌, refl, ◌∙◌, [], ◌∷◌, some, map, str_eq, if◌then◌else◌, arith, nat_eq, text_eq, List, false,
}
use capture.Text.{codes, to_string, print_int, c_str}
use capture.Scan.Printed.{hex_text}
use capture.Os.{Os, DirEntry, dt_dir, dt_lnk, proc_path}
use capture.Scan.{clamp, nonzero, sscanf, lits}
use capture.Stream.Unlines.{unlines, one_line, starts}
use capture.NetRow.{row_values, device_key}
use capture.Device.{get_local_addr}
use capture.Inet.{ntop4}
use capture.NetRow.{device_key, row_ends, row_key, scan_in4, words_of}
use capture.NetRow.Tables.{TableLine, heading, socket_line, table_text, latest_row, states}
use capture.Inode.{is_link, socket_inode, CapInodeHelper, refresh, get_pid_by_ip, owner}
use capture.NetRow.Keys.{is_device_key}
use capture.NetRow.Tables.{latest_row, states}
use capture.Inode.Opened.{latest_process, any_links_to, links_to}
use capture.Inode.Whole.{Shown, ShowsTable, ShowsSockets, refresh_answers, answer}
use capture.Examples.Hosts.{dotted, eth0, host}
use capture.Examples.Rows.{columns, columns-IsRow, row-IsSocket}
use capture.Examples.Sockets.{row}

abbrev head : TableLine
head = heading (codes "  sl  local_address rem_address   st tx_queue rx_queue")

abbrev pub shown : Shown
shown = record {
  tcp = head ∷ socket_line columns row ∷ [];
  tcp6 = head ∷ [];
  udp = head ∷ [];
  udp6 = head ∷ [];
  fds = (7, record { d_type = dt_lnk; d_name = codes "3" } ∷ []) ∷ [];
}

abbrev pub proc_entries : List DirEntry
proc_entries = record { d_type = dt_dir; d_name = codes "7" } ∷ []

-- A host with one connection.
abbrev pub connected : Os
connected = record host {
  file = λ path.
      if str_eq path (codes "/proc/net/tcp")
      then some (unlines (map table_text shown.tcp))
      else some (unlines (map table_text (head ∷ [])));
  dir = λ path. if str_eq path (codes "/proc") then some proc_entries else host.dir path;
}

head_only :
    (path : List ℕ)
    → str_eq path (codes "/proc/net/tcp") ≡ false
    → ShowsTable connected path (head ∷ [])
unfolding one_line starts row_values sscanf c_str
head_only path e = record {
  file = rw e refl;
  lines = (refl, tt);
  fits = (record { one = refl; begun = refl; size = omega arith }, tt);
}

pub connected-Shows : ShowsSockets connected shown
unfolding one_line starts str_eq row_values proc_path print_int to_string sscanf c_str hex_text
connected-Shows = record {
  tcp = record {
    file = refl;
    lines = (refl, ((columns-IsRow, row-IsSocket), tt));
    fits = (
      record { one = refl; begun = refl; size = omega arith },
      (record { one = refl; begun = refl; size = omega arith }, tt),
    );
  };
  tcp6 = head_only (codes "/proc/net/tcp6") refl;
  udp = head_only (codes "/proc/net/udp") refl;
  udp6 = head_only (codes "/proc/net/udp6") refl;
  fds = (refl, tt);
}

pub owner_answered :
    answer dotted connected (eth0 ∷ []) shown (codes "10.0.0.2:40000-10.0.0.1:80") ≡ owner 7
unfolding latest_row states is_device_key str_eq device_key get_local_addr print_int row_ends
    scan_in4 ntop4 words_of row_key latest_process any_links_to links_to is_link socket_inode
    proc_path to_string clamp lits sscanf nonzero c_str
owner_answered = refl

refresh_answers_example :
    (h : CapInodeHelper) × (refresh dotted connected (eth0 ∷ []) (7 ∷ [])
      ≡ some (record { ret = 0; state = h }))
    × (get_pid_by_ip h (codes "10.0.0.2:40000-10.0.0.1:80") ≡ owner 7)
refresh_answers_example =
    let (h, e, f) =
      refresh_answers dotted connected (eth0 ∷ []) shown (codes "10.0.0.2:40000-10.0.0.1:80")
        connected-Shows in
    (h, e, f ∙ owner_answered)
