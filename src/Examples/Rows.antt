-- ===== src/Examples/Rows.antt =====
-- A row of /proc/net/tcp, as text.
use capture.Prelude.{◌≡◌, refl, arith, [], ◌∷◌, nat_eq, text_eq, true}
use capture.Text.{codes, to_string, print_int}
use capture.Scan.{hex}
use capture.Scan.Numbers.{is_digit}
use capture.Inet.{ntop4}
use capture.Device.{get_local_addr}
use capture.Packet.{key, source_text}
use capture.NetRow.{add_row, parse_buffer}
use capture.NetRow.Columns.{Columns, IsRow, IsColumn, row_text}
use capture.NetRow.RoundTrip.{stating, IsSocket, parse_buffer-row_text}
use capture.NetRow.Sockets.{mapped_row, socket_row}
use capture.Inode.{owner, get_pid_by_ip}
use capture.Inode.Links.{linked_packet_found}
use capture.Inode.{is_link, add_links}
use capture.Os.{proc_path, dt_lnk}
use capture.Prelude.{str_eq}
use capture.Examples.Hosts.{host}
use capture.Examples.Hosts.{dotted, eth0}
use capture.Examples.Packets.{request_packet}
use capture.Examples.Sockets.{row}

-- "   0: …:… …:… 01 00000000:00000000 00:00000000 00000000  1000        0 … 1 0"
abbrev pub columns : Columns
columns = record {
  sl_pad = 3;
  sl = codes "0";
  local = codes "0";
  local_port = codes "0";
  remote = codes "0";
  remote_port = codes "0";
  st = codes "01";
  tx = codes "00000000";
  rx = codes "00000000";
  tr = codes "00";
  when = codes "00000000";
  retr = codes "00000000";
  uid_pad = 1;
  uid = codes "1000";
  timeout_pad = 8;
  timeout = codes "0";
  inode = codes "0";
  tail = codes "1 0";
}

zeros : IsColumn hex (codes "00000000")
unfolding is_digit
zeros = ((refl, (refl, (refl, (refl, (refl, (refl, (refl, (refl, tt)))))))), omega arith)

pub columns-IsRow : IsRow columns
unfolding is_digit
columns-IsRow = record {
  sl = ((refl, tt), omega arith);
  local = ((refl, tt), omega arith);
  local_size = omega arith;
  local_port = ((refl, tt), omega arith);
  remote = ((refl, tt), omega arith);
  remote_size = omega arith;
  remote_port = ((refl, tt), omega arith);
  st = ((refl, (refl, tt)), omega arith);
  tx = zeros;
  rx = zeros;
  tr = ((refl, (refl, tt)), omega arith);
  when = zeros;
  retr = zeros;
  uid = ((refl, (refl, (refl, (refl, tt)))), omega arith);
  timeout = ((refl, tt), omega arith);
  inode = ((refl, tt), omega arith);
}

pub row-IsSocket : IsSocket row
unfolding is_digit
row-IsSocket = record {
  local = ((refl, (refl, (refl, (refl, (refl, (refl, (refl, (refl, tt)))))))), omega arith);
  local_size = omega arith;
  local_port = omega arith;
  remote = ((refl, (refl, (refl, (refl, (refl, (refl, (refl, (refl, tt)))))))), omega arith);
  remote_size = omega arith;
  remote_port = omega arith;
  inode = omega arith;
}

parse_buffer-row_text_example :
    parse_buffer dotted (eth0 ∷ []) [] (row_text (stating columns row))
    ≡ add_row dotted (eth0 ∷ []) row []
parse_buffer-row_text_example =
    parse_buffer-row_text dotted (eth0 ∷ []) [] columns row columns-IsRow row-IsSocket (omega arith)

-- The socket of the connection as a row of /proc/net/tcp6, with its addresses mapped into IPv6.
linked_packet_found_example :
    get_pid_by_ip
      (record {
        net_to_inodes =
            parse_buffer dotted
              (eth0 ∷ [])
              []
              (row_text (stating columns (socket_row mapped_row request_packet 55)));
        inode_to_pids = add_links host 7 (record { d_type = dt_lnk; d_name = codes "3" } ∷ []) [];
      })
      (key dotted true request_packet)
    ≡ owner 7
unfolding ntop4 get_local_addr to_string is_link proc_path print_int str_eq source_text
linked_packet_found_example =
    linked_packet_found dotted host mapped_row (eth0 ∷ []) 0 0 eth0 columns request_packet 55 [] []
      7 (record { d_type = dt_lnk; d_name = codes "3" } ∷ [])
      (record { d_type = dt_lnk; d_name = codes "3" }) columns-IsRow
      (refl, omega arith, omega arith) refl (omega arith) (omega arith) refl (omega arith) refl refl
      refl refl
