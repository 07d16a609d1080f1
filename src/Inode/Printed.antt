-- ===== src/Inode/Printed.antt =====
-- From the text of a row of /proc/net to the process of a packet.
use capture.Prelude.{
  ℕ, ◌<◌, ◌%◌, ◌^◌, ◌≡◌, ap, ◌∙◌, false, List, some, ◌==◌, Dict, find, nat_eq, get_elem?, true,
}
use capture.Text.{Str}
use capture.Scan.{clamp, dec}
use capture.Inet.{Inet}
use capture.Device.{CapDevice, get_local_addr}
use capture.Packet.{CapPacket, key, source_text}
use capture.Inode.{owner, get_pid_by_ip, true}
use capture.Inode.Lookup.{outgoing_packet_found}
use capture.NetRow.{parse_buffer, row_ends}
use capture.NetRow.Columns.{Columns, IsRow, row_text}
use capture.NetRow.RoundTrip.{stating, as_read, parse_buffer-as_read, clamp_nonzero}
use capture.NetRow.Sockets.{
  RowKind, socket_row, Suits, socket_row-IsSocket, socket_row-remote, socket_row-loc_port,
  socket_row-rem_port, socket_row-inode,
}

module _ (inet : Inet) where
  -- After ParseBuffer has read the row that states a socket in the layout of proc(5), with an inode that is
  -- neither 0 nor above 64 bits and that a process has open, GetPidByIp finds the process by the key of each
  -- packet that has the two addresses and ports of the socket and goes from the address of a device.
  pub printed_row_found :
      (v : RowKind) (ds : List CapDevice) (i : ℕ) (d : CapDevice) (c : Columns) (p : CapPacket)
      (inode : ℕ) (m : Dict Str ℕ) (q : Dict ℕ ℕ) (pid : ℕ)
      → IsRow c
      → Suits v p
      → get_elem? ds i ≡ some d
      → p.sport < 2 ^ 16
      → p.dport < 2 ^ 16
      → get_local_addr d ≡ source_text inet p
      → inode < 2 ^ 64
      → (inode == 0) ≡ false
      → find (clamp dec false inode % 2 ^ 32) q ≡ some pid
      → get_pid_by_ip
          (record {
            net_to_inodes = parse_buffer inet ds m (row_text (stating c (socket_row v p inode)));
            inode_to_pids = q;
          })
          (key inet true p)
        ≡ owner pid
  unfolding row_ends
  printed_row_found v ds i d c p inode m q pid h sv e ls rs g bi n o =
      let r = as_read (socket_row v p inode) in
      let i0 = socket_row-inode v p inode in
      ap (λ t. get_pid_by_ip (record { net_to_inodes = t; inode_to_pids = q }) (key inet true p))
        (parse_buffer-as_read inet ds m c (socket_row v p inode) h
          (socket_row-IsSocket v p inode ls rs bi))
      ∙ outgoing_packet_found inet ds i d r p m q pid e g (socket_row-remote inet v p inode sv)
          (socket_row-loc_port v p inode) (socket_row-rem_port v p inode) ls rs
          (rw i0 (clamp_nonzero inode n)) (rw i0 o)
