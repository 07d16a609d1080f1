-- ===== src/Examples/Updates.antt =====
-- States of the library, and the steps of an update on them.
use capture.Prelude.{
  ℕ, ◌+◌, ◌%◌, ◌^◌, ◌≡◌, ◌≢◌, refl, true, List, [], ◌∷◌, none, arith, if◌then◌else◌, ◌⊎◌, ltb, find,
  str_eq, mem_nat,
}
use capture.Text.{codes, to_string, strncpy}
use capture.Inet.{ntop4}
use capture.Device.{contains4}
use capture.Inode.{get_pid_by_ip}
use capture.Process.{add_packet, parse}
use capture.ProcessFields.{CapProcess, new_process}
use capture.Packet.{hash, init4, link}
use capture.Outcome.{Status, finished}
use capture.Handle.{Frame, ip4}
use capture.Capture.{Capture, PacketInfo, p_tcp, p_udp}
use capture.Capture.Account.{be16, put_process, process_tcp, process_udp}
use capture.Capture.Buffer.{IsBuffered, Appends, process_tcp-Entered, udp_in_used_slot_is_tcp}
use capture.Capture.Table.{total}
use capture.Capture.Traffic.{process_packet_charges}
use capture.Capture.Sync.{sync, Synced}
use capture.Capture.Sync.Order.{keys, IsSorted, Among, kept_keys, erased_keys}
use capture.Capture.Sync.Survivors.{sync_survivors, new_pid_erases_rest}
use capture.Protocol.{parse as parse_frame}
use capture.Protocol.Datagrams.{LinkLayer, v4, frame_of, ends_of, delivered, parse_datagram}
use capture.Library.{fresh}
use capture.Examples.Packets.{ethernet, counter, link_header, ip_header}
use capture.Examples.Hosts.{dotted, own_addr, peer_addr, eth0, bare, noon}

-- The process 7 has the socket of the connection, and one packet is recorded already.
abbrev seven : CapProcess
seven = record (new_process 7) { send = 40 }

abbrev old_entry : PacketInfo
old_entry = record { hash = codes "old"; family = p_tcp; packet = none; packet_size = 90 }

abbrev start : Capture
start = record fresh {
  devices = eth0 ∷ [];
  processes = (7, seven) ∷ [];
  process_callback = true;
  packet_callback = true;
  packet_data = old_entry ∷ [];
  inodes = record {
    net_to_inodes = (codes "10.0.0.2:40000-10.0.0.1:80", 55) ∷ [];
    inode_to_pids = (55, 7) ∷ [];
  };
}

-- A frame of sixty bytes, of which the ports are captured.
abbrev frame : Frame
frame = record { len = 60; ts = noon; bytes = 156 ∷ 64 ∷ 0 ∷ 80 ∷ [] }

abbrev new_entry : PacketInfo
new_entry = record {
  hash = codes "10.0.0.2:40000-10.0.0.1:80";
  family = p_tcp;
  packet = none;
  packet_size = 60;
}

abbrev after_packet : Status Capture
after_packet = record {
  ret = 0;
  state = record start {
    processes = (7, record seven { send = 100 }) ∷ [];
    packet_data = new_entry ∷ [];
    packet_idx = 1;
  };
}

tcp_runs : process_tcp dotted bare (ip4 own_addr peer_addr) frame 0 start ≡ finished after_packet
unfolding process_tcp be16 get_pid_by_ip find str_eq hash init4 contains4 ntop4 to_string
    put_process strncpy add_packet link
tcp_runs = refl

udp_runs : process_udp dotted bare (ip4 own_addr peer_addr) frame 0 start ≡ finished after_packet
unfolding process_udp be16 get_pid_by_ip find str_eq hash init4 contains4 ntop4 to_string
    put_process strncpy add_packet link
udp_runs = refl

process_packet_charges_example :
    (total after_packet.state.processes % 2 ^ 64 ≡ (total start.processes + 60) % 2 ^ 64)
    × IsSorted (keys after_packet.state.processes)
unfolding process_tcp
process_packet_charges_example =
    process_packet_charges dotted bare p_tcp p_tcp (ip4 own_addr peer_addr) frame 0 start
      after_packet tt tcp_runs refl

start-IsBuffered : IsBuffered start
start-IsBuffered = record { within = omega arith }

process_tcp-Entered_example :
    ((after_packet.ret ≢ 0) × (after_packet.state ≡ start))
    ⊎ ((after_packet.ret ≡ 0)
        × ((info : PacketInfo) × Appends start after_packet.state info
            × (info.packet_size ≡ 60)
            × (info.packet ≡ none)
            × (info.family ≡ p_tcp)))
process_tcp-Entered_example =
    process_tcp-Entered dotted bare (ip4 own_addr peer_addr) frame 0 start after_packet
      start-IsBuffered refl refl tcp_runs

udp_in_used_slot_is_tcp_example :
    (info : PacketInfo) × Appends start after_packet.state info
    × (info.family ≡ (if ltb 0 1 then p_tcp else p_udp))
udp_in_used_slot_is_tcp_example =
    udp_in_used_slot_is_tcp dotted bare (ip4 own_addr peer_addr) frame 0 start after_packet
      start-IsBuffered refl refl udp_runs refl

-- A table with four processes, of which two are still there.
abbrev table : List (ℕ × CapProcess)
table = (3, new_process 3) ∷ (5, new_process 5) ∷ (9, new_process 9) ∷ (12, new_process 12) ∷ []

abbrev synced : Synced
synced = record {
  left = (5, new_process 5) ∷ (9, new_process 9) ∷ (12, new_process 12) ∷ [];
  erased = 3 ∷ [];
}

sync_runs : sync bare 1000 0 (5 ∷ 9 ∷ []) table ≡ finished synced
unfolding sync parse
sync_runs = refl

table-Among : Among (5 ∷ 9 ∷ []) (keys table)
unfolding mem_nat
table-Among k h = ground arith

sync_survivors_example :
    (keys synced.left ≡ kept_keys (5 ∷ 9 ∷ []) (keys table))
    × (synced.erased ≡ erased_keys (5 ∷ 9 ∷ []) (keys table))
sync_survivors_example =
    sync_survivors bare 1000 0 (5 ∷ 9 ∷ []) table synced (omega arith, tt)
      (omega arith, (omega arith, (omega arith, tt))) table-Among sync_runs

new_pid_erases_rest_example :
    sync bare 1000 0 (4 ∷ 5 ∷ 9 ∷ 12 ∷ []) table
    ≡ finished (record { left = []; erased = keys table })
unfolding mem_nat
new_pid_erases_rest_example = new_pid_erases_rest bare 1000 0 4 (5 ∷ 9 ∷ 12 ∷ []) table refl

parse_datagram_example :
    parse_frame counter ethernet
      (frame_of (LinkLayer.ethernet link_header) (v4 ip_header) [] 60 noon)
      0
    ≡ delivered counter 6
        (record ethernet { context = ends_of (v4 ip_header) })
        (frame_of (LinkLayer.ethernet link_header) (v4 ip_header) [] 60 noon)
        34
        0
parse_datagram_example =
    parse_datagram counter ethernet (LinkLayer.ethernet link_header) (v4 ip_header) [] 60 noon 0
      refl tt
