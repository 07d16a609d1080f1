-- ===== src/Library/Delivery.antt =====
-- From the bytes of a frame to the traffic of a process: src/cap_handle.cpp, src/cap_protocol.cpp and
-- src/capturecxx.cpp together.
use capture.Prelude.{
  ℕ, ◌+◌, ◌*◌, ◌≡◌, ◌⊎◌, inl, inr, refl, ap, ◌∙◌, true, false, List, ◌∷◌, some, find, nat_eq,
  if◌then◌else◌,
}
use capture.Inet.{Inet}
use capture.Packet.{TimeVal}
use capture.Outcome.{Run, finished}
use capture.Os.{Os}
use capture.ProcessFields.{CapProcess}
use capture.Inode.{get_pid_by_ip, owner, failed}
use capture.Handle.{Frame, Pcap, CapHandle}
use capture.Capture.{Capture, PacketType, p_tcp, p_udp}
use capture.Capture.Account.{be16, put_process, process_packet, process_tcp, process_udp}
use capture.Capture.Flows.{with_bytes, is_sender, IsIp, flow_key}
use capture.Capture.Owner.{process_packet-owner, process_packet-failed}
use capture.Protocol.{Seen, handed, parse, handle_packet}
use capture.Protocol.Datagrams.{
  Datagram, v4, v6, LinkLayer, ethernet, raw, on_wire, frame_of, link_type, IsVersioned, ends_of,
  transport_of, payload_at, delivered, parse_datagram,
}
use capture.Library.{sink, Str}

-- The first four bytes of a TCP or UDP header.
abbrev pub ports : ℕ × ℕ → ℕ × ℕ → List ℕ → List ℕ
ports sport dport rest = sport.0 ∷ sport.1 ∷ dport.0 ∷ dport.1 ∷ rest

-- A port in network byte order.
abbrev pub port_of : ℕ × ℕ → ℕ
port_of p = p.0 * 256 + p.1

sport_at :
    (link : LinkLayer) (d : Datagram) (sport dport : ℕ × ℕ) (rest : List ℕ)
    → be16 (on_wire link d (ports sport dport rest)) (payload_at link d) ≡ some (port_of sport)
unfolding be16
sport_at (ethernet l) (v4 h) sport dport rest = refl
sport_at (ethernet l) (v6 h) sport dport rest = refl
sport_at raw (v4 h) sport dport rest = refl
sport_at raw (v6 h) sport dport rest = refl

dport_at :
    (link : LinkLayer) (d : Datagram) (sport dport : ℕ × ℕ) (rest : List ℕ)
    → be16 (on_wire link d (ports sport dport rest)) (payload_at link d + 2) ≡ some (port_of dport)
unfolding be16
dport_at (ethernet l) (v4 h) sport dport rest = refl
dport_at (ethernet l) (v6 h) sport dport rest = refl
dport_at raw (v4 h) sport dport rest = refl
dport_at raw (v6 h) sport dport rest = refl

ends-IsIp : (d : Datagram) → IsIp (ends_of d)
ends-IsIp (v4 h) = tt
ends-IsIp (v6 h) = tt

module _ (inet : Inet) (os : Os) (pcap : Pcap) (h : CapHandle) (link : LinkLayer) (d : Datagram)
    (sport dport : ℕ × ℕ) (rest : List ℕ) (n : ℕ) (ts : TimeVal) (s : Capture) where
  abbrev frame : Frame
  frame = frame_of link d (ports sport dport rest) n ts

  -- The key of the packet.
  abbrev pub frame_key : Str
  frame_key =
      flow_key inet (is_sender s.devices (ends_of d)) (ends_of d) (port_of sport) (port_of dport)

  abbrev turned : CapHandle
  turned = record h { context = ends_of d }

  handle_packet-on :
      h.callback ≡ true
      → handle_packet (sink inet os pcap) h frame s ≡ parse (sink inet os pcap) h frame s
  unfolding handle_packet
  handle_packet-on cb =
      ap
        (λ b.
          if b
          then parse (sink inet os pcap) h frame s
          else finished (record { ctx = h; state = s }))
        cb

  -- The handler leaves the state that ProcessTcp or ProcessUdp leaves.
  frame_handed :
      (ret : ℕ) (t : Capture)
      → h.callback ≡ true
      → h.linktype ≡ link_type link
      → IsVersioned link d n
      → (transport_of d ≡ 6) ⊎ (transport_of d ≡ 17)
      → ((reused added : PacketType)
          → process_packet inet os reused added (ends_of d) frame (payload_at link d) s
            ≡ finished (record { ret = ret; state = t }))
      → handle_packet (sink inet os pcap) h frame s ≡ finished (record { ctx = turned; state = t })
  unfolding process_tcp process_udp
  frame_handed ret t cb lt v k processed =
      handle_packet-on cb
      ∙ parse_datagram (sink inet os pcap) h link d (ports sport dport rest) n ts s lt v
      ∙ elim k [
        | inl x ↦ ap sent x ∙ ap (handed (sink inet os pcap) turned) (processed p_tcp p_tcp)
        | inr x ↦ ap sent x ∙ ap (handed (sink inet os pcap) turned) (processed p_tcp p_udp)
      ]
    where
      sent : ℕ → Run (Seen Capture)
      sent proto = delivered (sink inet os pcap) proto turned frame (payload_at link d) s

  -- A packet whose key leads to no process only sets the context.
  pub frame_unowned :
      (code : ℕ)
      → h.callback ≡ true
      → h.linktype ≡ link_type link
      → IsVersioned link d n
      → (transport_of d ≡ 6) ⊎ (transport_of d ≡ 17)
      → get_pid_by_ip s.inodes frame_key ≡ failed code
      → handle_packet (sink inet os pcap) h (frame_of link d (ports sport dport rest) n ts) s
        ≡ finished (record { ctx = record h { context = ends_of d }; state = s })
  frame_unowned code cb lt v t o = frame_handed code s cb lt v t λ reused added.
      process_packet-failed inet os reused added (ends_of d) (port_of sport) (port_of dport) code
        frame (payload_at link d) s (ends-IsIp d) (sport_at link d sport dport rest)
        (dport_at link d sport dport rest) o

  -- A TCP or UDP packet over IPv4 or IPv6, in a frame of an Ethernet device or a raw one whose handle has its
  -- callback: if there is no packet callback, and the key of its addresses and ports, the local end first, leads
  -- to the number of a process of the table, then the length of the frame is added to what that process has
  -- sent, if the source is an address of a device, and to what it has received if not. Nothing else changes but
  -- the context of the handle, which is the two addresses.
  pub frame_charged :
      (pid : ℕ) (p : CapProcess)
      → h.callback ≡ true
      → h.linktype ≡ link_type link
      → IsVersioned link d n
      → (transport_of d ≡ 6) ⊎ (transport_of d ≡ 17)
      → s.packet_callback ≡ false
      → get_pid_by_ip s.inodes (
          flow_key inet
            (is_sender s.devices (ends_of d))
            (ends_of d)
            (port_of sport)
            (port_of dport))
        ≡ owner pid
      → find pid s.processes ≡ some p
      → handle_packet (sink inet os pcap) h (frame_of link d (ports sport dport rest) n ts) s
        ≡ finished (record {
          ctx = record h { context = ends_of d };
          state = record s {
            processes =
                put_process pid (with_bytes (is_sender s.devices (ends_of d)) n p) s.processes;
          };
        })
  frame_charged pid p cb lt v t c o e = frame_handed 0 _ cb lt v t λ reused added.
      process_packet-owner inet os reused added (ends_of d) (port_of sport) (port_of dport) pid
        frame (payload_at link d) s p (ends-IsIp d) (sport_at link d sport dport rest)
        (dport_at link d sport dport rest) c o e
