-- ===== src/Examples/Packets.antt =====
-- Packets of the host, and a frame that carries one.
use capture.Prelude.{ℕ, ◌≡◌, refl, true, [], ◌∷◌, if◌then◌else◌, some, inr, arith, none}
use capture.Text.{codes}
use capture.Device.{contains4, init_device}
use capture.Device.Membership.{any_offers4, init_device-contains4}
use capture.Packet.{CapPacket, blank_packet, outgoing, incoming, unknown, link, init4}
use capture.Packet.Keys.{reply-hash}
use capture.Packet.Copied.{record_packet-link}
use capture.Capture.{Capture, p_tcp}
use capture.Capture.Account.{record_packet, store}
use capture.Library.{fresh}
use capture.Protocol.Overread.{parse-overread}
use capture.Capture.Account.{be16}
use capture.Outcome.{overread, finished}
use capture.Handle.{CapHandle, new_handle}
use capture.Protocol.{Sink, parse}
use capture.Protocol.Headers.{Ip4Header, LinkHeader, link_bytes}
use capture.Examples.Hosts.{
  dotted-IsPosix, dotted-IsTextual, bare, dotted, own_addr, peer_addr, eth0, interface, noon,
}

init_device-contains4_example :
    contains4 (init_device dotted (some (interface ∷ [])) []) own_addr
    ≡ (if contains4 [] own_addr then true else any_offers4 own_addr (interface ∷ []))
init_device-contains4_example = init_device-contains4 dotted (interface ∷ []) [] own_addr

-- A request to port 80 of the other host.
abbrev pub request_packet : CapPacket
request_packet = record blank_packet {
  sip = own_addr;
  dip = peer_addr;
  sport = 40000;
  dport = 80;
  len = 60;
  time = noon;
  dir = outgoing;
  family = 2;
  hashstring = codes "10.0.0.2:40000-10.0.0.1:80";
}

reply-hash_example :
    ((init4 dotted (eth0 ∷ []) own_addr 40000 peer_addr 80 60 noon unknown blank_packet).hashstring
      ≡ (init4 dotted
          (eth0 ∷ [])
          peer_addr
          80
          own_addr
          40000
          90
          noon
          unknown
          blank_packet).hashstring)
    × ((init4 dotted (eth0 ∷ []) own_addr 40000 peer_addr 80 60 noon unknown blank_packet).dir
        ≡ outgoing)
    × ((init4 dotted (eth0 ∷ []) peer_addr 80 own_addr 40000 90 noon unknown blank_packet).dir
        ≡ incoming)
unfolding contains4
reply-hash_example =
    reply-hash dotted (eth0 ∷ []) own_addr 40000 peer_addr 80 60 90 noon noon blank_packet
      blank_packet refl refl refl refl

-- The handle of an Ethernet device, and a sink that counts the bytes of TCP packets.
abbrev pub ethernet : CapHandle
ethernet = record new_handle { linktype = 1; callback = true }

abbrev pub counter : Sink ℕ
counter = record {
  tcp = λ ctx f off n. finished (record { ret = 0; state = ℕ.suc n });
  udp = λ ctx f off n. finished (record { ret = 41; state = n });
}

abbrev pub link_header : LinkHeader
link_header = record { dest = (2, 0, 0, 0, 0, 1); source = (2, 0, 0, 0, 0, 2) }

abbrev pub ip_header : Ip4Header
ip_header = record {
  version = 69;
  tos = 0;
  size = (0, 46);
  ident = (0, 1);
  fragment = (64, 0);
  ttl = 64;
  proto = 6;
  checksum = (0, 0);
  src = (10, 0, 0, 2);
  dst = (10, 0, 0, 1);
}

-- A state with a packet callback and one slot.
abbrev recording : Capture
recording = record fresh { packet_callback = true }

record_packet-link_example :
    record_packet dotted bare p_tcp p_tcp
      (record { len = 60; ts = noon; bytes = [] })
      0
      request_packet
      recording
    ≡ finished (record {
      ret = 0;
      state = record recording {
        packet_data =
            record {
              hash = link dotted request_packet;
              family = p_tcp;
              packet = none;
              packet_size = 60;
            }
            ∷ [];
        packet_idx = 1;
      };
    })
unfolding store
record_packet-link_example =
    record_packet-link dotted dotted-IsPosix dotted-IsTextual bare p_tcp p_tcp
      (record { len = 60; ts = noon; bytes = [] }) 0 request_packet recording (omega arith)
      (omega arith) refl refl

-- Twenty captured bytes, of a frame that claims sixty.
parse-overread_example :
    parse counter ethernet
      (record {
        len = 60;
        ts = noon;
        bytes = link_bytes link_header 8 0 (69 ∷ 0 ∷ 0 ∷ 46 ∷ 0 ∷ 1 ∷ []);
      })
      0
    ≡ overread
unfolding be16
parse-overread_example =
    parse-overread counter ethernet
      (record {
        len = 60;
        ts = noon;
        bytes = link_bytes link_header 8 0 (69 ∷ 0 ∷ 0 ∷ 46 ∷ 0 ∷ 1 ∷ []);
      })
      0 refl (inr (omega arith, refl))
