-- ===== src/Library/Reachable.antt =====
-- The states that a program can bring the library to, by any calls on any hosts, and what holds in all
-- of them.
use capture.Prelude.{◌≡◌, refl, List, Option, arith}
use capture.Inet.{Inet}
use capture.Device.{IfAddrs}
use capture.Outcome.{Status, finished}
use capture.Os.{Os}
use capture.Handle.{Pcap}
use capture.Capture.{Capture}
use capture.Capture.Sound.{IsSound}
use capture.Library.{fresh, Request, request}
use capture.Library.Steps.{request-IsSound}

-- The states after a sequence of calls of the C interface, each on the host as it then stands.
pub data Reaches (inet : Inet) : Capture → Type 0 where
  untouched : Reaches inet fresh
  served :
      (os : Os) (pcap : Pcap) (its : Option (List IfAddrs)) (req : Request) (s : Capture)
      (r : Status Capture)
      → Reaches inet s
      → request inet os pcap its req s ≡ finished r
      → Reaches inet r.state

pub fresh-IsSound : IsSound fresh
fresh-IsSound = record {
  pids = tt;
  sorted = tt;
  named = tt;
  within = omega arith;
  brief = tt;
  no_copies = refl;
}

-- After any sequence of calls of the C interface: `pids` and `processes` are in the order of their
-- numbers, every process stands under its own number, `packetIdx` is a position of the array of packets or
-- its end, no recorded packet has a copy of its bytes, and each key fits its 128 bytes with the NUL.
pub Reaches-IsSound : (inet : Inet) (s : Capture) → Reaches inet s → IsSound s
Reaches-IsSound inet s untouched = fresh-IsSound
Reaches-IsSound inet s (served os pcap its req t r h e) =
    (request-IsSound inet os pcap its req t (Reaches-IsSound inet t h)).result r e
