-- ===== src/Library/Polling.antt =====
-- The loop of CaptureCxx::Update over the handles: what the packets keep, it keeps.
use capture.Prelude.{ℕ, ◌≡◌, refl, List, [], ◌∷◌}
use capture.Inet.{Inet}
use capture.Outcome.Yields.{Yields, result-Yields, finished-Yields, bind-Yields}
use capture.Os.{Os}
use capture.Handle.{Frame, PcapCtx, Pcap, CapHandle, dispatch}
use capture.Protocol.{handle_packets}
use capture.Protocol.Invariant.{handle_packets-Kept}
use capture.Capture.{Capture, PacketType, p_tcp, p_udp}
use capture.Capture.Account.{process_packet, process_tcp, process_udp}
use capture.Library.{sink, poll}

-- What Dispatch returns for the last of some handles, or `ret` if there are none.
unfoldable pub last_result : Pcap → ℕ → List CapHandle → ℕ → ℕ
last_result pcap cnt [] ret = ret
last_result pcap cnt (h ∷ hs) ret = last_result pcap cnt hs (dispatch pcap h cnt).ret

pub poll-last :
    (inet : Inet) (os : Os) (pcap : Pcap) (cnt : ℕ) (hs : List CapHandle) (ret : ℕ) (s : Capture)
    → Yields (λ d. d.last ≡ last_result pcap cnt hs ret) (poll inet os pcap cnt hs ret s)
unfolding poll last_result
poll-last inet os pcap cnt [] ret s = finished-Yields _ refl
poll-last inet os pcap cnt (h ∷ hs) ret s =
    bind-Yields _
      (result-Yields (handle_packets (sink inet os pcap) h (dispatch pcap h cnt).frames s))
      λ seen _.
        bind-Yields _ (poll-last inet os pcap cnt hs (dispatch pcap h cnt).ret seen.state)
          λ rest e. finished-Yields _ e

module _ (inet : Inet) (os : Os) (pcap : Pcap) (P : Capture → Type 0)
    (packet : (reused added : PacketType) (ctx : PcapCtx) (f : Frame) (off : ℕ) (s : Capture)
      → P s
      → Yields (λ q. P q.state) (process_packet inet os reused added ctx f off s)) where
  pub poll-Kept :
      (cnt : ℕ) (hs : List CapHandle) (ret : ℕ) (s : Capture)
      → P s
      → Yields (λ d. P d.state) (poll inet os pcap cnt hs ret s)
  unfolding poll process_tcp process_udp
  poll-Kept cnt [] ret s k = finished-Yields _ k
  poll-Kept cnt (h ∷ hs) ret s k =
      bind-Yields _
        (handle_packets-Kept (sink inet os pcap) P (packet p_tcp p_tcp) (packet p_tcp p_udp) h
          (dispatch pcap h cnt).frames s k)
        λ seen e.
          bind-Yields _ (poll-Kept cnt hs (dispatch pcap h cnt).ret seen.state e)
            λ rest g. finished-Yields _ g
