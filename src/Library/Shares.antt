-- ===== src/Library/Shares.antt =====
-- The packets of one round of CaptureCxx::Update, and the traffic of every process: src/capturecxx.cpp with
-- src/cap_handle.cpp, src/cap_protocol.cpp and src/cap_inode_helper.cpp.
pub mod Rounds
use capture.Prelude.{
  ℕ, ◌≡◌, ◌⊎◌, refl, sym, ap, ◌∙◌, Bool, true, false, List, [], ◌∷◌, Option, none, some, arith,
  ◌==◌, if◌then◌else◌, All, map, find, nat_eq, Bool-cases, Option-cases, inl, inr, ◌++◌,
}
use mathlib.Core.Option
use capture.Text.{Str}
use capture.Inet.{Inet}
use capture.Device.{CapDevice}
use capture.Packet.{TimeVal}
use capture.Outcome.{Run, finished, ◌>>=◌}
use capture.Os.{Os}
use capture.ProcessFields.{CapProcess}
use capture.Inode.{Owner, owner, failed, get_pid_by_ip}
use capture.Handle.{Frame, Pcap, CapHandle, dispatch}
use capture.Capture.{Capture}
use capture.Capture.Account.{put_process}
use capture.Capture.Flows.{with_bytes, is_sender, flow_key}
use capture.Capture.Untouched.{find-put_process}
use capture.Protocol.{Seen, handle_packet, handle_packets}
use capture.Protocol.Datagrams.{
  Datagram, LinkLayer, frame_of, link_type, IsVersioned, ends_of, transport_of,
}
use capture.Library.{sink, poll, Polled}
use capture.Library.Delivery.{ports, port_of, frame_charged, frame_unowned}

-- A packet of TCP or UDP, and the frame that carries it.
pub record Message : Type 0 where
  pub link : LinkLayer
  pub datagram : Datagram
  pub sport : ℕ × ℕ
  pub dport : ℕ × ℕ
  pub rest : List ℕ
  pub size : ℕ
  pub time : TimeVal

abbrev pub message_frame : Message → Frame
message_frame m = frame_of m.link m.datagram (ports m.sport m.dport m.rest) m.size m.time

abbrev pub IsCarried : ℕ → Message → Type 0
IsCarried linktype m =
    (linktype ≡ link_type m.link)
    × IsVersioned m.link m.datagram m.size
    × ((transport_of m.datagram ≡ 6) ⊎ (transport_of m.datagram ≡ 17))

abbrev pub is_sent : List CapDevice → Message → Bool
is_sent ds m = is_sender ds (ends_of m.datagram)

abbrev pub message_key : Inet → List CapDevice → Message → Str
message_key inet ds m =
    flow_key inet (is_sent ds m) (ends_of m.datagram) (port_of m.sport) (port_of m.dport)

abbrev pub Table : Type 0
Table = List (ℕ × CapProcess)

-- A process of the table, if any.
abbrev pub IsTabled : Table → Owner → Type 0
IsTabled ps (failed code) = Unit
IsTabled ps (owner pid) = (p : CapProcess) × (find pid ps ≡ some p)

-- What a message of an owner adds to a process.
abbrev pub share : Owner → Bool → ℕ → ℕ → CapProcess → CapProcess
share (failed code) out n k p = p
share (owner pid) out n k p = if pid == k then with_bytes out n p else p

-- Each process of the first table is changed, and there is no other one.
abbrev pub Follows : (ℕ → CapProcess → CapProcess) → Table → Table → Type 0
Follows g ps qs = (k : ℕ) → find k qs ≡ Option.map (g k) (find k ps)

pub Follows-id : (ps : Table) → Follows (λ k p. p) ps ps
Follows-id ps k = elim (Option-cases (find k ps)) [ inl z ↦ rw z refl | inr (q, z) ↦ rw z refl ]

-- First one change, then another; together they are a third.
pub Follows-trans :
    (f g h : ℕ → CapProcess → CapProcess) (ps qs us : Table)
    → ((k : ℕ) (p : CapProcess) → g k (f k p) ≡ h k p)
    → Follows f ps qs
    → Follows g qs us
    → Follows h ps us
Follows-trans f g h ps qs us e a b k =
    b k
    ∙ ap (Option.map (g k)) (a k)
    ∙ elim (Option-cases (find k ps)) [ inl z ↦ rw z refl | inr (q, z) ↦ rw (z, e k q) refl ]

IsTabled-Follows :
    (g : ℕ → CapProcess → CapProcess) (ps qs : Table) (o : Owner)
    → Follows g ps qs
    → IsTabled ps o
    → IsTabled qs o
IsTabled-Follows g ps qs (failed code) f h = tt
IsTabled-Follows g ps qs (owner pid) f (p, e) = (g pid p, f pid ∙ ap (Option.map (g pid)) e)

pub put-Follows :
    (pid n : ℕ) (out : Bool) (p : CapProcess) (ps : Table)
    → find pid ps ≡ some p
    → Follows (share (owner pid) out n) ps (put_process pid (with_bytes out n p) ps)
put-Follows pid n out p ps e k =
    find-put_process k pid (with_bytes out n p) ps ∙ elim (Bool-cases (pid == k)) [
      | inl x ↦
          let y : pid ≡ k = ground arith in
          let z : find k ps ≡ some p = ap (λ i. find i ps) (sym y) ∙ e in rw (z, x) refl
      | inr x ↦ elim (Option-cases (find k ps)) [
        | inl z ↦ rw (z, x) refl
        | inr (q, z) ↦ rw (z, x) refl
      ]
    ]

-- What messages add to a process, the first message first.
abbrev pub shares :
    Inet → List CapDevice → (Str → Owner) → List Message → ℕ → CapProcess → CapProcess
shares inet ds lookup [] k p = p
shares inet ds lookup (m ∷ ms) k p =
    shares inet ds lookup ms k (share (lookup (message_key inet ds m)) (is_sent ds m) m.size k p)

-- The states of a round: the lookup is fixed, and nobody listens to packets.
pub record Counts (lookup : Str → Owner) (s : Capture) : Type 0 where
  pub off : s.packet_callback ≡ false
  pub lookups : (k : Str) → get_pid_by_ip s.inodes k ≡ lookup k

module _ (inet : Inet) (lookup : Str → Owner) (ds : List CapDevice) where
  -- A message of no process, or of one of the table.
  abbrev pub IsKnown : Table → Message → Type 0
  IsKnown ps m = IsTabled ps (lookup (message_key inet ds m))

  pub IsKnown-Follows :
      (g : ℕ → CapProcess → CapProcess) (ps qs : Table) (ms : List Message)
      → Follows g ps qs
      → All (IsKnown ps) ms
      → All (IsKnown qs) ms
  IsKnown-Follows g ps qs [] f h = tt
  IsKnown-Follows g ps qs (m ∷ ms) f h = (
    IsTabled-Follows g ps qs (lookup (message_key inet ds m)) f h.0,
    IsKnown-Follows g ps qs ms f h.1,
  )

  -- The messages of all handles are known.
  abbrev pub AllKnown : Table → List (CapHandle × List Message) → Type 0
  AllKnown ps xs = All (λ x. All (IsKnown ps) x.1) xs

  pub AllKnown-Follows :
      (g : ℕ → CapProcess → CapProcess) (ps qs : Table) (xs : List (CapHandle × List Message))
      → Follows g ps qs
      → AllKnown ps xs
      → AllKnown qs xs
  AllKnown-Follows g ps qs [] f h = tt
  AllKnown-Follows g ps qs (x ∷ xs) f h =
      (IsKnown-Follows g ps qs x.1 f h.0, AllKnown-Follows g ps qs xs f h.1)

-- The messages of all handles, in the order in which they are handled.
abbrev pub all_messages : List (CapHandle × List Message) → List Message
all_messages [] = []
all_messages (x ∷ xs) = x.1 ++ all_messages xs

pub shares-append :
    (inet : Inet) (ds : List CapDevice) (lookup : Str → Owner) (ms ns : List Message) (k : ℕ)
    (p : CapProcess)
    → shares inet ds lookup ns k (shares inet ds lookup ms k p)
      ≡ shares inet ds lookup (ms ++ ns) k p
shares-append inet ds lookup [] ns k p = refl
shares-append inet ds lookup (m ∷ ms) ns k p = shares-append inet ds lookup ms ns k _

-- pcap_dispatch hands these messages to a handle with its callback.
pub record Delivers (pcap : Pcap) (cnt : ℕ) (x : CapHandle × List Message) : Type 0 where
  pub callback : x.0.callback ≡ true
  pub frames : (dispatch pcap x.0 cnt).frames ≡ map message_frame x.1
  pub carried : All (IsCarried x.0.linktype) x.1
