-- ===== src/Capture/Sound.antt =====
-- The invariant of the state, and what the operations on packets and on the table do to it.
pub mod Parts
pub mod Syncing
pub mod Readings
use Parts.{IsNamed, put-IsNamed, find-IsNamed, All-set, All-snoc}
use capture.Prelude.{
  ℕ, ◌+◌, ◌≤◌, ◌<◌, ◌≡◌, refl, sym, ◌∙◌, ap, Bool, true, false, List, [], ◌∷◌, ◌++◌, Option, none,
  some, arith, ltb, if◌then◌else◌, length, length-append, length-set, All, All-append, Bool-cases,
  Option-cases, inl, inr, find, nat_eq, set, subst, length-take,
}
use capture.Text.{Str, strncpy, c_str}
use capture.Errors.{cap_net_unknow}
use capture.Inet.{Inet}
use capture.Packet.{CapPacket, hash, link, is_outgoing}
use capture.Outcome.{Status, Run, finished, ◌>>=◌, ended, in_bounds}
use capture.Outcome.Yields.{
  Yields, finished-Yields, bind-Yields, ended-Yields, read-Yields, if-Yields,
}
use capture.Os.{Os}
use capture.Device.{CapDevice}
use capture.Process.{add_packet}
use capture.ProcessFields.{CapProcess, new_process}
use capture.Process
use capture.Process.Parsing.{parse_keeps_traffic}
use capture.Inode.{Owner, owner, failed, get_pid_by_ip}
use capture.Handle.{Frame, PcapCtx, unspec, ip4, ip6}
use capture.Capture.{Capture, PacketType, PacketInfo}
use capture.Capture.Account.{
  be16, store, copied, put_process, record_packet, process_of, charge, attribute, build,
  process_packet,
}
use capture.Capture.Sync.Order.{keys, IsSorted}
use capture.Capture.Table.{IsSorted-put}

-- A recorded packet has no copy of its bytes, and a key that fits `hash` with its NUL.
abbrev pub IsBrief : PacketInfo → Type 0
IsBrief info = (info.packet ≡ none) × (length info.hash < 128)

-- `pids` and `processes` are in order, the processes have their own numbers, `packetIdx` is within
-- the array of packets or at its end, and no packet is copied.
pub record IsSound (s : Capture) : Type 0 where
  pub pids : IsSorted s.pids
  pub sorted : IsSorted (keys s.processes)
  pub named : IsNamed s.processes
  pub within : s.packet_idx ≤ length s.packet_data
  pub brief : All IsBrief s.packet_data
  pub no_copies : s.capture_all ≡ false

module _ (inet : Inet) (os : Os) (reused added : PacketType) where
  -- The state that an operation leaves is sound.
  abbrev pub KeepsSound : Run (Status Capture) → Type 0
  KeepsSound r = Yields (λ q. IsSound q.state) r

  copied-Yields :
      (c : Bool) (f : Frame) (off : ℕ) → c ≡ false → Yields (λ b. b ≡ none) (copied c f off)
  unfolding copied
  copied-Yields true f off e = absurd cc
  copied-Yields false f off e = finished-Yields none refl

  length-store :
      (i : ℕ) (a b : PacketInfo) (xs : List PacketInfo)
      → i ≤ length xs
      → i + 1 ≤ length (store i a b xs)
  unfolding store
  length-store i a b xs h = ground (arith, length-set xs i a, length-append xs (b ∷ []))

  store-IsBrief :
      (i : ℕ) (a b : PacketInfo) (xs : List PacketInfo)
      → IsBrief a
      → IsBrief b
      → All IsBrief xs
      → All IsBrief (store i a b xs)
  unfolding store
  store-IsBrief i a b xs ha hb h = elim (Bool-cases (ltb i (length xs))) [
    | inl e ↦ rw e (All-set IsBrief xs i a ha h)
    | inr e ↦ rw e (All-snoc IsBrief xs b hb h)
  ]

  length-strncpy : (s : Str) → length (strncpy s 127) < 128
  unfolding strncpy
  length-strncpy s = omega (arith, length-take 127 (c_str s))

  record_packet-IsSound :
      (f : Frame) (off : ℕ) (k : CapPacket) (s : Capture)
      → IsSound s
      → KeepsSound (record_packet inet os reused added f off k s)
  unfolding record_packet
  record_packet-IsSound f off k s h =
      if-Yields s.packet_callback
        (bind-Yields (copied s.capture_all f off) (copied-Yields s.capture_all f off h.no_copies)
          λ bag e. finished-Yields _ (record {
            pids = h.pids;
            sorted = h.sorted;
            named = h.named;
            no_copies = h.no_copies;
            within = length-store s.packet_idx _ _ s.packet_data h.within;
            brief =
                store-IsBrief s.packet_idx _ _ s.packet_data (e, length-strncpy (link inet k))
                  (e, length-strncpy (link inet k)) h.brief;
          }))
        (finished-Yields _ h)

  process_of-pid :
      (pid : ℕ) (s : Capture)
      → IsSound s
      → Yields (λ p. p.pid ≡ pid) (process_of inet os reused added pid s)
  unfolding process_of
  process_of-pid pid s h = elim (Option-cases (find pid s.processes)) [
    | inl e ↦
        rw (e, process_of)
          (bind-Yields _
            (ended-Yields (Process.parse os s.memory s.delta_cpu (new_process pid))
              (λ r g. (parse_keeps_traffic os s.memory s.delta_cpu (new_process pid) r g).0))
            λ r g. finished-Yields _ g)
    | inr (p, e) ↦ rw (e, process_of) (finished-Yields p (find-IsNamed pid p s.processes h.named e))
  ]

  add_packet-pid :
      (ds : List CapDevice) (k : CapPacket) (p : CapProcess)
      → (add_packet inet ds k p).0.pid ≡ p.pid
  unfolding add_packet is_outgoing
  add_packet-pid ds k p = ground arith

  charge-IsSound :
      (pid : ℕ) (k : CapPacket) (f : Frame) (off : ℕ) (s : Capture)
      → IsSound s
      → KeepsSound (charge inet os reused added pid k f off s)
  unfolding charge
  charge-IsSound pid k f off s h =
      bind-Yields (process_of inet os reused added pid s) (process_of-pid pid s h) λ p e.
        let c = add_packet inet s.devices k p in
        record_packet-IsSound f off c.1 (record s { processes = put_process pid c.0 s.processes })
          (record {
            pids = h.pids;
            sorted = IsSorted-put pid c.0 s.processes h.sorted;
            named = put-IsNamed pid c.0 s.processes (add_packet-pid s.devices k p ∙ e) h.named;
            within = h.within;
            brief = h.brief;
            no_copies = h.no_copies;
          })

  attribute-IsSound :
      (k : CapPacket) (f : Frame) (off : ℕ) (s : Capture)
      → IsSound s
      → KeepsSound (attribute inet os reused added k f off s)
  unfolding attribute
  attribute-IsSound k f off s h = go (get_pid_by_ip s.inodes (hash inet s.devices k).0) refl
    where
      go :
          (o : Owner)
          → get_pid_by_ip s.inodes (hash inet s.devices k).0 ≡ o
          → KeepsSound (attribute inet os reused added k f off s)
      go (failed code) g = rw (g, attribute) (finished-Yields _ h)
      go (owner pid) g = rw (g, attribute) (charge-IsSound pid (hash inet s.devices k).1 f off s h)

  build-Yields :
      (ctx : PcapCtx) (f : Frame) (off : ℕ) (s : Capture)
      → Yields (λ _. Unit {0}) (build inet os reused added ctx f off s)
  unfolding build
  build-Yields ctx f off s = record { result = λ _ _. tt }

  -- ProcessTcp and ProcessUdp keep a sound state.
  pub process_packet-IsSound :
      (ctx : PcapCtx) (f : Frame) (off : ℕ) (s : Capture)
      → IsSound s
      → KeepsSound (process_packet inet os reused added ctx f off s)
  unfolding process_packet
  process_packet-IsSound ctx f off s h =
      bind-Yields (build inet os reused added ctx f off s) (build-Yields ctx f off s) built
    where
      built :
          (o : Option CapPacket)
          → Unit {0}
          → KeepsSound (elim o as (λ _. Run (Status Capture)) [
            | none ↦ finished (record { ret = cap_net_unknow; state = s })
            | some k ↦ attribute inet os reused added k f off s
          ])
      built none u = finished-Yields _ h
      built (some k) u = attribute-IsSound k f off s h
