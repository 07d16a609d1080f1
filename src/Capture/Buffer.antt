-- ===== src/Capture/Buffer.antt =====
-- CaptureCxx::packetData and packetIdx: how ProcessTcp and ProcessUdp enter packets.
mod Slots
use Slots.{store_lem}
use native.Mathlib.Numerals.{add-one}
use capture.Prelude.{
  ℕ, zero, suc, ◌+◌, ◌≤◌, ◌<◌, ◌≡◌, ◌≢◌, refl, sym, ap, ◌∙◌, subst, Bool, true, false, List, [],
  ◌∷◌, ◌++◌, Option, none, some, arith, ltb, leb, ◌==◌, if◌then◌else◌, length, get_elem?, set, take,
  drop, Bool-cases, Option-cases, inl, inr, find, nat_eq, length-append, length-set, ltb→lt, ◌⊎◌,
}
use capture.Text.{Str, strncpy}
use capture.Inet.{Inet}
use capture.Packet.{CapPacket, hash, link}
use capture.Outcome.{Status, Run, finished, overread, endless, thrown, ◌>>=◌, in_bounds, ended}
use capture.Inode.Owners.{get_pid_by_ip-codes}
use capture.Errors.{cap_net_unknow}
use capture.Outcome.Rules.{>>=-eq-finished, finished-injective}
use capture.Os.{Os}
use capture.Process.{add_packet}
use capture.ProcessFields.{CapProcess, new_process}
use capture.Process
use capture.Inode.{get_pid_by_ip, Owner, owner, failed}
use capture.Handle.{Frame, PcapCtx, unspec, ip4, ip6}
use capture.Capture.{Capture, PacketType, p_tcp, p_udp, PacketInfo}
use capture.Capture.Account.{
  store, copied, put_process, record_packet, process_of, charge, attribute, build, process_packet,
  process_tcp, process_udp,
}

-- `packetIdx` is a position of the array, or its end.
pub record IsBuffered (s : Capture) : Type 0 where
  pub within : s.packet_idx ≤ length s.packet_data

-- `s'` is `s` with one more packet, whose entry is `info`.
pub record Appends (s s' : Capture) (info : PacketInfo) : Type 0 where
  pub idx : s'.packet_idx ≡ s.packet_idx + 1
  pub before : take s'.packet_idx s'.packet_data ≡ take s.packet_idx s.packet_data ++ info ∷ []
  pub behind : drop s'.packet_idx s'.packet_data ≡ drop s'.packet_idx s.packet_data
  pub within : s'.packet_idx ≤ length s'.packet_data

module _ (inet : Inet) (os : Os) (reused added : PacketType) where
  abbrev entry : Frame → CapPacket → PacketType → PacketInfo
  entry f k t = record {
    hash = strncpy (link inet k) 127;
    family = t;
    packet = none;
    packet_size = f.len;
  }

  abbrev info_for : Frame → CapPacket → Capture → PacketInfo
  info_for f k s = entry f k (if ltb s.packet_idx (length s.packet_data) then reused else added)

  abbrev with_packet : Frame → CapPacket → Capture → Capture
  with_packet f k s = record s {
    packet_data = store s.packet_idx (entry f k reused) (entry f k added) s.packet_data;
    packet_idx = s.packet_idx + 1;
  }

  record_packet-eq :
      (f : Frame) (off : ℕ) (k : CapPacket) (s : Capture)
      → s.packet_callback ≡ true
      → s.capture_all ≡ false
      → record_packet inet os reused added f off k s
        ≡ finished (record { ret = 0; state = with_packet f k s })
  unfolding record_packet copied
  record_packet-eq f off k s c a = ground arith

  entry-if :
      (f : Frame) (k : CapPacket) (b : Bool)
      → (if b then entry f k reused else entry f k added) ≡ entry f k (if b then reused else added)
  entry-if f k true = refl
  entry-if f k false = refl

  with_packet-Appends :
      (f : Frame) (k : CapPacket) (s : Capture)
      → IsBuffered s
      → Appends s (with_packet f k s) (info_for f k s)
  with_packet-Appends f k s h =
      let t = store_lem s.packet_idx (entry f k reused) (entry f k added) s.packet_data h.within in
      record {
        idx = refl;
        before = rw (add-one, ← entry-if f k (ltb s.packet_idx (length s.packet_data))) (t.0);
        behind = rw add-one (t.1);
        within = rw add-one (t.2);
      }

  -- What the entry of a packet is like.
  abbrev pub Entered : Frame → Capture → Capture → Type 0
  Entered f s s' =
      (info : PacketInfo) × Appends s s' info
      × (info.packet_size ≡ f.len)
      × (info.packet ≡ none)
      × (info.family ≡ (if ltb s.packet_idx (length s.packet_data) then reused else added))

  with_packet-Entered :
      (f : Frame) (k : CapPacket) (s : Capture) (m : List (ℕ × CapProcess))
      → IsBuffered s
      → Entered f s (with_packet f k (record s { processes = m }))
  with_packet-Entered f k s m h =
      let t = with_packet-Appends f k (record s { processes = m }) (record { within = h.within }) in
      (
        info_for f k s,
        record { idx = t.idx; before = t.before; behind = t.behind; within = t.within },
        refl,
        refl,
        refl,
      )

  charge-Entered :
      (pid : ℕ) (k : CapPacket) (f : Frame) (off : ℕ) (s : Capture) (r : Status Capture)
      → IsBuffered s
      → s.packet_callback ≡ true
      → s.capture_all ≡ false
      → charge inet os reused added pid k f off s ≡ finished r
      → (r.ret ≡ 0) × Entered f s r.state
  unfolding charge
  charge-Entered pid k f off s r h c a e =
      let (p, _, e') = >>=-eq-finished (process_of inet os reused added pid s) _ e in
      let q = add_packet inet s.devices k p in
      let m = put_process pid q.0 s.processes in
      let x = sym (record_packet-eq f off q.1 (record s { processes = m }) c a) ∙ e' in
      let y = finished-injective _ r x in
      subst (λ (t : Status Capture). (t.ret ≡ 0) × Entered f s t.state) y
        (refl, with_packet-Entered f q.1 s m h)

  -- A packet changes nothing if it is not charged, and says so by its code.
  attribute-Entered :
      (k : CapPacket) (f : Frame) (off : ℕ) (s : Capture) (r : Status Capture)
      → IsBuffered s
      → s.packet_callback ≡ true
      → s.capture_all ≡ false
      → attribute inet os reused added k f off s ≡ finished r
      → ((r.ret ≢ 0) × (r.state ≡ s)) ⊎ ((r.ret ≡ 0) × Entered f s r.state)
  unfolding attribute
  attribute-Entered k f off s r h c a e = go (get_pid_by_ip s.inodes (hash inet s.devices k).0) refl
    where
      go :
          (o : Owner)
          → get_pid_by_ip s.inodes (hash inet s.devices k).0 ≡ o
          → ((r.ret ≢ 0) × (r.state ≡ s)) ⊎ ((r.ret ≡ 0) × Entered f s r.state)
      go (failed code) g =
          let x =
            finished-injective (record { ret = code; state = s }) r (rw (g, attribute) at e) in
          inl (
            subst (λ (t : Status Capture). (t.ret ≢ 0) × (t.state ≡ s)) x
              (code_ne_zero code g, refl))
        where
          code_ne_zero :
              (code : ℕ) → get_pid_by_ip s.inodes (hash inet s.devices k).0 ≡ failed code → code ≢ 0
          code_ne_zero code g =
              ground (arith, get_pid_by_ip-codes s.inodes (hash inet s.devices k).0 code)
      go (owner pid) g =
          inr
            (charge-Entered pid (hash inet s.devices k).1 f off s r h c a (rw (g, attribute) at e))

  process_packet-Entered :
      (ctx : PcapCtx) (f : Frame) (off : ℕ) (s : Capture) (r : Status Capture)
      → IsBuffered s
      → s.packet_callback ≡ true
      → s.capture_all ≡ false
      → process_packet inet os reused added ctx f off s ≡ finished r
      → ((r.ret ≢ 0) × (r.state ≡ s)) ⊎ ((r.ret ≡ 0) × Entered f s r.state)
  unfolding process_packet
  process_packet-Entered ctx f off s r h c a e =
      let (built, _, e') = >>=-eq-finished (build inet os reused added ctx f off s) _ e in
      go built e'
    where
      go :
          (built : Option CapPacket)
          → (elim built as (λ _. Run (Status Capture)) [
            | none ↦ finished (record { ret = cap_net_unknow; state = s })
            | some k ↦ attribute inet os reused added k f off s
          ])
            ≡ finished r
          → ((r.ret ≢ 0) × (r.state ≡ s)) ⊎ ((r.ret ≡ 0) × Entered f s r.state)
      go none e' = inl (
          subst (λ (t : Status Capture). (t.ret ≢ 0) × (t.state ≡ s)) (finished-injective _ r e')
            (omega arith, refl))
      go (some k) e' = attribute-Entered k f off s r h c a e'

-- With a packet callback, `captureAll` false and `packetIdx` within the array or at its end, a TCP
-- packet whose processing finishes either changes nothing, with a code that is not 0, or is entered
-- at `packetIdx` behind the packets of this update, as P_TCP, with the length of its frame and no
-- copy of its bytes, while the entries behind it stay.
pub process_tcp-Entered :
    (inet : Inet) (os : Os) (ctx : PcapCtx) (f : Frame) (off : ℕ) (s : Capture) (r : Status Capture)
    → IsBuffered s
    → s.packet_callback ≡ true
    → s.capture_all ≡ false
    → process_tcp inet os ctx f off s ≡ finished r
    → ((r.ret ≢ 0) × (r.state ≡ s))
      ⊎ ((r.ret ≡ 0)
          × ((info : PacketInfo) × Appends s r.state info
              × (info.packet_size ≡ f.len)
              × (info.packet ≡ none)
              × (info.family ≡ p_tcp)))
unfolding process_tcp
process_tcp-Entered inet os ctx f off s r h c a e =
    elim (process_packet-Entered inet os p_tcp p_tcp ctx f off s r h c a e) [
      | inl x ↦ inl x
      | inr (z, (info, x, l, n, t)) ↦ inr (z, (info, x, l, n, ground arith))
    ]

-- With a packet callback, `captureAll` false and `packetIdx` within the array or at its end, a UDP
-- packet that is accepted is marked P_UDP only in a new slot: in a slot that an earlier update left
-- behind it is marked P_TCP.
pub udp_in_used_slot_is_tcp :
    (inet : Inet) (os : Os) (ctx : PcapCtx) (f : Frame) (off : ℕ) (s : Capture) (r : Status Capture)
    → IsBuffered s
    → s.packet_callback ≡ true
    → s.capture_all ≡ false
    → process_udp inet os ctx f off s ≡ finished r
    → r.ret ≡ 0
    → (info : PacketInfo) × Appends s r.state info
      × (info.family ≡ (if ltb s.packet_idx (length s.packet_data) then p_tcp else p_udp))
unfolding process_udp
udp_in_used_slot_is_tcp inet os ctx f off s r h c a e z =
    elim (process_packet-Entered inet os p_tcp p_udp ctx f off s r h c a e) [
      | inl x ↦ absurd (x.0 z)
      | inr (_, (info, x, l, n, t)) ↦ (info, x, t)
    ]
