-- ===== src/Capture/Traffic.antt =====
-- CaptureCxx::ProcessTcp and ProcessUdp: the traffic of the processes.
use capture.Prelude.{
  ℕ, ◌+◌, ◌%◌, ◌^◌, ◌≡◌, refl, sym, ap, ◌∙◌, subst, List, Option, none, some, arith, Bool-cases,
  Option-cases, inl, inr, find, nat_eq, ◌⊎◌,
}
use capture.Inet.{Inet, In6}
use capture.Device.{CapDevice}
use capture.Packet.{
  CapPacket, hash, is_outgoing, TimeVal, CapDir, init4, init6, blank_packet, unknown,
}
use capture.Errors.{cap_net_unknow}
use capture.Outcome.{Status, Run, finished, in_bounds, ended}
use capture.Outcome.Rules.{>>=-eq-finished, finished-injective}
use capture.Os.{Os}
use capture.Process.{add_packet}
use capture.ProcessFields.{CapProcess, new_process}
use capture.Process
use capture.Process.Parsing.{parse_keeps_traffic}
use capture.Inode.{get_pid_by_ip, Owner, owner, failed}
use capture.Inode.Owners.{get_pid_by_ip-codes}
use capture.Handle.{Frame, PcapCtx, unspec, ip4, ip6}
use capture.Capture.{Capture, PacketType}
use capture.Capture.Account.{
  be16, copied, put_process, record_packet, process_of, charge, attribute, build, process_packet,
}
use capture.Capture.Sync.Order.{keys, IsSorted}
use capture.Capture.Table.{traffic, total, IsSorted-put, total-put-none, total-put-some}

-- A packet adds its length to the traffic of its process.
traffic-add_packet :
    (inet : Inet) (ds : List CapDevice) (k : CapPacket) (p : CapProcess)
    → traffic (add_packet inet ds k p).0 % 2 ^ 64 ≡ (traffic p + k.len) % 2 ^ 64
unfolding add_packet is_outgoing
traffic-add_packet inet ds k p = ground arith

len-hash : (inet : Inet) (ds : List CapDevice) (k : CapPacket) → (hash inet ds k).1.len ≡ k.len
unfolding hash is_outgoing
len-hash inet ds k = ground arith

len-init4 :
    (inet : Inet) (ds : List CapDevice) (a pa b pb n : ℕ) (t : TimeVal) (d : CapDir) (k : CapPacket)
    → (init4 inet ds a pa b pb n t d k).len ≡ n
unfolding init4 hash is_outgoing
len-init4 inet ds a pa b pb n t d k = ground arith

len-init6 :
    (inet : Inet) (ds : List CapDevice) (a : In6) (pa : ℕ) (b : In6) (pb n : ℕ) (t : TimeVal)
    (d : CapDir) (k : CapPacket)
    → (init6 inet ds a pa b pb n t d k).len ≡ n
unfolding init6 hash is_outgoing
len-init6 inet ds a pa b pb n t d k = ground arith

module _ (inet : Inet) (os : Os) (reused added : PacketType) where
  -- The process that a packet is charged to: the one of the table, or a new one with no traffic.
  process_of-cases :
      (pid : ℕ) (s : Capture) (p : CapProcess)
      → process_of inet os reused added pid s ≡ finished p
      → (find pid s.processes ≡ some p) ⊎ ((find pid s.processes ≡ none) × (traffic p ≡ 0))
  unfolding process_of
  process_of-cases pid s p e = elim (Option-cases (find pid s.processes)) [
    | inl x ↦
        let (r, e1, e2) =
          >>=-eq-finished (ended (Process.parse os s.memory s.delta_cpu (new_process pid))) _
            (rw (x, process_of) at e) in
        inr (x, fresh_traffic r (parsed _ r e1) (finished-injective _ p e2))
    | inr (q, x) ↦ inl (x ∙ ap some (finished-injective q p (rw (x, process_of) at e)))
  ]
    where
      parsed : {A : Type 0} (o : Option A) (r : A) → ended o ≡ finished r → o ≡ some r
      parsed none r h = cc
      parsed (some a) r h = cc

      fresh_traffic :
          (r : Status CapProcess)
          → Process.parse os s.memory s.delta_cpu (new_process pid) ≡ some r
          → r.state ≡ p
          → traffic p ≡ 0
      fresh_traffic r h g =
          let t = parse_keeps_traffic os s.memory s.delta_cpu (new_process pid) r h in
          rw (← g) (omega (arith, t.1, t.2))

  record_packet-processes :
      (f : Frame) (off : ℕ) (k : CapPacket) (s : Capture) (r : Status Capture)
      → record_packet inet os reused added f off k s ≡ finished r
      → r.state.processes ≡ s.processes
  unfolding record_packet
  record_packet-processes f off k s r e = elim (Bool-cases s.packet_callback) [
    | inl c ↦
        let (bag, _, e') =
          >>=-eq-finished (copied s.capture_all f off) _ (rw (c, record_packet) at e) in
        sym (ap (λ (t : Status Capture). t.state.processes) (finished-injective _ r e'))
    | inr c ↦ sym (
        ap (λ (t : Status Capture). t.state.processes)
          (finished-injective _ r (rw (c, record_packet) at e)))
  ]

  -- The traffic of a table after `n` more bytes, and its order.
  abbrev pub Charged : ℕ → List (ℕ × CapProcess) → List (ℕ × CapProcess) → Type 0
  Charged n m m' = (total m' % 2 ^ 64 ≡ (total m + n) % 2 ^ 64) × IsSorted (keys m')

  put-Charged :
      (n pid : ℕ) (p q : CapProcess) (m : List (ℕ × CapProcess))
      → IsSorted (keys m)
      → (find pid m ≡ some p) ⊎ ((find pid m ≡ none) × (traffic p ≡ 0))
      → traffic q % 2 ^ 64 ≡ (traffic p + n) % 2 ^ 64
      → Charged n m (put_process pid q m)
  put-Charged n pid p q m s (inl h) t =
      (omega (arith, total-put-some pid p q m s h), IsSorted-put pid q m s)
  put-Charged n pid p q m s (inr h) t =
      (omega (arith, total-put-none pid q m s h.0, h.1), IsSorted-put pid q m s)

  charge-Charged :
      (pid : ℕ) (k : CapPacket) (f : Frame) (off : ℕ) (s : Capture) (r : Status Capture)
      → IsSorted (keys s.processes)
      → charge inet os reused added pid k f off s ≡ finished r
      → Charged k.len s.processes r.state.processes
  unfolding charge
  charge-Charged pid k f off s r h e =
      let (p, e1, e2) = >>=-eq-finished (process_of inet os reused added pid s) _ e in
      let c = add_packet inet s.devices k p in
      let m = put_process pid c.0 s.processes in
      let same = record_packet-processes f off c.1 (record s { processes = m }) r e2 in
      subst (Charged k.len s.processes) (sym same) (
        put-Charged k.len pid p c.0 s.processes h (process_of-cases pid s p e1)
          (traffic-add_packet inet s.devices k p))

  attribute-Charged :
      (k : CapPacket) (f : Frame) (off : ℕ) (s : Capture) (r : Status Capture)
      → IsSorted (keys s.processes)
      → r.ret ≡ 0
      → attribute inet os reused added k f off s ≡ finished r
      → Charged k.len s.processes r.state.processes
  unfolding attribute
  attribute-Charged k f off s r h z e = go (get_pid_by_ip s.inodes (hash inet s.devices k).0) refl
    where
      go :
          (o : Owner)
          → get_pid_by_ip s.inodes (hash inet s.devices k).0 ≡ o
          → Charged k.len s.processes r.state.processes
      go (failed code) g =
          let x =
            finished-injective (record { ret = code; state = s }) r (rw (g, attribute) at e) in
          let y = ap (λ (t : Status Capture). t.ret) x in
          absurd (ground (arith, get_pid_by_ip-codes s.inodes (hash inet s.devices k).0 code))
      go (owner pid) g =
          subst (λ n. Charged n s.processes r.state.processes) (len-hash inet s.devices k)
            (charge-Charged pid (hash inet s.devices k).1 f off s r h (rw (g, attribute) at e))

  finished_some : (a b : CapPacket) → finished (some a) ≡ finished (some b) → a ≡ b
  finished_some a b h = cc

  build-len :
      (ctx : PcapCtx) (f : Frame) (off : ℕ) (s : Capture) (k : CapPacket)
      → build inet os reused added ctx f off s ≡ finished (some k)
      → k.len ≡ f.len
  unfolding build
  build-len unspec f off s k e = cc
  build-len (ip4 src dst) f off s k e =
      let (sport, _, e1) = >>=-eq-finished (in_bounds (be16 f.bytes off)) _ e in
      let (dport, _, e2) = >>=-eq-finished (in_bounds (be16 f.bytes (off + 2))) _ e1 in
      sym (ap (λ (x : CapPacket). x.len) (finished_some _ k e2))
      ∙ len-init4 inet s.devices src sport dst dport f.len f.ts unknown blank_packet
  build-len (ip6 src dst) f off s k e =
      let (sport, _, e1) = >>=-eq-finished (in_bounds (be16 f.bytes off)) _ e in
      let (dport, _, e2) = >>=-eq-finished (in_bounds (be16 f.bytes (off + 2))) _ e1 in
      sym (ap (λ (x : CapPacket). x.len) (finished_some _ k e2))
      ∙ len-init6 inet s.devices src sport dst dport f.len f.ts unknown blank_packet

  -- On a table in the order of its numbers, a packet that ProcessTcp or ProcessUdp accepts with the
  -- code 0 adds the length of its frame to the traffic of all processes, modulo 2 ^ 64, and leaves
  -- the table in order.
  pub process_packet_charges :
      (ctx : PcapCtx) (f : Frame) (off : ℕ) (s : Capture) (r : Status Capture)
      → IsSorted (keys s.processes)
      → process_packet inet os reused added ctx f off s ≡ finished r
      → r.ret ≡ 0
      → (total r.state.processes % 2 ^ 64 ≡ (total s.processes + f.len) % 2 ^ 64)
        × IsSorted (keys r.state.processes)
  unfolding process_packet
  process_packet_charges ctx f off s r h e z =
      let (built, e1, e2) = >>=-eq-finished (build inet os reused added ctx f off s) _ e in
      go built e1 e2
    where
      go :
          (built : Option CapPacket)
          → build inet os reused added ctx f off s ≡ finished built
          → (elim built as (λ _. Run (Status Capture)) [
            | none ↦ finished (record { ret = cap_net_unknow; state = s })
            | some k ↦ attribute inet os reused added k f off s
          ])
            ≡ finished r
          → Charged f.len s.processes r.state.processes
      go none e1 e2 =
          let y = ap (λ (t : Status Capture). t.ret) (finished-injective _ r e2) in
          absurd (omega arith)
      go (some k) e1 e2 =
          subst (λ n. Charged n s.processes r.state.processes) (build-len ctx f off s k e1)
            (attribute-Charged k f off s r h z e2)
