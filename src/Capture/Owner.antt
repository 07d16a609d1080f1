-- ===== src/Capture/Owner.antt =====
-- CaptureCxx::ProcessTcp and ProcessUdp: a packet and the process that owns its socket.
use capture.Prelude.{ℕ, ◌+◌, ◌≡◌, refl, ap, ◌∙◌, false, some, arith, find, nat_eq}
use capture.Text.{Str}
use capture.Inet.{Inet}
use capture.Packet.{CapPacket, hash}
use capture.Outcome.{Status, Run, finished}
use capture.Os.{Os}
use capture.Process.{add_packet}
use capture.ProcessFields.{CapProcess}
use capture.Inode.{get_pid_by_ip, owner, failed}
use capture.Handle.{Frame, PcapCtx, unspec, ip4, ip6}
use capture.Capture.{Capture, PacketType}
use capture.Capture.Account.{
  be16, put_process, record_packet, process_of, charge, attribute, build, process_packet,
}
use capture.Capture.Flows.{
  with_bytes, is_sender, IsIp, flow_key, flow_packet, init4-flow, init6-flow, hash-flow,
  add_packet-flow,
}

module _ (inet : Inet) (os : Os) (reused added : PacketType) where
  pub process_of-found :
      (pid : ℕ) (s : Capture) (p : CapProcess)
      → find pid s.processes ≡ some p
      → process_of inet os reused added pid s ≡ finished p
  unfolding process_of
  process_of-found pid s p e = rw (e, process_of) refl

  record_packet-off :
      (f : Frame) (off : ℕ) (k : CapPacket) (s : Capture)
      → s.packet_callback ≡ false
      → record_packet inet os reused added f off k s ≡ finished (record { ret = 0; state = s })
  unfolding record_packet
  record_packet-off f off k s c = ground arith

  charge-found :
      (pid : ℕ) (k : CapPacket) (f : Frame) (off : ℕ) (s : Capture) (p : CapProcess)
      → process_of inet os reused added pid s ≡ finished p
      → charge inet os reused added pid k f off s
        ≡ record_packet inet os reused added f off
            (add_packet inet s.devices k p).1
            (record s { processes = put_process pid (add_packet inet s.devices k p).0 s.processes })
  unfolding charge
  charge-found pid k f off s p e = rw e refl

  attribute-owner :
      (pid : ℕ) (k : CapPacket) (f : Frame) (off : ℕ) (s : Capture)
      → get_pid_by_ip s.inodes (hash inet s.devices k).0 ≡ owner pid
      → attribute inet os reused added k f off s
        ≡ charge inet os reused added pid (hash inet s.devices k).1 f off s
  unfolding attribute
  attribute-owner pid k f off s e = rw (e, attribute) refl

  attribute-failed :
      (code : ℕ) (k : CapPacket) (f : Frame) (off : ℕ) (s : Capture)
      → get_pid_by_ip s.inodes (hash inet s.devices k).0 ≡ failed code
      → attribute inet os reused added k f off s ≡ finished (record { ret = code; state = s })
  unfolding attribute
  attribute-failed code k f off s e = rw (e, attribute) refl

  process_packet-built :
      (ctx : PcapCtx) (sport dport : ℕ) (f : Frame) (off : ℕ) (s : Capture)
      → IsIp ctx
      → be16 f.bytes off ≡ some sport
      → be16 f.bytes (off + 2) ≡ some dport
      → process_packet inet os reused added ctx f off s
        ≡ attribute inet os reused added
            (flow_packet inet s.devices sport dport f.len f.ts ctx)
            f
            off
            s
  unfolding process_packet build
  process_packet-built unspec sport dport f off s h a b = absurd h
  process_packet-built (ip4 src dst) sport dport f off s h a b =
      rw (a, b)
        (ap (λ x. attribute inet os reused added x f off s)
          (init4-flow inet s.devices sport dport f.len f.ts src dst))
  process_packet-built (ip6 src dst) sport dport f off s h a b =
      rw (a, b)
        (ap (λ x. attribute inet os reused added x f off s)
          (init6-flow inet s.devices sport dport f.len f.ts src dst))

  -- Without a packet callback, an IPv4 or IPv6 packet whose ports are captured, and whose key leads to the number of
  -- a process of the table, adds the length of its frame to what that process has sent, if the source is local,
  -- and to what it has received if not; nothing else changes, and the code is 0.
  pub process_packet-owner :
      (ctx : PcapCtx) (sport dport pid : ℕ) (f : Frame) (off : ℕ) (s : Capture) (p : CapProcess)
      → IsIp ctx
      → be16 f.bytes off ≡ some sport
      → be16 f.bytes (off + 2) ≡ some dport
      → s.packet_callback ≡ false
      → get_pid_by_ip s.inodes (flow_key inet (is_sender s.devices ctx) ctx sport dport) ≡ owner pid
      → find pid s.processes ≡ some p
      → process_packet inet os reused added ctx f off s
        ≡ finished (record {
          ret = 0;
          state = record s {
            processes = put_process pid (with_bytes (is_sender s.devices ctx) f.len p) s.processes;
          };
        })
  process_packet-owner ctx sport dport pid f off s p ip a b c o e =
      let k = flow_packet inet s.devices sport dport f.len f.ts ctx in
      let h = hash-flow inet s.devices sport dport f.len f.ts ctx ip in
      let owned : get_pid_by_ip s.inodes (hash inet s.devices k).0 ≡ owner pid =
        ap (λ x. get_pid_by_ip s.inodes x.0) h ∙ o in
      let with_packet : Str × CapPacket → Run (Status Capture) =
        λ x. charge inet os reused added pid x.1 f off s in
      let recorded : CapProcess × CapPacket → Run (Status Capture) = λ x.
        record_packet inet os reused added f off x.1
          (record s { processes = put_process pid x.0 s.processes }) in
      process_packet-built ctx sport dport f off s ip a b
      ∙ attribute-owner pid k f off s owned
      ∙ ap with_packet h
      ∙ charge-found pid k f off s p (process_of-found pid s p e)
      ∙ ap recorded (add_packet-flow inet s.devices sport dport f.len f.ts ctx p ip)
      ∙ record_packet-off f off k _ c

  -- A packet whose key leads to no process changes nothing.
  pub process_packet-failed :
      (ctx : PcapCtx) (sport dport code : ℕ) (f : Frame) (off : ℕ) (s : Capture)
      → IsIp ctx
      → be16 f.bytes off ≡ some sport
      → be16 f.bytes (off + 2) ≡ some dport
      → get_pid_by_ip s.inodes (flow_key inet (is_sender s.devices ctx) ctx sport dport)
        ≡ failed code
      → process_packet inet os reused added ctx f off s
        ≡ finished (record { ret = code; state = s })
  process_packet-failed ctx sport dport code f off s ip a b o =
      let k = flow_packet inet s.devices sport dport f.len f.ts ctx in
      let h = hash-flow inet s.devices sport dport f.len f.ts ctx ip in
      process_packet-built ctx sport dport f off s ip a b
      ∙ attribute-failed code k f off s (ap (λ x. get_pid_by_ip s.inodes x.0) h ∙ o)
