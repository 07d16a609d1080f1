-- ===== src/Capture/Account.antt =====
-- CaptureCxx::ProcessTcp and ProcessUdp: a packet is charged to the process that owns its socket, and
-- recorded for the packet callback.
use capture.Prelude.{
  ℕ, ◌+◌, ◌*◌, Bool, true, false, List, [], ◌∷◌, ◌++◌, Option, none, some, ltb, leb, ◌==◌,
  if◌then◌else◌, length, get_elem?, set, take, drop, find, nat_eq,
}
use capture.Text.{Str, strncpy}
use capture.Errors.{cap_net_unknow}
use capture.Inet.{Inet}
use capture.Packet.{CapPacket, blank_packet, unknown, init4, init6, hash, link}
use capture.Outcome.{Status, Run, finished, overread, ◌>>=◌, in_bounds, ended}
use capture.Os.{Os}
use capture.Process.{add_packet}
use capture.ProcessFields.{CapProcess, new_process}
use capture.Process
use capture.Inode.{get_pid_by_ip, owner, failed}
use capture.Handle.{Frame, PcapCtx, unspec, ip4, ip6}
use capture.Capture.{Capture, PacketType, p_tcp, p_udp, PacketInfo}

-- ntohs of the two bytes at an offset; `none` is a read behind the captured bytes.
unfoldable pub be16 : List ℕ → ℕ → Option ℕ
be16 bytes i = elim (get_elem? bytes i) [
  | none ↦ none
  | some a ↦ elim (get_elem? bytes (i + 1)) [ none ↦ none | some b ↦ some (a * 256 + b) ]
]

-- processes[pid] = …, in the order of the keys
unfoldable pub put_process : ℕ → CapProcess → List (ℕ × CapProcess) → List (ℕ × CapProcess)
put_process k p [] = (k, p) ∷ []
put_process k p ((j, q) ∷ m) =
    let rest = put_process k p m in
    if ltb k j then (k, p) ∷ (j, q) ∷ m else if j == k then (k, p) ∷ m else (j, q) ∷ rest

-- A slot of packetData is used again if there is one, else a new one is added.
unfoldable pub store : ℕ → PacketInfo → PacketInfo → List PacketInfo → List PacketInfo
store i again fresh xs = if ltb i (length xs) then set xs i again else xs ++ fresh ∷ []

-- The copy of the packet, if all is captured; memcpy reads `len` bytes from the payload.
unfoldable pub copied : Bool → Frame → ℕ → Run (Option Str)
copied false f off = finished none
copied true f off =
    if leb (off + f.len) (length f.bytes)
    then finished (some (take f.len (drop off f.bytes)))
    else overread

module _ (inet : Inet) (os : Os) (reused added : PacketType) where
  -- The last part, `if (packetCallback != nullptr) { … }`.
  unfoldable pub record_packet : Frame → ℕ → CapPacket → Capture → Run (Status Capture)
  record_packet f off k s =
      if s.packet_callback
      then (do
        bag ← copied s.capture_all f off
        let info : PacketType → PacketInfo = λ t. record {
          hash = strncpy (link inet k) 127;
          family = t;
          packet = bag;
          packet_size = f.len;
        }
        finished (record {
          ret = 0;
          state = record s {
            packet_data = store s.packet_idx (info reused) (info added) s.packet_data;
            packet_idx = s.packet_idx + 1;
          };
        }))
      else finished (record { ret = 0; state = s })

  -- A process that is not known yet is read first.
  unfoldable pub process_of : ℕ → Capture → Run CapProcess
  process_of pid s = elim (find pid s.processes) [
    | some p ↦ finished p
    | none ↦ do
      r ← ended (Process.parse os s.memory s.delta_cpu (new_process pid))
      finished r.state
  ]

  unfoldable pub charge : ℕ → CapPacket → Frame → ℕ → Capture → Run (Status Capture)
  charge pid k f off s = do
    p ← process_of pid s
    let c = add_packet inet s.devices k p
    record_packet f off c.1 (record s { processes = put_process pid c.0 s.processes })

  -- From the packet on: hash, owner, process.
  unfoldable pub attribute : CapPacket → Frame → ℕ → Capture → Run (Status Capture)
  attribute k f off s =
      let h = hash inet s.devices k in
      elim (get_pid_by_ip s.inodes h.0) [
        | failed code ↦ finished (record { ret = code; state = s })
        | owner pid ↦ charge pid h.1 f off s
      ]

  -- The packet that `switch (context.family)` makes; both headers begin with the two ports.
  unfoldable pub build : PcapCtx → Frame → ℕ → Capture → Run (Option CapPacket)
  build ctx f off s = elim ctx [
    | unspec ↦ finished none
    | ip4 src dst ↦ do
      sport ← in_bounds (be16 f.bytes off)
      dport ← in_bounds (be16 f.bytes (off + 2))
      finished (some (init4 inet s.devices src sport dst dport f.len f.ts unknown blank_packet))
    | ip6 src dst ↦ do
      sport ← in_bounds (be16 f.bytes off)
      dport ← in_bounds (be16 f.bytes (off + 2))
      finished (some (init6 inet s.devices src sport dst dport f.len f.ts unknown blank_packet))
  ]

  unfoldable pub process_packet : PcapCtx → Frame → ℕ → Capture → Run (Status Capture)
  unfolding build attribute charge process_of record_packet store copied
  process_packet ctx f off s = do
    built ← build ctx f off s
    elim built [
      | none ↦ finished (record { ret = cap_net_unknow; state = s })
      | some k ↦ attribute k f off s
    ]

module _ (inet : Inet) (os : Os) where
  -- CaptureCxx::ProcessTcp, with the payload at an offset of the frame
  unfoldable pub process_tcp : PcapCtx → Frame → ℕ → Capture → Run (Status Capture)
  unfolding process_packet
  process_tcp = process_packet inet os p_tcp p_tcp

  -- CaptureCxx::ProcessUdp. A slot that is used again is marked P_TCP, as in the source.
  unfoldable pub process_udp : PcapCtx → Frame → ℕ → Capture → Run (Status Capture)
  unfolding process_packet
  process_udp = process_packet inet os p_tcp p_udp
