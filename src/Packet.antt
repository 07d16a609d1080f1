-- ===== src/Packet.antt =====
-- src/cap_packet.h and src/cap_packet.cpp: a captured packet, its direction and its key.
pub mod Keys
pub mod Bounds
pub mod Copied
use capture.Prelude.{ℕ, Bool, true, false, List, [], ◌∷◌, ◌++◌, ◌==◌, if◌then◌else◌}
use capture.Text.{Str, codes, to_string}
use capture.Inet.{In6, Inet, zero6, ntop4, ntop6}
use capture.Device.{CapDevice, contains4, contains6, af_inet, af_inet6}

pub data CapDir : Type 0 where
  unknown incoming outgoing : CapDir

pub record TimeVal : Type 0 where
  pub sec : ℕ
  pub usec : ℕ

pub record CapPacket : Type 0 where
  pub sip6 : In6
  pub dip6 : In6
  pub sip : ℕ
  pub dip : ℕ
  pub sport : ℕ
  pub dport : ℕ
  pub len : ℕ
  pub time : TimeVal
  pub dir : CapDir
  pub family : ℕ
  pub hashstring : Str

-- A new packet. The source leaves all but `hashstring` unset; `Init` sets what is read later.
abbrev pub blank_packet : CapPacket
blank_packet = record {
  sip6 = zero6;
  dip6 = zero6;
  sip = 0;
  dip = 0;
  sport = 0;
  dport = 0;
  len = 0;
  time = record { sec = 0; usec = 0 };
  dir = unknown;
  family = 0;
  hashstring = [];
}

-- CapPacket::Invert
unfoldable pub invert : CapPacket → CapDir × CapPacket
invert p =
    let d : CapDir = elim p.dir [ incoming ↦ outgoing | outgoing ↦ incoming | unknown ↦ unknown ] in
    if p.family == af_inet
    then (d, record p { dir = d; sip = p.dip; dip = p.sip; sport = p.dport; dport = p.sport })
    else if p.family == af_inet6
    then (d, record p { dir = d; sip6 = p.dip6; dip6 = p.sip6; sport = p.dport; dport = p.sport })
    else (d, record p { dir = d })

-- The two texts and ports of a packet, as Hash and Link read them.
abbrev pub endpoint : Str → ℕ → Str
endpoint addr port = addr ++ codes ":" ++ to_string port

abbrev pub joined : Str → ℕ → Str → ℕ → Str
joined local lport remote rport = endpoint local lport ++ (codes "-" ++ endpoint remote rport)

module _ (inet : Inet) where
  unfoldable pub source_text : CapPacket → Str
  source_text p = if p.family == af_inet then ntop4 inet p.sip 49 else ntop6 inet p.sip6 49

  unfoldable pub dest_text : CapPacket → Str
  dest_text p = if p.family == af_inet then ntop4 inet p.dip 49 else ntop6 inet p.dip6 49

  -- CapPacket::Link
  unfoldable pub link : CapPacket → Str
  unfolding source_text dest_text
  link p = joined (source_text p) p.sport (dest_text p) p.dport

  -- The key of a packet whose direction is known: the local end first.
  unfoldable pub key : Bool → CapPacket → Str
  unfolding source_text dest_text
  key true p = joined (source_text p) p.sport (dest_text p) p.dport
  key false p = joined (dest_text p) p.dport (source_text p) p.sport

module _ (inet : Inet) (devices : List CapDevice) where
  unfoldable pub is_local : CapPacket → Bool
  is_local p = if p.family == af_inet then contains4 devices p.sip else contains6 devices p.sip6

  -- CapPacket::IsOutgoing: an unknown direction is found out once, and kept.
  unfoldable pub is_outgoing : CapPacket → Bool × CapPacket
  unfolding is_local
  is_outgoing p = elim p.dir [
    | outgoing ↦ (true, p)
    | incoming ↦ (false, p)
    | unknown ↦
        if is_local p
        then (true, record p { dir = outgoing })
        else (false, record p { dir = incoming })
  ]

  -- CapPacket::Hash: computed once and kept.
  unfoldable pub hash : CapPacket → Str × CapPacket
  unfolding is_outgoing key
  hash p = elim p.hashstring [
    | [] ↦
        let (out, q) = is_outgoing p in let h = key inet out q in (h, record q { hashstring = h })
    | c ∷ s ↦ (c ∷ s, p)
  ]

  -- CapPacket::Init(in_addr, …)
  unfoldable pub init4 : ℕ → ℕ → ℕ → ℕ → ℕ → TimeVal → CapDir → CapPacket → CapPacket
  unfolding hash
  init4 sip sport dip dport len time dir p =
      (hash (record p {
        sip = sip;
        sport = sport;
        dip = dip;
        dport = dport;
        len = len;
        time = time;
        dir = dir;
        family = af_inet;
      })).1

  -- CapPacket::Init(in6_addr, …)
  unfoldable pub init6 : In6 → ℕ → In6 → ℕ → ℕ → TimeVal → CapDir → CapPacket → CapPacket
  unfolding hash
  init6 sip sport dip dport len time dir p =
      (hash (record p {
        sip6 = sip;
        sport = sport;
        dip6 = dip;
        dport = dport;
        len = len;
        time = time;
        dir = dir;
        family = af_inet6;
      })).1
