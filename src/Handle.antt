-- ===== src/Handle.antt =====
-- src/cap_handle.h and src/cap_handle.cpp: an open capture on a device. libpcap is a parameter.
use capture.Prelude.{ℕ, Bool, true, false, List, Option, none, some, if◌then◌else◌, [], ◌==◌}
use capture.Text.{Str}
use capture.Errors.{minus_one, cap_open_device, cap_compile, cap_filter, cap_handle_init}
use capture.Inet.{In6}
use capture.Packet.{TimeVal}

-- A captured frame: the fields of its `pcap_pkthdr`, and the bytes that were captured.
pub record Frame : Type 0 where
  pub len : ℕ
  pub ts : TimeVal
  pub bytes : List ℕ

-- What pcap_dispatch hands to its callback, and what it returns.
pub record Dispatched : Type 0 where
  pub frames : List Frame
  pub ret : ℕ

-- libpcap. A `pcap_t *` is a number; `none` is a null pointer, or a result that is not set.
pub record Pcap : Type 0 where
  pub pcap_open_live : Str → ℕ → ℕ → ℕ → Option ℕ
  pub pcap_lookupnet : Str → Option (ℕ × ℕ)
  pub pcap_compile : ℕ → Str → Option ℕ → ℕ
  pub pcap_setfilter : ℕ → Str → ℕ
  pub pcap_datalink : ℕ → ℕ
  pub pcap_get_selectable_fd : ℕ → ℕ
  pub pcap_setnonblock : ℕ → ℕ → ℕ
  pub pcap_dispatch : ℕ → ℕ → Dispatched
  pub pcap_geterr : ℕ → Str

-- CapHandleInit_t
pub record CapHandleInit : Type 0 where
  pub device : Str
  pub snaplen : ℕ
  pub promise : ℕ
  pub ms : ℕ
  pub fliter : Option Str

-- PcapCtx_t: SetContext sets the family and the member of the union together.
pub data PcapCtx : Type 0 where
  unspec : PcapCtx
  ip4 : ℕ → ℕ → PcapCtx
  ip6 : In6 → In6 → PcapCtx

pub record CapHandle : Type 0 where
  pub handle : Option ℕ
  pub linktype : ℕ
  pub fd : ℕ
  pub context : PcapCtx
  pub callback : Bool

-- CapHandle::CapHandle; `linktype` is not set before OpenLive.
abbrev pub new_handle : CapHandle
new_handle = record {
  handle = none;
  linktype = 0;
  fd = minus_one;
  context = unspec;
  callback = false;
}

module _ (pcap : Pcap) where
  -- The end of OpenLive, after the filter.
  unfoldable pub opened : ℕ → CapHandle → ℕ × CapHandle
  opened p h = (
    0,
    record h {
      handle = some p;
      linktype = pcap.pcap_datalink p;
      fd = pcap.pcap_get_selectable_fd p;
    },
  )

  -- The netmask that pcap_compile is given is the address of the network, as in the source.
  unfoldable pub with_filter : CapHandleInit → Str → ℕ → CapHandle → ℕ × CapHandle
  with_filter config f p h =
      let net : Option ℕ = elim (pcap.pcap_lookupnet config.device) [
        | none ↦ none
        | some (ip, mask) ↦ some ip
      ] in
      if pcap.pcap_compile p f net == minus_one
      then (cap_compile, record h { handle = none })
      else if pcap.pcap_setfilter p f == minus_one
      then (cap_filter, record h { handle = none })
      else opened p h

  -- CapHandle::OpenLive
  unfoldable pub open_live : CapHandleInit → CapHandle → ℕ × CapHandle
  unfolding with_filter opened
  open_live config h =
      elim (pcap.pcap_open_live config.device config.snaplen config.promise config.ms) [
        | none ↦ (cap_open_device, record h { handle = none })
        | some p ↦ elim config.fliter [ none ↦ opened p h | some f ↦ with_filter config f p h ]
      ]

  -- CapHandle::SetNonBlock
  unfoldable pub set_non_block : CapHandle → ℕ → ℕ
  set_non_block h fd = elim h.handle [
    | none ↦ cap_handle_init
    | some p ↦ pcap.pcap_setnonblock p fd
  ]

  -- CapHandle::Dispatch: the frames that reach HandlePacket, and what it returns.
  unfoldable pub dispatch : CapHandle → ℕ → Dispatched
  dispatch h cnt = elim h.handle [
    | none ↦ record { frames = []; ret = cap_handle_init }
    | some p ↦ pcap.pcap_dispatch p cnt
  ]

  -- CapHandle::GetError; `none` is a null pointer.
  unfoldable pub get_error : CapHandle → Option Str
  get_error h = elim h.handle [ none ↦ none | some p ↦ some (pcap.pcap_geterr p) ]

-- CapHandle::~CapHandle: the `pcap_t *` that is given to pcap_close, and what is left.
unfoldable pub close : CapHandle → Option ℕ × CapHandle
close h = (h.handle, record h { handle = none })

-- CapHandle::SetCallback
unfoldable pub set_callback : CapHandle → CapHandle
set_callback h = record h { callback = true }

-- CapHandle::SetContext, for the two versions of IP
unfoldable pub set_context4 : ℕ → ℕ → CapHandle → CapHandle
set_context4 src dst h = record h { context = ip4 src dst }

unfoldable pub set_context6 : In6 → In6 → CapHandle → CapHandle
set_context6 src dst h = record h { context = ip6 src dst }
