-- ===== src/Device.antt =====
-- src/local_addr.h, src/cap_device.h, src/cap_device.cpp, src/cap_ifaddrs.cpp and
-- `CaptureCxx::InitDevice`: the interfaces of the host and their addresses.
pub mod Membership
use capture.Prelude.{
  ℕ, ◌+◌, ◌/◌, ◌%◌, ◌^◌, Bool, true, false, ◌&&◌, ◌||◌, not, List, [], ◌∷◌, ◌++◌, Option, none,
  some, ◌==◌, if◌then◌else◌,
}
use capture.Text.{Str, codes}
use capture.Inet.{In6, Inet, zero6, same6, ntop4, ntop6}

abbrev pub af_inet : ℕ
af_inet = 2

abbrev pub af_inet6 : ℕ
af_inet6 = 10

pub record LocalAddr : Type 0 where
  pub addr_v4 : ℕ
  pub addr_v6 : In6
  pub family : ℕ
  pub str_v4 : Str
  pub str_v6 : Str

-- A new object. The source leaves the addresses unset until `Init`; no operation reads them before.
abbrev pub blank_addr : LocalAddr
blank_addr = record { addr_v4 = 0; addr_v6 = zero6; family = 0; str_v4 = []; str_v6 = [] }

-- LocalAddr::Init(in_addr_t)
unfoldable pub init_v4 : Inet → ℕ → LocalAddr → LocalAddr
unfolding ntop4
init_v4 inet a l = record l { addr_v4 = a; family = af_inet; str_v4 = ntop4 inet a 15 }

-- LocalAddr::Init(in6_addr)
unfoldable pub init_v6 : Inet → In6 → LocalAddr → LocalAddr
unfolding ntop6
init_v6 inet a l = record l { addr_v6 = a; family = af_inet6; str_v6 = ntop6 inet a 63 }

-- LocalAddr::GetStr
unfoldable pub get_str : LocalAddr → Str
get_str l = if l.family == af_inet then l.str_v4 else l.str_v6

-- LocalAddr::Contains(in6_addr)
unfoldable pub addr_contains6 : LocalAddr → In6 → Bool
unfolding same6
addr_contains6 l a =
    if l.family == af_inet6 then (if same6 l.addr_v6 a then true else false) else false

-- LocalAddr::Contains(in_addr_t)
unfoldable pub addr_contains4 : LocalAddr → ℕ → Bool
addr_contains4 l a = if l.family == af_inet && a == l.addr_v4 then true else false

-- An entry of the list of getifaddrs(3), which is a parameter of the model.
pub data SockAddr : Type 0 where
  sock_in : ℕ → SockAddr
  sock_in6 : In6 → SockAddr
  sock_other : ℕ → SockAddr

pub record IfAddrs : Type 0 where
  pub ifa_name : Option Str
  pub ifa_flags : ℕ
  pub ifa_addr : Option SockAddr

pub record CapDevice : Type 0 where
  pub name : Str
  pub flags : ℕ
  pub local_addr : LocalAddr

set_addr : Inet → SockAddr → LocalAddr
unfolding init_v4 init_v6
set_addr inet (sock_in a) = init_v4 inet a blank_addr
set_addr inet (sock_in6 a) = init_v6 inet a blank_addr
set_addr inet (sock_other family) = blank_addr

-- CapDevice::Init, which returns 0 always. `ifa_addr` is not null: its caller has tested it.
pub device_init : Inet → IfAddrs → SockAddr → CapDevice
unfolding set_addr
device_init inet it addr = record {
  name = elim it.ifa_name [ none ↦ codes "unknow device" | some n ↦ n ];
  flags = it.ifa_flags;
  local_addr = set_addr inet addr;
}

-- flags & 2^k
abbrev pub has_flag : ℕ → ℕ → Bool
has_flag flags k = flags / 2 ^ k % 2 == 1

-- CapDevice::UpRunning; IFF_UP is bit 0, IFF_LOOPBACK bit 3, IFF_RUNNING bit 6
pub up_running : CapDevice → Bool
up_running d = not (has_flag d.flags 3) && (has_flag d.flags 0 && has_flag d.flags 6)

-- CapDevice::GetLocalAddr; `Init` has made the address of every device that is kept.
unfoldable pub get_local_addr : CapDevice → Str
unfolding get_str
get_local_addr d = get_str d.local_addr

-- A round of the loop of CaptureCxx::InitDevice.
add_device : Inet → IfAddrs → List CapDevice → List CapDevice
unfolding device_init up_running
add_device inet it devices = elim it.ifa_addr [
  | none ↦ devices
  | some addr ↦
      let d = device_init inet it addr in if up_running d then devices ++ d ∷ [] else devices
]

pub add_devices : Inet → List IfAddrs → List CapDevice → List CapDevice
unfolding add_device
add_devices inet [] devices = devices
add_devices inet (it ∷ its) devices = add_devices inet its (add_device inet it devices)

-- CaptureCxx::InitDevice; `none` is a failure of getifaddrs(3).
unfoldable pub init_device : Inet → Option (List IfAddrs) → List CapDevice → List CapDevice
unfolding add_devices
init_device inet none devices = devices
init_device inet (some its) devices = add_devices inet its devices

-- CaptureCxx::Contains(in_addr_t)
unfoldable pub contains4 : List CapDevice → ℕ → Bool
unfolding addr_contains4
contains4 [] a = false
contains4 (d ∷ ds) a =
    let rest = contains4 ds a in if addr_contains4 d.local_addr a then true else rest

-- CaptureCxx::Contains(in6_addr)
unfoldable pub contains6 : List CapDevice → In6 → Bool
unfolding addr_contains6
contains6 [] a = false
contains6 (d ∷ ds) a =
    let rest = contains6 ds a in if addr_contains6 d.local_addr a then true else rest
