-- ===== src/Device/Membership.antt =====
-- Which addresses are local: what `InitDevice` and `Contains` do together.
use capture.Prelude.{
  ℕ, ◌≡◌, refl, Bool, true, false, ◌&&◌, List, [], ◌∷◌, ◌++◌, none, some, arith, ◌==◌,
  if◌then◌else◌, ap, ◌∙◌, Option-cases, inl, inr,
}
use capture.Inet.{Inet}
use capture.Device.{
  addr_contains4, SockAddr, IfAddrs, CapDevice, device_init, up_running, init_device, contains4,
  has_flag, sock_in, sock_in6, sock_other, add_device,
}

-- An interface that is up, running and no loopback, with the given IPv4 address.
unfoldable pub offers4 : ℕ → IfAddrs → Bool
offers4 a it =
    elim it.ifa_addr [
      | none ↦ false
      | some s ↦ elim s [ sock_in b ↦ a == b | sock_in6 b ↦ false | sock_other k ↦ false ]
    ]
    && (has_flag it.ifa_flags 0
        && (has_flag it.ifa_flags 6 && (if has_flag it.ifa_flags 3 then false else true)))

unfoldable pub any_offers4 : ℕ → List IfAddrs → Bool
unfolding offers4
any_offers4 a [] = false
any_offers4 a (it ∷ its) = let rest = any_offers4 a its in if offers4 a it then true else rest

contains4-append :
    (ds es : List CapDevice) (a : ℕ)
    → contains4 (ds ++ es) a ≡ (if contains4 ds a then true else contains4 es a)
unfolding contains4
contains4-append [] es a = refl
contains4-append (d ∷ ds) es a = ground (arith, contains4-append ds es a)

device_init-contains4 :
    (inet : Inet) (it : IfAddrs) (s : SockAddr) (a : ℕ)
    → addr_contains4 (device_init inet it s).local_addr a
      ≡ elim s [ sock_in b ↦ a == b | sock_in6 b ↦ false | sock_other k ↦ false ]
unfolding device_init addr_contains4
device_init-contains4 inet it (sock_in b) a = ground arith
device_init-contains4 inet it (sock_in6 b) a = ground arith
device_init-contains4 inet it (sock_other k) a = ground arith

kept-contains4 :
    (inet : Inet) (it : IfAddrs) (s : SockAddr) (ds : List CapDevice) (a : ℕ)
    → it.ifa_addr ≡ some s
    → contains4
        (if up_running (device_init inet it s) then ds ++ device_init inet it s ∷ [] else ds)
        a
      ≡ (if contains4 ds a then true else offers4 a it)
unfolding up_running device_init contains4 offers4
kept-contains4 inet it s ds a e =
    ground
      (arith, contains4-append ds (device_init inet it s ∷ []) a, device_init-contains4 inet it s a)

offers_nothing : (it : IfAddrs) (a : ℕ) → it.ifa_addr ≡ none → offers4 a it ≡ false
unfolding offers4
offers_nothing it a e = ground arith

add_device-some :
    (inet : Inet) (it : IfAddrs) (s : SockAddr) (ds : List CapDevice)
    → it.ifa_addr ≡ some s
    → add_device inet it ds
      ≡ (if up_running (device_init inet it s) then ds ++ device_init inet it s ∷ [] else ds)
unfolding add_device
add_device-some inet it s ds e = rw e

add_device-contains4 :
    (inet : Inet) (it : IfAddrs) (ds : List CapDevice) (a : ℕ)
    → contains4 (add_device inet it ds) a ≡ (if contains4 ds a then true else offers4 a it)
unfolding add_device
add_device-contains4 inet it ds a = elim (Option-cases it.ifa_addr) [
  | inl e ↦ rw (e, add_device) (ground (arith, offers_nothing it a e))
  | inr (s, e) ↦
      ap (λ es. contains4 es a) (add_device-some inet it s ds e) ∙ kept-contains4 inet it s ds a e
]

-- After `InitDevice` an IPv4 address is local exactly if it was so before or is the address of an
-- interface that is up and running and no loopback.
pub init_device-contains4 :
    (inet : Inet) (its : List IfAddrs) (ds : List CapDevice) (a : ℕ)
    → contains4 (init_device inet (some its) ds) a
      ≡ (if contains4 ds a then true else any_offers4 a its)
unfolding init_device any_offers4
init_device-contains4 inet [] ds a = ground arith
init_device-contains4 inet (it ∷ its) ds a = ground (
  arith,
  init_device-contains4 inet its (add_device inet it ds) a,
  add_device-contains4 inet it ds a,
)
