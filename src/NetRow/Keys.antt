-- ===== src/NetRow/Keys.antt =====
-- What a row of /proc/net adds, and which packets find it.
use mathlib.Core.List.{append_assoc}
use capture.Prelude.{
  ℕ, ◌<◌, ◌≤◌, ◌%◌, ◌^◌, ◌≡◌, ◌≢◌, refl, ap, Bool, true, false, List, [], ◌∷◌, some, arith, ◌==◌,
  if◌then◌else◌, length, Dict, find, put, find-put, text_eq, nat_eq, str_eq, inl, inr, ◌⊎◌,
}
use capture.Text.{Str}
use mathlib.Core.List.{append_assoc}
use capture.Text.Decimal.{print_int-eq-to_string}
use capture.Text.Colons.{colons, colons-plain, colon_counts}
use capture.Inet.{Inet, IsPosix, ntop4}
use capture.Device.{CapDevice, get_local_addr, af_inet}
use capture.Packet.{CapPacket, key, source_text, dest_text, joined}
use capture.NetRow.{
  Row, Ends, row_key, device_key, put_devices, add_row, row_ends, is_mapped, scan_in6, scan_in4,
}

module _ (e : Ends) (r : Row) where
  -- The key is that of one of the devices.
  unfoldable pub is_device_key : List CapDevice → Str → Bool
  is_device_key [] k = false
  is_device_key (d ∷ ds) k =
      let rest = is_device_key ds k in if str_eq (device_key e r d) k then true else rest

  find-put_devices :
      (ds : List CapDevice) (k : Str) (m : Dict Str ℕ)
      → find k (put_devices e r ds m)
        ≡ (if is_device_key ds k then some (r.inode % 2 ^ 32) else find k m)
  unfolding put_devices is_device_key
  find-put_devices [] k m = refl
  find-put_devices (d ∷ ds) k m = ground (
    arith,
    find-put_devices ds k (put (device_key e r d) (r.inode % 2 ^ 32) m),
    find-put (device_key e r d) k (r.inode % 2 ^ 32) m,
  )

-- After a row exactly its own key and those of the devices lead to its inode; a row with the
-- inode 0 changes nothing.
pub find-add_row :
    (inet : Inet) (ds : List CapDevice) (r : Row) (k : Str) (m : Dict Str ℕ)
    → find k (add_row inet ds r m) ≡ (
        if r.inode == 0
        then find k m
        else if is_device_key (row_ends inet r) r ds k
        then some (r.inode % 2 ^ 32)
        else if str_eq (row_key (row_ends inet r) r) k
        then some (r.inode % 2 ^ 32)
        else find k m)
unfolding add_row
find-add_row inet ds r k m = ground (
  arith,
  find-put_devices (row_ends inet r) r ds k
      (put (row_key (row_ends inet r) r) (r.inode % 2 ^ 32) m),
  find-put (row_key (row_ends inet r) r) k (r.inode % 2 ^ 32) m,
)

module _ (inet : Inet) (posix : IsPosix inet) where
  colons-ntop4 : (a size : ℕ) → colons (ntop4 inet a size) ≡ 0
  unfolding ntop4 colons
  colons-ntop4 a size = ground (arith, colons-plain (inet.text4 a) (posix.dotted4 a))

  colons-key : (out : Bool) (p : CapPacket) → p.family ≡ af_inet → colons (key inet out p) ≡ 2
  unfolding key source_text dest_text colons
  colons-key true p h = rw h (simp (colon_counts, colons-ntop4) (refl))
  colons-key false p h = rw h (simp (colon_counts, colons-ntop4) (refl))

  colons-row_key :
      (e : Ends) (r : Row) → colons e.local ≡ 0 → colons e.remote ≡ 0 → colons (row_key e r) ≡ 1
  unfolding row_key colons
  colons-row_key e r hl hr = simp (colon_counts, hl, hr) (refl)

  colons-row_ends :
      (r : Row)
      → (length r.loc_addr ≤ 8) ⊎ (is_mapped (scan_in6 r.loc_addr) ≡ true)
      → (colons (row_ends inet r).local ≡ 0) × (colons (row_ends inet r).remote ≡ 0)
  unfolding row_ends
  colons-row_ends r (inl h) =
      ground (arith, colons-ntop4 (scan_in4 r.loc_addr) 49, colons-ntop4 (scan_in4 r.rem_addr) 49)
  colons-row_ends r (inr h) = ground (
    arith,
    colons-ntop4 (scan_in4 r.loc_addr) 49,
    colons-ntop4 (scan_in4 r.rem_addr) 49,
    colons-ntop4 (scan_in6 r.loc_addr).w3 49,
    colons-ntop4 (scan_in6 r.rem_addr).w3 49,
  )

  -- The own key of a row with an IPv4 address, or with one that is mapped into IPv6, is never the
  -- key of an IPv4 packet, in either direction.
  pub row_key-ne-key :
      (r : Row) (out : Bool) (p : CapPacket)
      → (length r.loc_addr ≤ 8) ⊎ (is_mapped (scan_in6 r.loc_addr) ≡ true)
      → p.family ≡ af_inet
      → row_key (row_ends inet r) r ≢ key inet out p
  row_key-ne-key r out p v f e =
      let h = colons-row_ends r v in
      absurd
        (omega (arith, ap colons e, colons-row_key (row_ends inet r) r h.0 h.1, colons-key out p f))

  pub key-outgoing :
      (p : CapPacket)
      → p.family ≡ af_inet
      → key inet true p ≡ joined (inet.text4 p.sip) p.sport (inet.text4 p.dip) p.dport
  unfolding key source_text dest_text ntop4
  key-outgoing p f = ground (arith, posix.size4 p.sip, posix.size4 p.dip)

module _ (inet : Inet) where
  -- A packet on the ports of a row, from the address of a device to the remote end of the row, has the row's
  -- key for the device.
  pub device_key-key :
      (e : Ends) (r : Row) (d : CapDevice) (p : CapPacket)
      → get_local_addr d ≡ source_text inet p
      → e.remote ≡ dest_text inet p
      → r.loc_port ≡ p.sport
      → r.rem_port ≡ p.dport
      → p.sport < 2 ^ 16
      → p.dport < 2 ^ 16
      → device_key e r d ≡ key inet true p
  unfolding device_key key
  device_key-key e r d p g k lp rp ls rs = simp (
    g,
    k,
    lp,
    rp,
    print_int-eq-to_string p.sport (omega arith),
    print_int-eq-to_string p.dport (omega arith),
    append_assoc,
  )
