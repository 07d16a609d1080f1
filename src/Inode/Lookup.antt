-- ===== src/Inode/Lookup.antt =====
-- Which packets lead to which process, after `Refresh`.
use mathlib.Core.List.{append_assoc}
use capture.Prelude.{
  ℕ, zero, suc, ◌<◌, ◌≤◌, ◌%◌, ◌^◌, ◌≡◌, ◌≢◌, refl, ◌∙◌, ◌⊎◌, true, false, List, [], ◌∷◌, ◌++◌,
  some, arith, ◌==◌, length, All, Dict, find, text_eq, nat_eq, str_eq, str_eq_iff, str_eq_self,
  Bool-cases, inl, inr, get_elem?,
}
use capture.Text.{Str}
use capture.Inet.{Inet, IsPosix, ntop4}
use capture.Inet.Texts.{ntop4-full}
use capture.Device.{CapDevice, get_local_addr, af_inet}
use capture.Packet.{CapPacket, key, source_text, dest_text}
use capture.Inode.{owner, get_pid_by_ip}
use capture.NetRow.{Row, Ends, row_key, device_key, add_row, row_ends, is_mapped, scan_in6}
use capture.NetRow.Keys.{is_device_key, find-add_row, device_key-key, row_key-ne-key, key-outgoing}

is_device_key-elem :
    (e : Ends) (r : Row) (ds : List CapDevice) (i : ℕ) (d : CapDevice)
    → get_elem? ds i ≡ some d
    → is_device_key e r ds (device_key e r d) ≡ true
unfolding is_device_key
is_device_key-elem e r [] i d h = cc
is_device_key-elem e r (x ∷ ds) zero d h = ground (arith, str_eq_self (device_key e r d))
is_device_key-elem e r (x ∷ ds) (suc i) d h = ground (arith, is_device_key-elem e r ds i d)

module _ (inet : Inet) where
  -- Let a row of /proc/net have an inode that is not 0 and that a process has open, and let a packet go from the
  -- address of a device to the remote address of the row, on the two ports of the row, which are 16 bits. Then
  -- GetPidByIp finds that process by the key of the packet.
  pub outgoing_packet_found :
      (ds : List CapDevice) (i : ℕ) (d : CapDevice) (r : Row) (p : CapPacket) (m : Dict Str ℕ)
      (q : Dict ℕ ℕ) (pid : ℕ)
      → get_elem? ds i ≡ some d
      → get_local_addr d ≡ source_text inet p
      → (row_ends inet r).remote ≡ dest_text inet p
      → r.loc_port ≡ p.sport
      → r.rem_port ≡ p.dport
      → p.sport < 2 ^ 16
      → p.dport < 2 ^ 16
      → (r.inode == 0) ≡ false
      → find (r.inode % 2 ^ 32) q ≡ some pid
      → get_pid_by_ip
          (record { net_to_inodes = add_row inet ds r m; inode_to_pids = q })
          (key inet true p)
        ≡ owner pid
  unfolding get_pid_by_ip
  outgoing_packet_found ds i d r p m q pid hd g k lp rp ls rs n hq =
      let e = device_key-key inet (row_ends inet r) r d p g k lp rp ls rs in
      let x = is_device_key-elem (row_ends inet r) r ds i d hd in
      ground (arith, find-add_row inet ds r (key inet true p) m, e, x)

module _ (inet : Inet) (posix : IsPosix inet) where
  device_key-nil-ne-key :
      (e : Ends) (r : Row) (d : CapDevice) (p : CapPacket)
      → p.family ≡ af_inet
      → get_local_addr d ≡ []
      → inet.text4 p.sip ≢ []
      → str_eq (device_key e r d) (key inet true p) ≡ false
  unfolding device_key
  device_key-nil-ne-key e r d p f g h =
      simp (g, key-outgoing inet posix p f, append_assoc)
        (starts_plain (inet.text4 p.sip) _ _ (posix.dotted4 p.sip) h)
    where
      starts_plain :
          (s t u : Str) → All (λ c. (c == 58) ≡ false) s → s ≢ [] → str_eq (58 ∷ t) (s ++ u) ≡ false
      starts_plain [] t u a n = absurd (n refl)
      starts_plain (c ∷ s) t u a n = unfold str_eq in ground arith

  no_device_key :
      (e : Ends) (r : Row) (ds : List CapDevice) (p : CapPacket)
      → p.family ≡ af_inet
      → All (λ d. get_local_addr d ≡ []) ds
      → inet.text4 p.sip ≢ []
      → is_device_key e r ds (key inet true p) ≡ false
  unfolding is_device_key
  no_device_key e r [] p f a h = refl
  no_device_key e r (d ∷ ds) p f a h =
      rw (device_key-nil-ne-key e r d p f a.0 h) (no_device_key e r ds p f a.1 h)

  -- On a host whose devices all have addresses of fifteen characters, of which `LocalAddr` keeps no
  -- text, a row with an IPv4 address, or with one mapped into IPv6, changes nothing that an
  -- outgoing IPv4 packet looks up.
  pub long_address_row_lost :
      (ds : List CapDevice) (r : Row) (p : CapPacket) (m : Dict Str ℕ)
      → p.family ≡ af_inet
      → All (λ d. (a : ℕ) × (length (inet.text4 a) ≡ 15) × (get_local_addr d ≡ ntop4 inet a 15)) ds
      → inet.text4 p.sip ≢ []
      → (length r.loc_addr ≤ 8) ⊎ (is_mapped (scan_in6 r.loc_addr) ≡ true)
      → find (key inet true p) (add_row inet ds r m) ≡ find (key inet true p) m
  long_address_row_lost ds r p m f a h v =
      let own = row_key_differs r p v f in
      let none_fits = no_device_key (row_ends inet r) r ds p f (no_text ds a) h in
      ground (arith, find-add_row inet ds r (key inet true p) m, own, none_fits)
    where
      row_key_differs :
          (r : Row) (p : CapPacket)
          → (length r.loc_addr ≤ 8) ⊎ (is_mapped (scan_in6 r.loc_addr) ≡ true)
          → p.family ≡ af_inet
          → str_eq (row_key (row_ends inet r) r) (key inet true p) ≡ false
      row_key_differs r p v f =
          elim (Bool-cases (str_eq (row_key (row_ends inet r) r) (key inet true p))) [
            | inl e ↦ absurd (row_key-ne-key inet posix r true p v f ((str_eq_iff _ _).0 e))
            | inr e ↦ e
          ]

      no_text :
          (ds : List CapDevice)
          → All
              (λ d. (a : ℕ) × (length (inet.text4 a) ≡ 15) × (get_local_addr d ≡ ntop4 inet a 15))
              ds
          → All (λ d. get_local_addr d ≡ []) ds
      no_text [] a = tt
      no_text (d ∷ ds) a = (a.0.2 ∙ ntop4-full inet a.0.0 15 (omega arith), no_text ds a.1)
