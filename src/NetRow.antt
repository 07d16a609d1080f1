-- ===== src/NetRow.antt =====
-- `CapInodeHelper::ParseBuffer` of src/cap_inode_helper.cpp: a row of /proc/net, and the keys that it adds.
pub mod Keys
pub mod Columns
pub mod Reading
pub mod RoundTrip
pub mod Words
pub mod Sockets
pub mod Tables
use capture.Prelude.{
  ℕ, ◌+◌, ◌-◌, ◌%◌, ◌^◌, ◌≡◌, refl, Bool, true, false, ◌&&◌, List, [], ◌∷◌, ◌++◌, Option, none,
  some, ltb, leb, ◌==◌, if◌then◌else◌, length, take, Dict, find, put, nat_eq, text_eq, str_eq,
}
use capture.Text.{Str, codes, c_str, print_int, strncpy, to_string}
use capture.Errors.{cap_process_open, cap_process_open_dir, cap_find_ip, cap_find_inode}
use capture.Inet.{In6, Inet, zero6, ntop4, ntop6}
use capture.Device.{CapDevice, get_local_addr}
use capture.Scan.{
  Directive, space, lit, conv, skip, dec, hex, word, hex_set, lits, Value, num, text, Scanned,
  sscanf, nonzero, int, skip_int,
}
use capture.Stream.{Next, next, for_lines}
use capture.Outcome.{Status}
use capture.Os.{Os, DirEntry, dt_lnk, dt_dir, dt_other, proc_path}

-- "%*d: %64[0-9A-Fa-f]:%X %64[0-9A-Fa-f]:%X %*X %*X:%*X %*X:%*X %*X %*d %*d %ld %*512s\n"
abbrev pub row_format : List Directive
row_format =
    skip dec none ∷ lits (codes ": ")
    ++ (conv hex_set (some 64)
        ∷ lit 58
        ∷ conv hex none
        ∷ space
        ∷ conv hex_set (some 64)
        ∷ lit 58
        ∷ conv hex none
        ∷ space
        ∷ skip hex none
        ∷ space
        ∷ skip hex none
        ∷ lit 58
        ∷ skip hex none
        ∷ space
        ∷ skip hex none
        ∷ lit 58
        ∷ skip hex none
        ∷ space
        ∷ skip hex none
        ∷ space
        ∷ skip dec none
        ∷ space
        ∷ skip dec none
        ∷ space
        ∷ conv dec none
        ∷ space
        ∷ skip word (some 512)
        ∷ space
        ∷ [])

-- The five values of a row that matches; ports are `int`s and the inode an `unsigned long`.
pub record Row : Type 0 where
  pub loc_addr : Str
  pub loc_port : ℕ
  pub rem_addr : Str
  pub rem_port : ℕ
  pub inode : ℕ

unfoldable pub row_values : List Value → Option Row
row_values (text la ∷ num lp ∷ text ra ∷ num rp ∷ num i ∷ []) = some (record {
  loc_addr = la;
  loc_port = lp % 2 ^ 32;
  rem_addr = ra;
  rem_port = rp % 2 ^ 32;
  inode = i;
})
row_values _ = none

-- sscanf(addr, "%08X%08X%08X%08X", …) over words that are zero before
unfoldable pub words_of : List Value → In6
words_of (num a ∷ num b ∷ num c ∷ num d ∷ _) = record {
  w0 = a % 2 ^ 32;
  w1 = b % 2 ^ 32;
  w2 = c % 2 ^ 32;
  w3 = d % 2 ^ 32;
}
words_of (num a ∷ num b ∷ num c ∷ []) = record {
  w0 = a % 2 ^ 32;
  w1 = b % 2 ^ 32;
  w2 = c % 2 ^ 32;
  w3 = 0;
}
words_of (num a ∷ num b ∷ []) = record { w0 = a % 2 ^ 32; w1 = b % 2 ^ 32; w2 = 0; w3 = 0 }
words_of (num a ∷ []) = record { w0 = a % 2 ^ 32; w1 = 0; w2 = 0; w3 = 0 }
words_of _ = zero6

abbrev pub hex8 : Directive
hex8 = conv hex (some 8)

unfoldable pub scan_in6 : Str → In6
unfolding words_of sscanf
scan_in6 s = words_of (sscanf s (hex8 ∷ hex8 ∷ hex8 ∷ hex8 ∷ [])).values

-- sscanf(addr, "%X", &ret) into the first word
unfoldable pub scan_in4 : Str → ℕ
unfolding words_of sscanf
scan_in4 s = (words_of (sscanf s (conv hex none ∷ [])).values).w0

-- `local` and `remote`: the texts of the two ends.
pub record Ends : Type 0 where
  pub local : Str
  pub remote : Str

-- The test for an IPv4 address mapped into IPv6.
unfoldable pub is_mapped : In6 → Bool
is_mapped a = a.w0 == 0 && (a.w1 == 0 && a.w2 == 0xFFFF0000)

-- The first key of a row. Unlike the key of a packet it has no ":" before the remote port.
unfoldable pub row_key : Ends → Row → Str
row_key e r =
    e.local
    ++ (codes ":" ++ (print_int r.loc_port ++ (codes "-" ++ (e.remote ++ print_int r.rem_port))))

-- The key of a row for a device.
unfoldable pub device_key : Ends → Row → CapDevice → Str
device_key e r d =
    get_local_addr d
    ++ (codes ":"
        ++ (print_int r.loc_port
            ++ (codes "-" ++ (e.remote ++ (codes ":" ++ print_int r.rem_port)))))

unfoldable pub put_devices : Ends → Row → List CapDevice → Dict Str ℕ → Dict Str ℕ
put_devices e r [] m = m
put_devices e r (d ∷ ds) m = put_devices e r ds (put (device_key e r d) (r.inode % 2 ^ 32) m)

module _ (inet : Inet) where
  unfoldable pub row_ends : Row → Ends
  unfolding scan_in4 scan_in6 is_mapped ntop4 ntop6
  row_ends r =
      if ltb 8 (length r.loc_addr)
      then (let l = scan_in6 r.loc_addr in
          let m = scan_in6 r.rem_addr in
          if is_mapped l
          then record { local = ntop4 inet l.w3 49; remote = ntop4 inet m.w3 49 }
          else record { local = ntop6 inet l 49; remote = ntop6 inet m 49 })
      else record {
        local = ntop4 inet (scan_in4 r.loc_addr) 49;
        remote = ntop4 inet (scan_in4 r.rem_addr) 49;
      }

  unfoldable pub add_row : List CapDevice → Row → Dict Str ℕ → Dict Str ℕ
  add_row devices r m =
      if r.inode == 0
      then m
      else (let e = row_ends r in put_devices e r devices (put (row_key e r) (r.inode % 2 ^ 32) m))

  -- CapInodeHelper::ParseBuffer
  unfoldable pub parse_buffer : List CapDevice → Dict Str ℕ → Str → Dict Str ℕ
  unfolding row_values add_row sscanf row_ends row_key put_devices device_key get_local_addr
      print_int
  parse_buffer devices m buffer = elim (row_values (sscanf buffer row_format).values) [
    | none ↦ m
    | some r ↦ add_row devices r m
  ]
