-- ===== src/NetRow/RoundTrip.antt =====
-- A row of /proc/net that states a socket is read back by `CapInodeHelper::ParseBuffer` of
-- src/cap_inode_helper.cpp.
use capture.Prelude.{
  refl, inl, false, ◌==◌, inr, ℕ, ◌<◌, ◌≤◌, ◌^◌, ◌≡◌, arith, Dict, length, ap, ◌∙◌, List, ◌%◌, inr,
}
use capture.Text.{Str, to_string}
use capture.Scan.{dec, hex, clamp}
use capture.Scan.Numbers.{value_of, clamp-limit}
use capture.Scan.Printed.{
  hex_text, value-hex_text, hex_text-IsDigits, length-hex_text, value-to_string, to_string-IsDigits,
  to_string_some,
}
use capture.Scan.Fields.{sscanf-digits}
use capture.Inet.{Inet, ntop4}
use capture.Device.{CapDevice}
use capture.NetRow.{Row, add_row, parse_buffer, List, row_ends, scan_in4, words_of}
use capture.NetRow.Reading.{parse_buffer-row}
use capture.NetRow.Columns.{Columns, IsRow, IsColumn, row_text}

-- The columns of a socket among others: ports in four hexadecimal digits, the inode in decimal.
abbrev pub stating : Columns → Row → Columns
stating c r = record c {
  local = r.loc_addr;
  local_port = hex_text 4 r.loc_port;
  remote = r.rem_addr;
  remote_port = hex_text 4 r.rem_port;
  inode = to_string r.inode;
}

-- A socket that a row can state.
pub record IsSocket (r : Row) : Type 0 where
  pub local : IsColumn hex r.loc_addr
  pub local_size : length r.loc_addr ≤ 64
  pub local_port : r.loc_port < 2 ^ 16
  pub remote : IsColumn hex r.rem_addr
  pub remote_size : length r.rem_addr ≤ 64
  pub remote_port : r.rem_port < 2 ^ 16
  pub inode : r.inode < 2 ^ 64

hex4-IsColumn : (n : ℕ) → IsColumn hex (hex_text 4 n)
hex4-IsColumn n = (hex_text-IsDigits 4 n, omega (arith, length-hex_text 4 n))

stating-IsRow : (c : Columns) (r : Row) → IsRow c → IsSocket r → IsRow (stating c r)
stating-IsRow c r h s = record {
  sl = h.sl;
  st = h.st;
  tx = h.tx;
  rx = h.rx;
  tr = h.tr;
  when = h.when;
  retr = h.retr;
  uid = h.uid;
  timeout = h.timeout;
  local = s.local;
  local_size = s.local_size;
  local_port = hex4-IsColumn r.loc_port;
  remote = s.remote;
  remote_size = s.remote_size;
  remote_port = hex4-IsColumn r.rem_port;
  inode = (to_string-IsDigits r.inode, to_string_some r.inode);
}

read_port : (n : ℕ) → n < 2 ^ 16 → clamp hex false (value_of hex 0 (hex_text 4 n)) % 2 ^ 32 ≡ n
read_port n h =
    ap (λ v. clamp hex false v % 2 ^ 32) (value-hex_text 4 n (omega arith))
    ∙ ap (λ v. v % 2 ^ 32) (clamp-limit hex n (omega arith))
    ∙ omega arith

read_inode : (n : ℕ) → clamp dec false (value_of dec 0 (to_string n)) ≡ clamp dec false n
read_inode n = ap (clamp dec false) (value-to_string n)

-- A number other than 0 is read as one.
pub clamp_nonzero : (n : ℕ) → (n == 0) ≡ false → (clamp dec false n == 0) ≡ false
unfolding clamp
clamp_nonzero n h = ground arith

-- The row with its inode as `%ld` reads it.
abbrev pub as_read : Row → Row
as_read r = record r { inode = clamp dec false r.inode }

pub parse_buffer-as_read :
    (inet : Inet) (ds : List CapDevice) (m : Dict Str ℕ) (c : Columns) (r : Row)
    → IsRow c
    → IsSocket r
    → parse_buffer inet ds m (row_text (stating c r)) ≡ add_row inet ds (as_read r) m
parse_buffer-as_read inet ds m c r h s =
    parse_buffer-row (stating c r) (stating-IsRow c r h s) inet ds m
    ∙ ap (λ q. add_row inet ds q m)
        (λ i. record {
          loc_addr = r.loc_addr;
          loc_port = read_port r.loc_port s.local_port i;
          rem_addr = r.rem_addr;
          rem_port = read_port r.rem_port s.remote_port i;
          inode = read_inode r.inode i;
        })

-- A row of /proc/net that states a socket, in the layout of proc(5) and with any other columns, adds what
-- the socket itself does, if its inode is below 2 ^ 63: the addresses, the ports and the inode are read back.
pub parse_buffer-row_text :
    (inet : Inet) (ds : List CapDevice) (m : Dict Str ℕ) (c : Columns) (r : Row)
    → IsRow c
    → IsSocket r
    → r.inode < 2 ^ 63
    → parse_buffer inet ds m (row_text (stating c r)) ≡ add_row inet ds r m
parse_buffer-row_text inet ds m c r h s b =
    parse_buffer-as_read inet ds m c r h s
    ∙ ap (λ i. add_row inet ds (record r { inode = i }) m) (clamp-limit dec r.inode b)

-- The address of an IPv4 row: the word of its eight digits.
scan_in4-hex_text : (a : ℕ) → a < 2 ^ 32 → scan_in4 (hex_text 8 a) ≡ a
unfolding scan_in4 words_of
scan_in4-hex_text a h =
    let p : 0 < length (hex_text 8 a) = omega (arith, length-hex_text 8 a) in
    ap (λ r. (words_of r.values).w0)
      (sscanf-digits hex (hex_text 8 a) (inr (inl refl)) (hex_text-IsDigits 8 a) p)
    ∙ ap (λ v. clamp hex false v % 2 ^ 32) (value-hex_text 8 a (omega arith))
    ∙ ap (λ v. v % 2 ^ 32) (clamp-limit hex a (omega arith))
    ∙ omega arith

-- A socket with two IPv4 addresses.
abbrev pub socket4 : ℕ → ℕ → ℕ → ℕ → ℕ → Row
socket4 src sport dst dport i = record {
  loc_addr = hex_text 8 src;
  loc_port = sport;
  rem_addr = hex_text 8 dst;
  rem_port = dport;
  inode = i;
}

pub row_ends-socket4 :
    (inet : Inet) (src sport dst dport i : ℕ)
    → dst < 2 ^ 32
    → (row_ends inet (socket4 src sport dst dport i)).remote ≡ ntop4 inet dst 49
unfolding row_ends
row_ends-socket4 inet src sport dst dport i h =
    ground (arith, length-hex_text 8 src, scan_in4-hex_text dst h)

hex8-IsColumn : (n : ℕ) → IsColumn hex (hex_text 8 n)
hex8-IsColumn n = (hex_text-IsDigits 8 n, omega (arith, length-hex_text 8 n))

pub socket4-IsSocket :
    (src sport dst dport i : ℕ)
    → sport < 2 ^ 16
    → dport < 2 ^ 16
    → i < 2 ^ 64
    → IsSocket (socket4 src sport dst dport i)
socket4-IsSocket src sport dst dport i hs hd hi = record {
  local = hex8-IsColumn src;
  local_size = omega (arith, length-hex_text 8 src);
  local_port = hs;
  remote = hex8-IsColumn dst;
  remote_size = omega (arith, length-hex_text 8 dst);
  remote_port = hd;
  inode = hi;
}
