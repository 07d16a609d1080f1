-- ===== src/NetRow/Sockets.antt =====
-- The rows of /proc/net that state the socket of a packet: of an IPv4 socket, of an IPv6 socket with IPv4
-- addresses mapped into IPv6, and of an IPv6 socket.
use capture.Prelude.{
  ℕ, ◌<◌, ◌^◌, ◌≡◌, refl, ◌++◌, arith, length, length-append, true, false, ltb, All-append, lt→ltb,
}
use capture.Inet.{In6, Inet}
use capture.Device.{af_inet, af_inet6}
use capture.Packet.{CapPacket, dest_text}
use capture.Scan.{hex}
use capture.Scan.Printed.{hex_text, hex_text-IsDigits, length-hex_text}
use capture.NetRow.{Row, row_ends, is_mapped}
use capture.NetRow.Columns.{IsColumn}
use capture.NetRow.RoundTrip.{IsSocket, socket4, socket4-IsSocket, row_ends-socket4}
use capture.NetRow.Words.{IsWords, words_text, scan_in6-words_text}

pub data RowKind : Type 0 where
  v4_row mapped_row v6_row : RowKind

-- A socket with two IPv6 addresses.
abbrev pub socket6 : In6 → ℕ → In6 → ℕ → ℕ → Row
socket6 src sport dst dport i = record {
  loc_addr = words_text src;
  loc_port = sport;
  rem_addr = words_text dst;
  rem_port = dport;
  inode = i;
}

-- ::ffff:a.b.c.d, in the words of a little-endian host
abbrev pub mapped : ℕ → In6
mapped a = record { w0 = 0; w1 = 0; w2 = 0xFFFF0000; w3 = a }

-- The row of the socket with the two ends of a packet, and an inode.
abbrev pub socket_row : RowKind → CapPacket → ℕ → Row
socket_row v4_row p i = socket4 p.sip p.sport p.dip p.dport i
socket_row mapped_row p i = socket6 (mapped p.sip) p.sport (mapped p.dip) p.dport i
socket_row v6_row p i = socket6 p.sip6 p.sport p.dip6 p.dport i

-- A packet that a socket of the kind sends.
abbrev pub Suits : RowKind → CapPacket → Type 0
Suits v4_row p = (p.family ≡ af_inet) × (p.dip < 2 ^ 32)
Suits mapped_row p = (p.family ≡ af_inet) × (p.sip < 2 ^ 32) × (p.dip < 2 ^ 32)
Suits v6_row p =
    (p.family ≡ af_inet6) × IsWords p.sip6 × IsWords p.dip6 × (is_mapped p.sip6 ≡ false)

length-words_text : (a : In6) → length (words_text a) ≡ 32
length-words_text a = omega (
  arith,
  length-append (hex_text 8 a.w0) (hex_text 8 a.w1 ++ (hex_text 8 a.w2 ++ hex_text 8 a.w3)),
  length-append (hex_text 8 a.w1) (hex_text 8 a.w2 ++ hex_text 8 a.w3),
  length-append (hex_text 8 a.w2) (hex_text 8 a.w3),
  length-hex_text 8 a.w0,
  length-hex_text 8 a.w1,
  length-hex_text 8 a.w2,
  length-hex_text 8 a.w3,
)

words_text-IsColumn : (a : In6) → IsColumn hex (words_text a)
words_text-IsColumn a = (
  All-append _ (hex_text 8 a.w0) _ (hex_text-IsDigits 8 a.w0) (
      All-append _ (hex_text 8 a.w1) _ (hex_text-IsDigits 8 a.w1)
        (All-append _ (hex_text 8 a.w2) _ (hex_text-IsDigits 8 a.w2) (hex_text-IsDigits 8 a.w3))),
  omega (arith, length-words_text a),
)

socket6-IsSocket :
    (src : In6) (sport : ℕ) (dst : In6) (dport i : ℕ)
    → sport < 2 ^ 16
    → dport < 2 ^ 16
    → i < 2 ^ 64
    → IsSocket (socket6 src sport dst dport i)
socket6-IsSocket src sport dst dport i hs hd hi = record {
  local = words_text-IsColumn src;
  local_size = omega (arith, length-words_text src);
  local_port = hs;
  remote = words_text-IsColumn dst;
  remote_size = omega (arith, length-words_text dst);
  remote_port = hd;
  inode = hi;
}

pub socket_row-IsSocket :
    (v : RowKind) (p : CapPacket) (i : ℕ)
    → p.sport < 2 ^ 16
    → p.dport < 2 ^ 16
    → i < 2 ^ 64
    → IsSocket (socket_row v p i)
socket_row-IsSocket v4_row p i hs hd hi = socket4-IsSocket p.sip p.sport p.dip p.dport i hs hd hi
socket_row-IsSocket mapped_row p i hs hd hi =
    socket6-IsSocket (mapped p.sip) p.sport (mapped p.dip) p.dport i hs hd hi
socket_row-IsSocket v6_row p i hs hd hi = socket6-IsSocket p.sip6 p.sport p.dip6 p.dport i hs hd hi

-- The remote end of a row is the text of the destination.
pub socket_row-remote :
    (inet : Inet) (v : RowKind) (p : CapPacket) (i : ℕ)
    → Suits v p
    → (row_ends inet (socket_row v p i)).remote ≡ dest_text inet p
unfolding row_ends dest_text is_mapped
socket_row-remote inet v4_row p i h =
    rw h.0 (row_ends-socket4 inet p.sip p.sport p.dip p.dport i h.1)
socket_row-remote inet mapped_row p i h =
    let long : ltb 8 (length (words_text (mapped p.sip))) ≡ true =
      lt→ltb _ _ (omega (arith, length-words_text (mapped p.sip))) in
    rw
      (
        h.0,
        long,
        scan_in6-words_text (mapped p.sip)
            (record { w0 = omega arith; w1 = omega arith; w2 = omega arith; w3 = h.1 }),
        scan_in6-words_text (mapped p.dip)
            (record { w0 = omega arith; w1 = omega arith; w2 = omega arith; w3 = h.2 }),
      )
      refl
socket_row-remote inet v6_row p i h =
    let long : ltb 8 (length (words_text p.sip6)) ≡ true =
      lt→ltb _ _ (omega (arith, length-words_text p.sip6)) in
    rw (h.0, long, scan_in6-words_text p.sip6 h.1, scan_in6-words_text p.dip6 h.2, h.3) refl

pub socket_row-loc_port :
    (v : RowKind) (p : CapPacket) (i : ℕ) → (socket_row v p i).loc_port ≡ p.sport
socket_row-loc_port v4_row p i = refl
socket_row-loc_port mapped_row p i = refl
socket_row-loc_port v6_row p i = refl

pub socket_row-rem_port :
    (v : RowKind) (p : CapPacket) (i : ℕ) → (socket_row v p i).rem_port ≡ p.dport
socket_row-rem_port v4_row p i = refl
socket_row-rem_port mapped_row p i = refl
socket_row-rem_port v6_row p i = refl

pub socket_row-inode : (v : RowKind) (p : CapPacket) (i : ℕ) → (socket_row v p i).inode ≡ i
socket_row-inode v4_row p i = refl
socket_row-inode mapped_row p i = refl
socket_row-inode v6_row p i = refl
