-- ===== src/Packet/Bounds.antt =====
-- The length of a link against the buffer that it is copied to.
use capture.Prelude.{ℕ, ◌+◌, ◌≤◌, ◌<◌, ◌^◌, ◌++◌, arith, length, length-append}
use capture.Text.{Str, codes, to_string}
use capture.Text.Decimal.{length-to_string}
use capture.Inet.{Inet, IsPosix, ntop4, ntop6}
use capture.Packet.{CapPacket, source_text, dest_text, endpoint, link}

length-endpoint : (s : Str) (port : ℕ) → port < 2 ^ 16 → length (endpoint s port) ≤ length s + 6
length-endpoint s port h = omega (
  arith,
  length-append (s ++ codes ":") (to_string port),
  length-append s (codes ":"),
  length-to_string 5 port (omega arith) (omega arith),
)

module _ (inet : Inet) (posix : IsPosix inet) where
  length-source : (p : CapPacket) → length (source_text inet p) ≤ 45
  unfolding source_text ntop4 ntop6
  length-source p = ground (arith, posix.size4 p.sip, posix.size6 p.sip6)

  length-dest : (p : CapPacket) → length (dest_text inet p) ≤ 45
  unfolding dest_text ntop4 ntop6
  length-dest p = ground (arith, posix.size4 p.dip, posix.size6 p.dip6)

  -- The link of a packet whose ports are 16 bits takes at most 103 characters.
  pub length-link :
      (p : CapPacket) → p.sport < 2 ^ 16 → p.dport < 2 ^ 16 → length (link inet p) ≤ 103
  unfolding link
  length-link p hs hd = omega (
    arith,
    length-source p,
    length-dest p,
    length-endpoint (source_text inet p) p.sport hs,
    length-endpoint (dest_text inet p) p.dport hd,
    length-append (endpoint (source_text inet p) p.sport)
        (codes "-" ++ endpoint (dest_text inet p) p.dport),
  )
