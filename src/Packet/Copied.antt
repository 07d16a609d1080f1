-- ===== src/Packet/Copied.antt =====
-- The link of a packet and its copy: ProcessTcp and ProcessUdp of src/capturecxx.cpp keep all of it.
use capture.Prelude.{
  ℕ, ◌+◌, ◌<◌, ◌^◌, ◌≡◌, refl, ap, ◌∙◌, true, false, [], ◌∷◌, ◌++◌, none, arith, ◌==◌, All,
  All-append, take_all, take,
}
use capture.Text.{Str, codes, c_str, strncpy, to_string}
use capture.Text.Decimal.{to_string-All, IsDigit}
use capture.Inet.{Inet, IsPosix, IsTextual, ntop4, ntop6}
use capture.Outcome.{finished}
use capture.Os.{Os}
use capture.Handle.{Frame}
use capture.Capture.{Capture, PacketType}
use capture.Capture.Account.{copied, store, record_packet}
use capture.Packet.{CapPacket, source_text, dest_text, endpoint, link}
use capture.Packet.Bounds.{length-link}

abbrev pub NoNul : Str → Type 0
NoNul s = All (λ c. (c == 0) ≡ false) s

pub digits-NoNul : (s : Str) → All IsDigit s → NoNul s
digits-NoNul [] h = tt
digits-NoNul (c ∷ s) h = (ground arith, digits-NoNul s h.1)

c_str-NoNul : (s : Str) → NoNul s → c_str s ≡ s
unfolding c_str
c_str-NoNul [] h = refl
c_str-NoNul (c ∷ s) h = rw h.0 (ap (◌∷◌ c) (c_str-NoNul s h.1))

endpoint-NoNul : (s : Str) (port : ℕ) → NoNul s → NoNul (endpoint s port)
endpoint-NoNul s port h =
    All-append (λ c. (c == 0) ≡ false) (s ++ codes ":") (to_string port)
      (All-append (λ c. (c == 0) ≡ false) s (codes ":") h (refl, tt))
      (digits-NoNul (to_string port) (to_string-All port))

module _ (inet : Inet) (posix : IsPosix inet) (textual : IsTextual inet) where
  source-NoNul : (p : CapPacket) → NoNul (source_text inet p)
  unfolding source_text ntop4 ntop6
  source-NoNul p = ground (arith, textual.text4 p.sip, textual.text6 p.sip6)

  dest-NoNul : (p : CapPacket) → NoNul (dest_text inet p)
  unfolding dest_text ntop4 ntop6
  dest-NoNul p = ground (arith, textual.text4 p.dip, textual.text6 p.dip6)

  link-NoNul : (p : CapPacket) → NoNul (link inet p)
  unfolding link
  link-NoNul p =
      All-append (λ c. (c == 0) ≡ false) (endpoint (source_text inet p) p.sport) _
        (endpoint-NoNul (source_text inet p) p.sport (source-NoNul p))
        (refl, endpoint-NoNul (dest_text inet p) p.dport (dest-NoNul p))

  strncpy-link :
      (p : CapPacket)
      → p.sport < 2 ^ 16
      → p.dport < 2 ^ 16
      → strncpy (link inet p) 127 ≡ link inet p
  unfolding strncpy
  strncpy-link p hs hd =
      ap (take 127) (c_str-NoNul (link inet p) (link-NoNul p))
      ∙ take_all 127 (link inet p) (omega (arith, length-link inet posix p hs hd))

  -- A packet whose ports are 16 bits, recorded for a packet callback where no packet is copied, is stored with
  -- all of its link as its key, its length and a null pointer: in the slot of `packetIdx`, or as a new entry if
  -- there is none, and the next packet goes to the next slot.
  pub record_packet-link :
      (os : Os) (reused added : PacketType) (f : Frame) (off : ℕ) (p : CapPacket) (s : Capture)
      → p.sport < 2 ^ 16
      → p.dport < 2 ^ 16
      → s.packet_callback ≡ true
      → s.capture_all ≡ false
      → record_packet inet os reused added f off p s
        ≡ finished (record {
          ret = 0;
          state = record s {
            packet_data =
                store s.packet_idx
                  (record {
                    hash = link inet p;
                    family = reused;
                    packet = none;
                    packet_size = f.len;
                  })
                  (record {
                    hash = link inet p;
                    family = added;
                    packet = none;
                    packet_size = f.len;
                  })
                  s.packet_data;
            packet_idx = s.packet_idx + 1;
          };
        })
  unfolding record_packet copied
  record_packet-link os reused added f off p s hs hd c a = rw (c, a, strncpy-link p hs hd) refl
