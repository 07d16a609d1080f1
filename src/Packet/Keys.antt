-- ===== src/Packet/Keys.antt =====
-- The keys that CapPacket::Hash makes, and CapPacket::Invert.
use capture.Prelude.{ℕ, ◌≡◌, ◌≢◌, ◌⊎◌, Bool, true, false, [], ◌∷◌, arith, List}
use capture.Text.{Str}
use capture.Inet.{Inet}
use capture.Device.{CapDevice, contains4, af_inet, af_inet6}
use capture.Packet.{
  CapDir, unknown, incoming, outgoing, TimeVal, CapPacket, invert, joined, is_local, is_outgoing,
  key, hash, init4, source_text, dest_text, List,
}

abbrev leaves : CapDir → Bool
leaves outgoing = true
leaves incoming = false
leaves unknown = false

-- A packet after `Init`: its direction is known and the kept key is the one of its addresses.
pub record IsKeyed (inet : Inet) (p : CapPacket) : Type 0 where
  pub known : (p.dir ≡ outgoing) ⊎ (p.dir ≡ incoming)
  pub kept : p.hashstring ≡ key inet (leaves p.dir) p
  pub version : (p.family ≡ af_inet) ⊎ (p.family ≡ af_inet6)

pub joined-ne-nil : (s : Str) (p : ℕ) (t : Str) (q : ℕ) → joined s p t q ≢ []
joined-ne-nil [] p t q = λ e. cc
joined-ne-nil (c ∷ s) p t q = λ e. cc

key-ne-nil : (inet : Inet) (out : Bool) (p : CapPacket) → key inet out p ≢ []
unfolding key
key-ne-nil inet true p = joined-ne-nil (source_text inet p) p.sport (dest_text inet p) p.dport
key-ne-nil inet false p = joined-ne-nil (dest_text inet p) p.dport (source_text inet p) p.sport

module _ (inet : Inet) (ds : List CapDevice) where
  hash-fresh-IsKeyed :
      (p : CapPacket)
      → p.hashstring ≡ []
      → (p.family ≡ af_inet) ⊎ (p.family ≡ af_inet6)
      → IsKeyed inet (hash inet ds p).1
  unfolding hash is_outgoing key is_local source_text dest_text
  hash-fresh-IsKeyed p e f = ground arith

  invert-IsKeyed : (p : CapPacket) → IsKeyed inet p → IsKeyed inet (invert p).1
  unfolding invert key source_text dest_text
  invert-IsKeyed p h = ground arith

  -- A new IPv4 packet of unknown direction from a local address to one that is not local, and a new
  -- packet that goes back on the same ports, get the same key; the first is outgoing and the second
  -- incoming.
  pub reply-hash :
      (a pa b pb n m : ℕ) (t u : TimeVal) (x y : CapPacket)
      → x.hashstring ≡ []
      → y.hashstring ≡ []
      → contains4 ds a ≡ true
      → contains4 ds b ≡ false
      → ((init4 inet ds a pa b pb n t unknown x).hashstring
          ≡ (init4 inet ds b pb a pa m u unknown y).hashstring)
        × ((init4 inet ds a pa b pb n t unknown x).dir ≡ outgoing)
        × ((init4 inet ds b pb a pa m u unknown y).dir ≡ incoming)
  unfolding init4 hash is_outgoing key is_local source_text dest_text
  reply-hash a pa b pb n m t u x y ex ey ha hb = ground arith

  pub hash_kept : (p : CapPacket) → p.hashstring ≢ [] → hash inet ds p ≡ (p.hashstring, p)
  unfolding hash
  hash_kept p h = ground arith
