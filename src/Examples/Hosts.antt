-- ===== src/Examples/Hosts.antt =====
-- A host with one interface, the texts of its addresses, and a process that has a socket open.
use capture.Prelude.{
  ℕ, ◌+◌, ◌*◌, ◌/◌, ◌%◌, ◌^◌, ◌≤◌, ◌<◌, ◌≡◌, refl, true, false, [], ◌∷◌, ◌++◌, none, some, arith,
  ◌==◌, if◌then◌else◌, length, length-append, All, All-append, str_eq,
}
use capture.Text.{Str, codes, to_string}
use capture.Text.Decimal.{to_string-All, length-to_string, IsDigit}
use capture.Packet.Copied.{NoNul, digits-NoNul}
use capture.Inet.{Inet, IsPosix, IsTextual, zero6}
use capture.Device.{CapDevice, IfAddrs, sock_in}
use capture.Os.{Os, dt_lnk}
use capture.Logger.{Spdlog}
use capture.Packet.{TimeVal}

-- Decimal numbers with a byte between them.
abbrev joined_by : ℕ → ℕ → ℕ → ℕ → ℕ → Str
joined_by sep a b c d =
    to_string a ++ (sep ∷ (to_string b ++ (sep ∷ (to_string c ++ (sep ∷ to_string d)))))

-- "10.0.0.2" of its bytes from the lowest on, and four words of an IPv6 address in decimal.
abbrev pub dotted : Inet
dotted = record {
  text4 = λ a. joined_by 46 (a % 256) (a / 256 % 256) (a / 65536 % 256) (a / 16777216 % 256);
  text6 = λ a. joined_by 58 (a.w0 % 2 ^ 32) (a.w1 % 2 ^ 32) (a.w2 % 2 ^ 32) (a.w3 % 2 ^ 32);
}

length-joined_by :
    (k sep a b c d : ℕ)
    → 0 < k
    → a < 10 ^ k
    → b < 10 ^ k
    → c < 10 ^ k
    → d < 10 ^ k
    → length (joined_by sep a b c d) ≤ 4 * k + 3
length-joined_by k sep a b c d p ha hb hc hd = omega (
  arith,
  length-to_string k a p ha,
  length-to_string k b p hb,
  length-to_string k c p hc,
  length-to_string k d p hd,
  length-append (to_string a) (sep ∷ (to_string b ++ (sep ∷ (to_string c ++ (sep ∷ to_string d))))),
  length-append (to_string b) (sep ∷ (to_string c ++ (sep ∷ to_string d))),
  length-append (to_string c) (sep ∷ to_string d),
)

No58 : Str → Type 0
No58 s = All (λ c. (c == 58) ≡ false) s

digits-No58 : (s : Str) → All IsDigit s → No58 s
unfolding No58
digits-No58 [] h = tt
digits-No58 (c ∷ s) h = (ground arith, digits-No58 s h.1)

then-No58 : (n : ℕ) (t : Str) → No58 t → No58 (to_string n ++ (46 ∷ t))
unfolding No58
then-No58 n t h =
    All-append (λ c. (c == 58) ≡ false) (to_string n) (46 ∷ t)
      (digits-No58 (to_string n) (to_string-All n)) (refl, h)

pub dotted-IsPosix : IsPosix dotted
unfolding No58
dotted-IsPosix = record {
  size4 = λ a.
      length-joined_by 3 46 (a % 256) (a / 256 % 256) (a / 65536 % 256) (a / 16777216 % 256)
        (omega arith) (omega arith) (omega arith) (omega arith) (omega arith);
  size6 = λ a. omega (
    arith,
    length-joined_by 10 58 (a.w0 % 2 ^ 32) (a.w1 % 2 ^ 32) (a.w2 % 2 ^ 32) (a.w3 % 2 ^ 32)
        (omega arith) (omega arith) (omega arith) (omega arith) (omega arith),
  );
  dotted4 = λ a. then-No58 (a % 256) _ (
      then-No58 (a / 256 % 256) _ (
        then-No58 (a / 65536 % 256) _
          (digits-No58 (to_string (a / 16777216 % 256)) (to_string-All (a / 16777216 % 256)))));
}

then-NoNul : (n sep : ℕ) (t : Str) → (sep == 0) ≡ false → NoNul t → NoNul (to_string n ++ (sep ∷ t))
then-NoNul n sep t e h =
    All-append (λ c. (c == 0) ≡ false) (to_string n) (sep ∷ t)
      (digits-NoNul (to_string n) (to_string-All n)) (e, h)

joined_by-NoNul : (sep a b c d : ℕ) → (sep == 0) ≡ false → NoNul (joined_by sep a b c d)
joined_by-NoNul sep a b c d e =
    then-NoNul a sep _ e
      (then-NoNul b sep _ e (then-NoNul c sep _ e (digits-NoNul (to_string d) (to_string-All d))))

pub dotted-IsTextual : IsTextual dotted
dotted-IsTextual = record {
  text4 =
      λ a. joined_by-NoNul 46 (a % 256) (a / 256 % 256) (a / 65536 % 256) (a / 16777216 % 256) refl;
  text6 =
      λ a. joined_by-NoNul 58 (a.w0 % 2 ^ 32) (a.w1 % 2 ^ 32) (a.w2 % 2 ^ 32) (a.w3 % 2 ^ 32) refl;
}

-- 10.0.0.2 and 10.0.0.1
abbrev pub own_addr : ℕ
own_addr = 33554442

abbrev pub peer_addr : ℕ
peer_addr = 16777226

abbrev pub eth0 : CapDevice
eth0 = record {
  name = codes "eth0";
  flags = 65;
  local_addr = record {
    addr_v4 = own_addr;
    addr_v6 = zero6;
    family = 2;
    str_v4 = codes "10.0.0.2";
    str_v6 = [];
  };
}

abbrev pub interface : IfAddrs
interface = record {
  ifa_name = some (codes "eth0");
  ifa_flags = 65;
  ifa_addr = some (sock_in own_addr);
}

-- An spdlog that opens every file.
abbrev pub open_log : Spdlog
open_log = record { opens = λ path. true; should_log = λ at lvl. true }

-- A host without files.
abbrev pub bare : Os
bare = record {
  file = λ path. none;
  dir = λ path. none;
  target = λ path. none;
  user_name = λ uid. none;
  group_name = λ gid. none;
  spdlog = open_log;
}

-- A host with the process 7.
abbrev pub host : Os
host = record {
  file = λ path.
      if str_eq path (codes "/proc/7/status")
      then some (codes "Gid:\t6\n")
      else if str_eq path (codes "/proc/7/cmdline")
      then some (codes "cat")
      else if str_eq path (codes "/proc/7/stat")
      then some (codes "7\n")
      else none;
  dir = λ path.
      if str_eq path (codes "/proc/7/fd")
      then some (record { d_type = dt_lnk; d_name = codes "3" } ∷ [])
      else none;
  target = λ path. if str_eq path (codes "/proc/7/fd/3") then some (codes "socket:[55]") else none;
  user_name = λ uid. if uid == 0 then some (codes "ann") else none;
  group_name = λ gid. none;
  spdlog = open_log;
}

abbrev pub noon : TimeVal
noon = record { sec = 43200; usec = 0 }
