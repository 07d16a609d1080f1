-- ===== src/Inet.antt =====
-- Addresses, and `inet_ntop` of the C library as a parameter. An IPv4 address is its `s_addr` and an
-- IPv6 address its four `s6_addr32` words, as a little-endian host reads them.
pub mod Texts
use capture.Prelude.{
  ℕ, ◌≤◌, ◌≡◌, Bool, true, false, ◌&&◌, List, [], ◌∷◌, ltb, ◌==◌, if◌then◌else◌, length, All,
}
use capture.Text.{Str}

pub record In6 : Type 0 where
  pub w0 : ℕ
  pub w1 : ℕ
  pub w2 : ℕ
  pub w3 : ℕ

abbrev pub zero6 : In6
zero6 = record { w0 = 0; w1 = 0; w2 = 0; w3 = 0 }

-- memcmp(a, b, sizeof(in6_addr)) == 0, std::equal over the sixteen bytes
unfoldable pub same6 : In6 → In6 → Bool
same6 a b = a.w0 == b.w0 && (a.w1 == b.w1 && (a.w2 == b.w2 && a.w3 == b.w3))

-- The presentation of an address.
pub record Inet : Type 0 where
  pub text4 : ℕ → Str
  pub text6 : In6 → Str

-- What POSIX promises of it: INET_ADDRSTRLEN and INET6_ADDRSTRLEN count the NUL, and an IPv4 address is
-- digits and dots.
pub record IsPosix (inet : Inet) : Type 0 where
  pub size4 : (a : ℕ) → length (inet.text4 a) ≤ 15
  pub size6 : (a : In6) → length (inet.text6 a) ≤ 45
  pub dotted4 : (a : ℕ) → All (λ c. (c == 58) ≡ false) (inet.text4 a)

-- The text ends with the NUL that POSIX promises, and has none before.
pub record IsTextual (inet : Inet) : Type 0 where
  pub text4 : (a : ℕ) → All (λ c. (c == 0) ≡ false) (inet.text4 a)
  pub text6 : (a : In6) → All (λ c. (c == 0) ≡ false) (inet.text6 a)

module _ (inet : Inet) where
  -- inet_ntop(AF_INET, &a, dst, size) on a zeroed `dst`: with no room for the text and its NUL it
  -- fails with ENOSPC and leaves `dst` empty.
  unfoldable pub ntop4 : ℕ → ℕ → Str
  ntop4 a size = if ltb (length (inet.text4 a)) size then inet.text4 a else []

  unfoldable pub ntop6 : In6 → ℕ → Str
  ntop6 a size = if ltb (length (inet.text6 a)) size then inet.text6 a else []
