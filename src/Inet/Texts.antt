-- ===== src/Inet/Texts.antt =====
-- When `inet_ntop` has room.
use capture.Prelude.{ℕ, ◌≤◌, ◌≡◌, [], arith, length}
use capture.Inet.{Inet, ntop4}

pub ntop4-full : (inet : Inet) (a size : ℕ) → size ≤ length (inet.text4 a) → ntop4 inet a size ≡ []
unfolding ntop4
ntop4-full inet a size h = ground arith
