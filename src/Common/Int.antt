-- ===== src/Common/Int.antt =====
-- Signed integers over the native numbers: an `int` of the program, and its conversion to a char.
use ssyncd.Common.{ℕ, zero, suc, ◌-◌, ◌%◌}

-- `negsuc n` is -(n + 1).
pub data ℤ : Type 0 where
  pos : ℕ → ℤ
  negsuc : ℕ → ℤ

-- static_cast<char>(x), as the byte that is stored
abbrev pub byte_of : ℤ → ℕ
byte_of (pos n) = n % 256
byte_of (negsuc n) = 255 - n % 256

-- -n
abbrev pub negate : ℕ → ℤ
negate zero = pos 0
negate (suc n) = negsuc n
