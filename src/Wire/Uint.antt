-- ===== src/Wire/Uint.antt =====
-- An `unsigned int` in a frame of four bytes, as on a little-endian machine.
use colas.Common.{ℕ, ◌+◌, ◌*◌, ◌/◌, ◌%◌, ◌^◌, ◌≡◌, ap, Option, none, some, [], ◌∷◌, arith, Bytes}

-- `zframe_new(&n, sizeof(unsigned int))`
unfoldable pub uint_frame : ℕ → Bytes
uint_frame n = n % 256 ∷ n / 256 % 256 ∷ n / 2 ^ 16 % 256 ∷ n / 2 ^ 24 % 256 ∷ []

-- `_zframe_uint`; `_zframe_int` reads the same bits. A shorter frame is read past its end.
unfoldable pub zframe_uint : Bytes → Option ℕ
zframe_uint (a ∷ b ∷ c ∷ d ∷ rest) = some (a + 2 ^ 8 * b + 2 ^ 16 * c + 2 ^ 24 * d)
zframe_uint _ = none

-- A number that was put into a frame reads back as its low 32 bits.
pub zframe_uint-uint_frame : (n : ℕ) → zframe_uint (uint_frame n) ≡ some (n % 2 ^ 32)
unfolding zframe_uint uint_frame
zframe_uint-uint_frame n = ap some (omega arith)
