-- ===== src/Base/Words.antt =====
-- `uint8_t`, `uint16_t` and `uint32_t` as native numbers: every operation that can leave the range
-- is taken modulo the width, as in C.
use Prim.Native.Nat.{ℕ, ◌+◌, ◌-◌, ◌*◌, ◌/◌, ◌%◌, ◌^◌}

abbrev pub u8 : ℕ → ℕ
u8 x = x % 256

abbrev pub u16 : ℕ → ℕ
u16 x = x % 65536

abbrev pub u32 : ℕ → ℕ
u32 x = x % 4294967296

-- `a + b` and `a - b` on `uint32_t`; both operands are in range.
abbrev pub add32 : ℕ → ℕ → ℕ
add32 a b = u32 (a + b)

abbrev pub sub32 : ℕ → ℕ → ℕ
sub32 a b = u32 (a + 4294967296 - b)

-- `a << k` and `a >> k` on `uint32_t`
abbrev pub shl : ℕ → ℕ → ℕ
shl a k = u32 (a * 2 ^ k)

abbrev pub shr : ℕ → ℕ → ℕ
shr a k = a / 2 ^ k

-- `a - b` on `uint16_t`; both operands are in range.
abbrev pub sub16 : ℕ → ℕ → ℕ
sub16 a b = u16 (a + 65536 - b)
