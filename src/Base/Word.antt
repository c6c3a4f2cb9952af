-- ===== src/Base/Word.antt =====
-- Casts to the fixed widths of C, and the operations that the firmware uses on them.
use Prim.Native.Nat.{ℕ, ◌+◌, ◌-◌, ◌%◌, ◌^◌, bit_xor}

abbrev pub u8 : ℕ → ℕ
u8 n = n % 2 ^ 8

abbrev pub u16 : ℕ → ℕ
u16 n = n % 2 ^ 16

abbrev pub u32 : ℕ → ℕ
u32 n = n % 2 ^ 32

-- `~x` of a byte.
abbrev pub u8_not : ℕ → ℕ
u8_not x = bit_xor x 0xff

-- `a - b` of two uint32_t.
abbrev pub u32_sub : ℕ → ℕ → ℕ
u32_sub a b = u32 (a + 2 ^ 32 - b)
