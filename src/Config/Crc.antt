-- ===== src/Config/Crc.antt =====
-- `crc_update` of user/wm_config.c. `unsigned long` has 32 bits.
use watermeter.Base.{ℕ, ◌/◌, ◌^◌, ◌<◌, ◌≡◌, refl, List, [], ◌∷◌, arith}
use watermeter.Base.{bit_and, bit_xor, get_or, take, get_or-All}
use watermeter.Base.Bits.{bit_xor-lt}

abbrev pub crc_table : List ℕ
crc_table =
    0x00000000 ∷ 0x1db71064 ∷ 0x3b6e20c8 ∷ 0x26d930ac ∷ 0x76dc4190 ∷ 0x6b6b51f4 ∷ 0x4db26158
    ∷ 0x5005713c ∷ 0xedb88320 ∷ 0xf00f9344 ∷ 0xd6d6a3e8 ∷ 0xcb61b38c ∷ 0x9b64c2b0 ∷ 0x86d3d2d4
    ∷ 0xa00ae278 ∷ 0xbdbdf21c ∷ []

-- One lookup: `crc_table[(crc ^ n) & 0x0f] ^ (crc >> 4)`.
unfoldable pub crc_nibble : ℕ → ℕ → ℕ
crc_nibble crc n = bit_xor (get_or crc_table (bit_and (bit_xor crc n) 0x0f) 0) (crc / 2 ^ 4)

-- The body of the loop, its `crc = ~crc` included.
unfoldable pub crc_byte : ℕ → ℕ → ℕ
unfolding crc_nibble
crc_byte crc b = bit_xor (crc_nibble (crc_nibble crc b) (b / 2 ^ 4)) 0xffff_ffff

unfoldable pub crc_loop : ℕ → List ℕ → ℕ
unfolding crc_byte
crc_loop crc [] = crc
crc_loop crc (b ∷ bs) = crc_loop (crc_byte crc b) bs

unfoldable pub crc_update : List ℕ → ℕ → ℕ
unfolding crc_loop
crc_update buf len = crc_loop 0xffff_ffff (take len buf)

crc_table-lt : (i : ℕ) → get_or crc_table i 0 < 2 ^ 32
crc_table-lt i = get_or-All (λ w. w < 2 ^ 32) crc_table i 0 (omega arith) (omega arith)

crc_nibble-lt : (crc n : ℕ) → crc < 2 ^ 32 → crc_nibble crc n < 2 ^ 32
unfolding crc_nibble
crc_nibble-lt crc n h = bit_xor-lt 32 _ _ (crc_table-lt _) (omega arith)

crc_loop-lt : (crc : ℕ) (bs : List ℕ) → crc < 2 ^ 32 → crc_loop crc bs < 2 ^ 32
unfolding crc_loop crc_byte
crc_loop-lt crc [] h = h
crc_loop-lt crc (b ∷ bs) h =
    crc_loop-lt (crc_byte crc b) bs
      (bit_xor-lt 32 _ _ (crc_nibble-lt _ (b / 2 ^ 4) (crc_nibble-lt crc b h)) (omega arith))

pub crc_update-lt : (buf : List ℕ) (len : ℕ) → crc_update buf len < 2 ^ 32
unfolding crc_update
crc_update-lt buf len = crc_loop-lt _ (take len buf) (omega arith)

crc_of_abc : crc_update (97 ∷ 98 ∷ 99 ∷ []) 3 ≡ 2801777840
unfolding crc_update crc_loop crc_byte crc_nibble
crc_of_abc = refl
