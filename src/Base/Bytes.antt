-- ===== src/Base/Bytes.antt =====
-- Little-endian words: how the ESP8266 lays out a uint32_t in memory.
use watermeter.Base.Lists.{length, get_or}
use Prim.Native.Nat.{ℕ, ◌+◌, ◌*◌, ◌/◌, ◌%◌, ◌^◌, ◌<◌}
use mathlib.Core.Path.{◌≡◌, refl}
use mathlib.Core.List.{List, [], ◌∷◌}
use native.Mathlib.Omega.{arith}

unfoldable pub bytes_of_u32 : ℕ → List ℕ
bytes_of_u32 n = n % 256 ∷ n / 256 % 256 ∷ n / 65536 % 256 ∷ n / 16777216 % 256 ∷ []

-- The word at byte `i` of a buffer.
unfoldable pub u32_at : List ℕ → ℕ → ℕ
u32_at b i =
    get_or b i 0
    + 256 * get_or b (i + 1) 0
    + 65536 * get_or b (i + 2) 0
    + 16777216 * get_or b (i + 3) 0

unfoldable pub u16_at : List ℕ → ℕ → ℕ
u16_at b i = get_or b i 0 + 256 * get_or b (i + 1) 0

pub length-bytes_of_u32 : (n : ℕ) → length (bytes_of_u32 n) ≡ 4
unfolding bytes_of_u32
length-bytes_of_u32 n = refl

pub u32_at-bytes_of_u32 : (n : ℕ) → n < 2 ^ 32 → u32_at (bytes_of_u32 n) 0 ≡ n
unfolding bytes_of_u32 u32_at
u32_at-bytes_of_u32 n h = omega arith
