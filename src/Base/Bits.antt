-- ===== src/Base/Bits.antt =====
-- The bits of a number, and what the native bit operations do to each of them.
use Prim.Native.Nat.{
  ℕ, zero, suc, ◌+◌, ◌-◌, ◌*◌, ◌/◌, ◌%◌, ◌^◌, ◌≤◌, ◌<◌, min, max, bit_and, bit_or, bit_xor, digits,
  bitwise, differ, bit_and-bitwise, bit_or-bitwise, bit_xor-bitwise,
}
use mathlib.Core.Path.{◌≡◌, refl, subst}
use native.Mathlib.Nat.{pow-suc}
use native.Mathlib.Omega.{arith}

-- Bit `k` of `x`, as 0 or 1.
unfoldable pub bit : ℕ → ℕ → ℕ
bit zero x = x % 2
bit (suc k) x = bit k (x / 2)

-- The exclusive or of two bits.
abbrev pub bit_differs : ℕ → ℕ → ℕ
bit_differs a b = (a + b) % 2

-- Fuel that covers the first number may be more.
one_more :
    (z : ℕ → ℕ) (f : ℕ → ℕ → ℕ) (fuel x y : ℕ)
    → x ≤ fuel
    → digits z f (suc fuel) x y ≡ digits z f fuel x y
one_more z f zero zero y covers = refl
one_more z f (suc fuel) zero y covers = refl
one_more z f zero (suc x) y covers = absurd (omega arith)
one_more z f (suc fuel) (suc x) y covers =
    let half = one_more z f fuel (suc x / 2) (y / 2) (omega arith) in rw half

spare_fuel :
    (z : ℕ → ℕ) (f : ℕ → ℕ → ℕ) (spare x y : ℕ) → digits z f (x + spare) x y ≡ digits z f x x y
spare_fuel z f zero x y = let e : x + 0 ≡ x = omega arith in rw e refl
spare_fuel z f (suc spare) x y =
    let e : x + suc spare ≡ suc (x + spare) = omega arith in
    rw (e, one_more z f (x + spare) x y (omega arith)) (spare_fuel z f spare x y)

-- The operation on halves, and on the last digits.
bitwise-halves :
    (z : ℕ → ℕ) (f : ℕ → ℕ → ℕ) (x y : ℕ)
    → bitwise z f (suc x) y ≡ f (suc x % 2) (y % 2) + 2 * bitwise z f (suc x / 2) (y / 2)
bitwise-halves z f x y =
    let h = suc x / 2 in
    let e : h + (x - h) ≡ x = omega arith in
    let enough : digits z f x h (y / 2) ≡ digits z f h h (y / 2) =
      subst (λ fuel. digits z f fuel h (y / 2) ≡ digits z f h h (y / 2)) e
        (spare_fuel z f (x - h) h (y / 2)) in
    omega (arith, enough)

bit_and_step : (a b : ℕ) → bit_and a b ≡ min (a % 2) (b % 2) + 2 * bit_and (a / 2) (b / 2)
bit_and_step zero b = simp bit_and-bitwise (omega arith)
bit_and_step (suc a) b = simp bit_and-bitwise (bitwise-halves (λ y. 0) min a b)

bit_or_step : (a b : ℕ) → bit_or a b ≡ max (a % 2) (b % 2) + 2 * bit_or (a / 2) (b / 2)
bit_or_step zero b = simp bit_or-bitwise (omega arith)
bit_or_step (suc a) b = simp bit_or-bitwise (bitwise-halves (λ y. y) max a b)

differ_bits : (a b : ℕ) → a ≤ 1 → b ≤ 1 → differ a b ≡ bit_differs a b
differ_bits zero b p q = omega arith
differ_bits (suc zero) zero p q = refl
differ_bits (suc zero) (suc zero) p q = refl
differ_bits (suc zero) (suc (suc b)) p q = absurd (omega arith)
differ_bits (suc (suc a)) b p q = absurd (omega arith)

differ-mod : (a b : ℕ) → differ (a % 2) (b % 2) ≡ bit_differs (a % 2) (b % 2)
differ-mod a b = differ_bits (a % 2) (b % 2) (omega arith) (omega arith)

bit_xor_step : (a b : ℕ) → bit_xor a b ≡ bit_differs (a % 2) (b % 2) + 2 * bit_xor (a / 2) (b / 2)
bit_xor_step zero b = simp bit_xor-bitwise (omega arith)
bit_xor_step (suc a) b = simp (bit_xor-bitwise, ← differ-mod) (bitwise-halves (λ y. y) differ a b)

bit_and-half : (a b : ℕ) → bit_and a b / 2 ≡ bit_and (a / 2) (b / 2)
bit_and-half a b = omega (arith, bit_and_step a b)

bit_or-half : (a b : ℕ) → bit_or a b / 2 ≡ bit_or (a / 2) (b / 2)
bit_or-half a b = omega (arith, bit_or_step a b)

bit_xor-half : (a b : ℕ) → bit_xor a b / 2 ≡ bit_xor (a / 2) (b / 2)
bit_xor-half a b = omega (arith, bit_xor_step a b)

pub bit-bit_and : (k a b : ℕ) → bit k (bit_and a b) ≡ min (bit k a) (bit k b)
unfolding bit
bit-bit_and zero a b = omega (arith, bit_and_step a b)
bit-bit_and (suc k) a b = rw bit_and-half (bit-bit_and k (a / 2) (b / 2))

pub bit-bit_or : (k a b : ℕ) → bit k (bit_or a b) ≡ max (bit k a) (bit k b)
unfolding bit
bit-bit_or zero a b = omega (arith, bit_or_step a b)
bit-bit_or (suc k) a b = rw bit_or-half (bit-bit_or k (a / 2) (b / 2))

pub bit-bit_xor : (k a b : ℕ) → bit k (bit_xor a b) ≡ bit_differs (bit k a) (bit k b)
unfolding bit
bit-bit_xor zero a b = omega (arith, bit_xor_step a b)
bit-bit_xor (suc k) a b = rw bit_xor-half (bit-bit_xor k (a / 2) (b / 2))

pub bit-le-one : (k a : ℕ) → bit k a ≤ 1
unfolding bit
bit-le-one zero a = omega arith
bit-le-one (suc k) a = bit-le-one k (a / 2)

pub bit_xor-lt : (k a b : ℕ) → a < 2 ^ k → b < 2 ^ k → bit_xor a b < 2 ^ k
bit_xor-lt zero a b p q =
    let a0 : a ≡ 0 = omega arith in let b0 : b ≡ 0 = omega arith in rw (a0, b0) (omega arith)
bit_xor-lt (suc k) a b p q =
    let e : 2 ^ suc k ≡ 2 * 2 ^ k = omega (arith, pow-suc 2 k) in
    omega (arith, e, bit_xor_step a b, bit_xor-lt k (a / 2) (b / 2) (omega arith) (omega arith))

no_common_bits : (bound a : ℕ) → a ≤ bound → bit_and a 0 ≡ 0
no_common_bits zero a h = let nothing : a ≡ 0 = omega arith in rw nothing
no_common_bits (suc bound) a h =
    let halves = no_common_bits bound (a / 2) (omega arith) in
    omega (arith, halves, bit_and_step a 0)

bit_and-zero : (a : ℕ) → bit_and a 0 ≡ 0
bit_and-zero a = no_common_bits a a (omega arith)

-- A mask of one bit picks that bit.
pub bit_and-one : (a : ℕ) → bit_and a 1 ≡ bit 0 a
unfolding bit
bit_and-one a = omega (arith, bit_and_step a 1, bit_and-zero (a / 2))

pub bit_and-two : (a : ℕ) → bit_and a 2 ≡ 2 * bit 1 a
unfolding bit
bit_and-two a = omega (arith, bit_and_step a 2, bit_and_step (a / 2) 1, bit_and-zero (a / 2 / 2))
