-- ===== src/Base/CString/Decimal.antt =====
-- What `%lu` prints, and that `strtoul` reads it back.
use watermeter.Base.Text.{Text}
use watermeter.Base.Tests.{ltb, Bool-cases, lt→ltb}
use watermeter.Base.Lists.{length, All, length-append, All-append}
use watermeter.Base.CString.{
  strtoul_signed, print_digits, decimal, scan_digits, strtoul, skip_spaces, is_digit, clamp_u32,
}
use Prim.Native.Nat.{ℕ, zero, suc, ◌+◌, ◌-◌, ◌*◌, ◌/◌, ◌%◌, ◌^◌, ◌≤◌, ◌<◌}
use mathlib.Core.Path.{◌≡◌, refl}
use mathlib.Core.Bool.{true, false}
use mathlib.Core.Logic.{inl, inr}
use mathlib.Core.List.{[], ◌∷◌, ◌++◌, append_assoc}
use native.Mathlib.Nat.{pow-suc, one-le-pow}
use native.Mathlib.Omega.{arith}

abbrev pub IsDigit : ℕ → Type 0
IsDigit c = (48 ≤ c) × (c ≤ 57)

-- The text behind a number does not go on with a digit.
abbrev pub Stops : Text → Type 0
Stops [] = Unit
Stops (c ∷ s) = is_digit c ≡ false

scan_digits-digit :
    (acc c : ℕ) (s : Text)
    → IsDigit c
    → scan_digits acc (c ∷ s) ≡ scan_digits (acc * 10 + (c - 48)) s
unfolding scan_digits
scan_digits-digit acc c s h = ground arith

scan_digits-print_digits :
    (f n : ℕ) (rest : Text)
    → n < 10 ^ f
    → scan_digits 0 (print_digits f n ++ rest) ≡ scan_digits n rest
unfolding print_digits
scan_digits-print_digits zero n rest h = let e : n ≡ 0 = omega arith in rw e refl
scan_digits-print_digits (suc f) n rest h = elim (Bool-cases (ltb n 10)) [
  | inl small ↦
      rw (small, scan_digits-digit 0 (48 + n) rest (ground arith))
        (let e : 0 * 10 + (48 + n - 48) ≡ n = omega arith in rw e refl)
  | inr large ↦
      let h' : n / 10 < 10 ^ f = omega (arith, pow-suc 10 f) in
      rw
        (
          large,
          append_assoc,
          scan_digits-print_digits f (n / 10) ((48 + n % 10) ∷ rest) h',
          scan_digits-digit (n / 10) (48 + n % 10) rest (omega arith),
        )
        (let e : n / 10 * 10 + (48 + n % 10 - 48) ≡ n = omega arith in rw e refl)
]

scan_digits-Stops : (n : ℕ) (s : Text) → Stops s → scan_digits n s ≡ n
unfolding scan_digits
scan_digits-Stops n [] h = refl
scan_digits-Stops n (c ∷ s) h = ground arith

-- Digits only, and at least one.
All-print_digits : (f n : ℕ) → All IsDigit (print_digits f n)
unfolding print_digits
All-print_digits zero n = tt
All-print_digits (suc f) n = elim (Bool-cases (ltb n 10)) [
  | inl small ↦ rw small (ground arith)
  | inr large ↦
      rw large
        (All-append IsDigit (print_digits f (n / 10)) _ (All-print_digits f (n / 10)) (omega arith))
]

length-print_digits : (f n : ℕ) → length (print_digits f n) ≤ f
unfolding print_digits
length-print_digits zero n = omega arith
length-print_digits (suc f) n = elim (Bool-cases (ltb n 10)) [
  | inl small ↦ rw small (omega arith)
  | inr large ↦ rw (large, length-append) (omega (arith, length-print_digits f (n / 10)))
]

-- A text that starts with a digit: neither white space nor a sign stands in front.
abbrev StartsDigit : Text → Type 0
StartsDigit [] = ⊥
StartsDigit (c ∷ s) = IsDigit c

StartsDigit-append : (s rest : Text) → All IsDigit s → 0 < length s → StartsDigit (s ++ rest)
StartsDigit-append [] rest h p = absurd (omega arith)
StartsDigit-append (c ∷ s) rest h p = h.0

skip_spaces-digit : (c : ℕ) (s : Text) → IsDigit c → skip_spaces (c ∷ s) ≡ c ∷ s
unfolding skip_spaces
skip_spaces-digit c s h = ground arith

strtoul-digit : (s : Text) → StartsDigit s → strtoul s ≡ clamp_u32 (scan_digits 0 s)
unfolding strtoul
strtoul-digit [] h = absurd h
strtoul-digit (c ∷ s) h = rw (skip_spaces-digit c s h) (ground arith)

decimal-pos : (n : ℕ) → 0 < length (decimal n)
unfolding decimal print_digits
decimal-pos n = elim (Bool-cases (ltb n 10)) [
  | inl small ↦ rw small (omega arith)
  | inr large ↦ rw (large, length-append) (omega arith)
]

-- `strtoul` reads back what `%lu` printed, whatever follows that is no digit.
pub strtoul-decimal :
    (n : ℕ) (rest : Text) → n < 2 ^ 32 → Stops rest → strtoul (decimal n ++ rest) ≡ n
unfolding decimal
strtoul-decimal n rest h stops = rw (
  strtoul-digit (decimal n ++ rest)
      (StartsDigit-append (decimal n) rest (All-print_digits 10 n) (decimal-pos n)),
  scan_digits-print_digits 10 n rest (omega arith),
  scan_digits-Stops n rest stops,
  lt→ltb n (2 ^ 32) h,
)

pub length-decimal : (n : ℕ) → length (decimal n) ≤ 10
unfolding decimal
length-decimal n = length-print_digits 10 n

pub decimal-digits : (n : ℕ) → All IsDigit (decimal n)
unfolding decimal
decimal-digits n = All-print_digits 10 n

length-print_digits_upper : (k f n : ℕ) → n < 10 ^ suc k → length (print_digits f n) ≤ suc k
unfolding print_digits
length-print_digits_upper k zero n h = omega arith
length-print_digits_upper zero (suc f) n h =
    let small : ltb n 10 ≡ true = ground arith in rw small (omega arith)
length-print_digits_upper (suc k) (suc f) n h = elim (Bool-cases (ltb n 10)) [
  | inl small ↦ rw small (omega arith)
  | inr large ↦
      let h' : n / 10 < 10 ^ suc k = omega (arith, pow-suc 10 (suc k)) in
      rw (large, length-append) (omega (arith, length-print_digits_upper k f (n / 10) h'))
]

length-print_digits_lower : (k f n : ℕ) → k < f → 10 ^ k ≤ n → suc k ≤ length (print_digits f n)
unfolding print_digits
length-print_digits_lower k zero n p h = absurd (omega arith)
length-print_digits_lower zero (suc f) n p h = elim (Bool-cases (ltb n 10)) [
  | inl small ↦ rw small (omega arith)
  | inr large ↦ rw (large, length-append) (omega arith)
]
length-print_digits_lower (suc k) (suc f) n p h =
    let large : ltb n 10 ≡ false = ground (arith, pow-suc 10 k, one-le-pow k 10) in
    let h' : 10 ^ k ≤ n / 10 = omega (arith, pow-suc 10 k) in
    rw (large, length-append)
      (omega (arith, length-print_digits_lower k f (n / 10) (omega arith) h'))

-- `%lu` prints at most `k + 1` digits below `10 ^ (k + 1)`, and at least as many from `10 ^ k` on.
pub length-decimal_upper : (k n : ℕ) → n < 10 ^ suc k → length (decimal n) ≤ suc k
unfolding decimal
length-decimal_upper k n h = length-print_digits_upper k 10 n h

pub length-decimal_lower : (k n : ℕ) → k < 10 → 10 ^ k ≤ n → suc k ≤ length (decimal n)
unfolding decimal
length-decimal_lower k n p h = length-print_digits_lower k 10 n p h

strtoul_signed-lt : (s : Text) → strtoul_signed s < 2 ^ 32
unfolding strtoul_signed
strtoul_signed-lt [] = omega arith
strtoul_signed-lt (c ∷ s) = ground arith

pub strtoul-lt : (s : Text) → strtoul s < 2 ^ 32
unfolding strtoul
strtoul-lt s = strtoul_signed-lt (skip_spaces s)
