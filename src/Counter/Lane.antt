-- ===== src/Counter/Lane.antt =====
-- `debounce` works on eight inputs at once. Here each of them is followed on its own: the accepted
-- value of the input, and how many samples in a row have differed from it.
use watermeter.Base.{ℕ, ◌+◌, ◌*◌, ◌%◌, ◌≤◌, ◌<◌, ◌≡◌, refl, arith}
use watermeter.Base.{
  ◌==◌, ==_iff, if◌then◌else◌, all_below, all_below_sound, true, min, ◌-◌, ◌/◌, Bool, not, ◌&&◌,
}
use watermeter.Base.Bits.{bit, bit_differs, bit-bit_and, bit-bit_xor, bit-le-one}
use watermeter.Device.{Debounce}
use watermeter.Counter.{debounce}

-- The accepted value of input `k`.
abbrev pub accepted : ℕ → Debounce → ℕ
accepted k s = bit k s.state

-- The two bits that count the samples which differ.
abbrev pub run_length : ℕ → Debounce → ℕ
run_length k s = bit k s.cnt0 + 2 * bit k s.cnt1

-- The specification of one input: a sample that agrees clears the count, one that differs raises it
-- modulo 4, and the value changes as the count gets to 3.
abbrev pub next_run : ℕ → ℕ → ℕ → ℕ
next_run sample value run = if sample == value then 0 else (run + 1) % 4

abbrev pub next_value : ℕ → ℕ → ℕ → ℕ
next_value sample value run = if next_run sample value run == 3 then 1 - value else value

bits_of_0xff : all_below 8 (λ k. bit k 0xff == 1) ≡ true
unfolding all_below bit
bits_of_0xff = refl

bit-0xff : (k : ℕ) → k < 8 → bit k 0xff ≡ 1
bit-0xff k h = (==_iff _ 1).0 (all_below_sound 8 (λ k. bit k 0xff == 1) k bits_of_0xff h)

-- The formulas of the source on single bits.
run_of_bits :
    (x v c0 c1 : ℕ)
    → x ≤ 1
    → v ≤ 1
    → c0 ≤ 1
    → c1 ≤ 1
    → min (bit_differs c0 1) (bit_differs x v) + 2 * min (bit_differs c1 c0) (bit_differs x v)
      ≡ next_run x v (c0 + 2 * c1)
run_of_bits x v c0 c1 hx hv h0 h1 = ground arith

value_of_bits :
    (x v c0 c1 : ℕ)
    → x ≤ 1
    → v ≤ 1
    → c0 ≤ 1
    → c1 ≤ 1
    → bit_differs v
        (min (min (bit_differs c0 1) (bit_differs x v)) (min (bit_differs c1 c0) (bit_differs x v)))
      ≡ next_value x v (c0 + 2 * c1)
value_of_bits x v c0 c1 hx hv h0 h1 = ground arith

-- Each input obeys the specification, whatever the others do: the count of samples that differ
-- restarts at 0 or goes up by one modulo 4, and the accepted value changes at the third.
pub debounce-lane :
    (k sample : ℕ) (s : Debounce)
    → k < 8
    → (run_length k (debounce sample s) ≡ next_run (bit k sample) (accepted k s) (run_length k s))
      × (accepted k (debounce sample s) ≡ next_value (bit k sample) (accepted k s) (run_length k s))
unfolding debounce
debounce-lane k sample s h = (
  simp (bit-bit_and, bit-bit_xor, bit-0xff k h)
      (run_of_bits (bit k sample) (bit k s.state) (bit k s.cnt0) (bit k s.cnt1) (bit-le-one k _)
        (bit-le-one k _) (bit-le-one k _) (bit-le-one k _)),
  simp (bit-bit_and, bit-bit_xor, bit-0xff k h)
      (value_of_bits (bit k sample) (bit k s.state) (bit k s.cnt0) (bit k s.cnt1) (bit-le-one k _)
        (bit-le-one k _) (bit-le-one k _) (bit-le-one k _)),
)

-- The specification alone, over all values of its five variables.
abbrev third_test : ℕ → ℕ → ℕ → ℕ → ℕ → Bool
third_test a b c v r =
    let v1 = next_value a v r in
    let r1 = next_run a v r in
    let v2 = next_value b v1 r1 in
    let r2 = next_run b v1 r1 in
    next_value c v2 r2
    == (if r == 0 && not (a == v) && not (b == v) && not (c == v) then 1 - v2 else v2)

abbrev third_test_of : ℕ → Bool
third_test_of n = third_test (n % 2) (n / 2 % 2) (n / 4 % 2) (n / 8 % 2) (n / 16)

third_table : all_below 64 third_test_of ≡ true
unfolding all_below
third_table = refl

third_of_run : (a b c v r : ℕ) → a ≤ 1 → b ≤ 1 → c ≤ 1 → v ≤ 1 → r ≤ 3 → third_test a b c v r ≡ true
third_of_run a b c v r ha hb hc hv hr =
    let n = a + 2 * b + 4 * c + 8 * v + 16 * r in
    let ea : n % 2 ≡ a = omega arith in
    let eb : n / 2 % 2 ≡ b = omega arith in
    let ec : n / 4 % 2 ≡ c = omega arith in
    let ev : n / 8 % 2 ≡ v = omega arith in
    let er : n / 16 ≡ r = omega arith in
    rw (ea, eb, ec, ev, er) at (all_below_sound 64 third_test_of n third_table (omega arith))

-- The value of an input changes at the last of three samples exactly when the count stood at 0
-- before them and all three differ from the value: no shorter disturbance passes.
debounce-third_sample :
    (k a b c : ℕ) (s : Debounce)
    → k < 8
    → let v = accepted k s in
      let s2 = debounce b (debounce a s) in
      accepted k (debounce c s2) ≡ (
        if run_length k s == 0 && not (bit k a == v) && not (bit k b == v) && not (bit k c == v)
        then 1 - accepted k s2
        else accepted k s2)
debounce-third_sample k a b c s h =
    rw
      (
        (debounce-lane k c (debounce b (debounce a s)) h).1,
        (debounce-lane k b (debounce a s) h).1,
        (debounce-lane k b (debounce a s) h).0,
        (debounce-lane k a s h).1,
        (debounce-lane k a s h).0,
      )
      ((==_iff _ _).0 (
        third_of_run (bit k a) (bit k b) (bit k c) (accepted k s) (run_length k s) (bit-le-one k a)
          (bit-le-one k b) (bit-le-one k c) (bit-le-one k _)
          (omega (arith, bit-le-one k s.cnt0, bit-le-one k s.cnt1))))
