-- ===== src/Counter/Edges.antt =====
-- What `buttonTimer_cb` counts: the rising edges of the two debounced inputs, and nothing else.
use watermeter.Base.{ℕ, ◌+◌, ◌*◌, ◌%◌, ◌^◌, ◌≡◌, refl, ◌∙◌, arith, Bool, false, ◌&&◌}
use watermeter.Base.{List, [], ◌∷◌, bit_or, ◌==◌, if◌then◌else◌}
use watermeter.Base.Bits.{bit, bit-bit_and, bit-bit_or, bit-le-one, bit_and-one, bit_and-two}
use watermeter.Device.{Debounce, Device}
use watermeter.Counter.{debounce, track, is_pulse, count_if, button_timer_cb}
use watermeter.Counter.Lane.{accepted}

mask_bits :
    (bit 0 254 ≡ 0)
    × (bit 1 254 ≡ 1)
    × (bit 0 1 ≡ 1)
    × (bit 1 1 ≡ 0)
    × (bit 0 253 ≡ 1)
    × (bit 1 253 ≡ 0)
    × (bit 0 2 ≡ 0)
    × (bit 1 2 ≡ 1)
unfolding bit
mask_bits = (refl, refl, refl, refl, refl, refl, refl, refl)

track_hot :
    (status old : ℕ)
    → (bit 0 (track 1 status old) ≡ bit 0 status) × (bit 1 (track 1 status old) ≡ bit 1 old)
unfolding track
track_hot status old = ground (
  arith,
  mask_bits,
  bit_and-one status,
  bit_and-one old,
  bit-bit_and 0 old 254,
  bit-bit_and 1 old 254,
  bit-bit_or 0 old 1,
  bit-bit_or 1 old 1,
  bit-le-one 0 status,
  bit-le-one 0 old,
  bit-le-one 1 old,
)

track_cold :
    (status old : ℕ)
    → (bit 1 (track 2 status old) ≡ bit 1 status) × (bit 0 (track 2 status old) ≡ bit 0 old)
unfolding track
track_cold status old = ground (
  arith,
  mask_bits,
  bit_and-two status,
  bit_and-two old,
  bit-bit_and 0 old 253,
  bit-bit_and 1 old 253,
  bit-bit_or 0 old 2,
  bit-bit_or 1 old 2,
  bit-le-one 1 status,
  bit-le-one 0 old,
  bit-le-one 1 old,
)

-- The remembered inputs are those that `debounce` accepts.
abbrev pub InSync : Device → Type 0
InSync d =
    (bit 0 d.counter.status_old ≡ accepted 0 d.debounce)
    × (bit 1 d.counter.status_old ≡ accepted 1 d.debounce)

-- A rising edge of an input, as 0 or 1: its accepted value goes from 0 to 1.
abbrev pub rises : ℕ → Debounce → Debounce → Bool
rises k before after = accepted k before == 0 && accepted k after == 1

is_pulse_hot : (status old : ℕ) → is_pulse 1 status old ≡ (bit 0 old == 0 && bit 0 status == 1)
unfolding is_pulse
is_pulse_hot status old =
    ground (arith, bit_and-one status, bit_and-one old, bit-le-one 0 status, bit-le-one 0 old)

is_pulse_cold : (status old : ℕ) → is_pulse 2 status old ≡ (bit 1 old == 0 && bit 1 status == 1)
unfolding is_pulse
is_pulse_cold status old =
    ground (arith, bit_and-two status, bit_and-two old, bit-le-one 1 status, bit-le-one 1 old)

-- The byte that is sampled from the two pins.
abbrev pub sample_of : ℕ → ℕ → ℕ
sample_of bit_hot bit_cold = bit_or (bit_or 0 bit_hot) (bit_cold * 2)

-- One tick: the remembered inputs stay those that `debounce` accepts, each counter goes up by one
-- exactly at a rising edge of its input, and the configuration and the trace are untouched.
pub button_timer_cb-edges :
    (hot cold : ℕ) (d : Device)
    → InSync d
    → let d' = button_timer_cb hot cold d in
      InSync d'
      × (d'.debounce ≡ debounce (sample_of hot cold) d.debounce)
      × (d'.counter.counter_hot_water
          ≡ count_if (rises 0 d.debounce d'.debounce) d.counter.counter_hot_water)
      × (d'.counter.counter_cold_water
          ≡ count_if (rises 1 d.debounce d'.debounce) d.counter.counter_cold_water)
      × (d'.config ≡ d.config)
      × (d'.trace ≡ d.trace)
unfolding button_timer_cb
button_timer_cb-edges hot cold d (sync0, sync1) =
    let status = (debounce (sample_of hot cold) d.debounce).state in
    let old = d.counter.status_old in
    let old1 = track 1 status old in
    let h = track_hot status old in
    let c = track_cold status old1 in
    ((c.1 ∙ h.0, c.0), refl, rw (is_pulse_hot, sync0), rw (is_pulse_cold, h.1, sync1), refl, refl)

-- A rising edge clears `dontSleep`, and nothing else of the flags changes.
pub button_timer_cb-dont_sleep :
    (hot cold : ℕ) (d : Device)
    → InSync d
    → let d' = button_timer_cb hot cold d in
      d'.flags.dont_sleep ≡ (
        if rises 0 d.debounce d'.debounce
        then false
        else if rises 1 d.debounce d'.debounce
        then false
        else d.flags.dont_sleep)
unfolding button_timer_cb
button_timer_cb-dont_sleep hot cold d (sync0, sync1) =
    let status = (debounce (sample_of hot cold) d.debounce).state in
    let h = track_hot status d.counter.status_old in
    rw (is_pulse_hot, is_pulse_cold, h.1, sync0, sync1) refl

-- The rising edges that a list of samples gives, from a state of `debounce` on.
unfoldable pub edges : ℕ → Debounce → List (ℕ × ℕ) → ℕ
edges k s [] = 0
edges k s ((hot, cold) ∷ rest) =
    let s' = debounce (sample_of hot cold) s in (if rises k s s' then 1 else 0) + edges k s' rest

-- `buttonTimer_cb` for each of a list of samples.
unfoldable pub run_ticks : List (ℕ × ℕ) → Device → Device
run_ticks [] d = d
run_ticks ((hot, cold) ∷ rest) d = run_ticks rest (button_timer_cb hot cold d)

count_step :
    (b : Bool) (n m : ℕ) → (count_if b n + m) % 2 ^ 32 ≡ (n + ((if b then 1 else 0) + m)) % 2 ^ 32
count_step b n m = ground arith

-- Over any samples each counter grows by the rising edges of its debounced input, modulo 2^32.
run_ticks-edges :
    (samples : List (ℕ × ℕ)) (d : Device)
    → InSync d
    → let d' = run_ticks samples d in
      InSync d'
      × (d'.counter.counter_hot_water % 2 ^ 32
          ≡ (d.counter.counter_hot_water + edges 0 d.debounce samples) % 2 ^ 32)
      × (d'.counter.counter_cold_water % 2 ^ 32
          ≡ (d.counter.counter_cold_water + edges 1 d.debounce samples) % 2 ^ 32)
      × (d'.config ≡ d.config)
      × (d'.trace ≡ d.trace)
unfolding run_ticks edges button_timer_cb
run_ticks-edges [] d sync = (sync, omega arith, omega arith, refl, refl)
run_ticks-edges ((hot, cold) ∷ rest) d sync =
    let (sync', deb, h, c, cfg, tr) = button_timer_cb-edges hot cold d sync in
    let d' = button_timer_cb hot cold d in
    let (sync2, ihh, ihc, ihcfg, ihtr) = run_ticks-edges rest d' sync' in
    let more = λ (k : ℕ). edges k d'.debounce rest in
    (
      sync2,
      ihh ∙ rw h (count_step (rises 0 d.debounce d'.debounce) d.counter.counter_hot_water (more 0)),
      ihc
          ∙ rw c
              (count_step (rises 1 d.debounce d'.debounce) d.counter.counter_cold_water (more 1)),
      ihcfg,
      ihtr,
    )
