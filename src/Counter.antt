-- ===== src/Counter.antt =====
-- The pulse counters of user/user_main.c: `debounce` and `buttonTimer_cb`.
pub mod Lane
pub mod Edges
use watermeter.Base.{
  ℕ, ◌+◌, ◌*◌, ◌-◌, Bool, true, false, bit_and, bit_or, bit_xor, u32, u8_not, ◌==◌, if◌then◌else◌,
}
use watermeter.Device.{Debounce, WaterCounter, Device}

-- `debounce`: two bits for each input count the samples that differ from the accepted state.
unfoldable pub debounce : ℕ → Debounce → Debounce
debounce sample s =
    let delta = bit_xor sample s.state in
    let cnt1 = bit_and (bit_xor s.cnt1 s.cnt0) delta in
    let cnt0 = bit_and (u8_not s.cnt0) delta in
    record { state = bit_xor s.state (bit_and cnt0 cnt1); cnt0 = cnt0; cnt1 = cnt1 }

-- `static uint8 state = 0xFF, cnt0, cnt1`.
abbrev pub debounce_start : Debounce
debounce_start = record { state = 0xff; cnt0 = 0; cnt1 = 0 }

-- The part of `buttonTimer_cb` for bit 0x01: the new `status_old`, whether a pulse was counted.
unfoldable pub track : ℕ → ℕ → ℕ → ℕ
track mask status old =
    if bit_and status mask == 0
    then (if bit_and old mask == 0 then old else bit_and old (u8_not mask))
    else (if bit_and old mask == 0 then bit_or old mask else old)

unfoldable pub is_pulse : ℕ → ℕ → ℕ → Bool
is_pulse mask status old = if bit_and status mask == 0 then false else bit_and old mask == 0

abbrev pub count_if : Bool → ℕ → ℕ
count_if pulse n = if pulse then u32 (n + 1) else n

-- `buttonTimer_cb`, with what `gpio_read` answers for the two pins.
unfoldable pub button_timer_cb : ℕ → ℕ → Device → Device
button_timer_cb bit_hot bit_cold d =
    let sample = bit_or (bit_or 0 bit_hot) (bit_cold * 2) in
    let deb = debounce sample d.debounce in
    let status = deb.state in
    let old = d.counter.status_old in
    let hot = is_pulse 0x01 status old in
    let old1 = track 0x01 status old in
    let cold = is_pulse 0x02 status old1 in
    let old2 = track 0x02 status old1 in
    record d {
      debounce = deb;
      counter = record {
        status = status;
        status_old = old2;
        counter_hot_water = count_if hot d.counter.counter_hot_water;
        counter_cold_water = count_if cold d.counter.counter_cold_water;
      };
      flags = record (d.flags) {
        dont_sleep = if hot then false else if cold then false else d.flags.dont_sleep;
      };
    }
