-- ===== src/Utils/Print.antt =====
-- Which of the printed lines fit their buffers.
use watermeter.Base.{ℕ, ◌+◌, ◌-◌, ◌*◌, ◌/◌, ◌%◌, ◌^◌, ◌≤◌, ◌<◌, ◌≡◌, refl, arith, false, ◌++◌}
use watermeter.Base.{
  some, none, length, length-append, length-replicate, lt→ltb, ltb, if◌then◌else◌, u32, u16,
  u32_sub, Option-cases, inl, inr,
}
use watermeter.Base.Text.{Text, codes}
use watermeter.Base.CString.{sprintf, decimal, decimal_padded}
use watermeter.Base.CString.Decimal.{length-decimal_upper, length-decimal_lower}
use watermeter.Device.{Device, emit, show}
use watermeter.Utils.{
  Mac, get_mac_address, get_ip, get_voltage, display_line, display_update, UpTime, up_time,
}

pub length-get_mac_address : (m : Mac) → length (get_mac_address m) ≡ 12
unfolding get_mac_address
length-get_mac_address m = refl

pub sprintf-fits : (size : ℕ) (s : Text) → length s < size → sprintf size s ≡ some s
unfolding sprintf
sprintf-fits size s h = rw (lt→ltb _ _ h)

pub sprintf-overruns : (size : ℕ) (s : Text) → size ≤ length s → sprintf size s ≡ none
unfolding sprintf
sprintf-overruns size s h = let e : ltb (length s) size ≡ false = ground arith in rw e

length-decimal_padded :
    (n : ℕ) → length (decimal_padded n) ≡ (5 - length (decimal n)) + length (decimal n)
unfolding decimal_padded
length-decimal_padded n =
    rw length-append (omega (arith, length-replicate {A = ℕ} (5 - length (decimal n)) 32))

-- A line of the display with a label of five characters fits its eleven bytes exactly below
-- 100,000 cubic metres.
display_line-fits :
    (label : Text) (liters : ℕ)
    → length label ≡ 5
    → (liters < 10 ^ 8 → display_line label liters ≡ some (label ++ decimal_padded (liters / 1000)))
      × (10 ^ 8 ≤ liters → display_line label liters ≡ none)
unfolding display_line
display_line-fits label liters five = (
  λ below. sprintf-fits 11 _ (
      rw length-append (
        omega (
          arith,
          length-decimal_padded (liters / 1000),
          length-decimal_upper 4 (liters / 1000) (omega arith),
        ))),
  λ above. sprintf-overruns 11 _ (
      rw length-append (
        omega (
          arith,
          length-decimal_padded (liters / 1000),
          length-decimal_lower 5 (liters / 1000) (omega arith) (omega arith),
        ))),
)

-- `displayUpdate` shows both readings where they are below 100,000 cubic metres, and else overruns
-- `buf[11]`.
pub display_update-fits :
    (d : Device)
    → (d.config.hot_water < 10 ^ 8
        → d.config.cold_water < 10 ^ 8
        → display_update d
          ≡ some (
              emit
                (show
                  (codes "Hot  " ++ decimal_padded (d.config.hot_water / 1000))
                  (codes "Cold " ++ decimal_padded (d.config.cold_water / 1000)))
                (record d { flags = record (d.flags) { display_write = false } })))
      × (10 ^ 8 ≤ d.config.hot_water → display_update d ≡ none)
      × (10 ^ 8 ≤ d.config.cold_water → display_update d ≡ none)
unfolding display_update
display_update-fits d =
    let hot = display_line-fits (codes "Hot  ") d.config.hot_water refl in
    let cold = display_line-fits (codes "Cold ") d.config.cold_water refl in
    (λ p q. rw (hot.0 p, cold.0 q), λ p. rw (hot.1 p), λ p. second (cold.1 p))
  where
    second : display_line (codes "Cold ") d.config.cold_water ≡ none → display_update d ≡ none
    second e = elim (Option-cases (display_line (codes "Hot  ") d.config.hot_water)) [
      | inl none_hot ↦ rw none_hot
      | inr (shown, some_hot) ↦ rw (some_hot, e)
    ]

length-byte : (b : ℕ) → b < 256 → length (decimal b) ≤ 3
length-byte b h = length-decimal_upper 2 b (omega arith)

-- The dotted address and the voltage of a 10-bit reading fit `buff[18]`.
pub get_ip-fits : (addr : ℕ) → (s : Text) × (get_ip addr ≡ some s)
unfolding get_ip
get_ip-fits addr = (
  _,
  sprintf-fits 18 _ (
      simp (length-append {A = ℕ}) (
        omega (
          arith,
          length-byte (addr % 256) (omega arith),
          length-byte (addr / 256 % 256) (omega arith),
          length-byte (addr / 65536 % 256) (omega arith),
          length-byte (addr / 16777216 % 256) (omega arith),
        ))),
)

pub get_voltage-fits : (vcc : ℕ) → vcc < 2 ^ 16 → (s : Text) × (get_voltage vcc ≡ some s)
unfolding get_voltage
get_voltage-fits vcc h = (
  _,
  sprintf-fits 18 _ (
      simp (length-append {A = ℕ}) (
        omega (
          arith,
          length-decimal_upper 2 (4 * vcc / 1000) (omega arith),
          length-decimal_upper 1 (4 * vcc % 1000 / 10) (omega arith),
        ))),
)

-- The seconds that a printed up time stands for.
abbrev pub total_seconds : UpTime → ℕ
total_seconds u = u.days * 86400 + u.hours * 3600 + u.mins * 60 + u.secs

-- The parts of a time below 50 days do not wrap around.
pub parts :
    (secs : ℕ)
    → secs ≤ 4294967
    → let mins = secs / 60 in
      let hours = u16 (mins / 60) in
      let h = u16 (hours + 2 ^ 16 - u16 (hours / 24 * 24)) in
      let m = u32_sub mins (hours * 60) in
      let s = u32_sub secs (u32 (mins * 60)) in
      (hours / 24 * 86400 + h * 3600 + m * 60 + s ≡ secs) × (h < 24) × (m < 60) × (s < 60)
parts secs short = (omega arith, omega arith, omega arith, omega arith)

-- Once the time is known, and for up to 4294967 seconds (49 days), the up time is the time since
-- the start, cut into days, hours, minutes and seconds.
up_time-exact :
    (stamp ms : ℕ) (d : Device)
    → d.flags.first_ntp ≡ false
    → stamp < 2 ^ 32
    → d.time_start ≤ stamp
    → stamp - d.time_start ≤ 4294967
    → let u = up_time stamp ms d in
      (total_seconds u ≡ stamp - d.time_start) × (u.hours < 24) × (u.mins < 60) × (u.secs < 60)
unfolding up_time
up_time-exact stamp ms d known small after short =
    let e : (if d.flags.first_ntp then ms else u32 (u32_sub stamp d.time_start * 1000))
        ≡ 1000 * (stamp - d.time_start) =
      rw known (omega arith) in
    let seconds : 1000 * (stamp - d.time_start) / 1000 ≡ stamp - d.time_start = omega arith in
    rw (e, seconds) (parts (stamp - d.time_start) short)
