-- ===== src/Utils/Status.antt =====
-- `getRssi` and the text of `localUpTime` in user/wm_utils.c.
use watermeter.Base.{
  ℕ, ◌-◌, ◌*◌, ◌/◌, ◌^◌, ◌≤◌, ◌<◌, ◌≡◌, arith, Bool, true, false, [], ◌∷◌, ◌++◌, Option, some,
}
use watermeter.Base.{
  ltb, ◌==◌, if◌then◌else◌, length, length-append, Bool-cases, inl, inr, u32, u32_sub,
}
use watermeter.Base.Text.{Text, codes}
use watermeter.Base.CString.{◌>>=◌, sprintf, decimal}
use watermeter.Base.CString.Decimal.{length-decimal_upper}
use watermeter.Device.{Device}
use watermeter.Utils.{UpTime, up_time}
use watermeter.Utils.Print.{sprintf-fits, parts}

-- `%d` of a number of `w` bits.
unfoldable pub signed_decimal : ℕ → ℕ → Text
signed_decimal w n = if ltb n (2 ^ (w - 1)) then decimal n else 45 ∷ decimal (2 ^ w - n)

-- `getRssi`, of the byte that `wifi_station_get_rssi` answers.
unfoldable pub get_rssi : ℕ → Option Text
get_rssi rssi = sprintf 18 (codes "WiFi: " ++ (signed_decimal 8 rssi ++ codes " dBm"))

-- `%02u`.
unfoldable pub two_digits : ℕ → Text
two_digits n = if ltb n 10 then 48 ∷ decimal n else decimal n

-- The days, and the time.
abbrev up_time_line : Text → UpTime → Text
up_time_line days u =
    days
    ++ (codes " "
        ++ (two_digits u.hours
            ++ (codes ":" ++ (two_digits u.mins ++ (codes ":" ++ two_digits u.secs)))))

-- `localUpTime`, where the days are printed into `tmp[6]` and the whole into `buff[18]`.
unfoldable pub print_up_time : UpTime → Option Text
print_up_time u = do
  days ← (if u.days == 0 then some [] else sprintf 6 (decimal u.days ++ codes "d"))
  sprintf 18 (
      days
      ++ (codes " "
          ++ (two_digits u.hours
              ++ (codes ":" ++ (two_digits u.mins ++ (codes ":" ++ two_digits u.secs))))))

unfoldable pub local_up_time : ℕ → ℕ → Device → Option Text
local_up_time stamp ms d = print_up_time (up_time stamp ms d)

length-signed_decimal : (n : ℕ) → n < 256 → length (signed_decimal 8 n) ≤ 4
unfolding signed_decimal
length-signed_decimal n h = elim (Bool-cases (ltb n 128)) [
  | inl small ↦ rw small (omega (arith, length-decimal_upper 2 n (omega arith)))
  | inr big ↦ rw big (omega (arith, length-decimal_upper 2 (256 - n) (omega arith)))
]

-- The text of the signal strength fits for every byte.
pub get_rssi-fits :
    (rssi : ℕ) → rssi < 256 → (s : Text) × (get_rssi rssi ≡ some s) × (length s < 18)
unfolding get_rssi
get_rssi-fits rssi h =
    let small = length-signed_decimal rssi h in
    let fits : length (codes "WiFi: " ++ (signed_decimal 8 rssi ++ codes " dBm")) < 18 =
      simp (length-append {A = ℕ}) (omega arith) in
    (_, sprintf-fits 18 _ fits, fits)

length-two_digits : (n : ℕ) → n < 100 → length (two_digits n) ≤ 2
unfolding two_digits
length-two_digits n h = elim (Bool-cases (ltb n 10)) [
  | inl small ↦ rw small (omega (arith, length-decimal_upper 0 n (ground arith)))
  | inr big ↦ rw big (length-decimal_upper 1 n (omega arith))
]

-- Whatever the clock answers, the parts of the up time are in range.
up_time-range :
    (stamp ms : ℕ) (d : Device)
    → ms < 2 ^ 32
    → let u = up_time stamp ms d in (u.days < 1000) × (u.hours < 24) × (u.mins < 60) × (u.secs < 60)
unfolding up_time
up_time-range stamp ms d h =
    let milli = if d.flags.first_ntp then ms else u32 (u32_sub stamp d.time_start * 1000) in
    let small : milli < 2 ^ 32 = word d.flags.first_ntp in
    let (sum, hours, mins, secs) = parts (milli / 1000) (omega arith) in
    (omega arith, hours, mins, secs)
  where
    word : (b : Bool) → (if b then ms else u32 (u32_sub stamp d.time_start * 1000)) < 2 ^ 32
    word true = h
    word false = omega arith

print_up_time-fits :
    (u : UpTime)
    → u.days < 1000
    → u.hours < 24
    → u.mins < 60
    → u.secs < 60
    → (s : Text) × (print_up_time u ≡ some s) × (length s < 18)
unfolding print_up_time
print_up_time-fits u hd hh hm hs = elim (Bool-cases (u.days == 0)) [
  | inl none_yet ↦
      let fits = line [] (omega arith) in
      (up_time_line [] u, rw none_yet (sprintf-fits 18 _ fits), fits)
  | inr some_days ↦
      let fits = line (decimal u.days ++ codes "d") day_length in
      (
        up_time_line (decimal u.days ++ codes "d") u,
        rw (some_days, sprintf-fits 6 (decimal u.days ++ codes "d") short) (sprintf-fits 18 _ fits),
        fits,
      )
]
  where
    day_length : length (decimal u.days ++ codes "d") ≤ 5
    day_length = rw length-append (omega (arith, length-decimal_upper 2 u.days (omega arith)))

    short : length (decimal u.days ++ codes "d") < 6
    short = omega (arith, day_length)

    line : (days : Text) → length days ≤ 5 → length (up_time_line days u) < 18
    line days h = simp (length-append {A = ℕ}) (
        omega (
          arith,
          h,
          length-two_digits u.hours (omega arith),
          length-two_digits u.mins (omega arith),
          length-two_digits u.secs (omega arith),
        ))

-- The text of the up time overruns neither `tmp[6]` nor `buff[18]`, whatever the clock answers.
pub local_up_time-fits :
    (stamp ms : ℕ) (d : Device)
    → ms < 2 ^ 32
    → (s : Text) × (local_up_time stamp ms d ≡ some s) × (length s < 18)
unfolding local_up_time
local_up_time-fits stamp ms d h =
    let (days, hours, mins, secs) = up_time-range stamp ms d h in
    print_up_time-fits (up_time stamp ms d) days hours mins secs
