-- ===== src/Utils.antt =====
-- user/wm_utils.c: what the firmware prints, its clocks, and light sleep. Logging and delays are
-- left out. What the SDK answers is an argument.
pub mod Print
pub mod Status
pub mod InitData
use watermeter.Base.{
  ℕ, ◌+◌, ◌-◌, ◌*◌, ◌/◌, ◌%◌, ◌^◌, Bool, true, false, List, [], ◌∷◌, ◌++◌, Option, some, none,
}
use watermeter.Base.{ltb, ◌==◌, u32, u16, u32_sub, if◌then◌else◌}
use watermeter.Base.Text.{Text, codes}
use watermeter.Base.CString.{◌>>=◌, sprintf, decimal, decimal_padded}
use watermeter.Config.{Config, zone_offset}
use watermeter.Device.{
  Device, emit, Opmode, null_mode, sntp_timer, show, arm, disarm, mqtt_disconnect,
  station_disconnect, set_opmode, light_sleep, fpm_close, sntp_init, sntp_stop,
}

-- `%02X` of a byte.
abbrev pub hex_digit : ℕ → ℕ
hex_digit n = if ltb n 10 then 48 + n else 55 + n

abbrev pub hex2 : ℕ → Text
hex2 b = hex_digit (b / 16) ∷ hex_digit (b % 16) ∷ []

-- The six bytes that `wifi_get_macaddr` answers.
pub record Mac : Type 0 where
  pub m0 : ℕ
  pub m1 : ℕ
  pub m2 : ℕ
  pub m3 : ℕ
  pub m4 : ℕ
  pub m5 : ℕ

-- `getMacAddress`, into the static `buff[18]`: thirteen bytes with the NUL.
unfoldable pub get_mac_address : Mac → Text
get_mac_address m =
    hex2 m.m0 ++ (hex2 m.m1 ++ (hex2 m.m2 ++ (hex2 m.m3 ++ (hex2 m.m4 ++ hex2 m.m5))))

-- `getIP`, into `buff[18]`.
unfoldable pub get_ip : ℕ → Option Text
get_ip addr = sprintf 18 (
    decimal (addr % 256)
    ++ (codes "."
        ++ (decimal (addr / 256 % 256)
            ++ (codes "."
                ++ (decimal (addr / 65536 % 256)
                    ++ (codes "." ++ decimal (addr / 16777216 % 256)))))))

-- `getVoltage`, into `buff[18]`. `4200 / 1024` is an integer division, done first.
unfoldable pub get_voltage : ℕ → Option Text
get_voltage vcc = sprintf 18 (
    codes "Battery: "
    ++ (decimal (4200 / 1024 * vcc / 1000)
        ++ (codes "," ++ (decimal (4200 / 1024 * vcc % 1000 / 10) ++ codes "V"))))

-- One line of `displayUpdate`, in its `buf[11]`.
unfoldable pub display_line : Text → ℕ → Option Text
display_line label liters = sprintf 11 (label ++ decimal_padded (liters / 1000))

-- `displayUpdate`. `show` stands for clearing, printing both lines and sending the buffer.
unfoldable pub display_update : Device → Option Device
display_update d = do
  hot ← display_line (codes "Hot  ") d.config.hot_water
  cold ← display_line (codes "Cold ") d.config.cold_water
  some (emit (show hot cold) (record d { flags = record (d.flags) { display_write = false } }))

unfoldable pub set_time_start : ℕ → Device → Device
set_time_start ts d = record d { time_start = ts }

-- The fields of `localUpTime`; `stamp` is `sntp_get_current_timestamp()`, `ms` is `milliss()`.
pub record UpTime : Type 0 where
  pub days : ℕ
  pub hours : ℕ
  pub mins : ℕ
  pub secs : ℕ

unfoldable pub up_time : ℕ → ℕ → Device → UpTime
up_time stamp ms d =
    let milli = if d.flags.first_ntp then ms else u32 (u32_sub stamp d.time_start * 1000) in
    let secs = milli / 1000 in
    let mins = secs / 60 in
    let hours = u16 (mins / 60) in
    let days = hours / 24 in
    record {
      days = days;
      hours = u16 (hours + 2 ^ 16 - u16 (days * 24));
      mins = u32_sub mins (hours * 60);
      secs = u32_sub secs (u32 (mins * 60));
    }

-- `wakeupFromMotion`.
unfoldable pub wakeup_from_motion : Device → Device
wakeup_from_motion d =
    emit fpm_close (record d { flags = record (d.flags) { sleep_now = false; dont_sleep = true } })

abbrev pub is_null_mode : Opmode → Bool
is_null_mode null_mode = true
is_null_mode _ = false

-- `sleepOnNow`, with the mode that `wifi_get_opmode` answers. `light_sleep` stands for the calls
-- that enable the two wake-up pins, open the FPM and sleep with `wakeupFromMotion` as callback.
unfoldable pub sleep_on_now : Opmode → Device → Device
sleep_on_now mode d =
    let d1 = emit mqtt_disconnect d in
    let d2 = record d1 {
      flags = record (d.flags) {
        ap_mode_now = false;
        sta_mode_now = false;
        sta_ap_mode_now = false;
      };
    } in
    let d3 = emit (set_opmode null_mode) (emit station_disconnect d2) in
    if is_null_mode mode then emit light_sleep d3 else d3

-- `check_sntp_stamp_cb`, with the stamp and the answer of `sntp_set_timezone`.
unfoldable pub check_sntp_stamp_cb : ℕ → Bool → Device → Device
check_sntp_stamp_cb stamp zone_set d =
    if stamp == 0
    then (let d1 = emit sntp_stop d in
        let d2 = if zone_set then emit sntp_init d1 else d1 in
        emit (arm sntp_timer 1000 false) (emit (disarm sntp_timer) d2))
    else emit (disarm sntp_timer) (record d { flags = record (d.flags) { response_ntp = true } })

-- `startSNTP`.
unfoldable pub start_sntp : Device → Device
start_sntp d = emit (arm sntp_timer 1000 false) (emit (disarm sntp_timer) d)
