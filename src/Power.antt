-- ===== src/Power.antt =====
-- The part of user/user_main.c that watches the external power: `sleepTimer_cb` and `sleepTimerOn`.
pub mod Wake
use watermeter.Base.{ℕ, Bool, true, false, ◌==◌, if◌then◌else◌}
use watermeter.Device.{Device, Opmode, emit, arm, disarm, sleep_timer}
use watermeter.Utils.{sleep_on_now}

-- `sleepTimer_cb`, with what `gpio_read` answers for the pin of the external power, and the mode that
-- `wifi_get_opmode` answers in `sleepOnNow`.
unfoldable pub sleep_timer_cb : ℕ → Opmode → Device → Device
sleep_timer_cb power mode d =
    if power == 0
    then (let d1 = record d { flags = record (d.flags) { power_low = true; sleep_now = true } } in
        if d.flags.sleep_now
        then (if d.flags.dont_sleep then d1 else sleep_on_now mode d1)
        else (if d.flags.dont_sleep then d1 else sleep_on_now mode d1))
    else record d { flags = record (d.flags) { power_low = false; sleep_now = false } }

-- `sleepTimerOn`, where SLEEP_MODE_ON is true.
unfoldable pub sleep_timer_on : Device → Device
sleep_timer_on d = emit (arm sleep_timer 2000 true) (emit (disarm sleep_timer) d)
