-- ===== src/Power/Wake.antt =====
-- When the device sleeps: a device that was woken up stays awake until a pulse was counted.
use watermeter.Base.{ℕ, ◌≡◌, inl, inr, refl, ◌∙◌, Bool, true, false, ◌&&◌, ◌||◌, not}
use watermeter.Base.{List, [], ◌∷◌, ◌==◌, if◌then◌else◌, Bool-cases, &&-split}
use watermeter.Device.{
  Device, Opmode, null_mode, Action, light_sleep, set_opmode, station_disconnect, mqtt_disconnect,
}
use watermeter.Counter.{button_timer_cb}
use watermeter.Counter.Edges.{rises, InSync, button_timer_cb-edges, button_timer_cb-dont_sleep}
use watermeter.Utils.{wakeup_from_motion, sleep_on_now}
use watermeter.Power.{sleep_timer_cb}

-- What happens to a device: a tick of the button timer, a tick of the sleep timer.
pub data Event : Type 0 where
  button : ℕ → ℕ → Event
  power : ℕ → Opmode → Event

unfoldable pub step : Event → Device → Device
step (button hot cold) d = button_timer_cb hot cold d
step (power bit mode) d = sleep_timer_cb bit mode d

unfoldable pub steps : List Event → Device → Device
steps [] d = d
steps (e ∷ es) d = steps es (step e d)

-- No tick of the button timer counts a pulse.
unfoldable pub counts_none : List Event → Device → Bool
counts_none [] d = true
counts_none (button hot cold ∷ es) d =
    let d' = button_timer_cb hot cold d in
    not (rises 0 d.debounce d'.debounce || rises 1 d.debounce d'.debounce) && counts_none es d'
counts_none (power bit mode ∷ es) d = counts_none es (sleep_timer_cb bit mode d)

awake_tick :
    (hot cold : ℕ) (d : Device)
    → InSync d
    → (not (
        rises 0 d.debounce (button_timer_cb hot cold d).debounce
        || rises 1 d.debounce (button_timer_cb hot cold d).debounce))
      ≡ true
    → (button_timer_cb hot cold d).flags.dont_sleep ≡ d.flags.dont_sleep
awake_tick hot cold d sync quiet =
    go (rises 0 d.debounce (button_timer_cb hot cold d).debounce)
      (rises 1 d.debounce (button_timer_cb hot cold d).debounce) quiet
      (button_timer_cb-dont_sleep hot cold d sync)
  where
    go :
        (a b : Bool) {x y : Bool}
        → not (a || b) ≡ true
        → x ≡ (if a then false else if b then false else y)
        → x ≡ y
    go true b q e = cc
    go false true q e = cc
    go false false q e = e

awake_power :
    (bit : ℕ) (mode : Opmode) (d : Device)
    → d.flags.dont_sleep ≡ true
    → let d' = sleep_timer_cb bit mode d in
      (d'.flags.dont_sleep ≡ true)
      × (d'.trace ≡ d.trace)
      × (d'.debounce ≡ d.debounce)
      × (d'.counter ≡ d.counter)
unfolding sleep_timer_cb
awake_power bit mode d awake = elim (Bool-cases (bit == 0)) [
  | inl low ↦ elim (Bool-cases d.flags.sleep_now) [
    | inl again ↦ rw (low, again, awake) (refl, refl, refl, refl)
    | inr first ↦ rw (low, first, awake) (refl, refl, refl, refl)
  ]
  | inr high ↦ rw high (awake, refl, refl, refl)
]

-- From a device that does not want to sleep, and whose remembered inputs are those that `debounce`
-- accepts: the ticks of the button timer and of the sleep timer, in any order, make no call, whatever the
-- external power does, as long as no pulse is counted, and the device still does not want to sleep
-- then.
pub steps-stay_awake :
    (es : List Event) (d : Device)
    → InSync d
    → d.flags.dont_sleep ≡ true
    → counts_none es d ≡ true
    → ((steps es d).trace ≡ d.trace) × ((steps es d).flags.dont_sleep ≡ true)
unfolding steps step counts_none
steps-stay_awake [] d sync awake quiet = (refl, awake)
steps-stay_awake (button hot cold ∷ es) d sync awake quiet =
    let (still, later) = &&-split quiet in
    let (sync', deb, h, c, cfg, tr) = button_timer_cb-edges hot cold d sync in
    let ih =
      steps-stay_awake es (button_timer_cb hot cold d) sync'
        (awake_tick hot cold d sync still ∙ awake) later in
    (ih.0 ∙ tr, ih.1)
steps-stay_awake (power bit mode ∷ es) d sync awake quiet =
    let (awake', same, deb, counter) = awake_power bit mode d awake in
    let sync' : InSync (sleep_timer_cb bit mode d) =
      (rw (deb, counter) (sync.0), rw (deb, counter) (sync.1)) in
    let ih = steps-stay_awake es (sleep_timer_cb bit mode d) sync' awake' quiet in
    (ih.0 ∙ same, ih.1)

-- MQTT and WiFi are left, then the light sleep.
abbrev pub goes_to_sleep : List Action → List Action
goes_to_sleep before =
    light_sleep ∷ set_opmode null_mode ∷ station_disconnect ∷ mqtt_disconnect ∷ before

sleeps :
    (d : Device)
    → d.flags.dont_sleep ≡ false
    → (sleep_timer_cb 0 null_mode d).trace ≡ goes_to_sleep d.trace
unfolding sleep_timer_cb sleep_on_now
sleeps d may = elim (Bool-cases d.flags.sleep_now) [
  | inl again ↦ rw (again, may) refl
  | inr first ↦ rw (first, may) refl
]

pulse_clears :
    (a b y : Bool) {x : Bool}
    → (a || b) ≡ true
    → x ≡ (if a then false else if b then false else y)
    → x ≡ false
pulse_clears true b y h e = e
pulse_clears false true y h e = e
pulse_clears false false y h e = cc

-- After a tick of the button timer that counted a pulse, a tick of the sleep timer without external
-- power leaves MQTT and the WiFi and, with the WiFi off, makes the call of light sleep; and the wake-up that follows
-- makes the device one that does not want to sleep.
pub sleep_timer_cb-after_pulse :
    (hot cold : ℕ) (d : Device)
    → InSync d
    → let d1 = button_timer_cb hot cold d in
      (rises 0 d.debounce d1.debounce || rises 1 d.debounce d1.debounce) ≡ true
      → let d2 = sleep_timer_cb 0 null_mode d1 in
        (d2.trace ≡ goes_to_sleep d1.trace) × ((wakeup_from_motion d2).flags.dont_sleep ≡ true)
unfolding wakeup_from_motion
sleep_timer_cb-after_pulse hot cold d sync pulse = (
  sleeps (button_timer_cb hot cold d) (
      pulse_clears (rises 0 d.debounce (button_timer_cb hot cold d).debounce)
        (rises 1 d.debounce (button_timer_cb hot cold d).debounce) d.flags.dont_sleep pulse
        (button_timer_cb-dont_sleep hot cold d sync)),
  refl,
)
