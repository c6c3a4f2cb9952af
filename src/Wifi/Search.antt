-- ===== src/Wifi/Search.antt =====
-- How the station looks for its network again.
use watermeter.Base.{◌≡◌, refl, ap, Bool, true, false, not, ◌&&◌, ◌||◌, List, [], ◌∷◌, Option, some}
use watermeter.Base.{if◌then◌else◌, Bool-cases, inl, inr}
use watermeter.Base.CString.{c_string}
use watermeter.Device.{Device, emit, Opmode, arm, disarm, sta_timer, station_scan, mqtt_disconnect}
use watermeter.Mqtt.{mqtt_disconnect_now}
use watermeter.Wifi.{
  WifiEvent, connected, got_ip, disconnected, other_event, wifi_event_cb, wants_scan, sta_timer_cb,
  start_wifi_sta_ap, is_softap_mode,
}
use watermeter.Wifi.Modes.{HasWifi}

scan_table :
    (s p a c ap sta ip : Bool)
    → (not s && (not p && (not a && (c && (ap || sta && not ip || not ap && not sta)))))
      ≡ (not s && not p && not a && c && not (sta && not ap && ip))
scan_table true p a c ap sta ip = refl
scan_table false true a c ap sta ip = refl
scan_table false false true c ap sta ip = refl
scan_table false false false false ap sta ip = refl
scan_table false false false true true true ip = refl
scan_table false false false true true false ip = refl
scan_table false false false true false true true = refl
scan_table false false false true false true false = refl
scan_table false false false true false false ip = refl

-- The three cases in the test of `staTimer_cb` come to one: a configured device that is awake, has
-- power and may use the station scans, unless it is in station mode only and has an address.
wants_scan_iff :
    (ip : Bool) (d : Device)
    → wants_scan ip d ≡ (
        not d.flags.sleep_now
        && not d.flags.power_low
        && not d.config.ap_mode
        && d.flags.sta_configure
        && not (d.flags.sta_mode_now && not d.flags.ap_mode_now && ip))
unfolding wants_scan
wants_scan_iff ip d =
    scan_table d.flags.sleep_now d.flags.power_low d.config.ap_mode d.flags.sta_configure
      d.flags.ap_mode_now d.flags.sta_mode_now ip

unfoldable pub wifi_events : List WifiEvent → Bool × Device → Bool × Device
wifi_events [] s = s
wifi_events (e ∷ es) (timer_on, d) = wifi_events es (wifi_event_cb e timer_on d)

-- The station neither connects nor gets an address.
abbrev pub is_silent : WifiEvent → Bool
is_silent disconnected = true
is_silent other_event = true
is_silent _ = false

unfoldable pub all_silent : List WifiEvent → Bool
all_silent [] = true
all_silent (e ∷ es) = is_silent e && all_silent es

silent :
    (es : List WifiEvent) (d : Device) → all_silent es ≡ true → wifi_events es (true, d) ≡ (true, d)
unfolding wifi_events all_silent wifi_event_cb
silent [] d h = refl
silent (connected ∷ es) d h = cc
silent (got_ip ∷ es) d h = cc
silent (disconnected ∷ es) d h = silent es d h
silent (other_event ∷ es) d h = silent es d h

-- A loss of the network starts one search, however often it is reported until the station connects: MQTT is
-- left and the timer of the search is started, once.
pub wifi_events-one_search :
    (es : List WifiEvent) (d : Device)
    → all_silent es ≡ true
    → wifi_events (disconnected ∷ es) (false, d) ≡ (
      true,
      record d { trace = arm sta_timer 5000 false ∷ disarm sta_timer ∷ mqtt_disconnect ∷ d.trace },
    )
unfolding wifi_events wifi_event_cb mqtt_disconnect_now
wifi_events-one_search es d h = silent es _ h

start_wifi_sta_ap-Returns :
    (d : Device)
    → HasWifi d.config
    → (d' : Device) × (start_wifi_sta_ap d ≡ some d') × (d'.config ≡ d.config)
unfolding start_wifi_sta_ap
start_wifi_sta_ap-Returns d w = rw (w.ap_ssid_read, w.ap_password_read) (_, refl, refl)

-- The first part of `staTimer_cb`: the mode in which it can scan.
abbrev pub scan_mode : Bool → Device → Option Device
scan_mode already d = if already then some d else start_wifi_sta_ap d

scan_mode-Returns :
    (already : Bool) (d : Device)
    → HasWifi d.config
    → (d' : Device) × (scan_mode already d ≡ some d') × (d'.config ≡ d.config)
scan_mode-Returns true d w = (d, refl, refl)
scan_mode-Returns false d w = start_wifi_sta_ap-Returns d w

-- The search goes on: each run of its timer ends without an overrun, and starts the timer again, after
-- 5 seconds where the mode is that of an access point, and after 30 seconds otherwise; and it scans
-- for the configured network where the mode is another and `wants_scan` holds, by then.
pub sta_timer_cb-rearms :
    (mode : Opmode) (ip : Bool) (d : Device)
    → (w : HasWifi d.config)
    → (d1 d' : Device) × (scan_mode d.flags.sta_ap_mode_now (emit (disarm sta_timer) d) ≡ some d1)
      × (sta_timer_cb mode ip d ≡ some d')
      × (d'.trace
          ≡ arm sta_timer (if is_softap_mode mode then 5000 else 30000) false
            ∷ (if not (is_softap_mode mode) && wants_scan ip d1
                then station_scan w.sta_ssid ∷ d1.trace
                else d1.trace))
unfolding sta_timer_cb
sta_timer_cb-rearms mode ip d w =
    let (d1, started, same) =
      scan_mode-Returns d.flags.sta_ap_mode_now (emit (disarm sta_timer) d) w in
    let read : c_string d1.config.sta_ssid ≡ some w.sta_ssid = rw same w.sta_ssid_read in
    elim (Bool-cases (is_softap_mode mode)) [
      | inl softap ↦ (
        d1,
        emit (arm sta_timer 5000 false) d1,
        started,
        rw (started, softap) refl,
        rw softap refl,
      )
      | inr other ↦ elim (Bool-cases (wants_scan ip d1)) [
        | inl scans ↦ (
          d1,
          emit (arm sta_timer 30000 false) (emit (station_scan w.sta_ssid) d1),
          started,
          rw (started, other, read, scans) refl,
          rw (other, scans) refl,
        )
        | inr waits ↦ (
          d1,
          emit (arm sta_timer 30000 false) d1,
          started,
          rw (started, other, read, waits) refl,
          rw (other, waits) refl,
        )
      ]
    ]
