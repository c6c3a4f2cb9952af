-- ===== src/Wifi.antt =====
-- user/wm_wifi.c: the three modes of the WiFi, and the events of the station. The structs of the SDK
-- are cleared or filled from the configuration, whose fields are smaller than theirs (16 bytes against
-- 32 and 64), so that a call is recorded with the texts that it passes. Logging is left out.
pub mod Modes
pub mod Search
use watermeter.Base.{
  ℕ, ◌+◌, Bool, true, false, not, ◌&&◌, ◌||◌, List, [], ◌∷◌, ◌++◌, Option, some, none,
}
use watermeter.Base.{length, take, get_or, ◌==◌, if◌then◌else◌}
use watermeter.Base.Text.{Text, codes}
use watermeter.Base.CString.{◌>>=◌, c_string, sprintf}
use watermeter.Device.{
  Device, emit, arm, disarm, sta_timer, Opmode, null_mode, station_mode, softap_mode,
  stationap_mode, station_disconnect, station_connect, set_phy_11g, set_opmode, set_softap_config,
  set_station_config, clear_station_config, clear_softap_default, clear_station_default,
  set_hostname, dhcpc_start, dhcpc_stop, register_wifi_events, station_scan,
}
use watermeter.Utils.{Mac, get_mac_address, start_sntp}
use watermeter.Mqtt.{mqtt_connect_now, mqtt_disconnect_now}
use watermeter.Power.{sleep_timer_on}

abbrev pub set_modes : Bool → Bool → Bool → Device → Device
set_modes ap sta both d = record d {
  flags = record (d.flags) {
    restart_wifi = false;
    ap_mode_now = ap;
    sta_mode_now = sta;
    sta_ap_mode_now = both;
  };
}

-- `startWiFiSTA_AP`.
unfoldable pub start_wifi_sta_ap : Device → Option Device
start_wifi_sta_ap d = do
  ssid ← c_string d.config.ap_ssid
  password ← c_string d.config.ap_password
  let d1 = record d { flags = record (d.flags) { sta_ap_mode_now = true } }
  let d2 = emit set_phy_11g (emit station_disconnect d1)
  let d3 =
      emit (set_softap_config ssid password (length ssid)) (emit (set_opmode stationap_mode) d2)
  some (emit station_connect (emit dhcpc_start (emit clear_station_config d3)))

-- `startWiFiAP`.
unfoldable pub start_wifi_ap : Device → Option Device
start_wifi_ap d = do
  ssid ← c_string d.config.ap_ssid
  password ← c_string d.config.ap_password
  let d1 = emit set_phy_11g (emit station_disconnect (emit (disarm sta_timer) d))
  let d2 = emit (set_opmode softap_mode) (emit (set_softap_config ssid password (length ssid)) d1)
  let d3 = emit station_connect (emit dhcpc_start d2)
  some (set_modes true false false d3)

-- The name of the station, cut to 32 characters, in a block of
-- `strlen(wmConfig.apSsid) + strlen(mac) + 3` bytes.
unfoldable pub host_name : Text → Mac → Option Text
host_name ssid mac = do
  name ←
      sprintf (length ssid + length (get_mac_address mac) + 3)
        (ssid ++ (codes "-" ++ get_mac_address mac))
  some (take 32 name)

-- `startWiFiSTA`, with whether `os_malloc` gave the block.
unfoldable pub start_wifi_sta : Bool → Mac → Device → Option Device
start_wifi_sta allocated mac d = do
  ap_ssid ← c_string d.config.ap_ssid
  let d1 = emit set_phy_11g (emit dhcpc_stop (emit station_disconnect d))
  let d2 = emit (set_opmode station_mode) d1
  (if allocated
      then (host_name ap_ssid mac >>= λ name. c_string d.config.sta_ssid >>= λ ssid.
          c_string d.config.sta_password >>= λ password.
          let d3 =
            emit (disarm sta_timer)
              (record d2 { flags = record (d2.flags) { sta_configure = true } }) in
          let d4 = emit (set_station_config ssid password) (emit (set_hostname name) d3) in
          let d5 = emit register_wifi_events (emit dhcpc_start (emit station_connect d4)) in
          some (sleep_timer_on (set_modes false true false d5)))
      else some d2)

-- `wifi_scan_done`: with whether the scan went well, and found a network.
unfoldable pub wifi_scan_done : Bool → Bool → Bool → Mac → Device → Option Device
wifi_scan_done ok found allocated mac d =
    if ok && found then start_wifi_sta allocated mac (emit (disarm sta_timer) d) else some d

-- The test of `staTimer_cb` for a scan, with whether the station has an address.
unfoldable pub wants_scan : Bool → Device → Bool
wants_scan got_ip d =
    not d.flags.sleep_now
    && (not d.flags.power_low
        && (not d.config.ap_mode
            && (d.flags.sta_configure
                && (d.flags.ap_mode_now
                    || d.flags.sta_mode_now && not got_ip
                    || not d.flags.ap_mode_now && not d.flags.sta_mode_now))))

abbrev pub is_softap_mode : Opmode → Bool
is_softap_mode softap_mode = true
is_softap_mode _ = false

-- `staTimer_cb`, with the answers of `wifi_get_opmode` and `wifi_station_get_connect_status`.
unfoldable pub sta_timer_cb : Opmode → Bool → Device → Option Device
sta_timer_cb mode got_ip d = do
  let d1 = emit (disarm sta_timer) d
  d2 ← (if d1.flags.sta_ap_mode_now then some d1 else start_wifi_sta_ap d1)
  (if is_softap_mode mode
      then some (emit (arm sta_timer 5000 false) d2)
      else (c_string d2.config.sta_ssid >>= λ ssid.
          let d3 = if wants_scan got_ip d2 then emit (station_scan ssid) d2 else d2 in
          some (emit (arm sta_timer 30000 false) d3)))

-- The events that `wifi_event_cb` handles.
pub data WifiEvent : Type 0 where
  connected got_ip disconnected other_event : WifiEvent

-- `wifi_event_cb`, whose static `timerOn` is the first component.
unfoldable pub wifi_event_cb : WifiEvent → Bool → Device → Bool × Device
wifi_event_cb connected timer_on d = (false, d)
wifi_event_cb got_ip timer_on d = (false, sleep_timer_on (mqtt_connect_now (start_sntp d)))
wifi_event_cb disconnected true d = (true, d)
wifi_event_cb disconnected false d =
    (true, emit (arm sta_timer 5000 false) (emit (disarm sta_timer) (mqtt_disconnect_now d)))
wifi_event_cb other_event timer_on d = (timer_on, d)

-- The first bytes of the two fields of a struct of the SDK.
abbrev pub is_set : ℕ → ℕ → Bool
is_set ssid password = not (ssid == 0) || not (password == 0)

-- `setNullWiFiConfigDefault`, with the first bytes of what the SDK has stored.
unfoldable pub set_null_wifi_config_default : ℕ → ℕ → ℕ → ℕ → Device → Device
set_null_wifi_config_default ap_ssid ap_password sta_ssid sta_password d =
    let d1 = emit station_disconnect d in
    let d2 = if is_set ap_ssid ap_password then emit clear_softap_default d1 else d1 in
    if is_set sta_ssid sta_password then emit clear_station_default d2 else d2
