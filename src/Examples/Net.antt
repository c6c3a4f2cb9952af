-- ===== src/Examples/Net.antt =====
-- MQTT and the WiFi on the sample device.
use watermeter.Base.{◌<◌, ◌≤◌, ◌≡◌, refl, true, false, [], ◌∷◌, ◌++◌, some, arith}
use watermeter.Base.{All, if◌then◌else◌}
use watermeter.Base.Text.{Text, codes}
use watermeter.Base.CString.{c_string, sprintf, decimal, print_digits, contains}
use watermeter.Base.CString.Chars.{IsNonzero, has_no_nul-All}
use watermeter.Device.{
  Device, emit, mqtt_subscribe, arm, disarm, sta_timer, station_scan, mqtt_disconnect, station_mode,
}
use watermeter.Main.{print_reading}
use watermeter.Mqtt.{
  mqtt_data_cb, mqtt_connected_cb, parse_reading, hot_in, cold_in, Reading, apply_reading,
  apply_hot, apply_cold,
}
use watermeter.Mqtt.Message.{
  mqtt_data_cb-print_reading_new, mqtt_data_cb-print_reading_plain, saved_as, with_hot, with_cold,
}
use watermeter.Mqtt.Safety.{mqtt_data_cb-Heard, Heard, is_new_message}
use watermeter.Mqtt.Connect.{full_topic, mqtt_connected_cb-subscribes}
use watermeter.Wifi.{
  start_wifi_ap, start_wifi_sta, disconnected, other_event, wants_scan, sta_timer_cb,
}
use watermeter.Wifi.Modes.{HasWifi, Started, ap_calls, sta_calls, start_wifi-Started}
use watermeter.Wifi.Search.{
  wifi_events, all_silent, wifi_events-one_search, scan_mode, sta_timer_cb-rearms,
}
use watermeter.Examples.{sample_device, sample_config, sample_mac}

abbrev topic : Text
topic = codes "/t/m/HotWater/In"

topic-IsNonzero : All IsNonzero topic
topic-IsNonzero = has_no_nul-All topic refl

payload : print_reading 1600000200 20000 (codes " NEW") ≡ some (codes "1600000200 20000 NEW")
unfolding print_reading sprintf decimal print_digits
payload = refl

plain : print_reading 1600000200 20000 [] ≡ some (codes "1600000200 20000")
unfolding print_reading sprintf decimal print_digits
plain = refl

mqtt_data_cb-print_reading_new_example :
    (contains topic hot_in ≡ true
      → mqtt_data_cb true true topic (codes "1600000200 20000 NEW") sample_device
        ≡ some (saved_as (with_hot 1600000200 20000 sample_config) sample_device))
    × (contains topic hot_in ≡ false
        → contains topic cold_in ≡ true
        → mqtt_data_cb true true topic (codes "1600000200 20000 NEW") sample_device
          ≡ some (saved_as (with_cold 1600000200 20000 sample_config) sample_device))
mqtt_data_cb-print_reading_new_example =
    mqtt_data_cb-print_reading_new topic 1600000200 20000 (codes "1600000200 20000 NEW")
      sample_device topic-IsNonzero (omega arith) (omega arith) payload

mqtt_data_cb-print_reading_plain_example :
    (contains topic hot_in ≡ true
      → (12340 < 20000
          → mqtt_data_cb true true topic (codes "1600000200 20000") sample_device
            ≡ some (saved_as (with_hot 1600000200 20010 sample_config) sample_device))
        × (20000 ≤ 12340
            → mqtt_data_cb true true topic (codes "1600000200 20000") sample_device
              ≡ some sample_device))
    × (contains topic hot_in ≡ false
        → contains topic cold_in ≡ true
        → (56780 < 20000
            → mqtt_data_cb true true topic (codes "1600000200 20000") sample_device
              ≡ some (saved_as (with_cold 1600000200 20010 sample_config) sample_device))
          × (20000 ≤ 56780
              → mqtt_data_cb true true topic (codes "1600000200 20000") sample_device
                ≡ some sample_device))
mqtt_data_cb-print_reading_plain_example =
    mqtt_data_cb-print_reading_plain topic 1600000200 20000 (codes "1600000200 20000") sample_device
      topic-IsNonzero (omega arith) (omega arith) refl plain

mqtt_data_cb-Heard_example :
    (d' : Device) × (mqtt_data_cb true true topic (codes "5 60000") sample_device ≡ some d')
    × ((message : Text) × (c_string (codes "5 60000" ++ (0 ∷ [])) ≡ some message)
        × Heard (is_new_message (parse_reading message)) sample_device d')
mqtt_data_cb-Heard_example = mqtt_data_cb-Heard topic (codes "5 60000") sample_device refl

topic_read : c_string sample_config.mqtt_topic ≡ some (codes "WaterMeter")
unfolding c_string
topic_read = refl

mqtt_connected_cb-subscribes_example :
    let hot = full_topic (codes "WaterMeter") sample_mac hot_in in
    let cold = full_topic (codes "WaterMeter") sample_mac cold_in in
    (mqtt_connected_cb true sample_mac sample_device
      ≡ some (
          emit (mqtt_subscribe cold) (
            emit (mqtt_subscribe hot) (record sample_device {
              flags = record (sample_device.flags) {
                mqtt_first_start = false;
                mqtt_connected = true;
              };
            }))))
    × (contains hot hot_in ≡ true)
    × (contains cold cold_in ≡ true)
    × (contains cold hot_in ≡ contains (codes "WaterMeter") hot_in)
    × ((r : Reading) (n : Device)
        → (apply_reading hot (some r) n ≡ apply_hot r n)
          × (apply_reading cold (some r) n
              ≡ (if contains (codes "WaterMeter") hot_in then apply_hot r n else apply_cold r n)))
mqtt_connected_cb-subscribes_example =
    mqtt_connected_cb-subscribes (codes "WaterMeter") sample_mac sample_device topic_read
      (omega arith, omega arith, omega arith, omega arith, omega arith, omega arith)

sample-HasWifi : HasWifi sample_config
unfolding c_string
sample-HasWifi = record {
  ap_ssid = codes "WaterMeter_v3.0";
  ap_password = codes "12345678";
  sta_ssid = codes "Home";
  sta_password = codes "secret";
  ap_ssid_read = refl;
  ap_password_read = refl;
  sta_ssid_read = refl;
  sta_password_read = refl;
}

start_wifi-Started_example :
    ((d' : Device) × (start_wifi_ap sample_device ≡ some d')
      × Started true false false
          (ap_calls (codes "WaterMeter_v3.0") (codes "12345678"))
          sample_device
          d')
    × ((d' : Device) × (start_wifi_sta true sample_mac sample_device ≡ some d')
        × Started false true false (sta_calls (codes "Home") (codes "secret")) sample_device d')
unfolding sample-HasWifi
start_wifi-Started_example = start_wifi-Started sample_mac sample_device sample-HasWifi

two_silent : all_silent (disconnected ∷ other_event ∷ []) ≡ true
unfolding all_silent
two_silent = refl

wifi_events-one_search_example :
    wifi_events (disconnected ∷ disconnected ∷ other_event ∷ []) (false, sample_device) ≡ (
      true,
      record sample_device {
        trace = arm sta_timer 5000 false ∷ disarm sta_timer ∷ mqtt_disconnect ∷ [];
      },
    )
wifi_events-one_search_example =
    wifi_events-one_search (disconnected ∷ other_event ∷ []) sample_device two_silent

sta_timer_cb-rearms_example :
    (d1 d' : Device) × (scan_mode false (emit (disarm sta_timer) sample_device) ≡ some d1)
    × (sta_timer_cb station_mode false sample_device ≡ some d')
    × (d'.trace
        ≡ arm sta_timer 30000 false
          ∷ (if wants_scan false d1 then station_scan (codes "Home") ∷ d1.trace else d1.trace))
unfolding sample-HasWifi
sta_timer_cb-rearms_example = sta_timer_cb-rearms station_mode false sample_device sample-HasWifi
