-- ===== src/Mqtt.antt =====
-- user/wm_mqtt.c: the callbacks of the MQTT client. Logging is left out, `MQTT_Client` is a library.
pub mod Message
pub mod Topics
pub mod Connect
pub mod Safety
use watermeter.Base.{
  ℕ, suc, ◌+◌, ◌%◌, Bool, true, false, List, [], ◌∷◌, ◌++◌, Option, some, none, not, ◌&&◌,
}
use watermeter.Base.{length, take, drop, ltb, ◌==◌, u32, if◌then◌else◌}
use watermeter.Base.Text.{Text, codes}
use watermeter.Base.CString.{◌>>=◌, c_string, sprintf, strcspn_space, strtoul, contains}
use watermeter.Device.{
  Device, emit, arm, disarm, mqtt_init_timer, mqtt_del_client_timer, mqtt_init_connection,
  mqtt_init_client, mqtt_connect, mqtt_disconnect, mqtt_subscribe, mqtt_delete_client, save_config,
}
use watermeter.Utils.{Mac, get_mac_address}
use watermeter.Main.{print_topic, hot_out, cold_out}

abbrev pub hot_in : Text
hot_in = codes "HotWater/In"

abbrev pub cold_in : Text
cold_in = codes "ColdWater/In"

-- `mqttConnect` and `mqttDisconnect`.
unfoldable pub mqtt_connect_now : Device → Device
mqtt_connect_now d = emit mqtt_connect d

unfoldable pub mqtt_disconnect_now : Device → Device
mqtt_disconnect_now d = emit mqtt_disconnect d

-- The names that the first connection logs are printed into the same block.
unfoldable pub log_topics : Text → Mac → Bool → Option Bool
log_topics topic mac first =
    if first
    then (print_topic topic mac hot_out >>= λ hot.
        print_topic topic mac cold_out >>= λ cold. some false)
    else some first

-- `mqttConnectedCb`, where `allocated` is whether `os_malloc` gave the block.
unfoldable pub mqtt_connected_cb : Bool → Mac → Device → Option Device
mqtt_connected_cb allocated mac d = do
  topic ← c_string d.config.mqtt_topic
  (if allocated
      then (print_topic topic mac hot_in >>= λ hot. print_topic topic mac cold_in >>= λ cold.
          log_topics topic mac d.flags.mqtt_first_start >>= λ first. some (
            emit (mqtt_subscribe cold) (
              emit (mqtt_subscribe hot) (record d {
                flags = record (d.flags) { mqtt_first_start = first; mqtt_connected = true };
              }))))
      else some d)

-- `mqttDisconnectedCb`.
unfoldable pub mqtt_disconnected_cb : Device → Device
mqtt_disconnected_cb d = record d { flags = record (d.flags) { mqtt_connected = false } }

-- A message of `mqttDataCb`: the two numbers, and whether "NEW" stands behind the first.
pub record Reading : Type 0 where
  pub time : ℕ
  pub water : ℕ
  pub is_new : Bool

-- `pos` is a uint8, which is compared with the length of the message.
unfoldable pub parse_reading : Text → Option Reading
parse_reading s =
    let pos = strcspn_space s % 256 in
    let p = drop (suc pos) s in
    if pos == length s
    then none
    else some (record {
      time = strtoul (take pos s);
      water = strtoul p;
      is_new = contains p (codes "NEW");
    })

unfoldable pub apply_hot : Reading → Device → Device
apply_hot r d =
    let take_over = λ (w : ℕ). record d {
      flags = record (d.flags) { save_new_config = true };
      config = record (d.config) { hot_water = w; hot_time = r.time };
    } in
    if r.is_new
    then take_over r.water
    else if ltb d.config.hot_water r.water
    then take_over (u32 (r.water + d.config.liters_per_pulse))
    else d

unfoldable pub apply_cold : Reading → Device → Device
apply_cold r d =
    let take_over = λ (w : ℕ). record d {
      flags = record (d.flags) { save_new_config = true };
      config = record (d.config) { cold_water = w; cold_time = r.time };
    } in
    if r.is_new
    then take_over r.water
    else if ltb d.config.cold_water r.water
    then take_over (u32 (r.water + d.config.liters_per_pulse))
    else d

unfoldable pub apply_reading : Text → Option Reading → Device → Device
apply_reading topic none d = d
apply_reading topic (some r) d =
    if contains topic hot_in
    then apply_hot r d
    else if contains topic cold_in
    then apply_cold r d
    else d

unfoldable pub save_if_new : Device → Device
save_if_new d =
    if d.flags.save_new_config
    then emit (save_config d.config)
        (record d { flags = record (d.flags) { save_new_config = false } })
    else d

-- `mqttDataCb`, with the bytes of topic and data, and whether `os_zalloc` gave the two blocks. A block
-- that it did not give is written to all the same: `none`.
unfoldable pub mqtt_data_cb : Bool → Bool → List ℕ → List ℕ → Device → Option Device
mqtt_data_cb topic_block data_block topic_bytes data_bytes d =
    if topic_block && data_block
    then (c_string (topic_bytes ++ (0 ∷ [])) >>= λ topic.
        c_string (data_bytes ++ (0 ∷ [])) >>= λ message.
        some (save_if_new (apply_reading topic (parse_reading message) d)))
    else none

-- `mqtt_init`; the callbacks that it sets are the functions of this file.
unfoldable pub mqtt_init : Mac → Device → Option Device
mqtt_init mac d = do
  broker ← c_string d.config.mqtt_broker
  client_id ← sprintf 32 (codes "WaterMeter v3.0-" ++ get_mac_address mac)
  user ← c_string d.config.mqtt_user
  password ← c_string d.config.mqtt_password
  some (
      emit (mqtt_init_client client_id user password) (
        emit (mqtt_init_connection broker 1883)
          (record d { flags = record (d.flags) { mqtt_connected = false } })))

-- `mqttInitTimer_cb`, with whether the station has an address.
unfoldable pub mqtt_init_timer_cb : Mac → Bool → Device → Option Device
mqtt_init_timer_cb mac got_ip d = do
  d1 ← mqtt_init mac d
  some (if got_ip then mqtt_connect_now d1 else d1)

unfoldable pub mqtt_del_client_timer_cb : Device → Device
mqtt_del_client_timer_cb d =
    emit (arm mqtt_init_timer 1000 false)
      (emit (disarm mqtt_init_timer) (emit mqtt_delete_client d))

unfoldable pub mqtt_re_init : Device → Device
mqtt_re_init d =
    emit (arm mqtt_del_client_timer 1000 false)
      (emit (disarm mqtt_del_client_timer) (emit mqtt_disconnect d))
