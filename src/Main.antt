-- ===== src/Main.antt =====
-- `mainTimer_cb` of user/user_main.c.
pub mod Flow
pub mod Blocks
pub mod Run
pub mod Total
pub mod Quiet
pub mod Saved
pub mod Readings
pub mod System
pub mod Offline
use watermeter.Base.{ℕ, ◌+◌, ◌*◌, Bool, true, false, ◌&&◌, List, [], ◌∷◌, ◌++◌, Option, some, none}
use watermeter.Base.{length, ◌==◌, u32, if◌then◌else◌}
use watermeter.Base.Text.{Text, codes}
use watermeter.Base.CString.{◌>>=◌, c_string, sprintf, decimal}
use watermeter.Config.{Config, local_time}
use watermeter.Device.{Device, emit, main_timer, arm, disarm, mqtt_publish, save_config}
use watermeter.Utils.{Mac, get_mac_address, display_update, set_time_start}

-- What the calls of one run answer.
pub record Answers : Type 0 where
  pub mac : Mac
  -- `sntp_get_current_timestamp()`, at each of its three calls.
  pub stamp_hot : ℕ
  pub stamp_cold : ℕ
  pub stamp_start : ℕ
  -- Whether `os_malloc` gave a topic, at each of its four calls.
  pub topic_hot : Bool
  pub topic_cold : Bool
  pub topic_new_hot : Bool
  pub topic_new_cold : Bool
  -- Whether `mqttPublish` took the message.
  pub published_hot : Bool
  pub published_cold : Bool

-- `os_sprintf(topic, "/%s/%s/%s", ...)` into a block of `strlen(mqttTopic) + SIZE_END_TOPIC` bytes.
unfoldable pub print_topic : Text → Mac → Text → Option Text
print_topic topic mac ending =
    sprintf (length topic + 32)
      (codes "/" ++ (topic ++ (codes "/" ++ (get_mac_address mac ++ (codes "/" ++ ending)))))

abbrev pub hot_out : Text
hot_out = codes "HotWater/Out"

abbrev pub cold_out : Text
cold_out = codes "ColdWater/Out"

-- `os_sprintf(buff, "%lu %lu", ...)` into `buff[32]`, with what follows the numbers.
unfoldable pub print_reading : ℕ → ℕ → Text → Option Text
print_reading time water suffix =
    sprintf 32 (decimal time ++ (codes " " ++ (decimal water ++ suffix)))

-- The end of a counter's block: publish, or save where nobody took the message.
unfoldable pub report : Bool → Bool → Text → Mac → Text → ℕ → ℕ → Device → Option Device
report allocated published topic mac ending time water d =
    if allocated
    then (print_reading time water [] >>= λ payload. print_topic topic mac ending >>= λ full. some (
        if d.flags.mqtt_connected
        then (let d1 = emit (mqtt_publish full payload) d in
            if published then d1 else emit (save_config d.config) d1)
        else emit (save_config d.config) d))
    else some (emit (save_config d.config) d)

-- If the counter of hot water was added to.
unfoldable pub main_hot : Answers → Device → Option Device
main_hot a d =
    if d.counter.counter_hot_water == 0
    then some d
    else c_string d.config.mqtt_topic >>= λ topic.
        let time = local_time a.stamp_hot d.config in
        let water =
          u32
            (d.config.hot_water + u32 (d.counter.counter_hot_water * d.config.liters_per_pulse)) in
        report a.topic_hot a.published_hot topic a.mac hot_out time water (record d {
          flags = record (d.flags) { display_write = true };
          config = record (d.config) { hot_time = time; hot_water = water };
          counter = record (d.counter) { counter_hot_water = 0 };
        })

-- If the counter of cold water was added to.
unfoldable pub main_cold : Answers → Device → Option Device
main_cold a d =
    if d.counter.counter_cold_water == 0
    then some d
    else c_string d.config.mqtt_topic >>= λ topic.
        let time = local_time a.stamp_cold d.config in
        let water =
          u32 (
            d.config.cold_water + u32 (d.counter.counter_cold_water * d.config.liters_per_pulse)) in
        report a.topic_cold a.published_cold topic a.mac cold_out time water (record d {
          flags = record (d.flags) { display_write = true };
          config = record (d.config) { cold_time = time; cold_water = water };
          counter = record (d.counter) { counter_cold_water = 0 };
        })

-- The end of the two blocks for a counter that was reconfigured; `d` has its flag cleared.
unfoldable pub announce : Text → Mac → Text → ℕ → ℕ → Device → Option Device
announce topic mac ending time water d = do
  payload ← print_reading time water (codes " NEW")
  full ← print_topic topic mac ending
  some (if d.flags.mqtt_connected then emit (mqtt_publish full payload) d else d)

abbrev pub redraw : Device → Device
redraw d = record d { flags = record (d.flags) { display_write = true } }

unfoldable pub main_new_hot : Answers → Device → Option Device
main_new_hot a d =
    if d.flags.subs_hot_water
    then (c_string d.config.mqtt_topic >>= λ topic.
        if a.topic_new_hot
        then announce topic a.mac hot_out d.config.hot_time d.config.hot_water
            (record d { flags = record (d.flags) { display_write = true; subs_hot_water = false } })
        else some (redraw d))
    else some d

unfoldable pub main_new_cold : Answers → Device → Option Device
main_new_cold a d =
    if d.flags.subs_cold_water
    then (c_string d.config.mqtt_topic >>= λ topic.
        if a.topic_new_cold
        then announce topic a.mac cold_out d.config.cold_time d.config.cold_water (record d {
          flags = record (d.flags) { display_write = true; subs_cold_water = false };
        })
        else some (redraw d))
    else some d

-- The display, the start time from the first answer of SNTP, and the timer for the next run.
unfoldable pub main_end : Answers → Device → Option Device
main_end a d = do
  d1 ← (if d.flags.display_write then display_update d else some d)
  let d2 =
      if d1.flags.first_ntp && d1.flags.response_ntp
      then set_time_start a.stamp_start
          (record d1 { flags = record (d1.flags) { first_ntp = false } })
      else d1
  some (emit (arm main_timer 250 false) d2)

-- `mainTimer_cb`; `none` is an overrun of a buffer.
unfoldable pub main_timer_cb : Answers → Device → Option Device
main_timer_cb a d = do
  d1 ← main_hot a (emit (disarm main_timer) d)
  d2 ← main_cold a d1
  d3 ← main_new_hot a d2
  d4 ← main_new_cold a d3
  main_end a d4
