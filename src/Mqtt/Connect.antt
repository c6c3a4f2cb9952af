-- ===== src/Mqtt/Connect.antt =====
-- The topics that `mqttConnectedCb` subscribes to, and that `mqttDataCb` tells apart.
use watermeter.Base.{ℕ, ◌+◌, ◌<◌, ◌≡◌, refl, arith, Bool, true, false, length, length-append}
use watermeter.Base.{◌++◌, some}
use watermeter.Base.Text.{Text, codes}
use watermeter.Base.{if◌then◌else◌}
use watermeter.Base.CString.{c_string, contains}
use watermeter.Device.{Device, emit, mqtt_subscribe}
use watermeter.Utils.{Mac, get_mac_address}
use watermeter.Utils.Print.{sprintf-fits, length-get_mac_address}
use watermeter.Main.{print_topic, hot_out, cold_out}
use watermeter.Mqtt.{
  mqtt_connected_cb, log_topics, hot_in, cold_in, Reading, apply_reading, apply_hot, apply_cold,
}
use watermeter.Mqtt.Topics.{IsMac, contains_self, contains-append, contains-cold_topic}

-- The name of a topic of this device.
abbrev pub full_topic : Text → Mac → Text → Text
full_topic topic mac ending =
    codes "/" ++ (topic ++ (codes "/" ++ (get_mac_address mac ++ (codes "/" ++ ending))))

print_topic-fits :
    (topic : Text) (mac : Mac) (ending : Text)
    → length ending < 17
    → print_topic topic mac ending ≡ some (full_topic topic mac ending)
unfolding print_topic
print_topic-fits topic mac ending h =
    sprintf-fits (length topic + 32) _
      (simp (length-append {A = ℕ}) (omega (arith, length-get_mac_address mac)))

contains-full_topic :
    (topic : Text) (mac : Mac) (ending : Text)
    → contains (full_topic topic mac ending) ending ≡ true
contains-full_topic topic mac ending = contains-append (codes "/") _ ending (
    contains-append topic _ ending (
      contains-append (codes "/") _ ending (
        contains-append (get_mac_address mac) _ ending
          (contains-append (codes "/") ending ending (contains_self ending)))))

log_topics-false :
    (topic : Text) (mac : Mac) (first : Bool) → log_topics topic mac first ≡ some false
unfolding log_topics
log_topics-false topic mac true =
    rw
      (
        print_topic-fits topic mac hot_out (omega arith),
        print_topic-fits topic mac cold_out (omega arith),
      )
      refl
log_topics-false topic mac false = refl

-- Once connected, and given a block for the names, the device, whose address has six bytes, subscribes to
-- the two topics of its counters, and no name overruns the block. `mqttDataCb` takes a message under the
-- one for the hot counter, and under the other for the cold counter where the topic of the settings
-- has no "HotWater/In" in it; where it has, both are taken for the hot counter.
pub mqtt_connected_cb-subscribes :
    (topic : Text) (mac : Mac) (d : Device)
    → c_string d.config.mqtt_topic ≡ some topic
    → IsMac mac
    → let hot = full_topic topic mac hot_in in
      let cold = full_topic topic mac cold_in in
      (mqtt_connected_cb true mac d
        ≡ some (
            emit (mqtt_subscribe cold) (
              emit (mqtt_subscribe hot) (record d {
                flags = record (d.flags) { mqtt_first_start = false; mqtt_connected = true };
              }))))
      × (contains hot hot_in ≡ true)
      × (contains cold cold_in ≡ true)
      × (contains cold hot_in ≡ contains topic hot_in)
      × ((r : Reading) (n : Device)
          → (apply_reading hot (some r) n ≡ apply_hot r n)
            × (apply_reading cold (some r) n
                ≡ (if contains topic hot_in then apply_hot r n else apply_cold r n)))
unfolding mqtt_connected_cb apply_reading
mqtt_connected_cb-subscribes topic mac d read m = (
  rw
      (
        read,
        print_topic-fits topic mac hot_in (omega arith),
        print_topic-fits topic mac cold_in (omega arith),
        log_topics-false topic mac d.flags.mqtt_first_start,
      )
      refl,
  contains-full_topic topic mac hot_in,
  contains-full_topic topic mac cold_in,
  contains-cold_topic topic mac m,
  λ r n. (
    rw (contains-full_topic topic mac hot_in) refl,
    rw (contains-cold_topic topic mac m, contains-full_topic topic mac cold_in) refl,
  ),
)
