-- ===== src/Web/Template.antt =====
-- `tplToken` of user/wm_web.c: what a page shows for a name in its template. The answers of the SDK are
-- arguments.
use watermeter.Base.{ℕ, ◌/◌, ◌%◌, Bool, not, List, [], ◌∷◌, Option, some, none}
use watermeter.Base.{if◌then◌else◌}
use watermeter.Base.Text.{Text, codes}
use watermeter.Base.CString.{◌>>=◌, c_string, sprintf, decimal, str_eq}
use watermeter.Device.{Device}
use watermeter.Utils.{get_voltage}
use watermeter.Utils.Status.{get_rssi, local_up_time, signed_decimal}

pub data Token : Type 0 where
  first_name last_name platform module_name version heap uptime volt rssi local_clock : Token
  admin_login admin_password wifi_ap_name wifi_ap_password wifi_sta_name wifi_sta_password : Token
  shown_mqtt_user shown_mqtt_password shown_mqtt_broker shown_mqtt_topic ntp_server : Token
  shown_full_security shown_config_security wifi_sta_mode wifi_ap_mode : Token
  shown_time_zone shown_hot_water shown_cold_water shown_liters_per_pulse : Token
  hot_whole hot_fract cold_whole cold_fract upg_file : Token

-- The names, in the order of the source.
abbrev pub tokens : List (Text × Token)
tokens =
    (codes "firstname", first_name)
    ∷ (codes "lastname", last_name)
    ∷ (codes "platform", platform)
    ∷ (codes "modulename", module_name)
    ∷ (codes "version", version)
    ∷ (codes "heap", heap)
    ∷ (codes "uptime", uptime)
    ∷ (codes "volt", volt)
    ∷ (codes "rssi", rssi)
    ∷ (codes "localtime", local_clock)
    ∷ (codes "adminlogin", admin_login)
    ∷ (codes "adminpassword", admin_password)
    ∷ (codes "fullsecurity", shown_full_security)
    ∷ (codes "configsecurity", shown_config_security)
    ∷ (codes "wifistamode", wifi_sta_mode)
    ∷ (codes "wifiapmode", wifi_ap_mode)
    ∷ (codes "wifiapname", wifi_ap_name)
    ∷ (codes "wifiappassword", wifi_ap_password)
    ∷ (codes "wifistaname", wifi_sta_name)
    ∷ (codes "wifistapassword", wifi_sta_password)
    ∷ (codes "mqttuser", shown_mqtt_user)
    ∷ (codes "mqttpassword", shown_mqtt_password)
    ∷ (codes "mqttbroker", shown_mqtt_broker)
    ∷ (codes "mqtttopic", shown_mqtt_topic)
    ∷ (codes "ntpserver", ntp_server)
    ∷ (codes "timezone", shown_time_zone)
    ∷ (codes "hotwater", shown_hot_water)
    ∷ (codes "coldwater", shown_cold_water)
    ∷ (codes "litersperpulse", shown_liters_per_pulse)
    ∷ (codes "hotwhole", hot_whole)
    ∷ (codes "hotfract", hot_fract)
    ∷ (codes "coldwhole", cold_whole)
    ∷ (codes "coldfract", cold_fract)
    ∷ (codes "upgfile", upg_file)
    ∷ []

unfoldable pub find_token : List (Text × Token) → Text → Option Token
find_token [] s = none
find_token ((name, token) ∷ more) s =
    let rest = find_token more s in if str_eq s name then some token else rest

-- What the calls answer.
pub record Answers : Type 0 where
  pub heap_size : ℕ
  pub stamp : ℕ
  pub ms : ℕ
  pub vcc : ℕ
  pub signal : ℕ
  pub real_time : Text
  pub user1 : Bool

-- `os_strcpy` and `os_sprintf` into `buff[128]`.
abbrev pub put : Text → Option Text
put s = sprintf 128 s

abbrev pub put_array : List ℕ → Option Text
put_array a = c_string a >>= λ s. put s

abbrev pub checked : Bool → Option Text
checked on = some (if on then codes "checked" else codes "Unknown")

unfoldable pub tpl_text : Answers → Device → Token → Option Text
tpl_text a d first_name = put (codes "Water")
tpl_text a d last_name = put (codes "Meter")
tpl_text a d platform = put (codes "Wemos D1 mini & Micro SD")
tpl_text a d module_name = put (codes "WaterMeter v3.0")
tpl_text a d version = put (codes "WaterMeter v3.0")
tpl_text a d heap = put (signed_decimal 32 a.heap_size)
tpl_text a d uptime = local_up_time a.stamp a.ms d >>= λ s. put s
tpl_text a d volt = get_voltage a.vcc >>= λ s. put s
tpl_text a d rssi = get_rssi a.signal >>= λ s. put s
tpl_text a d local_clock = put a.real_time
tpl_text a d admin_login = put_array d.config.web_admin_login
tpl_text a d admin_password = put_array d.config.web_admin_password
tpl_text a d wifi_ap_name = put_array d.config.ap_ssid
tpl_text a d wifi_ap_password = put_array d.config.ap_password
tpl_text a d wifi_sta_name = put_array d.config.sta_ssid
tpl_text a d wifi_sta_password = put_array d.config.sta_password
tpl_text a d shown_mqtt_user = put_array d.config.mqtt_user
tpl_text a d shown_mqtt_password = put_array d.config.mqtt_password
tpl_text a d shown_mqtt_broker = put_array d.config.mqtt_broker
tpl_text a d shown_mqtt_topic = put_array d.config.mqtt_topic
tpl_text a d ntp_server = put_array d.config.ntp_server_name
tpl_text a d shown_full_security = checked d.config.full_security
tpl_text a d shown_config_security = checked d.config.config_security
tpl_text a d wifi_sta_mode = checked (not d.config.ap_mode)
tpl_text a d wifi_ap_mode = checked d.config.ap_mode
tpl_text a d shown_time_zone = put (signed_decimal 8 d.config.time_zone)
tpl_text a d shown_hot_water = put (decimal d.config.hot_water)
tpl_text a d shown_cold_water = put (decimal d.config.cold_water)
tpl_text a d shown_liters_per_pulse = put (decimal d.config.liters_per_pulse)
tpl_text a d hot_whole = put (decimal (d.config.hot_water / 1000))
tpl_text a d hot_fract = put (decimal (d.config.hot_water % 1000))
tpl_text a d cold_whole = put (decimal (d.config.cold_water / 1000))
tpl_text a d cold_fract = put (decimal (d.config.cold_water % 1000))
tpl_text a d upg_file = put (if a.user1 then codes "user1.bin" else codes "user2.bin")

abbrev pub tpl_found : Answers → Device → Option Token → Option Text
tpl_found a d none = some (codes "Unknown")
tpl_found a d (some token) = tpl_text a d token

-- `tplToken`: the text that is sent.
unfoldable pub tpl_token : Answers → Device → Text → Option Text
tpl_token a d name = tpl_found a d (find_token tokens name)
