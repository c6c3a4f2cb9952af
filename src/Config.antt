-- ===== src/Config.antt =====
-- include/wm_config.h and the functions of user/wm_config.c that work on a `_config` in memory.
-- A char array of the struct is the list of its bytes. The bools and integers are kept apart from
-- their bytes, which `Config.Layout` writes and reads; `time_zone` is the byte of its sint8.
pub mod Valid
pub mod Settle
pub mod Refuse
pub mod Persist
pub mod Storage
pub mod Layout
pub mod Flash
pub mod Crc
use watermeter.Base.{ℕ, ◌+◌, ◌*◌, ◌-◌, ◌^◌, ◌%◌, Bool, true, false, List, Option, some, none}
use watermeter.Base.{u32, ltb, replicate, if◌then◌else◌}
use watermeter.Base.Text.{Text, codes}
use watermeter.Base.CString.{◌>>=◌, c_string, strcpy}

pub record Config : Type 0 where
  pub web_admin_login : List ℕ
  pub web_admin_password : List ℕ
  pub full_security : Bool
  pub config_security : Bool
  pub sta_ssid : List ℕ
  pub sta_password : List ℕ
  pub ap_mode : Bool
  pub ap_ssid : List ℕ
  pub ap_password : List ℕ
  pub mqtt_broker : List ℕ
  pub mqtt_user : List ℕ
  pub mqtt_password : List ℕ
  pub mqtt_topic : List ℕ
  pub ntp_server_name : List ℕ
  pub time_zone : ℕ
  pub liters_per_pulse : ℕ
  pub hot_time : ℕ
  pub hot_water : ℕ
  pub cold_time : ℕ
  pub cold_water : ℕ

-- `clearConfig`: every byte is 0.
unfoldable pub clear_config : Config
clear_config = record {
  web_admin_login = replicate 16 0;
  web_admin_password = replicate 16 0;
  full_security = false;
  config_security = false;
  sta_ssid = replicate 16 0;
  sta_password = replicate 16 0;
  ap_mode = false;
  ap_ssid = replicate 16 0;
  ap_password = replicate 16 0;
  mqtt_broker = replicate 32 0;
  mqtt_user = replicate 16 0;
  mqtt_password = replicate 16 0;
  mqtt_topic = replicate 64 0;
  ntp_server_name = replicate 32 0;
  time_zone = 0;
  liters_per_pulse = 0;
  hot_time = 0;
  hot_water = 0;
  cold_time = 0;
  cold_water = 0;
}

-- `timeZone * SECS_PER_HOUR` of a sint8, as it enters a sum of uint32_t.
unfoldable pub zone_offset : ℕ → ℕ
zone_offset tz = if ltb tz 128 then tz * 3600 else u32 (2 ^ 32 - (256 - tz) * 3600)

-- `localTimeT`, with the stamp that SNTP answers.
unfoldable pub local_time : ℕ → Config → ℕ
unfolding zone_offset
local_time stamp c = u32 (stamp + zone_offset c.time_zone)

-- `initDefConfig`, run on `wmConfig` itself, whose time zone `localTimeT` reads.
unfoldable pub init_def_config : ℕ → Option Config
unfolding clear_config
init_def_config stamp = do
  let c0 = clear_config
  login ← strcpy c0.web_admin_login (codes "Admin")
  password ← strcpy c0.web_admin_password (codes "1111")
  ap_ssid ← strcpy c0.ap_ssid (codes "WaterMeter_v3.0")
  ap_password ← strcpy c0.ap_password (codes "12345678")
  broker ← strcpy c0.mqtt_broker (codes "192.168.1.1")
  user ← strcpy c0.mqtt_user (codes "test")
  mqtt_password ← strcpy c0.mqtt_password (codes "1111")
  topic ← strcpy c0.mqtt_topic (codes "WaterMeter")
  ntp ← strcpy c0.ntp_server_name (codes "ntp4.stratum2.ru")
  let c1 = record c0 {
    web_admin_login = login;
    web_admin_password = password;
    ap_mode = true;
    ap_ssid = ap_ssid;
    ap_password = ap_password;
    mqtt_broker = broker;
    mqtt_user = user;
    mqtt_password = mqtt_password;
    mqtt_topic = topic;
    ntp_server_name = ntp;
    time_zone = 3;
    liters_per_pulse = 10;
  }
  some (record c1 { hot_time = local_time stamp c1; cold_time = local_time stamp c1 })

-- `os_strcpy(wmConfig.f, config->f)`, into a field that was cleared.
unfoldable pub copy_chars : ℕ → List ℕ → Option (List ℕ)
copy_chars size src = do s ← c_string src; strcpy (replicate size 0) s

-- `setConfig`: `wmConfig` is cleared first, so its old value does not matter.
unfoldable pub set_config : Config → Option Config
unfolding clear_config
set_config c = do
  login ← copy_chars 16 c.web_admin_login
  password ← copy_chars 16 c.web_admin_password
  sta_ssid ← copy_chars 16 c.sta_ssid
  sta_password ← copy_chars 16 c.sta_password
  ap_ssid ← copy_chars 16 c.ap_ssid
  ap_password ← copy_chars 16 c.ap_password
  broker ← copy_chars 32 c.mqtt_broker
  user ← copy_chars 16 c.mqtt_user
  mqtt_password ← copy_chars 16 c.mqtt_password
  topic ← copy_chars 64 c.mqtt_topic
  ntp ← copy_chars 32 c.ntp_server_name
  some (record {
    web_admin_login = login;
    web_admin_password = password;
    full_security = c.full_security;
    config_security = c.config_security;
    sta_ssid = sta_ssid;
    sta_password = sta_password;
    ap_mode = c.ap_mode;
    ap_ssid = ap_ssid;
    ap_password = ap_password;
    mqtt_broker = broker;
    mqtt_user = user;
    mqtt_password = mqtt_password;
    mqtt_topic = topic;
    ntp_server_name = ntp;
    time_zone = c.time_zone;
    liters_per_pulse = c.liters_per_pulse;
    hot_time = c.hot_time;
    hot_water = c.hot_water;
    cold_time = c.cold_time;
    cold_water = c.cold_water;
  })
