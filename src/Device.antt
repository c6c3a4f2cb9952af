-- ===== src/Device.antt =====
-- The globals of user/user_main.c that the callbacks share, and the calls that leave the firmware.
-- A callback is a function of the `Device`; the calls that it makes to the SDK, to the MQTT client and
-- to the storage of `Config.Storage` are recorded in `trace`, newest first.
use watermeter.Base.{ℕ, Bool, List, ◌∷◌}
use watermeter.Base.Text.{Text}
use watermeter.Config.{Config}

pub record Flags : Type 0 where
  pub reboot_now : Bool
  pub restart_wifi : Bool
  pub sleep_now : Bool
  pub dont_sleep : Bool
  pub power_low : Bool
  pub ap_mode_now : Bool
  pub sta_mode_now : Bool
  pub sta_ap_mode_now : Bool
  pub sta_configure : Bool
  pub default_config : Bool
  pub save_new_config : Bool
  pub first_start : Bool
  pub response_ntp : Bool
  pub mqtt_restart : Bool
  pub mqtt_first_start : Bool
  pub mqtt_connected : Bool
  pub subs_hot_water : Bool
  pub subs_cold_water : Bool
  pub first_ntp : Bool
  pub sd_ok : Bool
  pub display_write : Bool

-- `_waterCounter`.
pub record WaterCounter : Type 0 where
  pub status : ℕ
  pub status_old : ℕ
  pub counter_hot_water : ℕ
  pub counter_cold_water : ℕ

-- The static variables of `debounce`.
pub record Debounce : Type 0 where
  pub state : ℕ
  pub cnt0 : ℕ
  pub cnt1 : ℕ

pub data Timer : Type 0 where
  button_timer sleep_timer main_timer sta_timer sntp_timer : Timer
  mqtt_del_client_timer mqtt_init_timer reset_timer : Timer

-- The modes of `wifi_set_opmode_current`.
pub data Opmode : Type 0 where
  null_mode station_mode softap_mode stationap_mode : Opmode

pub data Action : Type 0 where
  -- user/wm_config.c, of which `Config.Storage` is the model.
  save_config : Config → Action
  remove_config : Action
  -- `mkDir` of the configuration's directory.
  make_dir : Action
  -- The MQTT client.
  mqtt_init_connection : Text → ℕ → Action
  mqtt_init_client : Text → Text → Text → Action
  mqtt_connect : Action
  mqtt_disconnect : Action
  mqtt_publish : Text → Text → Action
  mqtt_subscribe : Text → Action
  mqtt_delete_client : Action
  -- The display: the two lines that are printed.
  show : Text → Text → Action
  -- Timers: the period in milliseconds, and whether it repeats.
  arm : Timer → ℕ → Bool → Action
  disarm : Timer → Action
  -- WiFi.
  station_disconnect : Action
  station_connect : Action
  set_phy_11g : Action
  set_opmode : Opmode → Action
  set_softap_config : Text → Text → ℕ → Action
  set_station_config : Text → Text → Action
  clear_station_config : Action
  clear_softap_default : Action
  clear_station_default : Action
  set_hostname : Text → Action
  dhcpc_start : Action
  dhcpc_stop : Action
  register_wifi_events : Action
  station_scan : Text → Action
  light_sleep : Action
  fpm_close : Action
  -- SNTP.
  sntp_init : Action
  sntp_stop : Action
  sntp_set_server : Text → Action
  -- The system.
  system_restart : Action
  http_listen : ℕ → Action

pub record Device : Type 0 where
  pub flags : Flags
  pub config : Config
  pub counter : WaterCounter
  pub debounce : Debounce
  pub time_start : ℕ
  pub trace : List Action

-- A call.
abbrev pub emit : Action → Device → Device
emit a d = record d { trace = a ∷ d.trace }
