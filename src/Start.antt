-- ===== src/Start.antt =====
-- The start of the firmware in user/user_main.c: `user_init`, `setup_cb` and
-- `user_rf_cal_sector_set`. The set-up of pins, buses and the display is left out.
pub mod Init
pub mod Setup
pub mod Trace
pub mod Restart
use watermeter.Base.{ℕ, ◌-◌, Bool, true, false, not, ◌||◌, List, [], ◌∷◌, Option, some, none}
use watermeter.Base.{get_or, ◌==◌, if◌then◌else◌}
use watermeter.Base.Text.{Text}
use watermeter.Base.CString.{◌>>=◌, c_string}
use watermeter.Config.{Config, init_def_config}
use watermeter.Config.Flash.{SpiFlash}
use watermeter.Config.Storage.{FatLibrary, Media, Loaded, read_config}
use watermeter.Device.{
  Device, Flags, emit, arm, disarm, button_timer, main_timer, make_dir, http_listen, system_restart,
  Action, sntp_set_server, sntp_init,
}
use watermeter.Counter.{debounce_start}
use watermeter.Utils.{Mac, display_update}
use watermeter.Utils.InitData.{set107init_data_bin}
use watermeter.Mqtt.{mqtt_init}
use watermeter.Wifi.{set_null_wifi_config_default, start_wifi_ap, start_wifi_sta}

-- The flags of `user_init`, after `initDefConfig` and `sd_init`.
abbrev pub first_flags : Bool → Flags
first_flags sd_found = record {
  reboot_now = false;
  restart_wifi = false;
  sleep_now = false;
  dont_sleep = false;
  power_low = false;
  ap_mode_now = true;
  sta_mode_now = false;
  sta_ap_mode_now = false;
  sta_configure = false;
  default_config = false;
  save_new_config = false;
  first_start = false;
  response_ntp = false;
  mqtt_restart = false;
  mqtt_first_start = true;
  mqtt_connected = false;
  subs_hot_water = false;
  subs_cold_water = false;
  first_ntp = true;
  sd_ok = sd_found;
  display_write = false;
}

module _ (spi : SpiFlash) (fat : FatLibrary) where
  -- The end of `user_init`: nothing read makes it a first start.
  abbrev pub after_read : Loaded spi fat → Device → Device
  after_read l d =
      let d1 = record d {
        config = l.config;
        flags = record (d.flags) { sta_configure = l.sta_configure };
      } in
      if l.ok
      then d1
      else (let d2 = record d1 { flags = record (d1.flags) { first_start = true } } in
          if d2.flags.sd_ok then emit make_dir d2 else d2)

  -- `user_init` behind `set107init_data_bin`, whose calls are in `trace`.
  unfoldable pub init_rest : ℕ → ℕ → Bool → List Action → Media spi fat → Option Device
  init_rest rtc stamp allocated trace m = do
    c ← init_def_config stamp
    l ← read_config spi fat allocated false c m
    some (
        after_read l (record {
          flags = first_flags m.sd_ok;
          config = c;
          counter = record {
            status = 3;
            status_old = 3;
            counter_hot_water = 0;
            counter_cold_water = 0;
          };
          debounce = debounce_start;
          time_start = rtc;
          trace = arm button_timer 50 true ∷ disarm button_timer ∷ trace;
        }))

  -- `user_init`, with the time of the RTC, the stamp of the clock, whether the blocks for the initial
  -- data and for reading were given, and the media as `sd_init` found them.
  unfoldable pub user_init : ℕ → ℕ → Bool → Bool → Media spi fat → Option Device
  user_init rtc stamp data_allocated allocated m =
      let (restart, flash) = set107init_data_bin spi data_allocated m.flash in
      init_rest rtc stamp allocated (if restart then system_restart ∷ [] else [])
        (record m { flash = flash })

-- The mode that `setup_cb` starts in; `staSsid[0] == '0'` compares with the digit.
unfoldable pub start_mode : Bool → Mac → Device → Option Device
start_mode allocated mac d =
    if d.flags.first_start || d.config.ap_mode || get_or d.config.sta_ssid 0 0 == 48
    then (if d.flags.sleep_now then some d else start_wifi_ap d)
    else (if d.flags.sleep_now then some d else start_wifi_sta allocated mac d)

-- The web server, the main timer and SNTP.
abbrev pub with_services : Text → Device → Device
with_services server d =
    let d2 =
      emit (http_listen 80) (record d { flags = record (d.flags) { mqtt_first_start = true } }) in
    let d3 = emit (arm main_timer 250 false) (emit (disarm main_timer) d2) in
    emit sntp_init (emit (sntp_set_server server) d3)

unfoldable pub start_services : Mac → Device → Option Device
start_services mac d = do
  server ← c_string d.config.ntp_server_name
  d1 ← mqtt_init mac (with_services server d)
  display_update d1

-- `setup_cb`, with the first bytes of what the SDK has stored.
unfoldable pub setup_cb : ℕ → ℕ → ℕ → ℕ → Bool → Mac → Device → Option Device
setup_cb ap_ssid ap_password sta_ssid sta_password allocated mac d = do
  d1 ←
      start_mode allocated mac
        (set_null_wifi_config_default ap_ssid ap_password sta_ssid sta_password d)
  start_services mac d1

-- `enum flash_size_map`, as far as the code tells its members apart.
pub data FlashSizeMap : Type 0 where
  map_4m_256_256 map_8m_512_512 map_16m_512_512 map_16m_1024_1024 : FlashSizeMap
  map_32m_512_512 map_32m_1024_1024 other_map : FlashSizeMap

-- `user_rf_cal_sector_set`.
unfoldable pub user_rf_cal_sector_set : FlashSizeMap → ℕ
user_rf_cal_sector_set map_4m_256_256 = 128 - 8
user_rf_cal_sector_set map_8m_512_512 = 256 - 5
user_rf_cal_sector_set map_16m_512_512 = 512 - 5
user_rf_cal_sector_set map_16m_1024_1024 = 512 - 5
user_rf_cal_sector_set map_32m_512_512 = 1024 - 5
user_rf_cal_sector_set map_32m_1024_1024 = 1024 - 5
user_rf_cal_sector_set other_map = 0
