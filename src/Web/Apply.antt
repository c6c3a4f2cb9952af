-- ===== src/Web/Apply.antt =====
-- The end of `htmlSettings`: what the form changes.
use watermeter.Base.{ℕ, Bool, true, false, not, ◌||◌, List, Option, some, none}
use watermeter.Base.{get_or, ◌==◌, if◌then◌else◌}
use watermeter.Base.Text.{Text}
use watermeter.Base.CString.{◌>>=◌, c_string, str_eq}
use watermeter.Config.{Config, init_def_config, set_config}
use watermeter.Device.{Device, emit, remove_config, save_config, make_dir, system_restart}
use watermeter.Utils.{Mac}
use watermeter.Mqtt.{mqtt_re_init}
use watermeter.Wifi.{start_wifi_ap, start_wifi_sta}
use watermeter.Web.Form.{read_form}

abbrev pub bool_differs : Bool → Bool → Bool
bool_differs true b = not b
bool_differs false b = b

-- `strcmp(a, b) != 0` on two arrays.
unfoldable pub str_differs : List ℕ → List ℕ → Option Bool
str_differs a b = do s ← c_string a; t ← c_string b; some (not (str_eq s t))

-- `||`, whose right side is read only where the left is false.
infixr 3 ◌or_else◌
abbrev pub ◌or_else◌ : Option Bool → Option Bool → Option Bool
none or_else q = none
some true or_else q = some true
some false or_else q = q

-- The tests of the form against `wmConfig`, in the order of the source.
unfoldable pub web_changed : Config → Config → Option Bool
web_changed old new =
    str_differs old.web_admin_login new.web_admin_login
    or_else str_differs old.web_admin_password new.web_admin_password
    or_else some (bool_differs old.full_security new.full_security)
    or_else some (bool_differs old.config_security new.config_security)

unfoldable pub ap_changed : Config → Config → Option Bool
ap_changed old new =
    some (not new.ap_mode)
    or_else str_differs old.ap_ssid new.ap_ssid
    or_else str_differs old.ap_password new.ap_password

unfoldable pub sta_changed : Config → Config → Option Bool
sta_changed old new =
    some new.ap_mode
    or_else str_differs old.sta_ssid new.sta_ssid
    or_else str_differs old.sta_password new.sta_password

unfoldable pub ntp_changed : Config → Config → Option Bool
ntp_changed old new =
    str_differs old.ntp_server_name new.ntp_server_name
    or_else some (not (old.time_zone == new.time_zone))

unfoldable pub mqtt_changed : Config → Config → Option Bool
mqtt_changed old new =
    str_differs old.mqtt_broker new.mqtt_broker
    or_else str_differs old.mqtt_user new.mqtt_user
    or_else str_differs old.mqtt_password new.mqtt_password
    or_else str_differs old.mqtt_topic new.mqtt_topic

-- `if (test) { ... newSave = true; }`, with `newSave` as the first component.
unfoldable pub mark : Bool → (Device → Device) → Bool × Device → Bool × Device
mark true f (new_save, d) = (true, f d)
mark false f s = s

-- The tests that set `newSave`.
unfoldable pub compare : Config → Bool × Device → Option (Bool × Device)
compare new (new_save, d) = do
  let old = d.config
  web ← web_changed old new
  ap ← (if d.flags.ap_mode_now then ap_changed old new else some false)
  sta ← (if d.flags.sta_mode_now then sta_changed old new else some false)
  ntp ← ntp_changed old new
  mqtt ← mqtt_changed old new
  let s1 = mark web (λ d. d) (new_save, d)
  let s2 = mark ap (λ d. record d { flags = record (d.flags) { restart_wifi = true } }) s1
  let s3 =
      mark sta
        (λ d. record d { flags = record (d.flags) { restart_wifi = true; sta_configure = true } })
        s2
  let s4 = mark ntp (λ d. record d { flags = record (d.flags) { response_ntp = false } }) s3
  let s5 = mark mqtt (λ d. record d { flags = record (d.flags) { mqtt_restart = true } }) s4
  let s6 =
      mark (not (old.hot_water == new.hot_water))
        (λ d. record d { flags = record (d.flags) { subs_hot_water = true } }) s5
  some (
      mark (not (old.cold_water == new.cold_water))
        (λ d. record d { flags = record (d.flags) { subs_cold_water = true } }) s6)

unfoldable pub store : Config → Bool → Device → Option Device
store new false d = some d
store new true d = do
  c ← set_config new
  some (
      emit (save_config c)
        (record d { config = c; flags = record (d.flags) { first_start = false } }))

-- `wmConfig.staSsid[0] == '0'` compares with the digit.
unfoldable pub restart_wifi : Bool → Mac → Device → Option Device
restart_wifi allocated mac d =
    if d.flags.restart_wifi
    then (if d.config.ap_mode || get_or d.config.sta_ssid 0 0 == 48
        then start_wifi_ap (record d { flags = record (d.flags) { sta_configure = false } })
        else start_wifi_sta allocated mac d)
    else some d

unfoldable pub restart_mqtt : Device → Device
restart_mqtt d =
    if d.flags.mqtt_restart
    then mqtt_re_init (record d { flags = record (d.flags) { mqtt_restart = false } })
    else d

-- `if (saveNewConfig)`.
unfoldable pub save_form : Bool → Mac → Config → Device → Option Device
save_form allocated mac new d =
    if d.flags.save_new_config
    then (compare new (false, d) >>= λ s. store new s.0 s.1 >>= λ d1.
        restart_wifi allocated mac d1 >>= λ d2.
        let d3 = restart_mqtt d2 in
        some (record d3 { flags = record (d3.flags) { save_new_config = false } }))
    else some d

abbrev pub reboot : Device → Device
reboot d = if d.flags.reboot_now then emit system_restart d else d

-- `if (defaultConfig)`; `initDefConfig` also clears `staConfigure`.
unfoldable pub reset_to_default : ℕ → Device → Option Device
reset_to_default stamp d = do
  let d1 = emit remove_config (record d { flags = record (d.flags) { default_config = false } })
  let d2 = reboot d1
  c ← init_def_config stamp
  let d3 = record d2 {
    config = c;
    flags = record (d2.flags) { first_start = true; sta_configure = false };
  }
  let d4 = if d3.flags.sd_ok then emit make_dir d3 else d3
  start_wifi_ap d4

-- `htmlSettings`, with the stamp of the clock, whether `os_malloc` gave the block for the name of the
-- station, and the arguments, `none` for a request without them.
unfoldable pub html_settings : ℕ → Bool → Mac → Option Text → Device → Option Device
html_settings stamp allocated mac none d = some d
html_settings stamp allocated mac (some args) d = do
  f ← read_form stamp args d
  let d1 = record d {
    flags = record (d.flags) {
      reboot_now = f.reboot_now;
      default_config = f.default_config;
      save_new_config = f.save_new_config;
    };
  }
  (if d1.flags.default_config
      then reset_to_default stamp d1
      else (save_form allocated mac f.config d1 >>= λ d2. some (reboot d2)))
