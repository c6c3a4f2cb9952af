-- ===== src/Config/Valid.antt =====
-- What a `_config` means: the strings of its char arrays beside its other members.
use watermeter.Base.{
  ℕ, ◌≡◌, refl, Bool, true, false, List, some, [], arith, replicate, u32, ◌+◌, ◌*◌,
}
use watermeter.Base.{length-replicate}
use watermeter.Base.Text.{Text, codes}
use watermeter.Base.CString.{c_string, strcpy}
use watermeter.Base.CString.Chars.{Holds, c_string_sound, strcpy-Holds}
use watermeter.Config.{Config, copy_chars, set_config, init_def_config, local_time}

pub record View : Type 0 where
  pub web_admin_login : Text
  pub web_admin_password : Text
  pub full_security : Bool
  pub config_security : Bool
  pub sta_ssid : Text
  pub sta_password : Text
  pub ap_mode : Bool
  pub ap_ssid : Text
  pub ap_password : Text
  pub mqtt_broker : Text
  pub mqtt_user : Text
  pub mqtt_password : Text
  pub mqtt_topic : Text
  pub ntp_server_name : Text
  pub time_zone : ℕ
  pub liters_per_pulse : ℕ
  pub hot_time : ℕ
  pub hot_water : ℕ
  pub cold_time : ℕ
  pub cold_water : ℕ

-- Every array has its size and ends in time, and the members are those of the view.
pub record Represents (c : Config) (v : View) : Type 0 where
  pub web_admin_login : Holds 16 c.web_admin_login v.web_admin_login
  pub web_admin_password : Holds 16 c.web_admin_password v.web_admin_password
  pub full_security : c.full_security ≡ v.full_security
  pub config_security : c.config_security ≡ v.config_security
  pub sta_ssid : Holds 16 c.sta_ssid v.sta_ssid
  pub sta_password : Holds 16 c.sta_password v.sta_password
  pub ap_mode : c.ap_mode ≡ v.ap_mode
  pub ap_ssid : Holds 16 c.ap_ssid v.ap_ssid
  pub ap_password : Holds 16 c.ap_password v.ap_password
  pub mqtt_broker : Holds 32 c.mqtt_broker v.mqtt_broker
  pub mqtt_user : Holds 16 c.mqtt_user v.mqtt_user
  pub mqtt_password : Holds 16 c.mqtt_password v.mqtt_password
  pub mqtt_topic : Holds 64 c.mqtt_topic v.mqtt_topic
  pub ntp_server_name : Holds 32 c.ntp_server_name v.ntp_server_name
  pub time_zone : c.time_zone ≡ v.time_zone
  pub liters_per_pulse : c.liters_per_pulse ≡ v.liters_per_pulse
  pub hot_time : c.hot_time ≡ v.hot_time
  pub hot_water : c.hot_water ≡ v.hot_water
  pub cold_time : c.cold_time ≡ v.cold_time
  pub cold_water : c.cold_water ≡ v.cold_water

copy_chars-Holds :
    (size : ℕ) (a : List ℕ) (s : Text)
    → Holds size a s
    → (out : List ℕ) × (copy_chars size a ≡ some out) × Holds size out s
unfolding copy_chars
copy_chars-Holds size a s h =
    let (short, nonzero) = c_string_sound a s h.read in
    let (out, copied, holds) =
      strcpy-Holds (replicate size 0) s (omega (arith, h.sized, length-replicate {A = ℕ} size 0))
        nonzero in
    (
      out,
      rw h.read copied,
      record {
        sized = omega (arith, holds.sized, length-replicate {A = ℕ} size 0);
        read = holds.read;
      },
    )

-- `setConfig` of a valid configuration overruns no array, and the result means the same.
pub set_config-Represents :
    (c : Config) (v : View)
    → Represents c v
    → (c' : Config) × (set_config c ≡ some c') × Represents c' v
unfolding set_config
set_config-Represents c v r =
    let (a1, e1, h1) = copy_chars-Holds 16 c.web_admin_login v.web_admin_login r.web_admin_login in
    let (a2, e2, h2) = copy_chars-Holds 16 c.web_admin_password _ r.web_admin_password in
    let (a3, e3, h3) = copy_chars-Holds 16 c.sta_ssid _ r.sta_ssid in
    let (a4, e4, h4) = copy_chars-Holds 16 c.sta_password _ r.sta_password in
    let (a5, e5, h5) = copy_chars-Holds 16 c.ap_ssid _ r.ap_ssid in
    let (a6, e6, h6) = copy_chars-Holds 16 c.ap_password _ r.ap_password in
    let (a7, e7, h7) = copy_chars-Holds 32 c.mqtt_broker _ r.mqtt_broker in
    let (a8, e8, h8) = copy_chars-Holds 16 c.mqtt_user _ r.mqtt_user in
    let (a9, e9, h9) = copy_chars-Holds 16 c.mqtt_password _ r.mqtt_password in
    let (a10, e10, h10) = copy_chars-Holds 64 c.mqtt_topic _ r.mqtt_topic in
    let (a11, e11, h11) = copy_chars-Holds 32 c.ntp_server_name _ r.ntp_server_name in
    (
      record c {
        web_admin_login = a1;
        web_admin_password = a2;
        sta_ssid = a3;
        sta_password = a4;
        ap_ssid = a5;
        ap_password = a6;
        mqtt_broker = a7;
        mqtt_user = a8;
        mqtt_password = a9;
        mqtt_topic = a10;
        ntp_server_name = a11;
      },
      rw (e1, e2, e3, e4, e5, e6, e7, e8, e9, e10, e11),
      record {
        web_admin_login = h1;
        web_admin_password = h2;
        full_security = r.full_security;
        config_security = r.config_security;
        sta_ssid = h3;
        sta_password = h4;
        ap_mode = r.ap_mode;
        ap_ssid = h5;
        ap_password = h6;
        mqtt_broker = h7;
        mqtt_user = h8;
        mqtt_password = h9;
        mqtt_topic = h10;
        ntp_server_name = h11;
        time_zone = r.time_zone;
        liters_per_pulse = r.liters_per_pulse;
        hot_time = r.hot_time;
        hot_water = r.hot_water;
        cold_time = r.cold_time;
        cold_water = r.cold_water;
      },
    )

-- The configuration of a meter that was never set up.
abbrev pub default_view : ℕ → View
default_view stamp = record {
  web_admin_login = codes "Admin";
  web_admin_password = codes "1111";
  full_security = false;
  config_security = false;
  sta_ssid = [];
  sta_password = [];
  ap_mode = true;
  ap_ssid = codes "WaterMeter_v3.0";
  ap_password = codes "12345678";
  mqtt_broker = codes "192.168.1.1";
  mqtt_user = codes "test";
  mqtt_password = codes "1111";
  mqtt_topic = codes "WaterMeter";
  ntp_server_name = codes "ntp4.stratum2.ru";
  time_zone = 3;
  liters_per_pulse = 10;
  hot_time = u32 (stamp + 3 * 3600);
  hot_water = 0;
  cold_time = u32 (stamp + 3 * 3600);
  cold_water = 0;
}

-- `initDefConfig` overruns no array, and leaves the default configuration.
pub init_def_config-Represents :
    (stamp : ℕ)
    → (c : Config) × (init_def_config stamp ≡ some c) × Represents c (default_view stamp)
unfolding init_def_config strcpy c_string local_time
init_def_config-Represents stamp = (
  _,
  refl,
  record {
    web_admin_login = record { sized = refl; read = refl };
    web_admin_password = record { sized = refl; read = refl };
    full_security = refl;
    config_security = refl;
    sta_ssid = record { sized = refl; read = refl };
    sta_password = record { sized = refl; read = refl };
    ap_mode = refl;
    ap_ssid = record { sized = refl; read = refl };
    ap_password = record { sized = refl; read = refl };
    mqtt_broker = record { sized = refl; read = refl };
    mqtt_user = record { sized = refl; read = refl };
    mqtt_password = record { sized = refl; read = refl };
    mqtt_topic = record { sized = refl; read = refl };
    ntp_server_name = record { sized = refl; read = refl };
    time_zone = refl;
    liters_per_pulse = refl;
    hot_time = refl;
    hot_water = refl;
    cold_time = refl;
    cold_water = refl;
  },
)
