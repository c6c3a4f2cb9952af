-- ===== src/Examples/Forms.antt =====
-- The settings form, the login and the start on the sample device.
use watermeter.Base.{
  ◌≡◌, ◌↔◌, ◌≤◌, ◌<◌, refl, true, false, not, ◌&&◌, ◌||◌, Option, some, none, arith, inr, [],
}
use watermeter.Base.Text.{Text, codes}
use watermeter.Base.CString.{c_string, strcpy, str_eq}
use watermeter.Base.CString.Chars.{Holds, has_no_nul-All}
use watermeter.Config.{Config, set_config, copy_chars}
use watermeter.Config.Valid.{View, Represents}
use watermeter.Config.Storage.{save_config}
use watermeter.Device.{Device}
use watermeter.Web.Form.{Form, read_form}
use watermeter.Web.Fields.{login_is, read_form-login}
use watermeter.Web.Access.{
  my_cgi_esp_fs_template, refused, to_config, index_tpl, my_cgi_esp_fs_template-refuses,
}
use watermeter.Web.Apply.{
  str_differs, web_changed, ap_changed, sta_changed, ntp_changed, mqtt_changed, mark, compare,
  store, restart_wifi, restart_mqtt, save_form,
}
use watermeter.Web.Settings.{with_liters, InMode, save_form-liters_dropped}
use watermeter.Web.Safety.{Stored, save_form-Stored}
use watermeter.Web.Template.{Answers, tpl_token}
use watermeter.Web.Pages.{InRange, tpl_token-total}
use watermeter.Start.{user_init, setup_cb}
use watermeter.Start.Setup.{StartedIn, starts_ap, setup_cb-StartedIn}
use watermeter.Utils.InitData.{set107init_data_bin}
use watermeter.Start.Init.{Begun, user_init-save_config}
use watermeter.Examples.{
  two_sectors, one_file-ReadsBack, one_file, media_card_two, sample_config, sample_view,
  sample_device, sample_mac, sample-Represents, sample-WordsFit,
}

my_cgi_esp_fs_template-refuses_example :
    ((my_cgi_esp_fs_template false (codes "/config.tpl") sample_device ≡ refused)
      ↔ (((true || false) && not (str_eq index_tpl (codes "/config.tpl")) && not false) ≡ true))
    × ((my_cgi_esp_fs_template false (codes "/config.tpl") sample_device ≡ to_config)
        ↔ ((false && str_eq index_tpl (codes "/config.tpl")) ≡ true))
my_cgi_esp_fs_template-refuses_example =
    my_cgi_esp_fs_template-refuses false (codes "/config.tpl") sample_device

read_form-login_example :
    (3 < 16
      → (f : Form) × (read_form 0 (login_is (codes "Bob")) sample_device ≡ some f)
        × Holds 16 f.config.web_admin_login (codes "Bob"))
    × (16 ≤ 3 → read_form 0 (login_is (codes "Bob")) sample_device ≡ none)
read_form-login_example =
    read_form-login 0 (codes "Bob") sample_device
      (λ z. ground (arith, z), (λ z. ground (arith, z), (λ z. ground (arith, z), tt)))
      (has_no_nul-All (codes "Bob") refl)

abbrev asked : Device
asked = record sample_device { flags = record (sample_device.flags) { save_new_config = true } }

abbrev more_liters : Config
more_liters = record sample_config { liters_per_pulse = 1; hot_time = 7; cold_time = 8 }

more-Represents : Represents more_liters (with_liters 1 7 8 sample_view)
unfolding c_string
more-Represents = record {
  web_admin_login = record { sized = refl; read = refl };
  web_admin_password = record { sized = refl; read = refl };
  full_security = refl;
  config_security = refl;
  sta_ssid = record { sized = refl; read = refl };
  sta_password = record { sized = refl; read = refl };
  ap_mode = refl;
  ap_ssid = record { sized = refl; read = refl };
  ap_password = record { sized = refl; read = refl };
  mqtt_broker = record { sized = refl; read = refl };
  mqtt_user = record { sized = refl; read = refl };
  mqtt_password = record { sized = refl; read = refl };
  mqtt_topic = record { sized = refl; read = refl };
  ntp_server_name = record { sized = refl; read = refl };
  time_zone = refl;
  liters_per_pulse = refl;
  hot_time = refl;
  hot_water = refl;
  cold_time = refl;
  cold_water = refl;
}

in_mode : InMode sample_view asked
in_mode = (λ on. cc, λ on. refl)

save_form-liters_dropped_example : save_form true sample_mac more_liters asked ≡ some sample_device
save_form-liters_dropped_example =
    save_form-liters_dropped true sample_mac sample_view 1 7 8 more_liters asked sample-Represents
      more-Represents in_mode refl refl refl

-- A form with another reading.
abbrev corrected : Config
corrected = record sample_config { hot_water = 12500 }

abbrev or_asked : Option Device → Device
or_asked none = asked
or_asked (some d) = d

abbrev after_form : Device
after_form = or_asked (save_form true sample_mac corrected asked)

form_saves : save_form true sample_mac corrected asked ≡ some after_form
unfolding save_form compare store restart_wifi restart_mqtt mark str_differs web_changed ap_changed
    sta_changed ntp_changed mqtt_changed c_string str_eq strcpy set_config copy_chars
form_saves = refl

abbrev corrected_view : View
corrected_view = record sample_view { hot_water = 12500 }

corrected-Represents : Represents corrected corrected_view
corrected-Represents = record {
  web_admin_login = sample-Represents.web_admin_login;
  web_admin_password = sample-Represents.web_admin_password;
  full_security = refl;
  config_security = refl;
  sta_ssid = sample-Represents.sta_ssid;
  sta_password = sample-Represents.sta_password;
  ap_mode = refl;
  ap_ssid = sample-Represents.ap_ssid;
  ap_password = sample-Represents.ap_password;
  mqtt_broker = sample-Represents.mqtt_broker;
  mqtt_user = sample-Represents.mqtt_user;
  mqtt_password = sample-Represents.mqtt_password;
  mqtt_topic = sample-Represents.mqtt_topic;
  ntp_server_name = sample-Represents.ntp_server_name;
  time_zone = refl;
  liters_per_pulse = refl;
  hot_time = refl;
  hot_water = refl;
  cold_time = refl;
  cold_water = refl;
}

save_form-Stored_example : Stored sample_view corrected_view asked after_form
save_form-Stored_example =
    save_form-Stored true sample_mac corrected sample_view corrected_view asked after_form
      sample-Represents corrected-Represents refl form_saves

user_init-save_config_example :
    (d : Device) × (user_init two_sectors one_file 0 0 true true
        (save_config two_sectors one_file true sample_config media_card_two)
      ≡ some d)
    × Begun true d.config d
    × Represents d.config sample_view
unfolding set107init_data_bin
user_init-save_config_example =
    user_init-save_config two_sectors one_file 0 0 true sample_config sample_view media_card_two
      (inr (refl, (one_file-ReadsBack, (λ disk. (some [], refl, (λ bytes. refl))))))
      sample-Represents sample-WordsFit (λ s bytes. refl) refl

abbrev page_answers : Answers
page_answers = record {
  heap_size = 20000;
  stamp = 1600000000;
  ms = 90061000;
  vcc = 850;
  signal = 0xc4;
  real_time = codes "Sun Sep 13 12:26:40 2020";
  user1 = true;
}

page-InRange : InRange page_answers
page-InRange = record {
  ms = omega arith;
  vcc = omega arith;
  signal = omega arith;
  real_time = omega arith;
}

tpl_token-total_example :
    (s : Text) × (tpl_token page_answers sample_device (codes "rssi") ≡ some s)
tpl_token-total_example =
    tpl_token-total page_answers sample_device sample_view (codes "rssi") page-InRange
      sample-Represents

setup_cb-StartedIn_example :
    (d' : Device) × (setup_cb 0 0 72 0 true sample_mac sample_device ≡ some d')
    × StartedIn (starts_ap sample_device) sample_view [] sample_config d'
setup_cb-StartedIn_example =
    setup_cb-StartedIn 0 0 72 0 sample_mac sample_device sample_view sample-Represents (omega arith)
      (omega arith) refl
