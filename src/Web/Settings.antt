-- ===== src/Web/Settings.antt =====
-- What the settings form saves, and what it does not.
use watermeter.Base.{ℕ, ◌≡◌, refl, sym, ap, ◌∙◌, arith, Bool, true, false, not}
use watermeter.Base.{List, [], ◌∷◌, Option, some, ◌==◌, ==_iff, if◌then◌else◌}
use watermeter.Base.Text.{Text}
use watermeter.Base.CString.{str_eq}
use watermeter.Base.CString.Chars.{Holds}
use watermeter.Config.{Config}
use watermeter.Config.Valid.{View, Represents}
use watermeter.Device.{Device}
use watermeter.Utils.{Mac}
use watermeter.Web.Apply.{
  bool_differs, str_differs, web_changed, ap_changed, sta_changed, ntp_changed, mqtt_changed, mark,
  compare, store, restart_wifi, restart_mqtt, save_form,
}

str_eq_refl : (s : Text) → str_eq s s ≡ true
unfolding str_eq
str_eq_refl [] = refl
str_eq_refl (c ∷ s) = let e = str_eq_refl s in ground (arith, e)

str_differs_self :
    (n : ℕ) (a b : List ℕ) (s : Text) → Holds n a s → Holds n b s → str_differs a b ≡ some false
unfolding str_differs
str_differs_self n a b s p q = rw (p.read, q.read, str_eq_refl s) refl

bool_differs_self : (a b c : Bool) → a ≡ c → b ≡ c → bool_differs a b ≡ false
bool_differs_self a b c p q = ground arith

-- A form that shows the settings of the device, and any number of litres per pulse.
abbrev pub with_liters : ℕ → ℕ → ℕ → View → View
with_liters liters hot_time cold_time v = record v {
  liters_per_pulse = liters;
  hot_time = hot_time;
  cold_time = cold_time;
}

module _ (v : View) (liters hot_time cold_time : ℕ) (old new : Config) (shows : Represents old v)
    (sends : Represents new (with_liters liters hot_time cold_time v)) where
  web_same : web_changed old new ≡ some false
  unfolding web_changed
  web_same =
      rw
        (
          str_differs_self 16 _ _ _ shows.web_admin_login sends.web_admin_login,
          str_differs_self 16 _ _ _ shows.web_admin_password sends.web_admin_password,
          bool_differs_self _ _ _ shows.full_security sends.full_security,
          bool_differs_self _ _ _ shows.config_security sends.config_security,
        )
        refl

  ap_same : v.ap_mode ≡ true → ap_changed old new ≡ some false
  unfolding ap_changed
  ap_same on =
      let e : not new.ap_mode ≡ false = ap not (sends.ap_mode ∙ on) in
      rw
        (
          e,
          str_differs_self 16 _ _ _ shows.ap_ssid sends.ap_ssid,
          str_differs_self 16 _ _ _ shows.ap_password sends.ap_password,
        )
        refl

  sta_same : v.ap_mode ≡ false → sta_changed old new ≡ some false
  unfolding sta_changed
  sta_same off =
      let e : new.ap_mode ≡ false = sends.ap_mode ∙ off in
      rw
        (
          e,
          str_differs_self 16 _ _ _ shows.sta_ssid sends.sta_ssid,
          str_differs_self 16 _ _ _ shows.sta_password sends.sta_password,
        )
        refl

  ntp_same : ntp_changed old new ≡ some false
  unfolding ntp_changed
  ntp_same =
      let e : not (old.time_zone == new.time_zone) ≡ false =
        ap not ((==_iff _ _).1 (shows.time_zone ∙ sym sends.time_zone)) in
      rw (str_differs_self 32 _ _ _ shows.ntp_server_name sends.ntp_server_name, e) refl

  mqtt_same : mqtt_changed old new ≡ some false
  unfolding mqtt_changed
  mqtt_same =
      rw
        (
          str_differs_self 32 _ _ _ shows.mqtt_broker sends.mqtt_broker,
          str_differs_self 16 _ _ _ shows.mqtt_user sends.mqtt_user,
          str_differs_self 16 _ _ _ shows.mqtt_password sends.mqtt_password,
          str_differs_self 64 _ _ _ shows.mqtt_topic sends.mqtt_topic,
        )
        refl

-- The mode that the WiFi is in is the one of the settings.
abbrev pub InMode : View → Device → Type 0
InMode v d =
    (d.flags.ap_mode_now ≡ true → v.ap_mode ≡ true)
    × (d.flags.sta_mode_now ≡ true → v.ap_mode ≡ false)

unless :
    (b : Bool) (x : Option Bool)
    → (b ≡ true → x ≡ some false)
    → (if b then x else some false) ≡ some false
unless true x h = h refl
unless false x h = refl

compare_same :
    (v : View) (liters hot_time cold_time : ℕ) (new : Config) (d : Device)
    → Represents d.config v
    → Represents new (with_liters liters hot_time cold_time v)
    → InMode v d
    → compare new (false, d) ≡ some (false, d)
unfolding compare mark
compare_same v liters hot_time cold_time new d shows sends (ap_in, sta_in) =
    let old = d.config in
    let hot : not (old.hot_water == new.hot_water) ≡ false =
      ap not ((==_iff _ _).1 (shows.hot_water ∙ sym sends.hot_water)) in
    let cold : not (old.cold_water == new.cold_water) ≡ false =
      ap not ((==_iff _ _).1 (shows.cold_water ∙ sym sends.cold_water)) in
    rw
      (
        web_same v liters hot_time cold_time old new shows sends,
        unless d.flags.ap_mode_now (ap_changed old new)
            (λ on. ap_same v liters hot_time cold_time old new shows sends (ap_in on)),
        unless d.flags.sta_mode_now (sta_changed old new)
            (λ on. sta_same v liters hot_time cold_time old new shows sends (sta_in on)),
        ntp_same v liters hot_time cold_time old new shows sends,
        mqtt_same v liters hot_time cold_time old new shows sends,
        hot,
        cold,
      )
      refl

taken {ℓ} : {A : Type ℓ} {b : Bool} (x y : A) → b ≡ true → (if b then x else y) ≡ x
taken x y e = rw e refl

skipped {ℓ} : {A : Type ℓ} {b : Bool} (x y : A) → b ≡ false → (if b then x else y) ≡ y
skipped x y e = rw e refl

restart_wifi_idle :
    (allocated : Bool) (mac : Mac) (d : Device)
    → d.flags.restart_wifi ≡ false
    → restart_wifi allocated mac d ≡ some d
unfolding restart_wifi
restart_wifi_idle allocated mac d e = skipped _ _ e

restart_mqtt_idle : (d : Device) → d.flags.mqtt_restart ≡ false → restart_mqtt d ≡ d
unfolding restart_mqtt
restart_mqtt_idle d e = skipped _ _ e

-- A form that differs from the settings of the device in the litres per pulse alone (and in the times
-- of the readings, which it does not send) is dropped, where no restart of WiFi or MQTT was asked for
-- before, and where the mode of the WiFi is that of the settings: it is no access point without
-- `apMode`, and no station with it. Nothing is installed and no call is made.
pub save_form-liters_dropped :
    (allocated : Bool) (mac : Mac) (v : View) (liters hot_time cold_time : ℕ) (new : Config)
    (d : Device)
    → Represents d.config v
    → Represents new (with_liters liters hot_time cold_time v)
    → InMode v d
    → d.flags.save_new_config ≡ true
    → d.flags.restart_wifi ≡ false
    → d.flags.mqtt_restart ≡ false
    → save_form allocated mac new d
      ≡ some (record d { flags = record (d.flags) { save_new_config = false } })
unfolding save_form store
save_form-liters_dropped allocated mac v liters hot_time cold_time new d shows sends mode asked
      no_wifi no_mqtt =
    taken _ _ asked
    ∙ rw
        (
          compare_same v liters hot_time cold_time new d shows sends mode,
          restart_wifi_idle allocated mac d no_wifi,
          restart_mqtt_idle d no_mqtt,
        )
        refl
