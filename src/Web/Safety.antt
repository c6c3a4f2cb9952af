-- ===== src/Web/Safety.antt =====
-- A form that is saved is saved as a whole.
use watermeter.Base.{
  ◌≡◌, ◌⊎◌, inl, inr, refl, sym, subst, ap, ◌∙◌, Bool, true, false, List, [], ◌∷◌, ◌++◌, some,
  if◌then◌else◌, get_or, ◌==◌, ◌||◌, length,
}
use watermeter.Base.CString.{c_string}
use watermeter.Config.{Config, set_config}
use watermeter.Device.{
  Device, Flags, Action, save_config, arm, disarm, sta_timer, sleep_timer, station_disconnect,
  station_connect, set_phy_11g, set_opmode, softap_mode, station_mode, set_softap_config,
  set_station_config, set_hostname, dhcpc_start, dhcpc_stop, register_wifi_events, mqtt_disconnect,
  mqtt_del_client_timer,
}
use watermeter.Config.Valid.{View, Represents, set_config-Represents}
use watermeter.Web.Compare.{form_differs, compare-differs}
use watermeter.Utils.{Mac}
use watermeter.Main.Flow.{Keeps, Keeps-trans, >>=-eq-some}
use watermeter.Mqtt.{mqtt_re_init}
use watermeter.Power.{sleep_timer_on}
use watermeter.Wifi.{start_wifi_ap, start_wifi_sta, host_name}
use watermeter.Web.Apply.{
  mark, web_changed, ap_changed, sta_changed, ntp_changed, mqtt_changed, compare, store,
  restart_wifi, restart_mqtt, save_form,
}
use mathlib.Core.Option.{some-injective}
use mathlib.Core.List.{Memᴰ, append_assoc}
use mathlib.Core.List.Memᴰ

-- Flags changed, and the calls of a list were made.
calls-Keeps :
    (d : Device) (f : Flags) (calls : List Action)
    → Keeps d (record d { flags = f; trace = calls ++ d.trace })
calls-Keeps d f calls = record {
  new = calls;
  adds = refl;
  config = refl;
  counter = refl;
  debounce = refl;
}

start_wifi_ap-Keeps : (d d' : Device) → start_wifi_ap d ≡ some d' → Keeps d d'
unfolding start_wifi_ap
start_wifi_ap-Keeps d d' h =
    let (ssid, e1, h1) = >>=-eq-some (c_string d.config.ap_ssid) _ h in
    let (password, e2, h2) = >>=-eq-some (c_string d.config.ap_password) _ h1 in
    subst (Keeps d) (some-injective _ _ h2) (
      calls-Keeps d _ (
        station_connect
        ∷ dhcpc_start
        ∷ set_opmode softap_mode
        ∷ set_softap_config ssid password (length ssid)
        ∷ set_phy_11g
        ∷ station_disconnect
        ∷ disarm sta_timer
        ∷ []))

start_wifi_sta-Keeps :
    (allocated : Bool) (mac : Mac) (d d' : Device)
    → start_wifi_sta allocated mac d ≡ some d'
    → Keeps d d'
unfolding start_wifi_sta sleep_timer_on
start_wifi_sta-Keeps false mac d d' h =
    let (ap_ssid, e1, h1) = >>=-eq-some (c_string d.config.ap_ssid) _ h in
    subst (Keeps d) (some-injective _ _ h1) (
      calls-Keeps d d.flags
        (set_opmode station_mode ∷ set_phy_11g ∷ dhcpc_stop ∷ station_disconnect ∷ []))
start_wifi_sta-Keeps true mac d d' h =
    let (ap_ssid, e1, h1) = >>=-eq-some (c_string d.config.ap_ssid) _ h in
    let (name, e2, h2) = >>=-eq-some (host_name ap_ssid mac) _ h1 in
    let (ssid, e3, h3) = >>=-eq-some (c_string d.config.sta_ssid) _ h2 in
    let (password, e4, h4) = >>=-eq-some (c_string d.config.sta_password) _ h3 in
    subst (Keeps d) (some-injective _ _ h4) (
      calls-Keeps d _ (
        arm sleep_timer 2000 true
        ∷ disarm sleep_timer
        ∷ register_wifi_events
        ∷ dhcpc_start
        ∷ station_connect
        ∷ set_station_config ssid password
        ∷ set_hostname name
        ∷ disarm sta_timer
        ∷ set_opmode station_mode
        ∷ set_phy_11g
        ∷ dhcpc_stop
        ∷ station_disconnect
        ∷ []))

branch {ℓ} :
    {A : Type ℓ} {b : Bool} (x y : A) {z : A}
    → (if b then x else y) ≡ z
    → ((b ≡ true) × (x ≡ z)) ⊎ ((b ≡ false) × (y ≡ z))
branch {b = true} x y h = inl (refl, h)
branch {b = false} x y h = inr (refl, h)

restart_wifi-Keeps :
    (allocated : Bool) (mac : Mac) (d d' : Device)
    → restart_wifi allocated mac d ≡ some d'
    → Keeps d d'
unfolding restart_wifi
restart_wifi-Keeps allocated mac d d' h = elim (branch {b = d.flags.restart_wifi} _ _ h) [
  | inl (asked, h1) ↦
      elim (branch {b = d.config.ap_mode || get_or d.config.sta_ssid 0 0 == 48} _ _ h1) [
        | inl (point, h2) ↦
            Keeps-trans (calls-Keeps d (record (d.flags) { sta_configure = false }) [])
              (start_wifi_ap-Keeps _ d' h2)
        | inr (station, h2) ↦ start_wifi_sta-Keeps allocated mac d d' h2
      ]
  | inr (quiet, h1) ↦ subst (Keeps d) (some-injective _ _ h1) (calls-Keeps d d.flags [])
]

restart_mqtt-Keeps : (d : Device) → Keeps d (restart_mqtt d)
unfolding restart_mqtt mqtt_re_init
restart_mqtt-Keeps d = go d.flags.mqtt_restart
  where
    go :
        (b : Bool)
        → Keeps d (
            if b
            then mqtt_re_init (record d { flags = record (d.flags) { mqtt_restart = false } })
            else d)
    go true =
        calls-Keeps d _ (
          arm mqtt_del_client_timer 1000 false
          ∷ disarm mqtt_del_client_timer
          ∷ mqtt_disconnect
          ∷ [])
    go false = calls-Keeps d d.flags []

mark-Keeps :
    (b : Bool) (f : Device → Device) (d : Device) (s : Bool × Device)
    → ((x : Device) → Keeps x (f x))
    → Keeps d s.1
    → Keeps d (mark b f s).1
unfolding mark
mark-Keeps true f d (saves, x) keeps k = Keeps-trans k (keeps x)
mark-Keeps false f d (saves, x) keeps k = k

compare-Keeps :
    (new : Config) (b : Bool) (d : Device) (s : Bool × Device)
    → compare new (b, d) ≡ some s
    → Keeps d s.1
unfolding compare
compare-Keeps new b d s h =
    let (web, e1, h1) = >>=-eq-some (web_changed d.config new) _ h in
    let (ap_new, e2, h2) =
      >>=-eq-some (if d.flags.ap_mode_now then ap_changed d.config new else some false) _ h1 in
    let (sta_new, e3, h3) =
      >>=-eq-some (if d.flags.sta_mode_now then sta_changed d.config new else some false) _ h2 in
    let (ntp, e4, h4) = >>=-eq-some (ntp_changed d.config new) _ h3 in
    let (mqtt, e5, h5) = >>=-eq-some (mqtt_changed d.config new) _ h4 in
    let flags = λ (x : Device) (f : Flags). calls-Keeps x f [] in
    subst (λ s. Keeps d s.1) (some-injective _ _ h5)
      (mark-Keeps _ _ d _ (λ x. flags x _)
        (mark-Keeps _ _ d _ (λ x. flags x _)
          (mark-Keeps mqtt _ d _ (λ x. flags x _)
            (mark-Keeps ntp _ d _ (λ x. flags x _)
              (mark-Keeps sta_new _ d _ (λ x. flags x _)
                (mark-Keeps ap_new _ d _ (λ x. flags x _)
                  (mark-Keeps web (λ d. d) d (b, d) (λ x. flags x x.flags) (flags d d.flags))))))))

-- What a form with the settings `w` that asks to be saved leaves of a device with the settings `v`.
pub record Stored (v w : View) (d d' : Device) : Type 0 where
  pub settled : d'.flags.save_new_config ≡ false
  pub calls : List Action
  pub trace : d'.trace ≡ calls ++ d.trace
  pub config :
      ((form_differs d.flags.ap_mode_now d.flags.sta_mode_now v w ≡ false) × (d'.config ≡ d.config))
      ⊎ ((form_differs d.flags.ap_mode_now d.flags.sta_mode_now v w ≡ true)
          × Represents d'.config w
          × Memᴰ (save_config d'.config) calls)

-- The device before the restarts, with whether the form is saved.
store-Stored :
    (new : Config) (v w : View) (save : Bool) (d d1 d2 d3 : Device)
    → Represents new w
    → save ≡ form_differs d.flags.ap_mode_now d.flags.sta_mode_now v w
    → Keeps d d1
    → store new save d1 ≡ some d2
    → Keeps d2 d3
    → Stored v w d (record d3 { flags = record (d3.flags) { save_new_config = false } })
unfolding store
store-Stored new v w false d d1 d2 d3 means saves k h k3 =
    let k' = Keeps-trans (subst (Keeps d) (some-injective _ _ h) k) k3 in
    record { settled = refl; calls = k'.new; trace = k'.adds; config = inl (sym saves, k'.config) }
store-Stored new v w true d d1 d2 d3 means saves k h k3 =
    let (c, set, h1) = >>=-eq-some (set_config new) _ h in
    let (c', set', means') = set_config-Represents new w means in
    let e = some-injective _ _ h1 in
    let same : d3.config ≡ c = k3.config ∙ sym (ap (λ x. x.config) e) in
    let known : d3.config ≡ c' = same ∙ some-injective _ _ (sym set ∙ set') in
    record {
      settled = refl;
      calls = k3.new ++ (save_config c ∷ k.new);
      trace =
          k3.adds
          ∙ ap (λ t. k3.new ++ t) (sym (ap (λ x. x.trace) e) ∙ ap (λ t. save_config c ∷ t) k.adds)
          ∙ sym (append_assoc k3.new (save_config c ∷ k.new) d.trace);
      config = inr (
        sym saves,
        subst (λ c. Represents c w) (sym known) means',
        subst (λ c1. Memᴰ (save_config c1) (k3.new ++ (save_config c ∷ k.new))) (sym same)
            (Memᴰ.append_right k3.new (Memᴰ.head refl)),
      );
    }

-- A form that asks to be saved, where the settings of the device and those of the form are valid and no
-- buffer is overrun. Where the form has another login, security, time server, time zone, MQTT setting
-- or reading, or the device is an access point and the form asks for none or has another name or
-- password for it, or the device is a station and the form asks for an access point or has another
-- network: the device has exactly the settings of the form, and they were handed to the storage.
-- Otherwise it has its old configuration. In both cases nothing waits to be saved.
pub save_form-Stored :
    (allocated : Bool) (mac : Mac) (new : Config) (v w : View) (d d' : Device)
    → Represents d.config v
    → Represents new w
    → d.flags.save_new_config ≡ true
    → save_form allocated mac new d ≡ some d'
    → Stored v w d d'
unfolding save_form
save_form-Stored allocated mac new v w d d' shows sends asked h =
    elim (branch {b = d.flags.save_new_config} _ _ h) [
      | inl (on, h1) ↦
          let (s, compared, h2) = >>=-eq-some (compare new (false, d)) _ h1 in
          let (d1, stored, h3) = >>=-eq-some (store new s.0 s.1) _ h2 in
          let (d2, restarted, h4) = >>=-eq-some (restart_wifi allocated mac d1) _ h3 in
          let rest =
            Keeps-trans (restart_wifi-Keeps allocated mac d1 d2 restarted)
              (restart_mqtt-Keeps d2) in
          subst (Stored v w d) (some-injective _ _ h4) (
            store-Stored new v w s.0 d s.1 d1 (restart_mqtt d2) sends
              (compare-differs new d v w s shows sends compared)
              (compare-Keeps new false d s compared) stored rest)
      | inr (no_save, h1) ↦ absurd (cc (asked, no_save))
    ]
