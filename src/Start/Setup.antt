-- ===== src/Start/Setup.antt =====
-- Which mode of the WiFi `setup_cb` starts.
use watermeter.Base.{
  ℕ, ◌^◌, ◌<◌, ◌≡◌, refl, sym, subst, ap, ap₂, List, ◌∙◌, arith, Bool, true, false, not, ◌||◌,
  Option, some, ◌++◌,
}
use watermeter.Base.{get_or, ◌==◌, if◌then◌else◌, length-append}
use watermeter.Base.Text.{codes}
use watermeter.Base.CString.{◌>>=◌, c_string}
use watermeter.Config.{Config}
use watermeter.Config.Valid.{View, Represents}
use watermeter.Device.{Device, Action}
use watermeter.Mqtt.{mqtt_init}
use watermeter.Utils.{Mac, get_mac_address, display_update}
use watermeter.Utils.Print.{sprintf-fits, length-get_mac_address, display_update-fits}
use watermeter.Wifi.{set_null_wifi_config_default, start_wifi_ap, start_wifi_sta}
use watermeter.Wifi.Modes.{HasWifi, radio, ap_calls, sta_calls, start_wifi-Started}
use watermeter.Start.{start_mode, with_services, start_services, setup_cb}

Represents-HasWifi : (c : Config) (v : View) → Represents c v → HasWifi c
Represents-HasWifi c v r = record {
  ap_ssid = v.ap_ssid;
  ap_password = v.ap_password;
  sta_ssid = v.sta_ssid;
  sta_password = v.sta_password;
  ap_ssid_read = r.ap_ssid.read;
  ap_password_read = r.ap_password.read;
  sta_ssid_read = r.sta_ssid.read;
  sta_password_read = r.sta_password.read;
}

-- The test of `setup_cb` for the access point.
abbrev pub starts_ap : Device → Bool
starts_ap d = d.flags.first_start || d.config.ap_mode || get_or d.config.sta_ssid 0 0 == 48

-- The calls that start a mode, with the network of the settings.
abbrev pub mode_calls : Bool → View → List Action
mode_calls true v = ap_calls v.ap_ssid v.ap_password
mode_calls false v = sta_calls v.sta_ssid v.sta_password

-- The three mode flags that a start leaves, the calls for the WiFi, after those of `before`, and the
-- configuration.
pub record StartedIn (ap : Bool) (v : View) (before : List Action) (c : Config) (d : Device)
    : Type 0 where
  pub radio_calls : radio d.trace ≡ mode_calls ap v ++ radio before
  pub ap_mode : d.flags.ap_mode_now ≡ ap
  pub sta_mode : d.flags.sta_mode_now ≡ not ap
  pub both_modes : d.flags.sta_ap_mode_now ≡ false
  pub restart : d.flags.restart_wifi ≡ false
  pub config : d.config ≡ c

cleared :
    (a b s t : ℕ) (d : Device)
    → ((set_null_wifi_config_default a b s t d).config ≡ d.config)
      × ((set_null_wifi_config_default a b s t d).flags ≡ d.flags)
      × (radio (set_null_wifi_config_default a b s t d).trace ≡ radio d.trace)
unfolding set_null_wifi_config_default radio
cleared a b s t d = ground arith

start_mode-StartedIn :
    (mac : Mac) (d : Device) (v : View)
    → Represents d.config v
    → d.flags.sleep_now ≡ false
    → (d' : Device) × (start_mode true mac d ≡ some d')
      × StartedIn (starts_ap d) v d.trace d.config d'
unfolding start_mode Represents-HasWifi
start_mode-StartedIn mac d v r awake =
    let ((p, ep, sp), (s, es, ss)) = start_wifi-Started mac d (Represents-HasWifi d.config v r) in
    go (starts_ap d) d.flags.sleep_now awake (start_wifi_ap d) (start_wifi_sta true mac d)
      (
        p,
        ep,
        record {
          ap_mode = sp.ap_mode;
          sta_mode = sp.sta_mode;
          both_modes = sp.both_modes;
          restart = sp.restart;
          radio_calls = sp.radio_calls;
          config = sp.config;
        },
      )
      (
        s,
        es,
        record {
          ap_mode = ss.ap_mode;
          sta_mode = ss.sta_mode;
          both_modes = ss.both_modes;
          restart = ss.restart;
          radio_calls = ss.radio_calls;
          config = ss.config;
        },
      )
  where
    go :
        (b asleep : Bool)
        → asleep ≡ false
        → (x y : Option Device)
        → ((d' : Device) × (x ≡ some d') × StartedIn true v d.trace d.config d')
        → ((d' : Device) × (y ≡ some d') × StartedIn false v d.trace d.config d')
        → (d' : Device) × ((if b
              then (if asleep then some d else x)
              else (if asleep then some d else y))
            ≡ some d')
          × StartedIn b v d.trace d.config d'
    go b true h x y p q = cc
    go true false h x y p q = p
    go false false h x y p q = q

mqtt_init-StartedIn :
    (ap : Bool) (mac : Mac) (c : Config) (v : View) (before : List Action) (d : Device)
    → Represents c v
    → StartedIn ap v before c d
    → (d' : Device) × (mqtt_init mac d ≡ some d') × StartedIn ap v before c d'
unfolding mqtt_init radio
mqtt_init-StartedIn ap mac c v before d r m =
    rw
      (
        m.config,
        r.mqtt_broker.read,
        r.mqtt_user.read,
        r.mqtt_password.read,
        sprintf-fits 32 (codes "WaterMeter v3.0-" ++ get_mac_address mac)
            (rw length-append (omega (arith, length-get_mac_address mac))),
      )
      (
        _,
        refl,
        record {
          ap_mode = m.ap_mode;
          sta_mode = m.sta_mode;
          both_modes = m.both_modes;
          restart = m.restart;
          radio_calls = m.radio_calls;
          config = refl;
        },
      )

display_update-StartedIn :
    (ap : Bool) (c : Config) (v : View) (before : List Action) (d : Device)
    → StartedIn ap v before c d
    → c.hot_water < 10 ^ 8
    → c.cold_water < 10 ^ 8
    → (d' : Device) × (display_update d ≡ some d') × StartedIn ap v before c d'
unfolding radio
display_update-StartedIn ap c v before d m hot cold = (
  _,
  (display_update-fits d).0 (rw m.config hot) (rw m.config cold),
  record {
    ap_mode = m.ap_mode;
    sta_mode = m.sta_mode;
    both_modes = m.both_modes;
    restart = m.restart;
    radio_calls = m.radio_calls;
    config = m.config;
  },
)

start_services-StartedIn :
    (ap : Bool) (mac : Mac) (c : Config) (v : View) (before : List Action) (d : Device)
    → Represents c v
    → c.hot_water < 10 ^ 8
    → c.cold_water < 10 ^ 8
    → StartedIn ap v before c d
    → (d' : Device) × (start_services mac d ≡ some d') × StartedIn ap v before c d'
unfolding start_services radio
start_services-StartedIn on mac c v before d r hot cold m =
    let server : c_string d.config.ntp_server_name ≡ some v.ntp_server_name =
      rw m.config r.ntp_server_name.read in
    let (d1, e1, m1) =
      mqtt_init-StartedIn on mac c v before (with_services v.ntp_server_name d) r (record {
        ap_mode = m.ap_mode;
        sta_mode = m.sta_mode;
        both_modes = m.both_modes;
        restart = m.restart;
        radio_calls = m.radio_calls;
        config = m.config;
      }) in
    let (d2, e2, m2) = display_update-StartedIn on c v before d1 m1 hot cold in
    (
      d2,
      ap (λ o. o >>= λ s. mqtt_init mac (with_services s d) >>= λ x. display_update x) server
          ∙ ap (λ o. o >>= λ x. display_update x) e1
          ∙ e2,
      m2,
    )

-- With a valid configuration whose readings are below 10^8 litres, awake, and given the block for the name
-- of the station, `setup_cb` overruns no buffer and starts exactly one mode of the WiFi, by the calls
-- for its mode and its network, with the name and password of the settings, and the one flag: the access
-- point on a first start, where the settings say so, or where the name of the network begins with the
-- digit 0, and otherwise the station, even where no network was set. The configuration stays.
pub setup_cb-StartedIn :
    (ap_ssid ap_password sta_ssid sta_password : ℕ) (mac : Mac) (d : Device) (v : View)
    → Represents d.config v
    → d.config.hot_water < 10 ^ 8
    → d.config.cold_water < 10 ^ 8
    → d.flags.sleep_now ≡ false
    → (d' : Device) × (setup_cb ap_ssid ap_password sta_ssid sta_password true mac d ≡ some d')
      × StartedIn (starts_ap d) v d.trace d.config d'
unfolding setup_cb
setup_cb-StartedIn ap_ssid ap_password sta_ssid sta_password mac d v r hot cold awake =
    let d0 = set_null_wifi_config_default ap_ssid ap_password sta_ssid sta_password d in
    let (same_c, same_f, same_r) = cleared ap_ssid ap_password sta_ssid sta_password d in
    let r0 : Represents d0.config v = subst (λ c. Represents c v) (sym same_c) r in
    let awake0 : d0.flags.sleep_now ≡ false = ap (λ f. f.sleep_now) same_f ∙ awake in
    let (d1, e1, m1) = start_mode-StartedIn mac d0 v r0 awake0 in
    let same_mode : starts_ap d0 ≡ starts_ap d = rw (same_c, same_f) refl in
    let m1' : StartedIn (starts_ap d) v d.trace d.config d1 = record {
      radio_calls = m1.radio_calls ∙ ap₂ (λ b calls. mode_calls b v ++ calls) same_mode same_r;
      ap_mode = m1.ap_mode ∙ same_mode;
      sta_mode = m1.sta_mode ∙ ap not same_mode;
      both_modes = m1.both_modes;
      restart = m1.restart;
      config = m1.config ∙ same_c;
    } in
    let (d2, e2, m2) =
      start_services-StartedIn (starts_ap d) mac d.config v d.trace d1 r hot cold m1' in
    (d2, ap (λ o. o >>= λ x. start_services mac x) e1 ∙ e2, m2)
