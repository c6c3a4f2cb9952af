-- ===== src/Wifi/Modes.antt =====
-- The modes of the WiFi.
use watermeter.Base.{
  ℕ, zero, suc, ap, ◌+◌, ◌≤◌, ◌≡◌, refl, arith, Bool, true, false, List, [], ◌∷◌, ◌++◌, some,
}
use watermeter.Base.{length, take, length-append, length-take}
use watermeter.Base.Text.{Text, codes}
use watermeter.Base.CString.{c_string}
use watermeter.Config.{Config}
use watermeter.Device.{
  Device, Action, set_opmode, set_softap_config, set_station_config, softap_mode, station_mode,
}
use watermeter.Utils.{Mac, get_mac_address}
use watermeter.Utils.Print.{sprintf-fits}
use watermeter.Power.{sleep_timer_on}
use watermeter.Wifi.{host_name, start_wifi_sta, start_wifi_ap}

take-take_append :
    (k : ℕ) (xs ys : Text) → length xs ≤ k → take (length xs) (take k (xs ++ ys)) ≡ xs
take-take_append k [] ys h = refl
take-take_append zero (x ∷ xs) ys h = absurd (omega arith)
take-take_append (suc k) (x ∷ xs) ys h = ap (λ t. x ∷ t) (take-take_append k xs ys (omega arith))

-- The name never overruns its block, has at most 32 characters, and begins with an SSID of at most 32.
host_name-fits :
    (ssid : Text) (mac : Mac)
    → (name : Text) × (host_name ssid mac ≡ some name)
      × (length name ≤ 32)
      × (length ssid ≤ 32 → take (length ssid) name ≡ ssid)
unfolding host_name
host_name-fits ssid mac = (
  take 32 (ssid ++ (codes "-" ++ get_mac_address mac)),
  rw
      (sprintf-fits (length ssid + length (get_mac_address mac) + 3)
        (ssid ++ (codes "-" ++ get_mac_address mac)) (simp (length-append {A = ℕ}) (omega arith)))
      refl,
  omega (arith, length-take 32 (ssid ++ (codes "-" ++ get_mac_address mac))),
  take-take_append 32 ssid _,
)

-- A configuration whose WiFi fields are strings.
pub record HasWifi (c : Config) : Type 0 where
  pub ap_ssid : Text
  pub ap_password : Text
  pub sta_ssid : Text
  pub sta_password : Text
  pub ap_ssid_read : c_string c.ap_ssid ≡ some ap_ssid
  pub ap_password_read : c_string c.ap_password ≡ some ap_password
  pub sta_ssid_read : c_string c.sta_ssid ≡ some sta_ssid
  pub sta_password_read : c_string c.sta_password ≡ some sta_password

-- The calls of a trace, newest first, that choose the mode of the WiFi and name its network.
unfoldable pub radio : List Action → List Action
radio [] = []
radio (set_opmode mode ∷ trace) = set_opmode mode ∷ radio trace
radio (set_softap_config ssid password n ∷ trace) = set_softap_config ssid password n ∷ radio trace
radio (set_station_config ssid password ∷ trace) = set_station_config ssid password ∷ radio trace
radio (a ∷ trace) = radio trace

-- The mode of the access point, and of the station, with their network.
abbrev pub ap_calls : Text → Text → List Action
ap_calls ssid password = set_opmode softap_mode ∷ set_softap_config ssid password (length ssid) ∷ []

abbrev pub sta_calls : Text → Text → List Action
sta_calls ssid password = set_station_config ssid password ∷ set_opmode station_mode ∷ []

-- What the mode flags are after a start, which calls it made for the WiFi, and that nothing but flags
-- and calls changed.
pub record Started (ap sta both : Bool) (calls : List Action) (d d' : Device) : Type 0 where
  pub radio_calls : radio d'.trace ≡ calls ++ radio d.trace
  pub ap_mode : d'.flags.ap_mode_now ≡ ap
  pub sta_mode : d'.flags.sta_mode_now ≡ sta
  pub both_modes : d'.flags.sta_ap_mode_now ≡ both
  pub restart : d'.flags.restart_wifi ≡ false
  pub config : d'.config ≡ d.config
  pub counter : d'.counter ≡ d.counter

-- Where the names and passwords of the configuration are strings: the start of the access point and,
-- given the block for its name, that of the station overrun nothing. Each sets the mode of the WiFi
-- once, to its own, and configures the network of that mode, with the name and password of the
-- configuration, and no other; of the three flags exactly the one of the mode is on; no restart of the
-- WiFi is asked for, and configuration and counters stay.
pub start_wifi-Started :
    (mac : Mac) (d : Device)
    → (w : HasWifi d.config)
    → ((d' : Device) × (start_wifi_ap d ≡ some d')
        × Started true false false (ap_calls w.ap_ssid w.ap_password) d d')
      × ((d' : Device) × (start_wifi_sta true mac d ≡ some d')
          × Started false true false (sta_calls w.sta_ssid w.sta_password) d d')
unfolding start_wifi_ap start_wifi_sta sleep_timer_on radio
start_wifi-Started mac d w =
    let (name, named, short, front) = host_name-fits w.ap_ssid mac in
    (
      rw (w.ap_ssid_read, w.ap_password_read)
          (
            _,
            refl,
            record {
              radio_calls = refl;
              ap_mode = refl;
              sta_mode = refl;
              both_modes = refl;
              restart = refl;
              config = refl;
              counter = refl;
            },
          ),
      rw (w.ap_ssid_read, named, w.sta_ssid_read, w.sta_password_read)
          (
            _,
            refl,
            record {
              radio_calls = refl;
              ap_mode = refl;
              sta_mode = refl;
              both_modes = refl;
              restart = refl;
              config = refl;
              counter = refl;
            },
          ),
    )
