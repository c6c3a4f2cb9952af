-- ===== src/Web/Form.antt =====
-- The loop of `htmlSettings` over the arguments of the request.
use watermeter.Base.{
  ℕ, ◌-◌, ◌%◌, ◌^◌, min, Bool, true, false, List, [], ◌∷◌, ◌++◌, Option, some, none,
}
use watermeter.Base.{length, drop, leb, ◌==◌, if◌then◌else◌}
use watermeter.Base.Text.{Text, codes}
use watermeter.Base.CString.{◌>>=◌, strcpy, strstr, strtoul, contains, skip_spaces, scan_digits}
use watermeter.Config.{Config, clear_config, local_time}
use watermeter.Device.{Device}

-- `strtok` with "&": the pieces that are not empty. `piece` is the one that is being read, reversed.
abbrev pub add_piece : Text → List Text → List Text
add_piece [] pieces = pieces
add_piece (c ∷ s) pieces = (c ∷ s) ∷ pieces

unfoldable pub strtok : Text → Text → List Text
strtok piece [] = add_piece piece []
strtok piece (c ∷ s) = elim (c == 38) [
  | true ↦ add_piece piece (strtok [] s)
  | false ↦ strtok (piece ++ (c ∷ [])) s
]

-- What is looked for in a piece.
pub data Field : Type 0 where
  login password full_security config_security wifi_mode : Field
  ap_name ap_pass sta_name sta_pass : Field
  mqtt_user mqtt_pass mqtt_broker mqtt_topic serv_ntp gmt_zone : Field
  hotw coldw countw reboot defconfig set_conf : Field

-- In this order.
abbrev pub fields : List (Text × Field)
fields =
    (codes "login", login)
    ∷ (codes "password", password)
    ∷ (codes "fullsecurity", full_security)
    ∷ (codes "configsecurity", config_security)
    ∷ (codes "wifi-mode", wifi_mode)
    ∷ (codes "wifi-ap-name", ap_name)
    ∷ (codes "wifi-ap-pass", ap_pass)
    ∷ (codes "wifi-sta-name", sta_name)
    ∷ (codes "wifi-sta-pass", sta_pass)
    ∷ (codes "mqtt-user", mqtt_user)
    ∷ (codes "mqtt-pass", mqtt_pass)
    ∷ (codes "mqtt-broker", mqtt_broker)
    ∷ (codes "mqtt-topic", mqtt_topic)
    ∷ (codes "serv-ntp", serv_ntp)
    ∷ (codes "gmt-zone", gmt_zone)
    ∷ (codes "hotw", hotw)
    ∷ (codes "coldw", coldw)
    ∷ (codes "countw", countw)
    ∷ (codes "reboot", reboot)
    ∷ (codes "defconfig", defconfig)
    ∷ (codes "set-conf", set_conf)
    ∷ []

-- The first name that stands anywhere in the piece, and the piece from there on.
unfoldable pub find_field : List (Text × Field) → Text → Option (Field × Text)
find_field [] p = none
find_field ((name, field) ∷ more) p =
    let rest = find_field more p in
    elim (strstr p name) [ none ↦ rest | some arg ↦ some (field, arg) ]

-- `arg += n`; `none` where that is behind the end of the string.
unfoldable pub skip : ℕ → Text → Option Text
skip n arg = if leb n (length arg) then some (drop n arg) else none

-- The low byte of `atoi`.
atoi_signed : Text → ℕ
atoi_signed [] = 0
atoi_signed (c ∷ s) =
    if c == 45
    then (2 ^ 32 - min (scan_digits 0 s) (2 ^ 31)) % 256
    else if c == 43
    then min (scan_digits 0 s) (2 ^ 31 - 1) % 256
    else min (scan_digits 0 (c ∷ s)) (2 ^ 31 - 1) % 256

unfoldable pub atoi_byte : Text → ℕ
unfolding atoi_signed
atoi_byte s = atoi_signed (skip_spaces s)

-- The local `config`, and the globals that the loop sets.
pub record Form : Type 0 where
  pub config : Config
  pub reboot_now : Bool
  pub default_config : Bool
  pub save_new_config : Bool

-- `now` is `localTimeT()`.
unfoldable pub apply_field : ℕ → Field → Text → Form → Option Form
apply_field now login arg f = do
  a ← skip 6 arg
  v ← strcpy f.config.web_admin_login a
  some (record f { config = record (f.config) { web_admin_login = v } })
apply_field now password arg f = do
  a ← skip 9 arg
  v ← strcpy f.config.web_admin_password a
  some (record f { config = record (f.config) { web_admin_password = v } })
apply_field now full_security arg f = some (
    if contains arg (codes "true")
    then record f { config = record (f.config) { full_security = true } }
    else f)
apply_field now config_security arg f = some (
    if contains arg (codes "true")
    then record f { config = record (f.config) { config_security = true } }
    else f)
apply_field now wifi_mode arg f =
    let f1 =
      if contains arg (codes "station")
      then record f { config = record (f.config) { ap_mode = false } }
      else f in
    some (
      if contains arg (codes "ap")
      then record f1 { config = record (f1.config) { ap_mode = true } }
      else f1)
apply_field now ap_name arg f = do
  a ← skip 13 arg
  v ← strcpy f.config.ap_ssid a
  some (record f { config = record (f.config) { ap_ssid = v } })
apply_field now ap_pass arg f = do
  a ← skip 13 arg
  v ← strcpy f.config.ap_password a
  some (record f { config = record (f.config) { ap_password = v } })
apply_field now sta_name arg f = do
  a ← skip 14 arg
  v ← strcpy f.config.sta_ssid a
  some (record f { config = record (f.config) { sta_ssid = v } })
apply_field now sta_pass arg f = do
  a ← skip 14 arg
  v ← strcpy f.config.sta_password a
  some (record f { config = record (f.config) { sta_password = v } })
apply_field now mqtt_user arg f = do
  a ← skip 10 arg
  v ← strcpy f.config.mqtt_user a
  some (record f { config = record (f.config) { mqtt_user = v } })
apply_field now mqtt_pass arg f = do
  a ← skip 10 arg
  v ← strcpy f.config.mqtt_password a
  some (record f { config = record (f.config) { mqtt_password = v } })
apply_field now mqtt_broker arg f = do
  a ← skip 12 arg
  v ← strcpy f.config.mqtt_broker a
  some (record f { config = record (f.config) { mqtt_broker = v } })
apply_field now mqtt_topic arg f = do
  a ← skip 11 arg
  v ← strcpy f.config.mqtt_topic a
  some (record f { config = record (f.config) { mqtt_topic = v } })
apply_field now serv_ntp arg f = do
  a ← skip 9 arg
  v ← strcpy f.config.ntp_server_name a
  some (record f { config = record (f.config) { ntp_server_name = v } })
apply_field now gmt_zone arg f = do
  a ← skip 9 arg
  some (record f { config = record (f.config) { time_zone = atoi_byte a } })
apply_field now hotw arg f = do
  a ← skip 5 arg
  some (record f { config = record (f.config) { hot_time = now; hot_water = strtoul a } })
apply_field now coldw arg f = do
  a ← skip 6 arg
  some (record f { config = record (f.config) { cold_time = now; cold_water = strtoul a } })
apply_field now countw arg f = do
  a ← skip 7 arg
  some (record f { config = record (f.config) { liters_per_pulse = atoi_byte a } })
apply_field now reboot arg f = some (record f { reboot_now = true })
apply_field now defconfig arg f = some (record f { default_config = true })
apply_field now set_conf arg f =
    some (if contains arg (codes "set") then record f { save_new_config = true } else f)

abbrev pub apply_found : ℕ → Option (Field × Text) → Form → Option Form
apply_found now none f = some f
apply_found now (some (field, arg)) f = apply_field now field arg f

unfoldable pub apply_piece : ℕ → Text → Form → Option Form
apply_piece now p f = apply_found now (find_field fields p) f

unfoldable pub apply_pieces : ℕ → List Text → Form → Option Form
apply_pieces now [] f = some f
apply_pieces now (p ∷ ps) f = apply_piece now p f >>= λ f1. apply_pieces now ps f1

-- The whole loop, from the cleared configuration and the globals of the device on.
unfoldable pub read_form : ℕ → Text → Device → Option Form
unfolding clear_config
read_form stamp args d = apply_pieces (local_time stamp d.config) (strtok [] args) (record {
  config = clear_config;
  reboot_now = d.flags.reboot_now;
  default_config = d.flags.default_config;
  save_new_config = d.flags.save_new_config;
})
