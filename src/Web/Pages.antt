-- ===== src/Web/Pages.antt =====
-- What `tplToken` sends fits its buffer, and shows the readings.
use watermeter.Base.{
  ℕ, ◌+◌, ◌-◌, ◌*◌, ◌/◌, ◌%◌, ◌^◌, ◌≤◌, ◌<◌, ◌≡◌, refl, ap, ◌∙◌, arith, Bool, true, false, List,
  Option, some, none,
}
use watermeter.Base.{length, if◌then◌else◌}
use watermeter.Base.Text.{Text, codes}
use watermeter.Base.CString.{◌>>=◌, sprintf, decimal, str_eq, strtoul}
use watermeter.Base.CString.Chars.{Holds, c_string_sound}
use watermeter.Base.CString.Decimal.{length-decimal}
use watermeter.Config.Valid.{View, Represents}
use watermeter.Device.{Device}
use watermeter.Main.Total.{Returns, Returns->>=}
use watermeter.Mqtt.Message.{strtoul-decimal_end}
use watermeter.Utils.{get_voltage}
use watermeter.Utils.Print.{sprintf-fits, get_voltage-fits}
use watermeter.Utils.Status.{get_rssi-fits, local_up_time-fits, signed_decimal}
use watermeter.Web.Template.{
  Token, Answers, find_token, tokens, put, put_array, tpl_text, tpl_found, tpl_token, first_name,
  last_name, platform, module_name, version, heap, uptime, volt, rssi, local_clock, admin_login,
  admin_password, wifi_ap_name, wifi_ap_password, wifi_sta_name, wifi_sta_password, shown_mqtt_user,
  shown_mqtt_password, shown_mqtt_broker, shown_mqtt_topic, ntp_server, shown_full_security,
  shown_config_security, wifi_sta_mode, wifi_ap_mode, shown_time_zone, shown_hot_water,
  shown_cold_water, shown_liters_per_pulse, hot_whole, hot_fract, cold_whole, cold_fract, upg_file,
}

put-Returns : (s : Text) → length s < 128 → Returns (put s)
put-Returns s h = (s, sprintf-fits 128 s h)

put_array-Returns : (n : ℕ) (x : List ℕ) (s : Text) → n ≤ 128 → Holds n x s → Returns (put_array x)
put_array-Returns n x s fits h =
    let (short, nonzero) = c_string_sound x s h.read in
    rw h.read (put-Returns s (omega (arith, h.sized)))

put-decimal-Returns : (n : ℕ) → Returns (put (decimal n))
put-decimal-Returns n = put-Returns (decimal n) (omega (arith, length-decimal n))

length-signed_decimal_ten : (w n : ℕ) → length (signed_decimal w n) ≤ 11
unfolding signed_decimal
length-signed_decimal_ten w n = ground (arith, length-decimal n, length-decimal (2 ^ w - n))

-- The numbers that the SDK answers are in the ranges of their types, and the text of the time is, as
-- documented, that of `asctime`: 24 characters and the end of the line.
pub record InRange (a : Answers) : Type 0 where
  pub ms : a.ms < 2 ^ 32
  pub vcc : a.vcc < 2 ^ 16
  pub signal : a.signal < 256
  pub real_time : length a.real_time ≤ 25

choice-Returns :
    (b : Bool) (s t : Text) → length s < 128 → length t < 128 → Returns (put (if b then s else t))
choice-Returns true s t p q = put-Returns s p
choice-Returns false s t p q = put-Returns t q

sprintf-length : (n : ℕ) (x s : Text) → sprintf n x ≡ some s → length s < n
unfolding sprintf
sprintf-length n x s h = ground arith

get_voltage-length : (vcc : ℕ) (s : Text) → get_voltage vcc ≡ some s → length s < 18
unfolding get_voltage
get_voltage-length vcc s h = sprintf-length 18 _ s h

voltage-Returns : (vcc : ℕ) → vcc < 2 ^ 16 → Returns (get_voltage vcc >>= λ s. put s)
voltage-Returns vcc h =
    Returns->>= (get_voltage vcc) _ (get_voltage-fits vcc h)
      (λ s e. put-Returns s (omega (arith, get_voltage-length vcc s e)))

bounded-Returns :
    (m : Option Text) → (s : Text) × (m ≡ some s) × (length s < 18) → Returns (m >>= λ s. put s)
bounded-Returns m (s, e, short) = rw e (put-Returns s (omega (arith, short)))

tpl_text-Returns :
    (a : Answers) (d : Device) (v : View) (t : Token)
    → InRange a
    → Represents d.config v
    → Returns (tpl_text a d t)
unfolding tpl_text
tpl_text-Returns a d v first_name r c = put-Returns _ (omega arith)
tpl_text-Returns a d v last_name r c = put-Returns _ (omega arith)
tpl_text-Returns a d v platform r c = put-Returns _ (omega arith)
tpl_text-Returns a d v module_name r c = put-Returns _ (omega arith)
tpl_text-Returns a d v version r c = put-Returns _ (omega arith)
tpl_text-Returns a d v heap r c =
    put-Returns _ (omega (arith, length-signed_decimal_ten 32 a.heap_size))
tpl_text-Returns a d v uptime r c = bounded-Returns _ (local_up_time-fits a.stamp a.ms d r.ms)
tpl_text-Returns a d v volt r c = voltage-Returns a.vcc r.vcc
tpl_text-Returns a d v rssi r c = bounded-Returns _ (get_rssi-fits a.signal r.signal)
tpl_text-Returns a d v local_clock r c = put-Returns _ (omega (arith, r.real_time))
tpl_text-Returns a d v admin_login r c = put_array-Returns 16 _ _ (omega arith) c.web_admin_login
tpl_text-Returns a d v admin_password r c =
    put_array-Returns 16 _ _ (omega arith) c.web_admin_password
tpl_text-Returns a d v wifi_ap_name r c = put_array-Returns 16 _ _ (omega arith) c.ap_ssid
tpl_text-Returns a d v wifi_ap_password r c = put_array-Returns 16 _ _ (omega arith) c.ap_password
tpl_text-Returns a d v wifi_sta_name r c = put_array-Returns 16 _ _ (omega arith) c.sta_ssid
tpl_text-Returns a d v wifi_sta_password r c = put_array-Returns 16 _ _ (omega arith) c.sta_password
tpl_text-Returns a d v shown_mqtt_user r c = put_array-Returns 16 _ _ (omega arith) c.mqtt_user
tpl_text-Returns a d v shown_mqtt_password r c =
    put_array-Returns 16 _ _ (omega arith) c.mqtt_password
tpl_text-Returns a d v shown_mqtt_broker r c = put_array-Returns 32 _ _ (omega arith) c.mqtt_broker
tpl_text-Returns a d v shown_mqtt_topic r c = put_array-Returns 64 _ _ (omega arith) c.mqtt_topic
tpl_text-Returns a d v ntp_server r c = put_array-Returns 32 _ _ (omega arith) c.ntp_server_name
tpl_text-Returns a d v shown_full_security r c = (_, refl)
tpl_text-Returns a d v shown_config_security r c = (_, refl)
tpl_text-Returns a d v wifi_sta_mode r c = (_, refl)
tpl_text-Returns a d v wifi_ap_mode r c = (_, refl)
tpl_text-Returns a d v shown_time_zone r c =
    put-Returns _ (omega (arith, length-signed_decimal_ten 8 d.config.time_zone))
tpl_text-Returns a d v shown_hot_water r c = put-decimal-Returns _
tpl_text-Returns a d v shown_cold_water r c = put-decimal-Returns _
tpl_text-Returns a d v shown_liters_per_pulse r c = put-decimal-Returns _
tpl_text-Returns a d v hot_whole r c = put-decimal-Returns _
tpl_text-Returns a d v hot_fract r c = put-decimal-Returns _
tpl_text-Returns a d v cold_whole r c = put-decimal-Returns _
tpl_text-Returns a d v cold_fract r c = put-decimal-Returns _
tpl_text-Returns a d v upg_file r c = choice-Returns a.user1 _ _ (omega arith) (omega arith)

-- A page of a device with a valid configuration never overruns `buff[128]`, nor `buff[18]` of the
-- functions it calls, whatever names its template has in it, where the numbers that the SDK answers are
-- in the ranges of their types (time of 32, voltage of 16, signal of 8 bits), and its text of the time
-- has at most the 25 characters of `asctime`.
pub tpl_token-total :
    (a : Answers) (d : Device) (v : View) (name : Text)
    → InRange a
    → Represents d.config v
    → (s : Text) × (tpl_token a d name ≡ some s)
unfolding tpl_token
tpl_token-total a d v name r c = found (find_token tokens name)
  where
    found : (o : Option Token) → Returns (tpl_found a d o)
    found none = (codes "Unknown", refl)
    found (some token) = tpl_text-Returns a d v token r c

printed : (n : ℕ) → put (decimal n) ≡ some (decimal n)
printed n = sprintf-fits 128 (decimal n) (omega (arith, length-decimal n))

whole_and_fract :
    find_token tokens (codes "hotwhole") ≡ some hot_whole
    × find_token tokens (codes "hotfract") ≡ some hot_fract
unfolding find_token str_eq
whole_and_fract = (refl, refl)

-- The two numbers that a page shows for hot water, cubic metres and litres, make up the reading.
tpl_token-hot_water :
    (a : Answers) (d : Device)
    → d.config.hot_water < 2 ^ 32
    → (whole fract : Text) × (tpl_token a d (codes "hotwhole") ≡ some whole)
      × (tpl_token a d (codes "hotfract") ≡ some fract)
      × (strtoul whole * 1000 + strtoul fract ≡ d.config.hot_water)
unfolding tpl_token tpl_text
tpl_token-hot_water a d small =
    let whole = d.config.hot_water / 1000 in
    let fract = d.config.hot_water % 1000 in
    (
      decimal whole,
      decimal fract,
      ap (tpl_found a d) whole_and_fract.0 ∙ printed whole,
      ap (tpl_found a d) whole_and_fract.1 ∙ printed fract,
      rw (strtoul-decimal_end whole (omega arith), strtoul-decimal_end fract (omega arith))
          (omega arith),
    )
