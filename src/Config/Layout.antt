-- ===== src/Config/Layout.antt =====
-- The bytes of a `_config`, as the compiler lays the struct of include/wm_config.h out: 261 bytes of
-- chars, bools and small integers, three of padding, and four little-endian words.
use watermeter.Base.{ℕ, ◌^◌, ◌<◌, ◌≡◌, refl, Bool, true, false, not, List, [], ◌∷◌, ◌++◌, arith}
use watermeter.Base.{◌==◌, length, take, drop, get_or, take-chunk, drop-chunk, length-append}
use watermeter.Base.Bytes.{bytes_of_u32, u32_at, length-bytes_of_u32, u32_at-bytes_of_u32}
use watermeter.Config.{Config}

abbrev pub sizeof_config : ℕ
sizeof_config = 280

abbrev pub byte_of_bool : Bool → ℕ
byte_of_bool true = 1
byte_of_bool false = 0

abbrev pub bool_of_byte : ℕ → Bool
bool_of_byte b = not (b == 0)

encode_words : Config → List ℕ
encode_words c =
    bytes_of_u32 c.hot_time
    ++ (bytes_of_u32 c.hot_water ++ (bytes_of_u32 c.cold_time ++ (bytes_of_u32 c.cold_water ++ [])))

encode_small : Config → List ℕ
encode_small c = c.time_zone ∷ c.liters_per_pulse ∷ 0 ∷ 0 ∷ 0 ∷ []

-- `(uint8 *) &wmConfig`, for `sizeof(_config)` bytes.
unfoldable pub encode : Config → List ℕ
unfolding encode_words encode_small
encode c =
    c.web_admin_login
    ++ (c.web_admin_password
        ++ ((byte_of_bool c.full_security ∷ byte_of_bool c.config_security ∷ [])
            ++ (c.sta_ssid
                ++ (c.sta_password
                    ++ ((byte_of_bool c.ap_mode ∷ [])
                        ++ (c.ap_ssid
                            ++ (c.ap_password
                                ++ (c.mqtt_broker
                                    ++ (c.mqtt_user
                                        ++ (c.mqtt_password
                                            ++ (c.mqtt_topic
                                                ++ (c.ntp_server_name
                                                    ++ (encode_small c
                                                        ++ encode_words c)))))))))))))

-- The struct that a buffer of `sizeof(_config)` bytes is read as.
unfoldable pub decode : List ℕ → Config
decode b0 =
    let b1 = drop 16 b0 in
    let b2 = drop 16 b1 in
    let b3 = drop 2 b2 in
    let b4 = drop 16 b3 in
    let b5 = drop 16 b4 in
    let b6 = drop 1 b5 in
    let b7 = drop 16 b6 in
    let b8 = drop 16 b7 in
    let b9 = drop 32 b8 in
    let b10 = drop 16 b9 in
    let b11 = drop 16 b10 in
    let b12 = drop 64 b11 in
    let b13 = drop 32 b12 in
    let b14 = drop 5 b13 in
    let b15 = drop 4 b14 in
    let b16 = drop 4 b15 in
    let b17 = drop 4 b16 in
    record {
      web_admin_login = take 16 b0;
      web_admin_password = take 16 b1;
      full_security = bool_of_byte (get_or (take 2 b2) 0 0);
      config_security = bool_of_byte (get_or (take 2 b2) 1 0);
      sta_ssid = take 16 b3;
      sta_password = take 16 b4;
      ap_mode = bool_of_byte (get_or (take 1 b5) 0 0);
      ap_ssid = take 16 b6;
      ap_password = take 16 b7;
      mqtt_broker = take 32 b8;
      mqtt_user = take 16 b9;
      mqtt_password = take 16 b10;
      mqtt_topic = take 64 b11;
      ntp_server_name = take 32 b12;
      time_zone = get_or (take 5 b13) 0 0;
      liters_per_pulse = get_or (take 5 b13) 1 0;
      hot_time = u32_at (take 4 b14) 0;
      hot_water = u32_at (take 4 b15) 0;
      cold_time = u32_at (take 4 b16) 0;
      cold_water = u32_at (take 4 b17) 0;
    }

-- Every array has the size of its member, and the words fit 32 bits.
pub record IsSized (c : Config) : Type 0 where
  pub web_admin_login : length c.web_admin_login ≡ 16
  pub web_admin_password : length c.web_admin_password ≡ 16
  pub sta_ssid : length c.sta_ssid ≡ 16
  pub sta_password : length c.sta_password ≡ 16
  pub ap_ssid : length c.ap_ssid ≡ 16
  pub ap_password : length c.ap_password ≡ 16
  pub mqtt_broker : length c.mqtt_broker ≡ 32
  pub mqtt_user : length c.mqtt_user ≡ 16
  pub mqtt_password : length c.mqtt_password ≡ 16
  pub mqtt_topic : length c.mqtt_topic ≡ 64
  pub ntp_server_name : length c.ntp_server_name ≡ 32
  pub hot_time : c.hot_time < 2 ^ 32
  pub hot_water : c.hot_water < 2 ^ 32
  pub cold_time : c.cold_time < 2 ^ 32
  pub cold_water : c.cold_water < 2 ^ 32

bool_of_byte-byte_of_bool : (b : Bool) → bool_of_byte (byte_of_bool b) ≡ b
bool_of_byte-byte_of_bool true = refl
bool_of_byte-byte_of_bool false = refl

pub length-encode : (c : Config) → IsSized c → length (encode c) ≡ sizeof_config
unfolding encode bytes_of_u32
length-encode c s = simp (length-append {A = ℕ}) (omega arith)

-- Reading the bytes of a struct gives the struct back.
pub decode-encode : (c : Config) → IsSized c → decode (encode c) ≡ c
unfolding encode decode
decode-encode c s = simp (
  take-chunk c.web_admin_login s.web_admin_login,
  drop-chunk c.web_admin_login s.web_admin_login,
  take-chunk c.web_admin_password s.web_admin_password,
  drop-chunk c.web_admin_password s.web_admin_password,
  take-chunk c.sta_ssid s.sta_ssid,
  drop-chunk c.sta_ssid s.sta_ssid,
  take-chunk c.sta_password s.sta_password,
  drop-chunk c.sta_password s.sta_password,
  take-chunk c.ap_ssid s.ap_ssid,
  drop-chunk c.ap_ssid s.ap_ssid,
  take-chunk c.ap_password s.ap_password,
  drop-chunk c.ap_password s.ap_password,
  take-chunk c.mqtt_broker s.mqtt_broker,
  drop-chunk c.mqtt_broker s.mqtt_broker,
  take-chunk c.mqtt_user s.mqtt_user,
  drop-chunk c.mqtt_user s.mqtt_user,
  take-chunk c.mqtt_password s.mqtt_password,
  drop-chunk c.mqtt_password s.mqtt_password,
  take-chunk c.mqtt_topic s.mqtt_topic,
  drop-chunk c.mqtt_topic s.mqtt_topic,
  take-chunk c.ntp_server_name s.ntp_server_name,
  drop-chunk c.ntp_server_name s.ntp_server_name,
  take-chunk (bytes_of_u32 c.hot_time) (length-bytes_of_u32 c.hot_time),
  drop-chunk (bytes_of_u32 c.hot_time) (length-bytes_of_u32 c.hot_time),
  u32_at-bytes_of_u32 c.hot_time s.hot_time,
  take-chunk (bytes_of_u32 c.hot_water) (length-bytes_of_u32 c.hot_water),
  drop-chunk (bytes_of_u32 c.hot_water) (length-bytes_of_u32 c.hot_water),
  u32_at-bytes_of_u32 c.hot_water s.hot_water,
  take-chunk (bytes_of_u32 c.cold_time) (length-bytes_of_u32 c.cold_time),
  drop-chunk (bytes_of_u32 c.cold_time) (length-bytes_of_u32 c.cold_time),
  u32_at-bytes_of_u32 c.cold_time s.cold_time,
  take-chunk (bytes_of_u32 c.cold_water) (length-bytes_of_u32 c.cold_water),
  drop-chunk (bytes_of_u32 c.cold_water) (length-bytes_of_u32 c.cold_water),
  u32_at-bytes_of_u32 c.cold_water s.cold_water,
  bool_of_byte-byte_of_bool c.full_security,
  bool_of_byte-byte_of_bool c.config_security,
  bool_of_byte-byte_of_bool c.ap_mode,
)
