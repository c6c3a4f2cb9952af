-- ===== src/Examples/Storage.antt =====
-- The configuration's theorems on the sample configuration.
use watermeter.Base.{
  ℕ, ◌≡◌, refl, true, false, List, [], ◌++◌, some, none, arith, length, ◌+◌, take, drop,
}
use watermeter.Base.Bytes.{u32_at, bytes_of_u32}
use watermeter.Base.CString.{c_string, strcpy}
use watermeter.Config.{set_config, copy_chars}
use watermeter.Config.Crc.{crc_update, crc_loop, crc_byte, crc_nibble}
use watermeter.Config.Layout.{sizeof_config, encode, decode, IsSized}
use watermeter.Config.Flash.{read_flash_config, write_flash_config, config_address}
use watermeter.Config.Storage.{
  Media, Loaded, read_config, save_config, remove_config, install, unread,
}
use watermeter.Config.Persist.{LoadedAs, read_config-save_config_sd}
use watermeter.Config.Settle.{Settled}
use watermeter.Config.Refuse.{read_config-Settled, read_config-checked, read_config-remove_config}
use watermeter.Examples.{
  one_sector, one_sector-ReadsBack, one_file, one_file-ReadsBack, sample_config, sample_view,
  sample-Represents, sample-WordsFit, media_flash, media_card,
}

sample-IsSized : IsSized sample_config
sample-IsSized = record {
  web_admin_login = refl;
  web_admin_password = refl;
  sta_ssid = refl;
  sta_password = refl;
  ap_ssid = refl;
  ap_password = refl;
  mqtt_broker = refl;
  mqtt_user = refl;
  mqtt_password = refl;
  mqtt_topic = refl;
  ntp_server_name = refl;
  hot_time = omega arith;
  hot_water = omega arith;
  cold_time = omega arith;
  cold_water = omega arith;
}

written_size : length (encode sample_config) ≡ sizeof_config
unfolding encode bytes_of_u32
written_size = refl

read_config-save_config_sd_example : LoadedAs one_sector one_file sample_view (
    read_config one_sector one_file false false sample_config
      (save_config one_sector one_file false sample_config media_card))
read_config-save_config_sd_example =
    read_config-save_config_sd one_sector one_file one_file-ReadsBack false false sample_config
      sample_config sample_view media_card (some []) refl sample-Represents sample-WordsFit refl
      written_size

read_config-remove_config_example :
    (l : Loaded one_sector one_file) × (read_config one_sector one_file true true sample_config
        (remove_config one_sector one_file true true media_flash)
      ≡ some l)
    × (l.ok ≡ false)
    × (l.config ≡ sample_config)
unfolding write_flash_config
read_config-remove_config_example =
    read_config-remove_config one_sector one_file one_sector-ReadsBack (λ d. refl) true
      sample_config media_flash refl

-- The flash after the sample was saved.
abbrev saved_bytes : List ℕ
saved_bytes = encode sample_config ++ bytes_of_u32 (crc_update (encode sample_config) sizeof_config)

abbrev media_saved : Media one_sector one_file
media_saved = record { sd_ok = false; disk = none; flash = saved_bytes }

abbrev loaded : Loaded one_sector one_file
loaded = record { ok = true; config = sample_config; sta_configure = true; media = media_saved }

load_saved : read_config one_sector one_file true false sample_config media_saved ≡ some loaded
unfolding read_config install unread read_flash_config set_config copy_chars c_string strcpy encode
    decode bytes_of_u32 u32_at crc_update crc_loop crc_byte crc_nibble
load_saved = refl

read_config-Settled_example :
    Settled one_sector one_file true false sample_config media_saved loaded
read_config-Settled_example =
    read_config-Settled one_sector one_file true false sample_config media_saved loaded load_saved

read_config-checked_example :
    let buf = (one_sector.read config_address (sizeof_config + 4) saved_bytes).1 in
    (crc_update (take sizeof_config buf) sizeof_config ≡ u32_at (drop sizeof_config buf) 0)
    × (set_config (decode (take sizeof_config buf)) ≡ some sample_config)
read_config-checked_example =
    read_config-checked one_sector one_file false sample_config media_saved loaded refl load_saved
      refl
