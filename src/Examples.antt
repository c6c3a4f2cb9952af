-- ===== src/Examples.antt =====
-- A flash, a card, a configuration and a device to run the functions on.
mod Storage
mod Meter
mod Restart
mod Net
mod Forms
mod Upload
mod SdCard
mod Buses
use watermeter.Base.{
  ℕ, ◌≡◌, refl, Bool, true, false, List, [], ◌∷◌, ◌++◌, Option, some, none, arith,
}
use watermeter.Base.{
  ◌==◌, if◌then◌else◌, Bool-cases, ◌*◌, inl, inr, length, take, min, take-length, replicate,
}
use watermeter.Base.Text.{codes}
use watermeter.Base.CString.{c_string}
use watermeter.Config.{Config}
use watermeter.Config.Valid.{View, Represents, default_view}
use watermeter.Config.Flash.{SpiFlash, ReadsBack, flash_ok}
use watermeter.Config.Storage.{FatLibrary, Media}
use watermeter.Utils.InitData.{init_data_pos, adc_tout}
use watermeter.Config.Persist.{WordsFit, FatReadsBack}
use watermeter.Device.{Device, Flags, WaterCounter}
use watermeter.Counter.{debounce_start}
use watermeter.Utils.{Mac}

-- One sector, which is written where it was erased.
abbrev pub write_erased : List ℕ → List ℕ → ℕ × List ℕ
write_erased bytes [] = (flash_ok, bytes)
write_erased bytes (b ∷ old) = (1, b ∷ old)

abbrev pub one_sector : SpiFlash
one_sector = record {
  State = List ℕ;
  erase_sector = λ sector s. [];
  write = λ address bytes s. write_erased bytes s;
  read = λ address n s. (flash_ok, take n s);
}

pub one_sector-ReadsBack : ReadsBack one_sector
one_sector-ReadsBack s sector bytes n fits within written = refl

-- Two sectors, which are written where they were erased: the initial data of the SDK, and another.
abbrev is_init_data : ℕ → Bool
is_init_data address = address == init_data_pos * 4096

abbrev pub two_sectors : SpiFlash
two_sectors = record {
  State = List ℕ × List ℕ;
  erase_sector = λ sector s. if is_init_data (sector * 4096) then (s.0, []) else ([], s.1);
  write = λ address bytes s.
      if is_init_data address
      then (let (ret, sector) = write_erased bytes s.1 in (ret, (s.0, sector)))
      else (let (ret, sector) = write_erased bytes s.0 in (ret, (sector, s.1)));
  read = λ address n s. (flash_ok, take n (if is_init_data address then s.1 else s.0));
}

pub two_sectors-ReadsBack : ReadsBack two_sectors
two_sectors-ReadsBack s sector bytes n fits within written =
    elim (Bool-cases (is_init_data (sector * 4096))) [
      | inl initial ↦ rw initial refl
      | inr other ↦ rw other refl
    ]

-- A card with at most one file.
abbrev pub is_there : Option (List ℕ) → Bool
is_there none = false
is_there (some bytes) = true

abbrev pub read_file : ℕ → Option (List ℕ) → ℕ × List ℕ
read_file n none = (0, [])
read_file n (some bytes) = (min n (length bytes), take n bytes)

abbrev pub one_file : FatLibrary
one_file = record {
  Disk = Option (List ℕ);
  open_read = is_there;
  open_write = λ d. some (some []);
  read = read_file;
  write = λ bytes d. (length bytes, some bytes);
  close = λ d. d;
  remove = λ d. none;
}

pub one_file-ReadsBack : FatReadsBack one_file
one_file-ReadsBack d d1 bytes opened written =
    let e : min (length bytes) (length bytes) ≡ length bytes = omega arith in
    (refl, rw (e, take-length bytes) refl)

abbrev pub sample_config : Config
sample_config = record {
  web_admin_login = codes "Admin" ++ replicate 11 0;
  web_admin_password = codes "1111" ++ replicate 12 0;
  full_security = false;
  config_security = true;
  sta_ssid = codes "Home" ++ replicate 12 0;
  sta_password = codes "secret" ++ replicate 10 0;
  ap_mode = false;
  ap_ssid = codes "WaterMeter_v3.0" ++ replicate 1 0;
  ap_password = codes "12345678" ++ replicate 8 0;
  mqtt_broker = codes "192.168.1.1" ++ replicate 21 0;
  mqtt_user = codes "test" ++ replicate 12 0;
  mqtt_password = codes "1111" ++ replicate 12 0;
  mqtt_topic = codes "WaterMeter" ++ replicate 54 0;
  ntp_server_name = codes "ntp4.stratum2.ru" ++ replicate 16 0;
  time_zone = 3;
  liters_per_pulse = 10;
  hot_time = 1600000000;
  hot_water = 12340;
  cold_time = 1600000000;
  cold_water = 56780;
}

abbrev pub sample_view : View
sample_view = record {
  web_admin_login = codes "Admin";
  web_admin_password = codes "1111";
  full_security = false;
  config_security = true;
  sta_ssid = codes "Home";
  sta_password = codes "secret";
  ap_mode = false;
  ap_ssid = codes "WaterMeter_v3.0";
  ap_password = codes "12345678";
  mqtt_broker = codes "192.168.1.1";
  mqtt_user = codes "test";
  mqtt_password = codes "1111";
  mqtt_topic = codes "WaterMeter";
  ntp_server_name = codes "ntp4.stratum2.ru";
  time_zone = 3;
  liters_per_pulse = 10;
  hot_time = 1600000000;
  hot_water = 12340;
  cold_time = 1600000000;
  cold_water = 56780;
}

pub sample-Represents : Represents sample_config sample_view
unfolding c_string
sample-Represents = record {
  web_admin_login = record { sized = refl; read = refl };
  web_admin_password = record { sized = refl; read = refl };
  full_security = refl;
  config_security = refl;
  sta_ssid = record { sized = refl; read = refl };
  sta_password = record { sized = refl; read = refl };
  ap_mode = refl;
  ap_ssid = record { sized = refl; read = refl };
  ap_password = record { sized = refl; read = refl };
  mqtt_broker = record { sized = refl; read = refl };
  mqtt_user = record { sized = refl; read = refl };
  mqtt_password = record { sized = refl; read = refl };
  mqtt_topic = record { sized = refl; read = refl };
  ntp_server_name = record { sized = refl; read = refl };
  time_zone = refl;
  liters_per_pulse = refl;
  hot_time = refl;
  hot_water = refl;
  cold_time = refl;
  cold_water = refl;
}

pub sample-WordsFit : WordsFit sample_view
sample-WordsFit = (omega arith, omega arith, omega arith, omega arith)

abbrev pub media_flash : Media one_sector one_file
media_flash = record { sd_ok = false; disk = none; flash = [] }

abbrev pub media_card : Media one_sector one_file
media_card = record { sd_ok = true; disk = none; flash = [] }

abbrev pub media_two : Media two_sectors one_file
media_two = record { sd_ok = false; disk = none; flash = ([], replicate 4096 adc_tout) }

abbrev pub sample_mac : Mac
sample_mac = record { m0 = 0x5c; m1 = 0xcf; m2 = 0x7f; m3 = 0x01; m4 = 0xa2; m5 = 0xb3 }

abbrev pub sample_flags : Flags
sample_flags = record {
  reboot_now = false;
  restart_wifi = false;
  sleep_now = false;
  dont_sleep = true;
  power_low = false;
  ap_mode_now = false;
  sta_mode_now = true;
  sta_ap_mode_now = false;
  sta_configure = true;
  default_config = false;
  save_new_config = false;
  first_start = false;
  response_ntp = true;
  mqtt_restart = false;
  mqtt_first_start = true;
  mqtt_connected = true;
  subs_hot_water = false;
  subs_cold_water = true;
  first_ntp = false;
  sd_ok = false;
  display_write = false;
}

abbrev pub sample_device : Device
sample_device = record {
  flags = sample_flags;
  config = sample_config;
  counter = record { status = 3; status_old = 3; counter_hot_water = 0; counter_cold_water = 0 };
  debounce = debounce_start;
  time_start = 1600000000;
  trace = [];
}

abbrev pub media_card_two : Media two_sectors one_file
media_card_two = record { sd_ok = true; disk = none; flash = ([], replicate 4096 adc_tout) }
