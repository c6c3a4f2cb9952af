-- ===== src/Config/Storage.antt =====
-- `readConfig`, `saveConfig` and `removeConfig` of user/wm_config.c, over the SPI flash of the SDK
-- and the FAT library in fat/, of which the code uses the calls below on its one file.
use watermeter.Base.{ℕ, ◌+◌, Bool, true, false, List, Option, some, none}
use watermeter.Base.{◌==◌, if◌then◌else◌, replicate, get_or}
use watermeter.Base.CString.{◌>>=◌}
use watermeter.Config.{Config, set_config}
use watermeter.Config.Layout.{sizeof_config, encode, decode}
use watermeter.Config.Flash.{SpiFlash, flash_ok, read_flash_config, write_flash_config}

-- The FAT library on the configuration file; `none` is a file that does not open.
pub record FatLibrary : Type 1 where
  pub Disk : Type 0
  -- `fl_fopen(configFileName, "rb")` and `"wb"`.
  pub open_read : Disk → Bool
  pub open_write : Disk → Option Disk
  -- `fl_fread` from the file's start: the count, and the bytes.
  pub read : ℕ → Disk → ℕ × List ℕ
  -- `fl_fwrite` at the file's start: the count, and the disk.
  pub write : List ℕ → Disk → ℕ × Disk
  pub close : Disk → Disk
  pub remove : Disk → Disk

module _ (spi : SpiFlash) (fat : FatLibrary) where
  -- The two media, and whether the SD card was found.
  pub record Media : Type 0 where
    pub sd_ok : Bool
    pub disk : fat.Disk
    pub flash : spi.State

  -- What `readConfig` returns: its result, and `wmConfig` after it. `staConfigure` is set where a
  -- station name was read.
  pub record Loaded : Type 0 where
    pub ok : Bool
    pub config : Config
    pub sta_configure : Bool
    pub media : Media

  -- `setConfig` and the test of `staSsid[0]`, with the old flag.
  unfoldable pub install : Bool → Config → Media → Option Loaded
  install sta_configure read m = do
    c ← set_config read
    some (record {
      ok = true;
      config = c;
      sta_configure = if get_or c.sta_ssid 0 0 == 0 then sta_configure else true;
      media = m;
    })

  unfoldable pub unread : Bool → Config → Media → Option Loaded
  unread sta_configure old m =
      some (record { ok = false; config = old; sta_configure = sta_configure; media = m })

  read_from_sd : Bool → Config → Media → Option Loaded
  unfolding install unread
  read_from_sd sta_configure old m =
      let (count, bytes) = fat.read sizeof_config m.disk in
      let closed = record m { disk = fat.close m.disk } in
      if fat.open_read m.disk
      then if count == sizeof_config
        then install sta_configure (decode bytes) closed
        else unread sta_configure old closed
      else unread sta_configure old m

  read_from_flash : Bool → Bool → Config → Media → Option Loaded
  unfolding install unread
  read_from_flash allocated sta_configure old m =
      let (ret, bytes) =
        read_flash_config spi allocated (replicate sizeof_config 0) sizeof_config m.flash in
      if ret == flash_ok then install sta_configure (decode bytes) m else unread sta_configure old m

  unfoldable pub read_config : Bool → Bool → Config → Media → Option Loaded
  unfolding read_from_sd read_from_flash
  read_config allocated sta_configure old m =
      if m.sd_ok
      then read_from_sd sta_configure old m
      else read_from_flash allocated sta_configure old m

  save_to_sd : Config → Media → Media
  save_to_sd c m = elim (fat.open_write m.disk) [
    | none ↦ m
    | some d ↦ record m { disk = fat.close (fat.write (encode c) d).1 }
  ]

  -- `saveConfig` has no result: a medium that refuses is not reported.
  unfoldable pub save_config : Bool → Config → Media → Media
  unfolding save_to_sd
  save_config allocated c m = if m.sd_ok then save_to_sd c m else record m {
    flash = (write_flash_config spi allocated (encode c) sizeof_config m.flash).1;
  }

  -- `clear_flash_config`: ten bytes more than a configuration, all 0. Both allocations are answered.
  unfoldable pub clear_flash_config : Bool → Bool → spi.State → spi.State
  clear_flash_config false allocated s = s
  clear_flash_config true allocated s =
      (write_flash_config spi allocated (replicate (sizeof_config + 10) 0) (sizeof_config + 10) s).1

  unfoldable pub remove_config : Bool → Bool → Media → Media
  unfolding clear_flash_config
  remove_config cleared allocated m = record m {
    disk = if m.sd_ok then fat.remove m.disk else m.disk;
    flash = clear_flash_config cleared allocated m.flash;
  }
