-- ===== src/Config/Persist.antt =====
-- What survives a restart: `saveConfig` and `removeConfig` against `readConfig`.
use watermeter.Base.{
  ℕ, ◌≤◌, ◌<◌, ◌^◌, ◌≡◌, refl, subst, sym, ◌∙◌, Bool, true, false, List, Option, some, ◌⊎◌, inl,
  inr,
}
use watermeter.Base.{length, replicate, arith, get_or, ◌==◌, ==_iff, if◌then◌else◌}
use watermeter.Config.{Config}
use watermeter.Config.Valid.{View, Represents, set_config-Represents}
use watermeter.Config.Layout.{sizeof_config, IsSized, encode, decode-encode, length-encode}
use watermeter.Config.Flash.{
  SpiFlash, ReadsBack, flash_ok, read_flash_config, write_flash_config,
  read_flash_config-write_flash_config, config_address, config_sector,
}
use watermeter.Config.Storage.{FatLibrary, Media, Loaded, install, read_config, save_config}

-- The words of the struct fit 32 bits.
abbrev pub WordsFit : View → Type 0
WordsFit v =
    (v.hot_time < 2 ^ 32)
    × (v.hot_water < 2 ^ 32)
    × (v.cold_time < 2 ^ 32)
    × (v.cold_water < 2 ^ 32)

Represents-IsSized : (c : Config) (v : View) → Represents c v → WordsFit v → IsSized c
Represents-IsSized c v r w = record {
  web_admin_login = r.web_admin_login.sized;
  web_admin_password = r.web_admin_password.sized;
  sta_ssid = r.sta_ssid.sized;
  sta_password = r.sta_password.sized;
  ap_ssid = r.ap_ssid.sized;
  ap_password = r.ap_password.sized;
  mqtt_broker = r.mqtt_broker.sized;
  mqtt_user = r.mqtt_user.sized;
  mqtt_password = r.mqtt_password.sized;
  mqtt_topic = r.mqtt_topic.sized;
  ntp_server_name = r.ntp_server_name.sized;
  hot_time = omega (arith, r.hot_time);
  hot_water = omega (arith, r.hot_water);
  cold_time = omega (arith, r.cold_time);
  cold_water = omega (arith, r.cold_water);
}

-- A file that was opened for writing, took all bytes and was closed opens, and reads back.
abbrev pub FatReadsBack : FatLibrary → Type 0
FatReadsBack fat =
    (d d1 : fat.Disk) (bytes : List ℕ)
    → fat.open_write d ≡ some d1
    → (fat.write bytes d1).0 ≡ length bytes
    → (fat.open_read (fat.close (fat.write bytes d1).1) ≡ true)
      × (fat.read (length bytes) (fat.close (fat.write bytes d1).1) ≡ (length bytes, bytes))

module _ (spi : SpiFlash) (fat : FatLibrary) where
  -- The result of a load that found a configuration, which means `v`.
  pub record LoadedAs (v : View) (result : Option (Loaded spi fat)) : Type 0 where
    pub loaded : Loaded spi fat
    pub returns : result ≡ some loaded
    pub succeeds : loaded.ok ≡ true
    pub means : Represents loaded.config v

  install-LoadedAs :
      (sta : Bool) (c : Config) (v : View) (m : Media spi fat)
      → Represents c v
      → LoadedAs v (install spi fat sta c m)
  unfolding install
  install-LoadedAs sta c v m r =
      let (c', set, r') = set_config-Represents c v r in
      record {
        loaded = record {
          ok = true;
          config = c';
          sta_configure = if get_or c'.sta_ssid 0 0 == 0 then sta else true;
          media = m;
        };
        returns = rw set;
        succeeds = refl;
        means = r';
      }

  flash_round :
      (reads_back : ReadsBack spi) (c : Config) (old : List ℕ) (s : spi.State)
      → IsSized c
      → (write_flash_config spi true (encode c) sizeof_config s).0 ≡ flash_ok
      → read_flash_config spi true old sizeof_config
          (write_flash_config spi true (encode c) sizeof_config s).1
        ≡ (flash_ok, encode c)
  flash_round reads_back c old s z written =
      subst
        (λ n.
          n ≤ 4092
          → (write_flash_config spi true (encode c) n s).0 ≡ flash_ok
          → read_flash_config spi true old n (write_flash_config spi true (encode c) n s).1
            ≡ (flash_ok, encode c))
        (length-encode c z)
        (λ fits. read_flash_config-write_flash_config spi reads_back (encode c) old s (omega arith))
        (omega arith) written

  -- Without a card, and with a flash that reads back what it wrote: a valid configuration, with words of
  -- 32 bits, that was saved with success is what the next start reads, with the same strings and
  -- numbers, whatever the configuration was before.
  read_config-save_config_flash :
      (reads_back : ReadsBack spi) (sta : Bool) (c old : Config) (v : View) (m : Media spi fat)
      → m.sd_ok ≡ false
      → Represents c v
      → WordsFit v
      → (write_flash_config spi true (encode c) sizeof_config m.flash).0 ≡ flash_ok
      → LoadedAs v (read_config spi fat true sta old (save_config spi fat true c m))
  unfolding read_config save_config
  read_config-save_config_flash reads_back sta c old v m no_card r w written =
      let z = Represents-IsSized c v r w in
      rw
        (
          no_card,
          flash_round reads_back c (replicate sizeof_config 0) m.flash z written,
          decode-encode c z,
        )
        (install-LoadedAs sta c v _ r)

  save_config-sd :
      (allocated : Bool) (c : Config) (m : Media spi fat) (d : fat.Disk)
      → m.sd_ok ≡ true
      → fat.open_write m.disk ≡ some d
      → save_config spi fat allocated c m
        ≡ record { sd_ok = true; disk = fat.close (fat.write (encode c) d).1; flash = m.flash }
  unfolding save_config
  save_config-sd allocated c m d card opened = ground arith

  -- With a card whose files read back, where the file opens for writing and takes every byte: a valid
  -- configuration, with words of 32 bits, that was saved is what the next start reads, with the
  -- same strings and numbers.
  pub read_config-save_config_sd :
      (reads_back : FatReadsBack fat) (allocated sta : Bool) (c old : Config) (v : View)
      (m : Media spi fat) (d : fat.Disk)
      → m.sd_ok ≡ true
      → Represents c v
      → WordsFit v
      → fat.open_write m.disk ≡ some d
      → (fat.write (encode c) d).0 ≡ sizeof_config
      → LoadedAs v (read_config spi fat allocated sta old (save_config spi fat allocated c m))
  unfolding read_config
  read_config-save_config_sd reads_back allocated sta c old v m d card r w opened written =
      let z = Represents-IsSized c v r w in
      let size = length-encode c z in
      let (opens, reads) = reads_back m.disk d (encode c) opened (written ∙ sym size) in
      rw
        (
          save_config-sd allocated c m d card opened,
          opens,
          rw size at reads,
          (==_iff sizeof_config sizeof_config).1 refl,
          decode-encode c z,
        )
        (install-LoadedAs sta c v _ r)

  -- The flash takes every configuration, and reads back.
  abbrev pub FlashKeeps : Type 0
  FlashKeeps =
      ReadsBack spi
      × ((s : spi.State) (bytes : List ℕ)
          → (spi.write config_address bytes (spi.erase_sector config_sector s)).0 ≡ flash_ok)

  -- The file opens for writing, takes every byte, and reads back.
  abbrev pub CardKeeps : Type 0
  CardKeeps =
      FatReadsBack fat
      × ((disk : fat.Disk)
          → (d : fat.Disk) × (fat.open_write disk ≡ some d)
            × ((bytes : List ℕ) → (fat.write bytes d).0 ≡ length bytes))

  -- The medium in use, the card where one was found, keeps what it is given.
  abbrev pub Keeps : Bool → Type 0
  Keeps sd_found = ((sd_found ≡ false) × FlashKeeps) ⊎ ((sd_found ≡ true) × CardKeeps)

  -- What `saveConfig` wrote to the medium in use is what the next start reads.
  pub read_config-save_config :
      (c old : Config) (v : View) (m : Media spi fat)
      → Keeps m.sd_ok
      → Represents c v
      → WordsFit v
      → LoadedAs v (read_config spi fat true false old (save_config spi fat true c m))
  unfolding write_flash_config
  read_config-save_config c old v m (inl (no_card, (reads_back, takes))) r w =
      read_config-save_config_flash reads_back false c old v m no_card r w (takes m.flash _)
  read_config-save_config c old v m (inr (card, (reads_back, takes))) r w =
      let (d, opened, counts) = takes m.disk in
      read_config-save_config_sd reads_back true false c old v m d card r w opened
        (counts (encode c) ∙ length-encode c (Represents-IsSized c v r w))
