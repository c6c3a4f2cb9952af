-- ===== src/Config/Refuse.antt =====
-- What `readConfig` refuses: nothing is installed from a file or a sector that does not read, whose
-- checksum is wrong, or that `removeConfig` cleared.
use watermeter.Base.{ℕ, ◌+◌, ◌≡◌, refl, Bool, true, false, List, some}
use watermeter.Base.{take, drop, replicate, Bool-cases, inl, inr, arith}
use watermeter.Base.{◌==◌}
use watermeter.Base.Bytes.{u32_at}
use watermeter.Config.{Config, set_config}
use watermeter.Config.Crc.{crc_update, crc_loop, crc_byte, crc_nibble}
use watermeter.Config.Layout.{sizeof_config, decode}
use watermeter.Config.Flash.{
  SpiFlash, ReadsBack, flash_ok, crc_error, config_address, read_flash_config, write_flash_config,
  read_flash_config-checked, read-stored, stored,
}
use watermeter.Config.Storage.{
  FatLibrary, Media, Loaded, read_config, remove_config, clear_flash_config,
}
use watermeter.Config.Settle.{Settled, install-installs, card-Settled, sector-Settled}

module _ (spi : SpiFlash) (fat : FatLibrary) where
  -- `readConfig`, where `setConfig` overruns nothing: it returns false where the medium in use holds no
  -- configuration, a whole file on the card or a sector of the flash with the right checksum, and leaves
  -- the configuration and its flag alone; or it returns true, and what it installed is what `setConfig`
  -- makes of the bytes that the medium holds, and the flag was set where they have a station name.
  pub read_config-Settled :
      (allocated sta : Bool) (old : Config) (m : Media spi fat) (l : Loaded spi fat)
      → read_config spi fat allocated sta old m ≡ some l
      → Settled spi fat allocated sta old m l
  read_config-Settled allocated sta old m l h = elim (Bool-cases m.sd_ok) [
    | inl card ↦ card-Settled spi fat allocated sta old m l card h
    | inr no_card ↦ sector-Settled spi fat allocated sta old m l no_card h
  ]

  -- Without a card, where the configuration is read with success, the checksum of the bytes in the
  -- flash is right, and what is installed is what `setConfig` makes of them.
  pub read_config-checked :
      (sta : Bool) (old : Config) (m : Media spi fat) (l : Loaded spi fat)
      → m.sd_ok ≡ false
      → read_config spi fat true sta old m ≡ some l
      → l.ok ≡ true
      → let buf = (spi.read config_address (sizeof_config + 4) m.flash).1 in
        (crc_update (take sizeof_config buf) sizeof_config ≡ u32_at (drop sizeof_config buf) 0)
        × (set_config (decode (take sizeof_config buf)) ≡ some l.config)
  unfolding read_config
  read_config-checked sta old m l no_card h done =
      let zeros = replicate sizeof_config 0 in
      let answer = read_flash_config spi true zeros sizeof_config m.flash in
      ground (
        arith,
        read_flash_config-checked spi zeros sizeof_config m.flash,
        install-installs spi fat sta (decode answer.1) m l,
      )

  -- A removed file does not open.
  abbrev pub Removes : Type 0
  Removes = (d : fat.Disk) → fat.open_read (fat.remove d) ≡ false

  zeros_checksum : (crc_update (replicate sizeof_config 0) sizeof_config == 0) ≡ false
  unfolding crc_update crc_loop crc_byte crc_nibble
  zeros_checksum = refl

  read_flash_config-clear :
      (reads_back : ReadsBack spi) (s : spi.State) (old : List ℕ)
      → (write_flash_config spi true (replicate (sizeof_config + 10) 0) (sizeof_config + 10) s).0
        ≡ flash_ok
      → read_flash_config spi true old sizeof_config (clear_flash_config spi fat true true s)
        ≡ (crc_error, replicate sizeof_config 0)
  unfolding read_flash_config clear_flash_config stored u32_at
  read_flash_config-clear reads_back s old written = rw (
    read-stored spi reads_back (replicate (sizeof_config + 10) 0) s (sizeof_config + 4)
        (omega arith) (omega arith) written,
    zeros_checksum,
  )

  -- After `removeConfig`, with a flash that reads back and took the zeros, and a card on which a removed
  -- file does not open, the next start finds no configuration, on either medium.
  pub read_config-remove_config :
      (reads_back : ReadsBack spi) (removes : Removes) (sta : Bool) (old : Config)
      (m : Media spi fat)
      → (write_flash_config spi true
          (replicate (sizeof_config + 10) 0)
          (sizeof_config + 10)
          m.flash).0
        ≡ flash_ok
      → (l : Loaded spi fat) × (read_config spi fat true sta old (remove_config spi fat true true m)
          ≡ some l)
        × (l.ok ≡ false)
        × (l.config ≡ old)
  unfolding read_config remove_config
  read_config-remove_config reads_back removes sta old m written = (
    record {
      ok = false;
      config = old;
      sta_configure = sta;
      media = remove_config spi fat true true m;
    },
    elim (Bool-cases m.sd_ok) [
      | inl card ↦ rw (card, removes m.disk)
      | inr no_card ↦ rw (no_card, read_flash_config-clear reads_back m.flash _ written)
    ],
    refl,
    refl,
  )
