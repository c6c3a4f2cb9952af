-- ===== src/Config/Settle.antt =====
-- What `readConfig` finds on the medium in use, and what it makes of it.
use watermeter.Base.{
  ℕ, ◌+◌, ◌≡◌, ◌⊎◌, refl, sym, ap, subst, Bool, true, false, List, some, ==_iff, get_or,
  if◌then◌else◌,
}
use mathlib.Core.Option.{some-injective}
use watermeter.Base.{take, drop, Bool-cases, Option-cases, inl, inr, arith}
use watermeter.Base.{◌==◌}
use watermeter.Base.Bytes.{u32_at}
use watermeter.Config.{Config, set_config}
use watermeter.Config.Crc.{crc_update}
use watermeter.Config.Layout.{sizeof_config, decode}
use watermeter.Config.Flash.{SpiFlash, flash_ok, config_address, read_flash_config}
use watermeter.Config.Storage.{FatLibrary, Media, Loaded, install, unread, read_config}

module _ (spi : SpiFlash) (fat : FatLibrary) where
  -- The file opens and gives as many bytes as a configuration has.
  abbrev pub FileHolds : Media spi fat → List ℕ → Type 0
  FileHolds m bytes =
      (fat.open_read m.disk ≡ true) × (fat.read sizeof_config m.disk ≡ (sizeof_config, bytes))

  -- The sector is read, given the block for it, and begins with bytes that their checksum follows.
  abbrev pub SectorHolds : Bool → Media spi fat → List ℕ → Type 0
  SectorHolds allocated m bytes =
      (allocated ≡ true)
      × ((buf : List ℕ) × (spi.read config_address (sizeof_config + 4) m.flash ≡ (flash_ok, buf))
          × (bytes ≡ take sizeof_config buf)
          × (crc_update bytes sizeof_config ≡ u32_at (drop sizeof_config buf) 0))

  -- The medium in use holds a configuration: the card where one was found, and else the flash.
  abbrev pub Stores : Bool → Media spi fat → List ℕ → Type 0
  Stores allocated m bytes =
      ((m.sd_ok ≡ true) × FileHolds m bytes) ⊎ ((m.sd_ok ≡ false) × SectorHolds allocated m bytes)

  -- The medium holds none and the old configuration stands, or the one it holds was installed by
  -- `setConfig`, and `staConfigure` was set where it has a station name.
  abbrev pub Settled : Bool → Bool → Config → Media spi fat → Loaded spi fat → Type 0
  Settled allocated sta old m l =
      ((l.ok ≡ false)
        × (l.config ≡ old)
        × (l.sta_configure ≡ sta)
        × ¬ ((bytes : List ℕ) × Stores allocated m bytes))
      ⊎ ((l.ok ≡ true)
          × ((bytes : List ℕ) × Stores allocated m bytes
              × (set_config (decode bytes) ≡ some l.config))
          × (l.sta_configure ≡ (if get_or l.config.sta_ssid 0 0 == 0 then sta else true)))

  unread-Settled :
      (allocated sta : Bool) (old : Config) (m m' : Media spi fat) (l : Loaded spi fat)
      → ¬ ((bytes : List ℕ) × Stores allocated m bytes)
      → unread spi fat sta old m' ≡ some l
      → Settled allocated sta old m l
  unfolding unread
  unread-Settled allocated sta old m m' l empty h =
      inl (ground arith, ground arith, ground arith, empty)

  pub install-installs :
      (sta : Bool) (read : Config) (m : Media spi fat) (l : Loaded spi fat)
      → install spi fat sta read m ≡ some l
      → set_config read ≡ some l.config
  unfolding install
  install-installs sta read m l h = elim (Option-cases (set_config read)) [
    | inl e ↦ absurd (cc (rw e at h))
    | inr (c, e) ↦ ground (arith, e)
  ]

  install-sta_configure :
      (sta : Bool) (read : Config) (m : Media spi fat) (l : Loaded spi fat)
      → install spi fat sta read m ≡ some l
      → (l.ok ≡ true)
        × (l.sta_configure ≡ (if get_or l.config.sta_ssid 0 0 == 0 then sta else true))
  unfolding install
  install-sta_configure sta read m l h = elim (Option-cases (set_config read)) [
    | inl e ↦ absurd (cc (rw e at h))
    | inr (c, e) ↦
        subst
          (λ l.
            (l.ok ≡ true)
            × (l.sta_configure ≡ (if get_or l.config.sta_ssid 0 0 == 0 then sta else true)))
          (some-injective _ _ (rw e at h)) (refl, refl)
  ]

  install-Settled :
      (allocated sta : Bool) (old : Config) (bytes : List ℕ) (m m' : Media spi fat)
      (l : Loaded spi fat)
      → Stores allocated m bytes
      → install spi fat sta (decode bytes) m' ≡ some l
      → Settled allocated sta old m l
  install-Settled allocated sta old bytes m m' l holds h =
      let (ok, configured) = install-sta_configure sta (decode bytes) m' l h in
      inr (ok, (bytes, holds, install-installs sta (decode bytes) m' l h), configured)

  no_file :
      (allocated : Bool) (m : Media spi fat)
      → m.sd_ok ≡ true
      → ¬ ((bytes : List ℕ) × FileHolds m bytes)
      → ¬ ((bytes : List ℕ) × Stores allocated m bytes)
  no_file allocated m card none_there (bytes, inl (found, file)) = none_there (bytes, file)
  no_file allocated m card none_there (bytes, inr (no_card, sector)) = absurd (cc (card, no_card))

  no_sector :
      (allocated : Bool) (m : Media spi fat)
      → m.sd_ok ≡ false
      → ¬ ((bytes : List ℕ) × SectorHolds allocated m bytes)
      → ¬ ((bytes : List ℕ) × Stores allocated m bytes)
  no_sector allocated m no_card none_there (bytes, inr (there, sector)) = none_there (bytes, sector)
  no_sector allocated m no_card none_there (bytes, inl (card, file)) = absurd (cc (card, no_card))

  pub card-Settled :
      (allocated sta : Bool) (old : Config) (m : Media spi fat) (l : Loaded spi fat)
      → m.sd_ok ≡ true
      → read_config spi fat allocated sta old m ≡ some l
      → Settled allocated sta old m l
  unfolding read_config
  card-Settled allocated sta old m l card h =
      let (count, bytes) = fat.read sizeof_config m.disk in
      elim (Bool-cases (fat.open_read m.disk)) [
        | inl opens ↦ elim (Bool-cases (count == sizeof_config)) [
          | inl whole ↦
              install-Settled allocated sta old bytes m _ l
                (inl (card, (opens, ap (λ n. (n, bytes)) ((==_iff count sizeof_config).0 whole))))
                (rw (card, opens, whole) at h)
          | inr short ↦
              unread-Settled allocated sta old m _ l
                (no_file allocated m card (λ (bytes, (o, r)). cc (
                  ap (λ p. p.0 == sizeof_config) r,
                  (==_iff sizeof_config sizeof_config).1 refl,
                  short,
                )))
                (rw (card, opens, short) at h)
        ]
        | inr closed ↦
            unread-Settled allocated sta old m _ l
              (no_file allocated m card (λ (bytes, (o, r)). cc (o, closed)))
              (rw (card, closed) at h)
      ]

  flash-Settled :
      (sta : Bool) (old : Config) (m : Media spi fat) (l : Loaded spi fat)
      → m.sd_ok ≡ false
      → read_config spi fat true sta old m ≡ some l
      → Settled true sta old m l
  unfolding read_config read_flash_config
  flash-Settled sta old m l no_card h =
      let (ret, buf) = spi.read config_address (sizeof_config + 4) m.flash in
      let bytes = take sizeof_config buf in
      elim (Bool-cases (ret == flash_ok)) [
        | inl read ↦
            elim (Bool-cases
              (crc_update bytes sizeof_config == u32_at (drop sizeof_config buf) 0)) [
                | inl checked ↦
                    install-Settled true sta old bytes m _ l
                      (inr (
                        no_card,
                        (
                          refl,
                          (
                            buf,
                            ap (λ n. (n, buf)) ((==_iff ret flash_ok).0 read),
                            refl,
                            (==_iff _ _).0 checked,
                          ),
                        ),
                      ))
                      (rw (no_card, read, checked) at h)
                | inr wrong ↦
                    unread-Settled true sta old m _ l
                      (no_sector true m no_card (λ (bytes, (given, (b, r, e, crc))).
                        let same = ap (λ p. p.1) r in
                        let right = rw (e, sym same) at crc in cc ((==_iff _ _).1 right, wrong)))
                      (rw (no_card, read, wrong) at h)
              ]
        | inr failed ↦
            unread-Settled true sta old m _ l
              (no_sector true m no_card
                (λ (bytes, (given, (b, r, e, crc))). cc (ap (λ p. p.0 == flash_ok) r, failed)))
              (rw (no_card, failed, failed) at h)
      ]

  pub sector-Settled :
      (allocated sta : Bool) (old : Config) (m : Media spi fat) (l : Loaded spi fat)
      → m.sd_ok ≡ false
      → read_config spi fat allocated sta old m ≡ some l
      → Settled allocated sta old m l
  unfolding read_config read_flash_config
  sector-Settled true sta old m l no_card h = flash-Settled sta old m l no_card h
  sector-Settled false sta old m l no_card h =
      unread-Settled false sta old m _ l
        (no_sector false m no_card (λ (bytes, (given, sector)). cc given)) (rw no_card at h)
