-- ===== src/Utils/InitData.antt =====
-- `set107init_data_bin` of user/wm_utils.c: the byte of the SDK's initial data that selects what the
-- analog input measures. The flash is the parameter of `Config.Flash`.
use watermeter.Base.{ℕ, ◌*◌, ◌≡◌, refl, sym, ap, ◌∙◌, arith, Bool, true, false, inl, inr, List}
use watermeter.Base.{
  ◌==◌, if◌then◌else◌, length, take, get_or, set, length-set, get_or-set_self, take-length,
  Bool-cases,
}
use watermeter.Config.Flash.{SpiFlash, ReadsBack, flash_ok, config_address, config_sector}

-- INITDATAPOS, for OTA_FLASH_MAP 6.
abbrev pub init_data_pos : ℕ
init_data_pos = 0x3fc

abbrev pub adc_tout : ℕ
adc_tout = 36

module _ (spi : SpiFlash) where
  -- Whether `system_restart` is called, and the flash.
  unfoldable pub set107init_data_bin : Bool → spi.State → Bool × spi.State
  set107init_data_bin false s = (false, s)
  set107init_data_bin true s =
      let (ret, buf) = spi.read (init_data_pos * 4096) 4096 s in
      if ret == flash_ok
      then if get_or buf 107 0 == adc_tout then (false, s) else (
        true,
        (spi.write (init_data_pos * 4096) (set buf 107 adc_tout)
            (spi.erase_sector init_data_pos s)).1,
      )
      else (false, s)

  -- A run that changes nothing and asks for no restart.
  abbrev pub HasInitData : Bool → spi.State → Type 0
  HasInitData allocated s = set107init_data_bin allocated s ≡ (false, s)

  -- A read of a sector that succeeds gives its 4096 bytes.
  abbrev pub ReadsSectors : Type 0
  ReadsSectors =
      (s : spi.State) (sector : ℕ)
      → (spi.read (sector * 4096) 4096 s).0 ≡ flash_ok
      → length (spi.read (sector * 4096) 4096 s).1 ≡ 4096

  -- The sector with the byte changed.
  abbrev pub changed : spi.State → List ℕ
  changed s = set (spi.read (init_data_pos * 4096) 4096 s).1 107 adc_tout

  abbrev pub write_changed : spi.State → ℕ × spi.State
  write_changed s = spi.write (init_data_pos * 4096) (changed s) (spi.erase_sector init_data_pos s)

  -- Why the function restarts: the sector was read and has another byte there.
  restart_reason :
      (s : spi.State)
      → (set107init_data_bin true s).0 ≡ true
      → ((spi.read (init_data_pos * 4096) 4096 s).0 ≡ flash_ok)
        × ((set107init_data_bin true s).1 ≡ (write_changed s).1)
  unfolding set107init_data_bin
  restart_reason s h =
      let (ret, buf) = spi.read (init_data_pos * 4096) 4096 s in
      elim (Bool-cases (ret == flash_ok)) [
        | inl read ↦ elim (Bool-cases (get_or buf 107 0 == adc_tout)) [
          | inl same ↦ absurd (cc (rw (read, same) at h))
          | inr other ↦ (ground (arith, read), rw (read, other) refl)
        ]
        | inr failed ↦ absurd (cc (rw failed at h))
      ]

  settled :
      (s : spi.State) (buf : List ℕ)
      → spi.read (init_data_pos * 4096) 4096 s ≡ (flash_ok, buf)
      → get_or buf 107 0 ≡ adc_tout
      → set107init_data_bin true s ≡ (false, s)
  unfolding set107init_data_bin
  settled s buf read byte =
      let same : (get_or buf 107 0 == adc_tout) ≡ true = ground (arith, byte) in rw (read, same)

  unread :
      (s : spi.State)
      → ((spi.read (init_data_pos * 4096) 4096 s).0 == flash_ok) ≡ false
      → set107init_data_bin true s ≡ (false, s)
  unfolding set107init_data_bin
  unread s failed = rw failed refl

  -- The function sees nothing of the flash but the sector of the initial data.
  pub HasInitData-same_sector :
      (allocated : Bool) (s t : spi.State)
      → spi.read (init_data_pos * 4096) 4096 t ≡ spi.read (init_data_pos * 4096) 4096 s
      → HasInitData allocated s
      → HasInitData allocated t
  unfolding set107init_data_bin
  HasInitData-same_sector false s t same has = refl
  HasInitData-same_sector true s t same has =
      let (ret, buf) = spi.read (init_data_pos * 4096) 4096 s in
      elim (Bool-cases (ret == flash_ok)) [
        | inl read ↦ elim (Bool-cases (get_or buf 107 0 == adc_tout)) [
          | inl byte ↦ settled t buf (same ∙ ground (arith, read)) (ground (arith, byte))
          | inr other ↦ absurd (cc (ap (λ r. r.0) (rw (read, other) at has)))
        ]
        | inr failed ↦ unread t (ap (λ r. r.0 == flash_ok) same ∙ failed)
      ]

  -- A write of the sector of the configuration leaves that of the initial data.
  abbrev pub LeavesInitData : Type 0
  LeavesInitData =
      (s : spi.State) (bytes : List ℕ)
      → spi.read (init_data_pos * 4096) 4096
          (spi.write config_address bytes (spi.erase_sector config_sector s)).1
        ≡ spi.read (init_data_pos * 4096) 4096 s

  -- A run that asks for a restart and whose write succeeds is the last that does: the run after the
  -- restart finds the byte and changes nothing, so that the firmware does not start over and over.
  pub set107init_data_bin-settles :
      (s : spi.State)
      → ReadsBack spi
      → ReadsSectors
      → (set107init_data_bin true s).0 ≡ true
      → (write_changed s).0 ≡ flash_ok
      → HasInitData true (set107init_data_bin true s).1
  set107init_data_bin-settles s back whole restarts written =
      let (read, left) = restart_reason s restarts in
      let size = whole s init_data_pos read in
      let sized : length (changed s) ≡ 4096 =
        length-set (spi.read (init_data_pos * 4096) 4096 s).1 107 adc_tout ∙ size in
      let again =
        back s init_data_pos (changed s) 4096 (omega (arith, sized)) (omega (arith, sized))
          written in
      let content : take 4096 (changed s) ≡ changed s =
        ap (λ n. take n (changed s)) (sym sized) ∙ take-length (changed s) in
      let byte =
        get_or-set_self (spi.read (init_data_pos * 4096) 4096 s).1 107 adc_tout 0
          (omega (arith, size)) in
      rw left (
        settled (write_changed s).1 (changed s) (again ∙ ap (λ bytes. (flash_ok, bytes)) content)
          byte)
