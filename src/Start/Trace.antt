-- ===== src/Start/Trace.antt =====
-- What the storage calls of a device do to the media: `saveConfig` and `removeConfig` in the order
-- in which they were made.
use watermeter.Base.{
  ℕ, ◌*◌, ◌≡◌, refl, ap, ◌∙◌, arith, Bool, true, inl, inr, List, [], ◌∷◌, Bool-cases,
}
use watermeter.Config.Flash.{SpiFlash, write_flash_config}
use watermeter.Config.Storage.{FatLibrary, Media, clear_flash_config}
use watermeter.Config.Storage
use watermeter.Config.{Config}
use watermeter.Device.{Action, save_config, remove_config}
use watermeter.Utils.InitData.{LeavesInitData, HasInitData, HasInitData-same_sector, init_data_pos}

module _ (spi : SpiFlash) (fat : FatLibrary) where
  -- What the calls of a trace, newest first, do to the media.
  unfoldable pub store_trace : List Action → Media spi fat → Media spi fat
  store_trace [] m = m
  store_trace (save_config c ∷ trace) m = Storage.save_config spi fat true c (store_trace trace m)
  store_trace (remove_config ∷ trace) m =
      Storage.remove_config spi fat true true (store_trace trace m)
  store_trace (a ∷ trace) m = store_trace trace m

  save_config-sd_ok :
      (c : Config) (m : Media spi fat) → (Storage.save_config spi fat true c m).sd_ok ≡ m.sd_ok
  unfolding Storage.save_config
  save_config-sd_ok c m = ground arith

  remove_config-sd_ok :
      (m : Media spi fat) → (Storage.remove_config spi fat true true m).sd_ok ≡ m.sd_ok
  unfolding Storage.remove_config
  remove_config-sd_ok m = refl

  pub store_trace-sd_ok :
      (trace : List Action) (m : Media spi fat) → (store_trace trace m).sd_ok ≡ m.sd_ok
  unfolding store_trace
  store_trace-sd_ok [] m = refl
  store_trace-sd_ok (save_config c ∷ trace) m =
      save_config-sd_ok c (store_trace trace m) ∙ store_trace-sd_ok trace m
  store_trace-sd_ok (remove_config ∷ trace) m =
      remove_config-sd_ok (store_trace trace m) ∙ store_trace-sd_ok trace m
  store_trace-sd_ok (a ∷ trace) m = store_trace-sd_ok trace m

  -- The sector of the SDK's initial data, as it is read.
  abbrev init_data : Media spi fat → ℕ × List ℕ
  init_data m = spi.read (init_data_pos * 4096) 4096 m.flash

  save_config-keeps_flash :
      (c : Config) (m : Media spi fat)
      → m.sd_ok ≡ true
      → (Storage.save_config spi fat true c m).flash ≡ m.flash
  unfolding Storage.save_config
  save_config-keeps_flash c m card = ground arith

  save_config-init_data :
      (c : Config) (m : Media spi fat)
      → LeavesInitData spi
      → init_data (Storage.save_config spi fat true c m) ≡ init_data m
  unfolding Storage.save_config write_flash_config
  save_config-init_data c m leaves = elim (Bool-cases m.sd_ok) [
    | inl card ↦ ap (λ s. spi.read (init_data_pos * 4096) 4096 s) (save_config-keeps_flash c m card)
    | inr no_card ↦ rw no_card (leaves m.flash _)
  ]

  remove_config-init_data :
      (m : Media spi fat)
      → LeavesInitData spi
      → init_data (Storage.remove_config spi fat true true m) ≡ init_data m
  unfolding Storage.remove_config write_flash_config
  remove_config-init_data m leaves = leaves m.flash _

  store_trace-init_data :
      (trace : List Action) (m : Media spi fat)
      → LeavesInitData spi
      → init_data (store_trace trace m) ≡ init_data m
  unfolding store_trace
  store_trace-init_data [] m leaves = refl
  store_trace-init_data (save_config c ∷ trace) m leaves =
      save_config-init_data c (store_trace trace m) leaves ∙ store_trace-init_data trace m leaves
  store_trace-init_data (remove_config ∷ trace) m leaves =
      remove_config-init_data (store_trace trace m) leaves ∙ store_trace-init_data trace m leaves
  store_trace-init_data (a ∷ trace) m leaves = store_trace-init_data trace m leaves

  -- No storage call of the device touches the initial data.
  pub store_trace-HasInitData :
      (allocated : Bool) (trace : List Action) (m : Media spi fat)
      → LeavesInitData spi
      → HasInitData spi allocated m.flash
      → HasInitData spi allocated (store_trace trace m).flash
  store_trace-HasInitData allocated trace m leaves =
      HasInitData-same_sector spi allocated m.flash (store_trace trace m).flash
        (store_trace-init_data trace m leaves)

  pub save_config-HasInitData :
      (allocated : Bool) (c : Config) (m : Media spi fat)
      → LeavesInitData spi
      → HasInitData spi allocated m.flash
      → HasInitData spi allocated (Storage.save_config spi fat true c m).flash
  save_config-HasInitData allocated c m leaves =
      HasInitData-same_sector spi allocated m.flash (Storage.save_config spi fat true c m).flash
        (save_config-init_data c m leaves)
