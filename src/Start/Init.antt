-- ===== src/Start/Init.antt =====
-- The device after its start.
use watermeter.Base.{
  ℕ, ◌≡◌, refl, sym, subst, ap, ◌∙◌, Bool, true, false, not, some, Bool-cases, inl, inr, [], ◌∷◌,
}
use watermeter.Base.Bits.{bit}
use watermeter.Config.{Config}
use watermeter.Config.Flash.{SpiFlash}
use watermeter.Config.Storage.{FatLibrary, Media, Loaded, read_config, save_config}
use watermeter.Config.Persist.{LoadedAs, WordsFit, read_config-save_config, Keeps}
use watermeter.Config.Valid.{View, Represents, init_def_config-Represents}
use watermeter.Device.{Device, arm, disarm, button_timer}
use watermeter.Counter.{debounce_start}
use watermeter.Counter.Edges.{InSync}
use watermeter.Start.{after_read, user_init, init_rest, first_flags}
use watermeter.Utils.InitData.{LeavesInitData, HasInitData}
use watermeter.Start.Trace.{save_config-HasInitData}

-- A device that has started with the configuration `l` from the storage.
pub record Begun (ok : Bool) (c : Config) (d : Device) : Type 0 where
  pub sync : InSync d
  pub hot : d.counter.counter_hot_water ≡ 0
  pub cold : d.counter.counter_cold_water ≡ 0
  pub config : d.config ≡ c
  pub first : d.flags.first_start ≡ not ok
  pub awake : d.flags.sleep_now ≡ false

-- The device before the configuration is read.
abbrev first_device : ℕ → Bool → Config → Device
first_device rtc sd_found c = record {
  flags = first_flags sd_found;
  config = c;
  counter = record { status = 3; status_old = 3; counter_hot_water = 0; counter_cold_water = 0 };
  debounce = debounce_start;
  time_start = rtc;
  trace = arm button_timer 50 true ∷ disarm button_timer ∷ [];
}

first-InSync : (rtc : ℕ) (sd_found : Bool) (c : Config) → InSync (first_device rtc sd_found c)
unfolding bit
first-InSync rtc sd_found c = (refl, refl)

module _ (spi : SpiFlash) (fat : FatLibrary) where
  after_read-Begun :
      (l : Loaded spi fat) (d : Device)
      → InSync d
      → d.counter.counter_hot_water ≡ 0
      → d.counter.counter_cold_water ≡ 0
      → d.flags.first_start ≡ false
      → d.flags.sleep_now ≡ false
      → Begun l.ok l.config (after_read spi fat l d)
  after_read-Begun l d sync hot cold first awake = elim (Bool-cases l.ok) [
    | inl read ↦ rw read (record {
      sync = sync;
      hot = hot;
      cold = cold;
      config = refl;
      first = first;
      awake = awake;
    })
    | inr unread ↦ elim (Bool-cases d.flags.sd_ok) [
      | inl card ↦
          rw (unread, card)
            (record {
              sync = sync;
              hot = hot;
              cold = cold;
              config = refl;
              first = refl;
              awake = awake;
            })
      | inr no_card ↦
          rw (unread, no_card)
            (record {
              sync = sync;
              hot = hot;
              cold = cold;
              config = refl;
              first = refl;
              awake = awake;
            })
    ]
  ]

  -- Where the media hold the configuration of a view, the firmware starts with it, with empty counters
  -- that agree with the debounced inputs, awake, and not as on its first start.
  pub user_init-Begun :
      (rtc stamp : ℕ) (data_allocated allocated : Bool) (m : Media spi fat) (v : View)
      → HasInitData spi data_allocated m.flash
      → ((c : Config) → LoadedAs spi fat v (read_config spi fat allocated false c m))
      → (d : Device) × (user_init spi fat rtc stamp data_allocated allocated m ≡ some d)
        × Begun true d.config d
        × Represents d.config v
  unfolding user_init init_rest
  user_init-Begun rtc stamp data_allocated allocated m v settled holds =
      let (c, defaults, r) = init_def_config-Represents stamp in
      let l = holds c in
      let d = after_read spi fat l.loaded (first_device rtc m.sd_ok c) in
      let b =
        after_read-Begun l.loaded (first_device rtc m.sd_ok c) (first-InSync rtc m.sd_ok c) refl
          refl refl refl in
      (
        d,
        rw (settled, defaults, l.returns) refl,
        record {
          sync = b.sync;
          hot = b.hot;
          cold = b.cold;
          config = refl;
          first = b.first ∙ ap not l.succeeds;
          awake = b.awake;
        },
        subst (λ c. Represents c v) (sym b.config) l.means,
      )

  -- After a restart of the firmware that follows a save of a configuration to a medium, the card or the
  -- flash, that keeps what it is given, where the initial data of the SDK is as it should be and the
  -- save does not touch it: the device has the strings and numbers that were saved, its counters are
  -- empty and agree with the debounced inputs, it is awake, and it is not on its first start.
  pub user_init-save_config :
      (rtc stamp : ℕ) (data_allocated : Bool) (c : Config) (v : View) (m : Media spi fat)
      → Keeps spi fat m.sd_ok
      → Represents c v
      → WordsFit v
      → LeavesInitData spi
      → HasInitData spi data_allocated m.flash
      → (d : Device) × (user_init spi fat rtc stamp data_allocated true
            (save_config spi fat true c m)
          ≡ some d)
        × Begun true d.config d
        × Represents d.config v
  user_init-save_config rtc stamp data_allocated c v m keeps r w leaves settled =
      user_init-Begun rtc stamp data_allocated true (save_config spi fat true c m) v
        (save_config-HasInitData spi fat data_allocated c m leaves settled)
        (λ old. read_config-save_config spi fat c old v m keeps r w)
