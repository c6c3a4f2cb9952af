-- ===== src/Start/Restart.antt =====
-- A run of `mainTimer_cb`, a power cut, and the next start.
use watermeter.Base.{
  Bool, ℕ, ◌+◌, ◌*◌, ◌^◌, ◌%◌, ◌≡◌, sym, subst, ap, ◌∙◌, true, false, List, [], ◌∷◌, some,
}
use watermeter.Base.{u32}
use watermeter.Config.{Config}
use watermeter.Config.Flash.{SpiFlash, write_flash_config}
use watermeter.Config.Storage.{FatLibrary, Media}
use watermeter.Config.Storage
use watermeter.Config.Persist.{WordsFit, Keeps, read_config-save_config}
use watermeter.Config.Valid.{View, Represents}
use watermeter.Device.{Device, Action, save_config, remove_config}
use watermeter.Main.{Answers, main_timer_cb}
use watermeter.Main.System.{Event, run_events, pulses, hot_total, cold_total, run_events-conserve}
use watermeter.Main.Offline.{Safe, after_run-Represents, run_events-Safe}
use watermeter.Counter.Edges.{InSync}
use watermeter.Main.Readings.{
  view_with_readings, Represents-with_readings, after_run, after_run_lem,
}
use watermeter.Main.Quiet.{last_saved}
use watermeter.Main.Saved.{HasPulses, main_timer_cb-IsSaved}
use watermeter.Start.{user_init}
use watermeter.Start.Trace.{store_trace, store_trace-sd_ok, store_trace-HasInitData}
use watermeter.Utils.InitData.{LeavesInitData, HasInitData}
use watermeter.Start.Init.{Begun, user_init-Begun}
use mathlib.Core.Option.{some-injective}

module _ (spi : SpiFlash) (fat : FatLibrary) where
  -- The media hold what was saved last.
  store_trace-last_saved :
      (trace : List Action) (c : Config) (m : Media spi fat)
      → last_saved trace ≡ some c
      → (m1 : Media spi fat) × (store_trace spi fat trace m ≡ Storage.save_config spi fat true c m1)
        × (m1.sd_ok ≡ m.sd_ok)
  unfolding store_trace last_saved
  store_trace-last_saved [] c m h = cc
  store_trace-last_saved (save_config saved ∷ trace) c m h = (
    store_trace spi fat trace m,
    ap (λ c. Storage.save_config spi fat true c (store_trace spi fat trace m))
        (some-injective _ _ h),
    store_trace-sd_ok spi fat trace m,
  )
  store_trace-last_saved (remove_config ∷ trace) c m h = cc
  store_trace-last_saved (a ∷ trace) c m h = store_trace-last_saved trace c m h

  -- A start after the trace of a device that has saved its configuration, as `v` describes it.
  restart-Begun :
      (d : Device) (v : View) (m : Media spi fat) (rtc stamp : ℕ) (data_allocated : Bool)
      → last_saved d.trace ≡ some d.config
      → Represents d.config v
      → WordsFit v
      → Keeps spi fat m.sd_ok
      → LeavesInitData spi
      → HasInitData spi data_allocated m.flash
      → (r : Device) × (user_init spi fat rtc stamp data_allocated true
            (store_trace spi fat d.trace m)
          ≡ some r)
        × Begun true r.config r
        × Represents r.config v
  unfolding write_flash_config
  restart-Begun d v m rtc stamp data_allocated saved r fits keeps leaves settled =
      let (m1, e, same) = store_trace-last_saved d.trace d.config m saved in
      rw e (
        user_init-Begun spi fat rtc stamp data_allocated true
          (Storage.save_config spi fat true d.config m1) v
          (subst (λ n. HasInitData spi data_allocated n.flash) e
            (store_trace-HasInitData spi fat data_allocated d.trace m leaves settled))
          (λ old.
            read_config-save_config spi fat d.config old v m1
              (subst (Keeps spi fat) (sym same) keeps) r fits))

  -- No pulse is lost when the power goes after a run of the main timer without a connection: when the
  -- calls of the device, that of the run included, have reached a medium, the card or the flash, that
  -- keeps what it is given, and a flash whose initial data was as it should be and is not touched by
  -- these calls, the next start has the readings of before with the litres of all counted pulses
  -- added, and every other setting; its counters are empty.
  pub user_init-after_run :
      (a : Answers) (d d' : Device) (v : View) (m : Media spi fat) (rtc stamp : ℕ)
      (data_allocated : Bool)
      → main_timer_cb a d ≡ some d'
      → d.flags.mqtt_connected ≡ false
      → HasPulses d
      → Represents d.config v
      → WordsFit v
      → Keeps spi fat m.sd_ok
      → LeavesInitData spi
      → HasInitData spi data_allocated m.flash
      → (r : Device) × (user_init spi fat rtc stamp data_allocated true
            (store_trace spi fat d'.trace m)
          ≡ some r)
        × Begun true r.config r
        × (r.config.hot_water
            ≡ u32 (v.hot_water + u32 (d.counter.counter_hot_water * v.liters_per_pulse)))
        × (r.config.cold_water
            ≡ u32 (v.cold_water + u32 (d.counter.counter_cold_water * v.liters_per_pulse)))
        × Represents r.config (view_with_readings r.config v)
  user_init-after_run a d d' v m rtc stamp data_allocated run off pulses rep fits keeps leaves
        settled =
      let saved = main_timer_cb-IsSaved a d d' off pulses run in
      let x = after_run a d in
      let (words, hot, cold) = after_run_lem a d v rep fits in
      let means = after_run-Represents a d d' v run rep in
      let (r, e, begun, has) =
        restart-Begun d' (view_with_readings x v) m rtc stamp data_allocated saved means words keeps
          leaves settled in
      (
        r,
        e,
        begun,
        has.hot_water ∙ hot,
        has.cold_water ∙ cold,
        Represents-with_readings r.config r.config (view_with_readings x v) has,
      )

  -- On a device without a connection whose configuration was saved last, after any ticks and runs of the
  -- two timers, in any order, that overrun no buffer: when the power goes, the next start has, on a
  -- medium that keeps what it is given and with initial data as above, the readings of before with the
  -- litres of all pulses since, modulo 2^32, but for the pulses that still were in the counters.
  pub user_init-run_events :
      (es : List Event) (d d' : Device) (v : View) (m : Media spi fat) (rtc stamp : ℕ)
      (data_allocated : Bool)
      → run_events es d ≡ some d'
      → InSync d
      → Safe d v
      → Keeps spi fat m.sd_ok
      → LeavesInitData spi
      → HasInitData spi data_allocated m.flash
      → (r : Device) × (user_init spi fat rtc stamp data_allocated true
            (store_trace spi fat d'.trace m)
          ≡ some r)
        × Begun true r.config r
        × ((r.config.hot_water + d'.counter.counter_hot_water * d.config.liters_per_pulse) % 2 ^ 32
            ≡ (hot_total d + pulses 0 d.debounce es * d.config.liters_per_pulse) % 2 ^ 32)
        × ((r.config.cold_water + d'.counter.counter_cold_water * d.config.liters_per_pulse)
              % 2 ^ 32
            ≡ (cold_total d + pulses 1 d.debounce es * d.config.liters_per_pulse) % 2 ^ 32)
  user_init-run_events es d d' v m rtc stamp data_allocated run sync safe keeps leaves settled =
      let (v', s) = run_events-Safe es d d' v run safe in
      let (sync', hot, cold, liters) = run_events-conserve es d d' sync run in
      let (r, e, begun, has) =
        restart-Begun d' v' m rtc stamp data_allocated s.saved s.means s.fits keeps leaves
          settled in
      (
        r,
        e,
        begun,
        rw (has.hot_water ∙ sym s.means.hot_water) (rw liters at hot),
        rw (has.cold_water ∙ sym s.means.cold_water) (rw liters at cold),
      )
