-- ===== src/Main/Blocks.antt =====
-- The blocks of `mainTimer_cb` for a counter that was added to.
use watermeter.Base.{ℕ, ◌+◌, ◌*◌, ◌≡◌, ◌≢◌, inl, inr, refl, sym, subst, ap, arith}
use watermeter.Base.{List, [], some, u32, ◌==◌, if◌then◌else◌, Bool-cases}
use watermeter.Base.CString.{c_string}
use watermeter.Config.{Config, local_time}
use watermeter.Device.{Device, Action}
use watermeter.Main.{Answers, main_hot, main_cold}
use watermeter.Main.Flow.{Adds, Secured, report-Reported, >>=-eq-some}
use mathlib.Core.Option.{some-injective}

-- The configuration after the block for hot water.
abbrev pub after_hot : Answers → Config → ℕ → Config
after_hot a c pulses = if pulses == 0 then c else record c {
  hot_time = local_time a.stamp_hot c;
  hot_water = u32 (c.hot_water + u32 (pulses * c.liters_per_pulse));
}

-- The block for hot water: the pulses move from the counter into the configuration, and where there
-- were any, the new reading is secured.
pub record HotDone (a : Answers) (d d' : Device) : Type 0 where
  pub new : List Action
  pub adds : Adds new d d'
  pub config : d'.config ≡ after_hot a d.config d.counter.counter_hot_water
  pub counter : d'.counter ≡ record (d.counter) { counter_hot_water = 0 }
  pub debounce : d'.debounce ≡ d.debounce
  pub connected : d'.flags.mqtt_connected ≡ d.flags.mqtt_connected
  pub secured :
      d.counter.counter_hot_water ≢ 0
      → Secured d.flags.mqtt_connected a.published_hot d'.config d'.config.hot_time
          d'.config.hot_water new

pub main_hot-HotDone : (a : Answers) (d d' : Device) → main_hot a d ≡ some d' → HotDone a d d'
unfolding main_hot
main_hot-HotDone a d d' h = elim (Bool-cases (d.counter.counter_hot_water == 0)) [
  | inl idle ↦ subst (HotDone a d) (some-injective _ _ (rw idle at h)) (record {
    new = [];
    adds = refl;
    config = rw idle;
    counter = ground arith;
    debounce = refl;
    connected = refl;
    secured = λ ne. absurd (ne (ground arith));
  })
  | inr busy ↦
      let (topic, read, h1) = >>=-eq-some (c_string d.config.mqtt_topic) _ (rw busy at h) in
      let r = report-Reported _ _ _ _ _ _ _ _ d' h1 in
      record {
        new = r.new;
        adds = r.adds;
        config = rw busy r.config;
        counter = r.counter;
        debounce = r.debounce;
        connected = ap (λ f. f.mqtt_connected) r.flags;
        secured = λ ne.
            subst
              (λ c. Secured d.flags.mqtt_connected a.published_hot c c.hot_time c.hot_water r.new)
              (sym r.config) r.secured;
      }
]

-- The configuration after the block for cold water.
abbrev pub after_cold : Answers → Config → ℕ → Config
after_cold a c pulses = if pulses == 0 then c else record c {
  cold_time = local_time a.stamp_cold c;
  cold_water = u32 (c.cold_water + u32 (pulses * c.liters_per_pulse));
}

-- The block for cold water: the pulses move from the counter into the configuration, and where there
-- were any, the new reading is secured.
pub record ColdDone (a : Answers) (d d' : Device) : Type 0 where
  pub new : List Action
  pub adds : Adds new d d'
  pub config : d'.config ≡ after_cold a d.config d.counter.counter_cold_water
  pub counter : d'.counter ≡ record (d.counter) { counter_cold_water = 0 }
  pub debounce : d'.debounce ≡ d.debounce
  pub connected : d'.flags.mqtt_connected ≡ d.flags.mqtt_connected
  pub secured :
      d.counter.counter_cold_water ≢ 0
      → Secured d.flags.mqtt_connected a.published_cold d'.config d'.config.cold_time
          d'.config.cold_water new

pub main_cold-ColdDone : (a : Answers) (d d' : Device) → main_cold a d ≡ some d' → ColdDone a d d'
unfolding main_cold
main_cold-ColdDone a d d' h = elim (Bool-cases (d.counter.counter_cold_water == 0)) [
  | inl idle ↦ subst (ColdDone a d) (some-injective _ _ (rw idle at h)) (record {
    new = [];
    adds = refl;
    config = rw idle;
    counter = ground arith;
    debounce = refl;
    connected = refl;
    secured = λ ne. absurd (ne (ground arith));
  })
  | inr busy ↦
      let (topic, read, h1) = >>=-eq-some (c_string d.config.mqtt_topic) _ (rw busy at h) in
      let r = report-Reported _ _ _ _ _ _ _ _ d' h1 in
      record {
        new = r.new;
        adds = r.adds;
        config = rw busy r.config;
        counter = r.counter;
        debounce = r.debounce;
        connected = ap (λ f. f.mqtt_connected) r.flags;
        secured = λ ne.
            subst
              (λ c.
                Secured d.flags.mqtt_connected a.published_cold c c.cold_time c.cold_water r.new)
              (sym r.config) r.secured;
      }
]
