-- ===== src/Main/Readings.antt =====
-- The readings after one run of `mainTimer_cb`, and the other settings.
use watermeter.Base.{ℕ, ◌+◌, ◌*◌, ◌^◌, ◌<◌, ◌≡◌, inl, inr, refl, ap, ap₂, ◌∙◌, arith, Bool-cases}
use watermeter.Base.{u32, ◌==◌}
use watermeter.Config.{Config, local_time}
use watermeter.Config.Persist.{WordsFit}
use watermeter.Config.Valid.{View, Represents}
use watermeter.Device.{Device}
use watermeter.Main.{Answers}
use watermeter.Main.Blocks.{after_hot, after_cold}

-- A configuration, or what it means, with the times and readings of another.
abbrev pub with_readings : Config → Config → Config
with_readings x c = record c {
  hot_time = x.hot_time;
  hot_water = x.hot_water;
  cold_time = x.cold_time;
  cold_water = x.cold_water;
}

abbrev pub view_with_readings : Config → View → View
view_with_readings x v = record v {
  hot_time = x.hot_time;
  hot_water = x.hot_water;
  cold_time = x.cold_time;
  cold_water = x.cold_water;
}

pub Represents-with_readings :
    (x c : Config) (v : View)
    → Represents c v
    → Represents (with_readings x c) (view_with_readings x v)
Represents-with_readings x c v r = record {
  web_admin_login = r.web_admin_login;
  web_admin_password = r.web_admin_password;
  full_security = r.full_security;
  config_security = r.config_security;
  sta_ssid = r.sta_ssid;
  sta_password = r.sta_password;
  ap_mode = r.ap_mode;
  ap_ssid = r.ap_ssid;
  ap_password = r.ap_password;
  mqtt_broker = r.mqtt_broker;
  mqtt_user = r.mqtt_user;
  mqtt_password = r.mqtt_password;
  mqtt_topic = r.mqtt_topic;
  ntp_server_name = r.ntp_server_name;
  time_zone = r.time_zone;
  liters_per_pulse = r.liters_per_pulse;
  hot_time = refl;
  hot_water = refl;
  cold_time = refl;
  cold_water = refl;
}

-- The configuration after a run.
abbrev pub after_run : Answers → Device → Config
after_run a d =
    after_cold a (after_hot a d.config d.counter.counter_hot_water) d.counter.counter_cold_water

after_hot-with_readings :
    (a : Answers) (c : Config) (n : ℕ) → after_hot a c n ≡ with_readings (after_hot a c n) c
after_hot-with_readings a c n = elim (Bool-cases (n == 0)) [
  | inl idle ↦ rw idle refl
  | inr busy ↦ rw busy refl
]

after_cold-with_readings :
    (a : Answers) (c : Config) (n : ℕ) → after_cold a c n ≡ with_readings (after_cold a c n) c
after_cold-with_readings a c n = elim (Bool-cases (n == 0)) [
  | inl idle ↦ rw idle refl
  | inr busy ↦ rw busy refl
]

pub after_run-with_readings :
    (a : Answers) (d : Device) → after_run a d ≡ with_readings (after_run a d) d.config
after_run-with_readings a d =
    let hot = after_hot a d.config d.counter.counter_hot_water in
    after_cold-with_readings a hot d.counter.counter_cold_water
    ∙ ap (with_readings (after_run a d))
        (after_hot-with_readings a d.config d.counter.counter_hot_water)

-- What the block of a counter leaves of the four numbers.
after_hot_lem :
    (a : Answers) (c : Config) (n : ℕ)
    → c.hot_time < 2 ^ 32
    → c.hot_water < 2 ^ 32
    → ((after_hot a c n).hot_time < 2 ^ 32)
      × ((after_hot a c n).hot_water ≡ u32 (c.hot_water + u32 (n * c.liters_per_pulse)))
      × ((after_hot a c n).cold_time ≡ c.cold_time)
      × ((after_hot a c n).cold_water ≡ c.cold_water)
      × ((after_hot a c n).liters_per_pulse ≡ c.liters_per_pulse)
unfolding local_time
after_hot_lem a c n time water = elim (Bool-cases (n == 0)) [
  | inl idle ↦
      let e : n ≡ 0 = ground (arith, idle) in
      rw (idle, e) (time, omega (arith, water), refl, refl, refl)
  | inr busy ↦ rw busy (omega arith, refl, refl, refl, refl)
]

after_cold_lem :
    (a : Answers) (c : Config) (n : ℕ)
    → c.cold_time < 2 ^ 32
    → c.cold_water < 2 ^ 32
    → ((after_cold a c n).cold_time < 2 ^ 32)
      × ((after_cold a c n).cold_water ≡ u32 (c.cold_water + u32 (n * c.liters_per_pulse)))
      × ((after_cold a c n).hot_time ≡ c.hot_time)
      × ((after_cold a c n).hot_water ≡ c.hot_water)
unfolding local_time
after_cold_lem a c n time water = elim (Bool-cases (n == 0)) [
  | inl idle ↦
      let e : n ≡ 0 = ground (arith, idle) in rw (idle, e) (time, omega (arith, water), refl, refl)
  | inr busy ↦ rw busy (omega arith, refl, refl, refl)
]

-- The numbers of the configuration after a run.
pub after_run_lem :
    (a : Answers) (d : Device) (v : View)
    → Represents d.config v
    → WordsFit v
    → WordsFit (view_with_readings (after_run a d) v)
      × ((after_run a d).hot_water
          ≡ u32 (v.hot_water + u32 (d.counter.counter_hot_water * v.liters_per_pulse)))
      × ((after_run a d).cold_water
          ≡ u32 (v.cold_water + u32 (d.counter.counter_cold_water * v.liters_per_pulse)))
after_run_lem a d v r (ht, hw, ct, cw) =
    let hot_pulses = d.counter.counter_hot_water in
    let cold_pulses = d.counter.counter_cold_water in
    let hot = after_hot a d.config hot_pulses in
    let (t1, w1, ct1, cw1, l1) =
      after_hot_lem a d.config hot_pulses (omega (arith, ht, r.hot_time))
        (omega (arith, hw, r.hot_water)) in
    let (t2, w2, ht2, hw2) =
      after_cold_lem a hot cold_pulses (omega (arith, ct, r.cold_time, ct1))
        (omega (arith, cw, r.cold_water, cw1)) in
    let hot_sum = ap₂ (λ w l. u32 (w + u32 (hot_pulses * l))) r.hot_water r.liters_per_pulse in
    let cold_sum =
      ap₂ (λ w l. u32 (w + u32 (cold_pulses * l))) (cw1 ∙ r.cold_water) (l1 ∙ r.liters_per_pulse) in
    (
      (omega (arith, ht2, t1), omega (arith, hw2, w1), t2, omega (arith, w2)),
      hw2 ∙ w1 ∙ hot_sum,
      w2 ∙ cold_sum,
    )
