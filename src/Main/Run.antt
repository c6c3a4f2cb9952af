-- ===== src/Main/Run.antt =====
-- One run of `mainTimer_cb`: where the counted pulses go, whatever its calls answer.
use watermeter.Base.{
  ℕ, ◌≡◌, ◌≢◌, inl, inr, refl, sym, subst, ap, ap₂, ◌∙◌, arith, Bool, true, false,
}
use watermeter.Base.{List, [], ◌∷◌, ◌++◌, some, if◌then◌else◌, Bool-cases, ◌&&◌}
use watermeter.Base.Text.{Text, codes}
use watermeter.Base.CString.{c_string}
use watermeter.Config.{Config}
use watermeter.Device.{Device, Flags, Action, show, mqtt_publish, emit, main_timer, arm, disarm}
use watermeter.Utils.{Mac, display_update, display_line, set_time_start}
use watermeter.Main.{
  Answers, main_hot, main_cold, main_new_hot, main_new_cold, main_end, main_timer_cb, announce,
  hot_out, cold_out, print_reading, print_topic,
}
use watermeter.Main.Flow.{Adds, Keeps, Keeps-trans, Secured, >>=-eq-some}
use watermeter.Main.Blocks.{
  HotDone, ColdDone, main_hot-HotDone, main_cold-ColdDone, after_hot, after_cold,
}
use mathlib.Core.Option.{some-injective}
use mathlib.Core.List.{append_assoc}
use mathlib.Core.List.Memᴰ

flags-Keeps : (d : Device) (f : Flags) → Keeps d (record d { flags = f })
flags-Keeps d f = record { new = []; adds = refl; config = refl; counter = refl; debounce = refl }

emit-Keeps : (b : Bool) (act : Action) (d : Device) → Keeps d (if b then emit act d else d)
emit-Keeps true act d = record {
  new = act ∷ [];
  adds = refl;
  config = refl;
  counter = refl;
  debounce = refl;
}
emit-Keeps false act d = flags-Keeps d d.flags

-- The branch that a known test takes.
pub test {ℓ} :
    {A : Type ℓ} {b c : Bool} (x y : A) {z : A}
    → b ≡ c
    → (if b then x else y) ≡ z
    → (if c then x else y) ≡ z
test x y {z} e h = subst (λ b. (if b then x else y) ≡ z) e h

announce-Keeps :
    (topic : Text) (mac : Mac) (ending : Text) (time water : ℕ) (d d' : Device)
    → announce topic mac ending time water d ≡ some d'
    → Keeps d d'
unfolding announce
announce-Keeps topic mac ending time water d d' h =
    let (payload, printed, h1) = >>=-eq-some (print_reading time water (codes " NEW")) _ h in
    let (full, named, h2) = >>=-eq-some (print_topic topic mac ending) _ h1 in
    subst (Keeps d) (some-injective _ _ h2)
      (emit-Keeps d.flags.mqtt_connected (mqtt_publish full payload) d)

pub main_new_hot-Keeps : (a : Answers) (d d' : Device) → main_new_hot a d ≡ some d' → Keeps d d'
unfolding main_new_hot
main_new_hot-Keeps a d d' h = elim (Bool-cases d.flags.subs_hot_water) [
  | inl asked ↦
      let (topic, read, h1) = >>=-eq-some (c_string d.config.mqtt_topic) _ (test _ _ asked h) in
      elim (Bool-cases a.topic_new_hot) [
        | inl got ↦ Keeps-trans (flags-Keeps d _) (
            announce-Keeps topic a.mac hot_out d.config.hot_time d.config.hot_water _ d'
              (test _ _ got h1))
        | inr refused ↦ subst (Keeps d) (some-injective _ _ (test _ _ refused h1)) (flags-Keeps d _)
      ]
  | inr quiet ↦ subst (Keeps d) (some-injective _ _ (test _ _ quiet h)) (flags-Keeps d d.flags)
]

pub main_new_cold-Keeps : (a : Answers) (d d' : Device) → main_new_cold a d ≡ some d' → Keeps d d'
unfolding main_new_cold
main_new_cold-Keeps a d d' h = elim (Bool-cases d.flags.subs_cold_water) [
  | inl asked ↦
      let (topic, read, h1) = >>=-eq-some (c_string d.config.mqtt_topic) _ (test _ _ asked h) in
      elim (Bool-cases a.topic_new_cold) [
        | inl got ↦ Keeps-trans (flags-Keeps d _) (
            announce-Keeps topic a.mac cold_out d.config.cold_time d.config.cold_water _ d'
              (test _ _ got h1))
        | inr refused ↦ subst (Keeps d) (some-injective _ _ (test _ _ refused h1)) (flags-Keeps d _)
      ]
  | inr quiet ↦ subst (Keeps d) (some-injective _ _ (test _ _ quiet h)) (flags-Keeps d d.flags)
]

display_update-Keeps : (d d' : Device) → display_update d ≡ some d' → Keeps d d'
unfolding display_update
display_update-Keeps d d' h =
    let (hot, e1, h1) = >>=-eq-some (display_line (codes "Hot  ") d.config.hot_water) _ h in
    let (cold, e2, h2) = >>=-eq-some (display_line (codes "Cold ") d.config.cold_water) _ h1 in
    subst (Keeps d) (some-injective _ _ h2)
      (Keeps-trans (flags-Keeps d _) (emit-Keeps true (show hot cold) _))

start_time-Keeps :
    (b : Bool) (stamp : ℕ) (d : Device)
    → Keeps d (
        if b
        then set_time_start stamp (record d { flags = record (d.flags) { first_ntp = false } })
        else d)
unfolding set_time_start
start_time-Keeps true stamp d = record {
  new = [];
  adds = refl;
  config = refl;
  counter = refl;
  debounce = refl;
}
start_time-Keeps false stamp d = flags-Keeps d d.flags

redraw-Keeps :
    (b : Bool) (d d' : Device) → (if b then display_update d else some d) ≡ some d' → Keeps d d'
redraw-Keeps true d d' h = display_update-Keeps d d' h
redraw-Keeps false d d' h = subst (Keeps d) (some-injective _ _ h) (flags-Keeps d d.flags)

pub main_end-Keeps : (a : Answers) (d d' : Device) → main_end a d ≡ some d' → Keeps d d'
unfolding main_end
main_end-Keeps a d d' h =
    let (d1, e1, h1) =
      >>=-eq-some (if d.flags.display_write then display_update d else some d) _ h in
    subst (Keeps d) (some-injective _ _ h1) (
      Keeps-trans (redraw-Keeps d.flags.display_write d d1 e1) (
        Keeps-trans
          (start_time-Keeps (d1.flags.first_ntp && d1.flags.response_ntp) a.stamp_start d1)
          (emit-Keeps true (arm main_timer 250 false) _)))

-- What a run leaves of the two counters.
pub record Ran (a : Answers) (d d' : Device) : Type 0 where
  pub new : List Action
  pub adds : Adds new d d'
  pub config :
      d'.config
      ≡ after_cold a (after_hot a d.config d.counter.counter_hot_water) d.counter.counter_cold_water
  pub hot_counter : d'.counter.counter_hot_water ≡ 0
  pub cold_counter : d'.counter.counter_cold_water ≡ 0
  pub status_old : d'.counter.status_old ≡ d.counter.status_old
  pub debounce : d'.debounce ≡ d.debounce
  pub hot_secured :
      d.counter.counter_hot_water ≢ 0
      → (c : Config) × (c.hot_water ≡ d'.config.hot_water)
        × (c.hot_time ≡ d'.config.hot_time)
        × Secured d.flags.mqtt_connected a.published_hot c c.hot_time c.hot_water new
  pub cold_secured :
      d.counter.counter_cold_water ≢ 0
      → (c : Config) × (c.cold_water ≡ d'.config.cold_water)
        × (c.cold_time ≡ d'.config.cold_time)
        × Secured d.flags.mqtt_connected a.published_cold c c.cold_time c.cold_water new

after_cold-hot :
    (a : Answers) (c : Config) (n : ℕ)
    → ((after_cold a c n).hot_water ≡ c.hot_water) × ((after_cold a c n).hot_time ≡ c.hot_time)
after_cold-hot a c n = ground arith

-- More calls around those that secure a reading.
Secured-append :
    (connected published : Bool) (c : Config) (time water : ℕ) (later new before : List Action)
    → Secured connected published c time water new
    → Secured connected published c time water (later ++ (new ++ before))
Secured-append connected published c time water later new before (inl m) =
    inl (Memᴰ.append_right later (Memᴰ.append_left before m))
Secured-append connected published c time water later new before (inr (on, taken, (full, m))) =
    inr (on, taken, (full, Memᴰ.append_right later (Memᴰ.append_left before m)))

adds_up :
    (t t1 t2 t3 n1 n2 n3 : List Action) (first : Action)
    → t1 ≡ n1 ++ (first ∷ t)
    → t2 ≡ n2 ++ t1
    → t3 ≡ n3 ++ t2
    → t3 ≡ (n3 ++ (n2 ++ (n1 ++ (first ∷ [])))) ++ t
adds_up t t1 t2 t3 n1 n2 n3 first e1 e2 e3 = rw (e3, e2, e1) (simp append_assoc)

Ran-of_stages :
    (a : Answers) (d d1 d2 d' : Device)
    → HotDone a (emit (disarm main_timer) d) d1
    → ColdDone a d1 d2
    → Keeps d2 d'
    → Ran a d d'
Ran-of_stages a d d1 d2 d' hot cold rest = record {
  new = rest.new ++ (cold.new ++ (hot.new ++ (disarm main_timer ∷ [])));
  adds =
      adds_up d.trace d1.trace d2.trace d'.trace hot.new cold.new rest.new (disarm main_timer)
        hot.adds cold.adds rest.adds;
  config =
      rest.config
      ∙ cold.config
      ∙ ap₂ (after_cold a) hot.config (ap (λ n. n.counter_cold_water) hot.counter);
  hot_counter =
      ap (λ n. n.counter_hot_water) rest.counter
      ∙ ap (λ n. n.counter_hot_water) cold.counter
      ∙ ap (λ n. n.counter_hot_water) hot.counter;
  cold_counter =
      ap (λ n. n.counter_cold_water) rest.counter ∙ ap (λ n. n.counter_cold_water) cold.counter;
  status_old =
      ap (λ n. n.status_old) rest.counter
      ∙ ap (λ n. n.status_old) cold.counter
      ∙ ap (λ n. n.status_old) hot.counter;
  debounce = rest.debounce ∙ cold.debounce ∙ hot.debounce;
  hot_secured = λ busy.
      let later = rest.config ∙ cold.config in
      let kept = after_cold-hot a d1.config d1.counter.counter_cold_water in
      (
        d1.config,
        sym (ap (λ c. c.hot_water) later ∙ kept.0),
        sym (ap (λ c. c.hot_time) later ∙ kept.1),
        subst
            (Secured d.flags.mqtt_connected a.published_hot d1.config d1.config.hot_time
              d1.config.hot_water)
            (append_assoc rest.new cold.new _)
            (Secured-append _ _ _ _ _ (rest.new ++ cold.new) hot.new _ (hot.secured busy)),
      );
  cold_secured = λ busy. (
    d2.config,
    sym (ap (λ c. c.cold_water) rest.config),
    sym (ap (λ c. c.cold_time) rest.config),
    Secured-append _ _ _ _ _ rest.new cold.new _ (
        subst
          (λ b.
            Secured b a.published_cold d2.config d2.config.cold_time d2.config.cold_water cold.new)
          hot.connected
          (cold.secured (λ e. busy (sym (ap (λ n. n.counter_cold_water) hot.counter) ∙ e)))),
  );
}

-- A run that overruns no buffer adds the counted pulses, times the litres per pulse, to the two readings
-- of the configuration, and leaves both counters empty. Where there were pulses, the new reading is
-- secured: a configuration with it was handed to the storage, or the MQTT client, connected, took
-- the message with it.
pub main_timer_cb-Ran : (a : Answers) (d d' : Device) → main_timer_cb a d ≡ some d' → Ran a d d'
unfolding main_timer_cb
main_timer_cb-Ran a d d' h =
    let d0 = emit (disarm main_timer) d in
    let (d1, e1, h1) = >>=-eq-some (main_hot a d0) _ h in
    let (d2, e2, h2) = >>=-eq-some (main_cold a d1) _ h1 in
    let (d3, e3, h3) = >>=-eq-some (main_new_hot a d2) _ h2 in
    let (d4, e4, h4) = >>=-eq-some (main_new_cold a d3) _ h3 in
    let rest =
      Keeps-trans (main_new_hot-Keeps a d2 d3 e3)
        (Keeps-trans (main_new_cold-Keeps a d3 d4 e4) (main_end-Keeps a d4 d' h4)) in
    Ran-of_stages a d d1 d2 d' (main_hot-HotDone a d0 d1 e1) (main_cold-ColdDone a d1 d2 e2) rest
