-- ===== src/Main/Saved.antt =====
-- What one run of `mainTimer_cb` leaves on the medium when nobody takes its messages.
use watermeter.Base.{
  ℕ, ◌≡◌, ◌≢◌, ◌⊎◌, inl, inr, refl, sym, subst, ap, ◌∙◌, arith, Bool, true, false,
}
use watermeter.Base.{[], some, ◌==◌, Bool-cases}
use watermeter.Base.Text.{Text}
use watermeter.Base.CString.{c_string}
use watermeter.Device.{Device, save_config, emit, main_timer, disarm}
use watermeter.Utils.{Mac}
use watermeter.Main.{
  Answers, report, main_hot, main_cold, main_new_hot, main_new_cold, main_timer_cb, hot_out,
  cold_out, print_reading, print_topic,
}
use watermeter.Main.Quiet.{
  last_saved, IsQuiet, IsQuiet-trans, main_new_hot-IsQuiet, main_new_cold-IsQuiet, main_end-IsQuiet,
}
use watermeter.Main.Flow.{>>=-eq-some}
use watermeter.Main.Run.{test, main_new_hot-Keeps, main_new_cold-Keeps, main_end-Keeps}
use watermeter.Main.Blocks.{main_hot-HotDone, main_cold-ColdDone}
use mathlib.Core.Option.{some-injective}

-- Without a connection the block of a counter hands the configuration to the storage.
report_offline :
    (allocated published : Bool) (topic : Text) (mac : Mac) (ending : Text) (time water : ℕ)
    (d d' : Device)
    → d.flags.mqtt_connected ≡ false
    → report allocated published topic mac ending time water d ≡ some d'
    → emit (save_config d.config) d ≡ d'
unfolding report
report_offline false published topic mac ending time water d d' off h = some-injective _ _ h
report_offline true published topic mac ending time water d d' off h =
    let (payload, printed, h1) = >>=-eq-some (print_reading time water []) _ h in
    let (full, named, h2) = >>=-eq-some (print_topic topic mac ending) _ h1 in
    test _ _ off (some-injective _ _ h2)

-- The configuration of the device is what was saved last.
abbrev pub IsSaved : Device → Type 0
IsSaved d = last_saved d.trace ≡ some d.config

emit-IsSaved : (d d' : Device) → emit (save_config d.config) d ≡ d' → IsSaved d'
unfolding last_saved
emit-IsSaved d d' e = subst IsSaved e refl

main_hot-IsSaved :
    (a : Answers) (d d' : Device)
    → d.flags.mqtt_connected ≡ false
    → d.counter.counter_hot_water ≢ 0
    → main_hot a d ≡ some d'
    → IsSaved d'
unfolding main_hot
main_hot-IsSaved a d d' off busy h =
    let some_pulses : (d.counter.counter_hot_water == 0) ≡ false = ground (arith, busy) in
    let (topic, read, h1) = >>=-eq-some (c_string d.config.mqtt_topic) _ (test _ _ some_pulses h) in
    emit-IsSaved _ d'
      (report_offline a.topic_hot a.published_hot topic a.mac hot_out _ _ _ d' off h1)

main_cold-IsSaved :
    (a : Answers) (d d' : Device)
    → d.flags.mqtt_connected ≡ false
    → d.counter.counter_cold_water ≢ 0
    → main_cold a d ≡ some d'
    → IsSaved d'
unfolding main_cold
main_cold-IsSaved a d d' off busy h =
    let some_pulses : (d.counter.counter_cold_water == 0) ≡ false = ground (arith, busy) in
    let (topic, read, h1) = >>=-eq-some (c_string d.config.mqtt_topic) _ (test _ _ some_pulses h) in
    emit-IsSaved _ d'
      (report_offline a.topic_cold a.published_cold topic a.mac cold_out _ _ _ d' off h1)

main_cold_idle :
    (a : Answers) (d d' : Device)
    → d.counter.counter_cold_water ≡ 0
    → main_cold a d ≡ some d'
    → d ≡ d'
unfolding main_cold
main_cold_idle a d d' idle h =
    let none_left : (d.counter.counter_cold_water == 0) ≡ true = ground (arith, idle) in
    some-injective _ _ (test _ _ none_left h)

quiet-IsSaved : (d d' : Device) → IsQuiet d d' → d'.config ≡ d.config → IsSaved d → IsSaved d'
quiet-IsSaved d d' (quiet, off) same s = quiet ∙ s ∙ ap some (sym same)

-- There is a pulse that was not yet added to a reading.
abbrev pub HasPulses : Device → Type 0
HasPulses d = (d.counter.counter_hot_water ≢ 0) ⊎ (d.counter.counter_cold_water ≢ 0)

two_blocks-IsSaved :
    (a : Answers) (d d1 d2 : Device)
    → d.flags.mqtt_connected ≡ false
    → HasPulses d
    → main_hot a d ≡ some d1
    → main_cold a d1 ≡ some d2
    → IsSaved d2
two_blocks-IsSaved a d d1 d2 off pulses e1 e2 =
    let hot = main_hot-HotDone a d d1 e1 in
    let same = ap (λ n. n.counter_cold_water) hot.counter in
    elim (Bool-cases (d.counter.counter_cold_water == 0)) [
      | inl idle ↦
          let still : d1.counter.counter_cold_water ≡ 0 = ground (arith, idle, same) in
          let busy : d.counter.counter_hot_water ≢ 0 = ground (arith, pulses, idle) in
          subst IsSaved (main_cold_idle a d1 d2 still e2) (main_hot-IsSaved a d d1 off busy e1)
      | inr busy ↦ main_cold-IsSaved a d1 d2 (hot.connected ∙ off) (ground (arith, busy, same)) e2
    ]

main_hot_idle :
    (a : Answers) (d d' : Device)
    → d.counter.counter_hot_water ≡ 0
    → main_hot a d ≡ some d'
    → d ≡ d'
unfolding main_hot
main_hot_idle a d d' idle h =
    let none_left : (d.counter.counter_hot_water == 0) ≡ true = ground (arith, idle) in
    some-injective _ _ (test _ _ none_left h)

-- A device whose configuration was saved last stays one, with pulses or without.
two_blocks-stay_IsSaved :
    (a : Answers) (d d1 d2 : Device)
    → d.flags.mqtt_connected ≡ false
    → IsSaved d
    → main_hot a d ≡ some d1
    → main_cold a d1 ≡ some d2
    → IsSaved d2
two_blocks-stay_IsSaved a d d1 d2 off saved e1 e2 =
    elim (Bool-cases (d.counter.counter_hot_water == 0)) [
      | inl idle ↦
          let same = main_hot_idle a d d1 (ground (arith, idle)) e1 in
          elim (Bool-cases (d.counter.counter_cold_water == 0)) [
            | inl still ↦
                let none_left : d1.counter.counter_cold_water ≡ 0 =
                  ap (λ n. n.counter.counter_cold_water) (sym same) ∙ ground (arith, still) in
                subst IsSaved (same ∙ main_cold_idle a d1 d2 none_left e2) saved
            | inr busy ↦ two_blocks-IsSaved a d d1 d2 off (inr (ground (arith, busy))) e1 e2
          ]
      | inr busy ↦ two_blocks-IsSaved a d d1 d2 off (inl (ground (arith, busy))) e1 e2
    ]

-- What a run keeps, given what its two blocks for the counters do.
run-keeps_IsSaved :
    (a : Answers) (d d' : Device)
    → main_timer_cb a d ≡ some d'
    → ((d1 d2 : Device)
        → main_hot a (emit (disarm main_timer) d) ≡ some d1
        → main_cold a d1 ≡ some d2
        → IsSaved d2)
    → IsSaved d' × (d'.flags.mqtt_connected ≡ d.flags.mqtt_connected)
unfolding main_timer_cb
run-keeps_IsSaved a d d' h blocks =
    let d0 = emit (disarm main_timer) d in
    let (d1, e1, h1) = >>=-eq-some (main_hot a d0) _ h in
    let (d2, e2, h2) = >>=-eq-some (main_cold a d1) _ h1 in
    let (d3, e3, h3) = >>=-eq-some (main_new_hot a d2) _ h2 in
    let (d4, e4, h4) = >>=-eq-some (main_new_cold a d3) _ h3 in
    let quiet =
      IsQuiet-trans d2 d3 d' (main_new_hot-IsQuiet a d2 d3 e3)
        (IsQuiet-trans d3 d4 d' (main_new_cold-IsQuiet a d3 d4 e4) (main_end-IsQuiet a d4 d' h4)) in
    let same =
      (main_end-Keeps a d4 d' h4).config
      ∙ (main_new_cold-Keeps a d3 d4 e4).config
      ∙ (main_new_hot-Keeps a d2 d3 e3).config in
    (
      quiet-IsSaved d2 d' quiet same (blocks d1 d2 e1 e2),
      quiet.1 ∙ (main_cold-ColdDone a d1 d2 e2).connected ∙ (main_hot-HotDone a d0 d1 e1).connected,
    )

-- After a run without a connection that found pulses, the configuration with the new readings is the one
-- that was saved last.
pub main_timer_cb-IsSaved :
    (a : Answers) (d d' : Device)
    → d.flags.mqtt_connected ≡ false
    → HasPulses d
    → main_timer_cb a d ≡ some d'
    → IsSaved d'
main_timer_cb-IsSaved a d d' off pulses h =
    (run-keeps_IsSaved a d d' h
      (λ d1 d2 e1 e2. two_blocks-IsSaved a (emit (disarm main_timer) d) d1 d2 off pulses e1 e2)).0

-- A run without a connection leaves a device whose configuration was saved last one, without a connection.
pub main_timer_cb-stays_IsSaved :
    (a : Answers) (d d' : Device)
    → d.flags.mqtt_connected ≡ false
    → IsSaved d
    → main_timer_cb a d ≡ some d'
    → IsSaved d' × (d'.flags.mqtt_connected ≡ false)
unfolding last_saved
main_timer_cb-stays_IsSaved a d d' off saved h =
    let (stays, same) = run-keeps_IsSaved a d d' h (λ d1 d2 e1 e2.
      two_blocks-stay_IsSaved a (emit (disarm main_timer) d) d1 d2 off saved e1 e2) in
    (stays, same ∙ off)
