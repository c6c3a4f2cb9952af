-- ===== src/Main/Quiet.antt =====
-- The parts of `mainTimer_cb` that save nothing: the answers to new settings, and the end of the run.
use watermeter.Base.{ℕ, ◌≡◌, inl, inr, refl, subst, ◌∙◌, Bool, true, false, ◌&&◌}
use watermeter.Base.{List, [], ◌∷◌, Option, some, none, if◌then◌else◌, Bool-cases}
use watermeter.Base.Text.{Text, codes}
use watermeter.Base.CString.{c_string}
use watermeter.Config.{Config}
use watermeter.Device.{Device, Flags, Action, save_config, remove_config, mqtt_publish, emit}
use watermeter.Utils.{Mac, display_update, display_line, set_time_start}
use watermeter.Main.{
  Answers, main_new_hot, main_new_cold, main_end, announce, hot_out, cold_out, print_reading,
  print_topic,
}
use watermeter.Main.Flow.{>>=-eq-some}
use watermeter.Main.Run.{test}
use mathlib.Core.Option.{some-injective}

-- The configuration that was handed to the storage last, if it was not removed since.
unfoldable pub last_saved : List Action → Option Config
last_saved [] = none
last_saved (save_config c ∷ trace) = some c
last_saved (remove_config ∷ trace) = none
last_saved (a ∷ trace) = last_saved trace

-- A part of the run that saves nothing and leaves the connection.
abbrev pub IsQuiet : Device → Device → Type 0
IsQuiet d d' =
    (last_saved d'.trace ≡ last_saved d.trace) × (d'.flags.mqtt_connected ≡ d.flags.mqtt_connected)

pub IsQuiet-trans : (d d1 d2 : Device) → IsQuiet d d1 → IsQuiet d1 d2 → IsQuiet d d2
IsQuiet-trans d d1 d2 (saves, off) (saves', off') = (saves' ∙ saves, off' ∙ off)

publish-IsQuiet :
    (b : Bool) (topic payload : Text) (d : Device)
    → IsQuiet d (if b then emit (mqtt_publish topic payload) d else d)
unfolding last_saved
publish-IsQuiet true topic payload d = (refl, refl)
publish-IsQuiet false topic payload d = (refl, refl)

announce-IsQuiet :
    (topic : Text) (mac : Mac) (ending : Text) (time water : ℕ) (d d' : Device)
    → announce topic mac ending time water d ≡ some d'
    → IsQuiet d d'
unfolding announce
announce-IsQuiet topic mac ending time water d d' h =
    let (payload, printed, h1) = >>=-eq-some (print_reading time water (codes " NEW")) _ h in
    let (full, named, h2) = >>=-eq-some (print_topic topic mac ending) _ h1 in
    subst (IsQuiet d) (some-injective _ _ h2)
      (publish-IsQuiet d.flags.mqtt_connected full payload d)

flags-IsQuiet :
    (d d' : Device) (f : Flags)
    → f.mqtt_connected ≡ d.flags.mqtt_connected
    → record d { flags = f } ≡ d'
    → IsQuiet d d'
flags-IsQuiet d d' f same h = subst (IsQuiet d) h (refl, same)

pub main_new_hot-IsQuiet : (a : Answers) (d d' : Device) → main_new_hot a d ≡ some d' → IsQuiet d d'
unfolding main_new_hot
main_new_hot-IsQuiet a d d' h = elim (Bool-cases d.flags.subs_hot_water) [
  | inl asked ↦
      let (topic, read, h1) = >>=-eq-some (c_string d.config.mqtt_topic) _ (test _ _ asked h) in
      elim (Bool-cases a.topic_new_hot) [
        | inl got ↦
            announce-IsQuiet topic a.mac hot_out d.config.hot_time d.config.hot_water _ d'
              (test _ _ got h1)
        | inr refused ↦ flags-IsQuiet d d' _ refl (some-injective _ _ (test _ _ refused h1))
      ]
  | inr quiet ↦ flags-IsQuiet d d' d.flags refl (some-injective _ _ (test _ _ quiet h))
]

pub main_new_cold-IsQuiet :
    (a : Answers) (d d' : Device) → main_new_cold a d ≡ some d' → IsQuiet d d'
unfolding main_new_cold
main_new_cold-IsQuiet a d d' h = elim (Bool-cases d.flags.subs_cold_water) [
  | inl asked ↦
      let (topic, read, h1) = >>=-eq-some (c_string d.config.mqtt_topic) _ (test _ _ asked h) in
      elim (Bool-cases a.topic_new_cold) [
        | inl got ↦
            announce-IsQuiet topic a.mac cold_out d.config.cold_time d.config.cold_water _ d'
              (test _ _ got h1)
        | inr refused ↦ flags-IsQuiet d d' _ refl (some-injective _ _ (test _ _ refused h1))
      ]
  | inr quiet ↦ flags-IsQuiet d d' d.flags refl (some-injective _ _ (test _ _ quiet h))
]

display_update-IsQuiet : (d d' : Device) → display_update d ≡ some d' → IsQuiet d d'
unfolding display_update last_saved
display_update-IsQuiet d d' h =
    let (hot, e1, h1) = >>=-eq-some (display_line (codes "Hot  ") d.config.hot_water) _ h in
    let (cold, e2, h2) = >>=-eq-some (display_line (codes "Cold ") d.config.cold_water) _ h1 in
    subst (IsQuiet d) (some-injective _ _ h2) (refl, refl)

redraw-IsQuiet :
    (b : Bool) (d d' : Device) → (if b then display_update d else some d) ≡ some d' → IsQuiet d d'
redraw-IsQuiet true d d' h = display_update-IsQuiet d d' h
redraw-IsQuiet false d d' h = flags-IsQuiet d d' d.flags refl (some-injective _ _ h)

started-IsQuiet :
    (b : Bool) (stamp : ℕ) (d : Device)
    → IsQuiet d (
        if b
        then set_time_start stamp (record d { flags = record (d.flags) { first_ntp = false } })
        else d)
unfolding set_time_start
started-IsQuiet true stamp d = (refl, refl)
started-IsQuiet false stamp d = (refl, refl)

pub main_end-IsQuiet : (a : Answers) (d d' : Device) → main_end a d ≡ some d' → IsQuiet d d'
unfolding main_end last_saved
main_end-IsQuiet a d d' h =
    let (d1, e1, h1) =
      >>=-eq-some (if d.flags.display_write then display_update d else some d) _ h in
    let (saves, off) = redraw-IsQuiet d.flags.display_write d d1 e1 in
    let (saves', off') =
      started-IsQuiet (d1.flags.first_ntp && d1.flags.response_ntp) a.stamp_start d1 in
    subst (IsQuiet d) (some-injective _ _ h1) (saves' ∙ saves, off' ∙ off)
