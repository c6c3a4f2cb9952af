-- ===== src/Main/Flow.antt =====
-- What one run of `mainTimer_cb` does with the pulses that were counted, whatever its calls answer.
use watermeter.Base.{ℕ, ◌≡◌, ◌⊎◌, inl, inr, refl, sym, subst, ap, ◌∙◌, arith, Bool, true, false}
use watermeter.Base.{List, [], ◌∷◌, ◌++◌, Option, some, none, if◌then◌else◌}
use watermeter.Base.Text.{Text, codes}
use watermeter.Base.CString.{◌>>=◌, sprintf, decimal}
use watermeter.Config.{Config}
use watermeter.Device.{Device, Action, emit, mqtt_publish, save_config}
use watermeter.Utils.{Mac}
use watermeter.Main.{print_topic, print_reading, report}
use mathlib.Core.Option.{some-injective}
use mathlib.Core.List.{Memᴰ, append_assoc}

-- The trace of `d'` continues that of `d` with `new`.
abbrev pub Adds : List Action → Device → Device → Type 0
Adds new d d' = d'.trace ≡ new ++ d.trace

-- A part of the run that only calls: configuration, counters and samples stay.
pub record Keeps (d d' : Device) : Type 0 where
  pub new : List Action
  pub adds : Adds new d d'
  pub config : d'.config ≡ d.config
  pub counter : d'.counter ≡ d.counter
  pub debounce : d'.debounce ≡ d.debounce

pub >>=-eq-some {ℓ κ} :
    {A : Type ℓ} {B : Type κ} (m : Option A) (f : A → Option B) {b : B}
    → (m >>= f) ≡ some b
    → (a : A) × (m ≡ some a) × (f a ≡ some b)
>>=-eq-some none f h = cc
>>=-eq-some (some a) f h = (a, refl, h)

pub Keeps-trans : {d d1 d2 : Device} → Keeps d d1 → Keeps d1 d2 → Keeps d d2
Keeps-trans p q = record {
  new = q.new ++ p.new;
  adds = q.adds ∙ ap (λ t. q.new ++ t) p.adds ∙ sym (append_assoc q.new p.new _);
  config = q.config ∙ p.config;
  counter = q.counter ∙ p.counter;
  debounce = q.debounce ∙ p.debounce;
}

-- The message that carries a reading.
abbrev pub reading : ℕ → ℕ → Text
reading time water = decimal time ++ (codes " " ++ (decimal water ++ []))

-- A reading left the device's memory: the configuration that holds it was handed to the storage, or
-- the MQTT client was connected and took the message.
abbrev pub Secured : Bool → Bool → Config → ℕ → ℕ → List Action → Type 0
Secured connected published c time water new =
    Memᴰ (save_config c) new
    ⊎ ((connected ≡ true)
        × (published ≡ true)
        × ((full : Text) × Memᴰ (mqtt_publish full (reading time water)) new))

-- What the block of a counter leaves.
pub record Reported (published : Bool) (c : Config) (time water : ℕ) (d d' : Device) : Type 0 where
  pub new : List Action
  pub adds : Adds new d d'
  pub config : d'.config ≡ d.config
  pub counter : d'.counter ≡ d.counter
  pub debounce : d'.debounce ≡ d.debounce
  pub flags : d'.flags ≡ d.flags
  pub secured : Secured d.flags.mqtt_connected published c time water new

pub print_reading-eq :
    (time water : ℕ) (suffix payload : Text)
    → print_reading time water suffix ≡ some payload
    → payload ≡ decimal time ++ (codes " " ++ (decimal water ++ suffix))
unfolding print_reading sprintf
print_reading-eq time water suffix payload h = ground arith

saved-Reported :
    (published : Bool) (time water : ℕ) (before : List Action) (d : Device)
    → Reported published d.config time water d
        (record d { trace = save_config d.config ∷ (before ++ d.trace) })
saved-Reported published time water before d = record {
  new = save_config d.config ∷ before;
  adds = refl;
  config = refl;
  counter = refl;
  debounce = refl;
  flags = refl;
  secured = inl (Memᴰ.head refl);
}

delivered-Reported :
    (connected published : Bool) (full payload : Text) (time water : ℕ) (d : Device)
    → d.flags.mqtt_connected ≡ connected
    → payload ≡ reading time water
    → Reported published d.config time water d (
        if connected
        then (let d1 = emit (mqtt_publish full payload) d in
            if published then d1 else emit (save_config d.config) d1)
        else emit (save_config d.config) d)
delivered-Reported true true full payload time water d on e = record {
  new = mqtt_publish full payload ∷ [];
  adds = refl;
  config = refl;
  counter = refl;
  debounce = refl;
  flags = refl;
  secured = inr (on, refl, (full, Memᴰ.head (ap (mqtt_publish full) (sym e))));
}
delivered-Reported true false full payload time water d on e =
    saved-Reported false time water (mqtt_publish full payload ∷ []) d
delivered-Reported false published full payload time water d on e =
    saved-Reported published time water [] d

pub report-Reported :
    (allocated published : Bool) (topic : Text) (mac : Mac) (ending : Text) (time water : ℕ)
    (d d' : Device)
    → report allocated published topic mac ending time water d ≡ some d'
    → Reported published d.config time water d d'
unfolding report
report-Reported false published topic mac ending time water d d' h =
    subst (Reported published d.config time water d) (some-injective _ _ h)
      (saved-Reported published time water [] d)
report-Reported true published topic mac ending time water d d' h =
    let (payload, printed, h1) = >>=-eq-some (print_reading time water []) _ h in
    let (full, named, h2) = >>=-eq-some (print_topic topic mac ending) _ h1 in
    subst (Reported published d.config time water d) (some-injective _ _ h2) (
      delivered-Reported d.flags.mqtt_connected published full payload time water d refl
        (print_reading-eq time water [] payload printed))
