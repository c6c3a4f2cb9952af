-- ===== src/Mqtt/Message.antt =====
-- What a message of `mqttDataCb` does, and that it understands what `mainTimer_cb` publishes.
use watermeter.Base.{ℕ, suc, ◌+◌, ◌%◌, ◌^◌, ◌≤◌, ◌<◌, ◌≡◌, refl, subst, ◌∙◌, arith, true, false}
use watermeter.Base.{
  [], ◌∷◌, ◌++◌, some, ◌==◌, ltb, length, drop, All, length-append, All-append, take-append, u32,
}
use watermeter.Base.Text.{Text, codes}
use watermeter.Base.CString.{decimal, strcspn_space, strtoul, contains, strstr, starts_with}
use watermeter.Base.CString.Decimal.{
  strtoul-decimal, Stops, IsDigit, decimal-digits, length-decimal_upper,
}
use watermeter.Base.CString.Chars.{IsNonzero, c_string-append}
use watermeter.Config.{Config}
use watermeter.Device.{Device, emit, save_config}
use watermeter.Main.{print_reading}
use watermeter.Main.Flow.{print_reading-eq}
use watermeter.Mqtt.{
  parse_reading, apply_hot, apply_cold, apply_reading, save_if_new, mqtt_data_cb, hot_in, cold_in,
}
use mathlib.Core.List.{append-nil}

strcspn_space-digits : (s rest : Text) → All IsDigit s → strcspn_space (s ++ (32 ∷ rest)) ≡ length s
unfolding strcspn_space
strcspn_space-digits [] rest h = refl
strcspn_space-digits (c ∷ s) rest h =
    let e : (c == 32) ≡ false = ground (arith, h.0) in rw (e, strcspn_space-digits s rest h.1)

-- "NEW" is not found in digits.
contains-digits :
    (s rest : Text)
    → All IsDigit s
    → contains (s ++ rest) (codes "NEW") ≡ contains rest (codes "NEW")
unfolding contains strstr starts_with
contains-digits [] rest h = refl
contains-digits (c ∷ s) rest h =
    let e : (78 == c) ≡ false = ground (arith, h.0) in rw e (contains-digits s rest h.1)

drop-word : (s m : Text) (c : ℕ) → drop (suc (length s)) (s ++ (c ∷ m)) ≡ m
drop-word [] m c = refl
drop-word (x ∷ s) m c = drop-word s m c

pub strtoul-decimal_end : (n : ℕ) → n < 2 ^ 32 → strtoul (decimal n) ≡ n
strtoul-decimal_end n h =
    subst (λ s. strtoul s ≡ n) (append-nil (decimal n)) (strtoul-decimal n [] h tt)

-- A message of two printed words and a rest that does not go on with a digit is read back: both
-- numbers, and whether the rest has "NEW" in it.
parse_reading-printed :
    (time water : ℕ) (rest : Text)
    → time < 2 ^ 32
    → water < 2 ^ 32
    → Stops rest
    → parse_reading (decimal time ++ (codes " " ++ (decimal water ++ rest)))
      ≡ some (record { time = time; water = water; is_new = contains rest (codes "NEW") })
unfolding parse_reading
parse_reading-printed time water rest ht hw stops =
    let small = length-decimal_upper 9 time (omega arith) in
    let m = decimal water ++ rest in
    let e : strcspn_space (decimal time ++ (32 ∷ m)) % 256 ≡ length (decimal time) =
      rw (strcspn_space-digits (decimal time) m (decimal-digits time)) (omega arith) in
    let more : (length (decimal time) == length (decimal time ++ (32 ∷ m))) ≡ false =
      rw length-append (ground arith) in
    rw
      (
        e,
        more,
        take-append (decimal time) (32 ∷ m),
        drop-word (decimal time) m 32,
        strtoul-decimal_end time ht,
        strtoul-decimal water rest hw stops,
        contains-digits (decimal water) rest (decimal-digits water),
      )
      refl

digit-IsNonzero : (s : Text) → All IsDigit s → All IsNonzero s
digit-IsNonzero [] h = tt
digit-IsNonzero (c ∷ s) h = (λ z. ground (arith, z, h.0), digit-IsNonzero s h.1)

print_reading-IsNonzero :
    (time water : ℕ) (rest : Text)
    → All IsNonzero rest
    → All IsNonzero (decimal time ++ (codes " " ++ (decimal water ++ rest)))
print_reading-IsNonzero time water rest h =
    All-append IsNonzero (decimal time) _ (digit-IsNonzero _ (decimal-digits time)) (
      λ z. ground (arith, z),
      All-append IsNonzero (decimal water) rest (digit-IsNonzero _ (decimal-digits water)) h,
    )

new_found : contains (codes " NEW") (codes "NEW") ≡ true
unfolding contains strstr starts_with
new_found = refl

new_absent : contains [] (codes "NEW") ≡ false
unfolding contains strstr starts_with
new_absent = refl

new-IsNonzero : All IsNonzero (codes " NEW")
new-IsNonzero = (
  λ z. ground (arith, z),
  (λ z. ground (arith, z), (λ z. ground (arith, z), (λ z. ground (arith, z), tt))),
)

-- A message that `print_reading` prints for a topic of one of the counters is applied to that counter.
mqtt_data_cb-printed :
    (topic : Text) (time water : ℕ) (rest payload : Text) (d : Device)
    → All IsNonzero topic
    → All IsNonzero rest
    → Stops rest
    → time < 2 ^ 32
    → water < 2 ^ 32
    → print_reading time water rest ≡ some payload
    → mqtt_data_cb true true topic payload d
      ≡ some (
          save_if_new (
            apply_reading topic
              (some (record { time = time; water = water; is_new = contains rest (codes "NEW") }))
              d))
unfolding mqtt_data_cb
mqtt_data_cb-printed topic time water rest payload d nt nr stops ht hw printed =
    rw
      (
        print_reading-eq time water rest payload printed,
        c_string-append topic [] nt,
        c_string-append _ [] (print_reading-IsNonzero time water rest nr),
        parse_reading-printed time water rest ht hw stops,
      )
      refl

-- The configuration after a reading of hot water was taken over, and saved.
abbrev pub with_hot : ℕ → ℕ → Config → Config
with_hot time water c = record c { hot_water = water; hot_time = time }

abbrev pub with_cold : ℕ → ℕ → Config → Config
with_cold time water c = record c { cold_water = water; cold_time = time }

abbrev pub saved_as : Config → Device → Device
saved_as c d =
    emit (save_config c)
      (record d { config = c; flags = record (d.flags) { save_new_config = false } })

-- What `mainTimer_cb` publishes for a reconfigured counter, "<time> <water> NEW", is taken over by a
-- device that receives it for the same counter: its configuration gets exactly the two numbers, and
-- is saved. For cold water, the topic has no "HotWater/In" in it.
pub mqtt_data_cb-print_reading_new :
    (topic : Text) (time water : ℕ) (payload : Text) (d : Device)
    → All IsNonzero topic
    → time < 2 ^ 32
    → water < 2 ^ 32
    → print_reading time water (codes " NEW") ≡ some payload
    → (contains topic hot_in ≡ true
        → mqtt_data_cb true true topic payload d ≡ some (saved_as (with_hot time water d.config) d))
      × (contains topic hot_in ≡ false
          → contains topic cold_in ≡ true
          → mqtt_data_cb true true topic payload d
            ≡ some (saved_as (with_cold time water d.config) d))
unfolding apply_reading apply_hot apply_cold save_if_new
mqtt_data_cb-print_reading_new topic time water payload d nt ht hw printed =
    let e =
      mqtt_data_cb-printed topic time water (codes " NEW") payload d nt new-IsNonzero refl ht hw
        printed in
    (λ hot. e ∙ rw (hot, new_found) refl, λ not_hot cold. e ∙ rw (not_hot, cold, new_found) refl)

-- What `mainTimer_cb` publishes after pulses, "<time> <water>", at a device that receives it for the
-- same counter, and where nothing waits to be saved: where the number is above the reading, the reading
-- is from then on the number with the litres of one pulse added, modulo 2^32, which wraps around for a
-- number next to 2^32, and the configuration is saved; else the device stays as it is. For cold water,
-- the topic has no "HotWater/In" in it.
pub mqtt_data_cb-print_reading_plain :
    (topic : Text) (time water : ℕ) (payload : Text) (d : Device)
    → All IsNonzero topic
    → time < 2 ^ 32
    → water < 2 ^ 32
    → d.flags.save_new_config ≡ false
    → print_reading time water [] ≡ some payload
    → (contains topic hot_in ≡ true
        → (d.config.hot_water < water
            → mqtt_data_cb true true topic payload d
              ≡ some
                  (saved_as (with_hot time (u32 (water + d.config.liters_per_pulse)) d.config) d))
          × (water ≤ d.config.hot_water → mqtt_data_cb true true topic payload d ≡ some d))
      × (contains topic hot_in ≡ false
          → contains topic cold_in ≡ true
          → (d.config.cold_water < water
              → mqtt_data_cb true true topic payload d
                ≡ some (
                    saved_as (with_cold time (u32 (water + d.config.liters_per_pulse)) d.config) d))
            × (water ≤ d.config.cold_water → mqtt_data_cb true true topic payload d ≡ some d))
unfolding apply_reading apply_hot apply_cold save_if_new
mqtt_data_cb-print_reading_plain topic time water payload d nt ht hw idle printed =
    let e = mqtt_data_cb-printed topic time water [] payload d nt tt tt ht hw printed in
    (
      λ hot. (
        λ more.
            let t : ltb d.config.hot_water water ≡ true = ground arith in
            e ∙ rw (hot, new_absent, t) refl,
        λ less.
            let t : ltb d.config.hot_water water ≡ false = ground arith in
            e ∙ rw (hot, new_absent, t, idle) refl,
      ),
      λ not_hot cold. (
        λ more.
            let t : ltb d.config.cold_water water ≡ true = ground arith in
            e ∙ rw (not_hot, cold, new_absent, t) refl,
        λ less.
            let t : ltb d.config.cold_water water ≡ false = ground arith in
            e ∙ rw (not_hot, cold, new_absent, t, idle) refl,
      ),
    )
