-- ===== src/Mqtt/Safety.antt =====
-- `mqttDataCb` on any bytes.
use watermeter.Base.{
  ℕ, ◌+◌, ◌%◌, ◌^◌, ◌≤◌, ◌<◌, ◌≡◌, ◌⊎◌, inl, inr, refl, sym, subst, ap, arith, Bool, true, false,
}
use watermeter.Base.{
  List, [], ◌∷◌, ◌++◌, Option, some, none, ◌==◌, ltb, if◌then◌else◌, Bool-cases, u32, suc, drop,
  length,
}
use watermeter.Base.Text.{Text}
use watermeter.Base.CString.{c_string, contains, strcspn_space}
use watermeter.Base.CString.Decimal.{strtoul-lt}
use watermeter.Device.{Device, emit, save_config}
use watermeter.Main.Total.{Returns}
use watermeter.Mqtt.{
  Reading, parse_reading, apply_hot, apply_cold, apply_reading, save_if_new, mqtt_data_cb, hot_in,
  cold_in,
}
use mathlib.Core.Option.{some-injective}

c_string-ended : (s : List ℕ) → Returns (c_string (s ++ (0 ∷ [])))
unfolding c_string
c_string-ended [] = (_, refl)
c_string-ended (c ∷ s) =
    let (t, e) = c_string-ended s in
    elim (Bool-cases (c == 0)) [
      | inl end ↦ ([], rw end refl)
      | inr more ↦ (c ∷ t, rw (more, e) refl)
    ]

-- What one reading may do: nothing, or a configuration to be saved that differs in one counter.
record Applied (is_new : Bool) (d d' : Device) : Type 0 where
  trace : d'.trace ≡ d.trace
  kept : (d' ≡ d) ⊎ (d'.flags.save_new_config ≡ true)
  hot :
      is_new ≡ false
      → (d.config.hot_water ≤ d'.config.hot_water)
        ⊎ (d'.config.hot_water < d.config.liters_per_pulse)
  cold :
      is_new ≡ false
      → (d.config.cold_water ≤ d'.config.cold_water)
        ⊎ (d'.config.cold_water < d.config.liters_per_pulse)

same-Applied : (is_new : Bool) (d : Device) → Applied is_new d d
same-Applied is_new d = record {
  trace = refl;
  kept = inl refl;
  hot = λ n. inl (omega arith);
  cold = λ n. inl (omega arith);
}

raised :
    (old water pulse : ℕ)
    → old < water
    → water < 2 ^ 32
    → (old ≤ u32 (water + pulse)) ⊎ (u32 (water + pulse) < pulse)
raised old water pulse h b = ground arith

apply_hot-Applied :
    (r : Reading) (d : Device) → r.water < 2 ^ 32 → Applied r.is_new d (apply_hot r d)
unfolding apply_hot
apply_hot-Applied r d small = elim (Bool-cases r.is_new) [
  | inl fresh ↦
      rw fresh
        (record { trace = refl; kept = inr refl; hot = λ n. cc; cold = λ n. inl (omega arith) })
  | inr plain ↦ elim (Bool-cases (ltb d.config.hot_water r.water)) [
    | inl more ↦
        rw (plain, more)
          (record {
            trace = refl;
            kept = inr refl;
            hot = λ n.
                raised d.config.hot_water r.water d.config.liters_per_pulse (ground arith) small;
            cold = λ n. inl (omega arith);
          })
    | inr less ↦ rw (plain, less) (same-Applied false d)
  ]
]

apply_cold-Applied :
    (r : Reading) (d : Device) → r.water < 2 ^ 32 → Applied r.is_new d (apply_cold r d)
unfolding apply_cold
apply_cold-Applied r d small = elim (Bool-cases r.is_new) [
  | inl fresh ↦
      rw fresh
        (record { trace = refl; kept = inr refl; hot = λ n. inl (omega arith); cold = λ n. cc })
  | inr plain ↦ elim (Bool-cases (ltb d.config.cold_water r.water)) [
    | inl more ↦
        rw (plain, more)
          (record {
            trace = refl;
            kept = inr refl;
            hot = λ n. inl (omega arith);
            cold = λ n.
                raised d.config.cold_water r.water d.config.liters_per_pulse (ground arith) small;
          })
    | inr less ↦ rw (plain, less) (same-Applied false d)
  ]
]

parse_reading-lt : (s : Text) (r : Reading) → parse_reading s ≡ some r → r.water < 2 ^ 32
unfolding parse_reading
parse_reading-lt s r h = elim (Bool-cases (strcspn_space s % 256 == length s)) [
  | inl end ↦ cc (rw end at h)
  | inr more ↦
      subst (λ r. r.water < 2 ^ 32) (some-injective _ _ (rw more at h))
        (strtoul-lt (drop (suc (strcspn_space s % 256)) s))
]

-- How a message counts: as new where it is one and says so.
abbrev pub is_new_message : Option Reading → Bool
is_new_message none = false
is_new_message (some r) = r.is_new

apply_reading-Applied :
    (topic : Text) (m : Option Reading) (d : Device)
    → ((r : Reading) → m ≡ some r → r.water < 2 ^ 32)
    → Applied (is_new_message m) d (apply_reading topic m d)
unfolding apply_reading
apply_reading-Applied topic none d small = same-Applied false d
apply_reading-Applied topic (some r) d small = elim (Bool-cases (contains topic hot_in)) [
  | inl hot ↦ rw hot (apply_hot-Applied r d (small r refl))
  | inr not_hot ↦ elim (Bool-cases (contains topic cold_in)) [
    | inl cold ↦ rw (not_hot, cold) (apply_cold-Applied r d (small r refl))
    | inr other ↦ rw (not_hot, other) (same-Applied r.is_new d)
  ]
]

-- What a message leaves: either nothing changed, or the whole configuration was just saved. Without
-- "NEW" no reading is lowered, but where the sum with the litres of one pulse wraps around.
pub record Heard (is_new : Bool) (d d' : Device) : Type 0 where
  pub settled : d'.flags.save_new_config ≡ false
  pub saved : (d' ≡ d) ⊎ (d'.trace ≡ save_config d'.config ∷ d.trace)
  pub hot :
      is_new ≡ false
      → (d.config.hot_water ≤ d'.config.hot_water)
        ⊎ (d'.config.hot_water < d.config.liters_per_pulse)
  pub cold :
      is_new ≡ false
      → (d.config.cold_water ≤ d'.config.cold_water)
        ⊎ (d'.config.cold_water < d.config.liters_per_pulse)

save_if_new-Heard :
    (is_new : Bool) (d d1 : Device)
    → d.flags.save_new_config ≡ false
    → Applied is_new d d1
    → Heard is_new d (save_if_new d1)
unfolding save_if_new
save_if_new-Heard is_new d d1 idle a = elim (Bool-cases d1.flags.save_new_config) [
  | inl saves ↦ rw saves (record {
    settled = refl;
    saved = inr (ap (λ t. save_config d1.config ∷ t) a.trace);
    hot = a.hot;
    cold = a.cold;
  })
  | inr quiet ↦
      subst
        (λ b. Heard is_new d (
          if b
          then emit (save_config d1.config)
              (record d1 { flags = record (d1.flags) { save_new_config = false } })
          else d1))
        (sym quiet)
        (record {
          settled = quiet;
          saved = elim a.kept [ inl same ↦ inl same | inr wants ↦ cc ];
          hot = a.hot;
          cold = a.cold;
        })
]

-- Any bytes, where both blocks were given and nothing waits to be saved: the callback ends, and
-- either the device stays as it is or its new configuration is saved; a message without "NEW"
-- lowers no reading, but where adding the litres of one pulse wraps around.
pub mqtt_data_cb-Heard :
    (topic_bytes data_bytes : List ℕ) (d : Device)
    → d.flags.save_new_config ≡ false
    → (d' : Device) × (mqtt_data_cb true true topic_bytes data_bytes d ≡ some d')
      × ((message : Text) × (c_string (data_bytes ++ (0 ∷ [])) ≡ some message)
          × Heard (is_new_message (parse_reading message)) d d')
unfolding mqtt_data_cb
mqtt_data_cb-Heard topic_bytes data_bytes d idle =
    let (topic, te) = c_string-ended topic_bytes in
    let (message, me) = c_string-ended data_bytes in
    (
      save_if_new (apply_reading topic (parse_reading message) d),
      rw (te, me) refl,
      (
        message,
        me,
        save_if_new-Heard _ d _ idle
            (apply_reading-Applied topic (parse_reading message) d (parse_reading-lt message)),
      ),
    )
