-- ===== src/Main/System.antt =====
-- The pulse counters and `mainTimer_cb` together: ticks of the button timer and runs of the main timer
-- in any order.
use watermeter.Base.{
  ℕ, ◌+◌, ◌*◌, ◌^◌, ◌%◌, ◌/◌, ◌≡◌, refl, sym, subst, ap, ◌∙◌, arith, Bool, true, false,
}
use watermeter.Base.{List, [], ◌∷◌, Option, some, u32, ◌==◌, if◌then◌else◌}
use watermeter.Base.CString.{◌>>=◌}
use watermeter.Config.{Config}
use watermeter.Device.{Device, Debounce}
use watermeter.Counter.{debounce, count_if, button_timer_cb}
use watermeter.Counter.Edges.{InSync, rises, sample_of, button_timer_cb-edges}
use watermeter.Main.{Answers, main_timer_cb}
use watermeter.Main.Flow.{>>=-eq-some}
use watermeter.Main.Blocks.{after_hot, after_cold}
use watermeter.Main.Run.{main_timer_cb-Ran}
use mathlib.Core.Option.{some-injective}

-- What the timers do: a tick with the two samples, or a run with what its calls answer.
pub data Event : Type 0 where
  tick : ℕ → ℕ → Event
  run : Answers → Event

unfoldable pub run_event : Event → Device → Option Device
run_event (tick hot cold) d = some (button_timer_cb hot cold d)
run_event (run a) d = main_timer_cb a d

unfoldable pub run_events : List Event → Device → Option Device
run_events [] d = some d
run_events (e ∷ es) d = run_event e d >>= λ d1. run_events es d1

-- The rising edges of the debounced input `k` among the ticks.
unfoldable pub pulses : ℕ → Debounce → List Event → ℕ
pulses k s [] = 0
pulses k s (tick hot cold ∷ es) =
    let s' = debounce (sample_of hot cold) s in (if rises k s s' then 1 else 0) + pulses k s' es
pulses k s (run a ∷ es) = pulses k s es

-- A reading with the pulses that are still in the counter, in litres.
abbrev pub hot_total : Device → ℕ
hot_total d = d.config.hot_water + d.counter.counter_hot_water * d.config.liters_per_pulse

abbrev pub cold_total : Device → ℕ
cold_total d = d.config.cold_water + d.counter.counter_cold_water * d.config.liters_per_pulse

mul-mod_parts : (q r l : ℕ) → (r + q * 2 ^ 32) * l % 2 ^ 32 ≡ r * l % 2 ^ 32
mul-mod_parts q r l = omega arith

-- A product may be taken of the remainder of a factor.
mul-mod : (n l : ℕ) → (n % 2 ^ 32) * l % 2 ^ 32 ≡ n * l % 2 ^ 32
mul-mod n l =
    let e : n % 2 ^ 32 + n / 2 ^ 32 * 2 ^ 32 ≡ n = omega arith in
    subst (λ m. n % 2 ^ 32 * l % 2 ^ 32 ≡ m * l % 2 ^ 32) e
      (sym (mul-mod_parts (n / 2 ^ 32) (n % 2 ^ 32) l))

-- What is owed after a tick.
counted :
    (b : Bool) (w n l m : ℕ)
    → (w + (count_if b n + m) * l) % 2 ^ 32 ≡ (w + (n + ((if b then 1 else 0) + m)) * l) % 2 ^ 32
counted true w n l m =
    let e : (n + 1) % 2 ^ 32 * l % 2 ^ 32 ≡ (n + 1) * l % 2 ^ 32 = mul-mod (n + 1) l in omega arith
counted false w n l m = omega arith

-- What is owed after a run.
taken :
    (b : Bool) (w n l m : ℕ)
    → (n == 0) ≡ b
    → ((if b then w else u32 (w + u32 (n * l))) + (0 + m) * l) % 2 ^ 32 ≡ (w + (n + m) * l) % 2 ^ 32
taken true w n l m e = let z : n ≡ 0 = ground arith in rw z (omega arith)
taken false w n l m e = omega arith

after_hot-hot_water :
    (a : Answers) (c : Config) (n : ℕ)
    → ((after_hot a c n).hot_water
        ≡ (if n == 0 then c.hot_water else u32 (c.hot_water + u32 (n * c.liters_per_pulse))))
      × ((after_hot a c n).cold_water ≡ c.cold_water)
      × ((after_hot a c n).liters_per_pulse ≡ c.liters_per_pulse)
after_hot-hot_water a c n = ground arith

after_cold-cold_water :
    (a : Answers) (c : Config) (n : ℕ)
    → ((after_cold a c n).cold_water
        ≡ (if n == 0 then c.cold_water else u32 (c.cold_water + u32 (n * c.liters_per_pulse))))
      × ((after_cold a c n).hot_water ≡ c.hot_water)
      × ((after_cold a c n).liters_per_pulse ≡ c.liters_per_pulse)
after_cold-cold_water a c n = ground arith

-- What one event leaves of the two sums, whatever pulses `m` and `n` are still to come.
record Conserved (e : Event) (d d' : Device) : Type 0 where
  sync : InSync d'
  liters : d'.config.liters_per_pulse ≡ d.config.liters_per_pulse
  hot :
      (es : List Event)
      → (d'.config.hot_water
            + (d'.counter.counter_hot_water + pulses 0 d'.debounce es) * d.config.liters_per_pulse)
          % 2 ^ 32
        ≡ (d.config.hot_water
            + (d.counter.counter_hot_water + pulses 0 d.debounce (e ∷ es))
              * d.config.liters_per_pulse)
          % 2 ^ 32
  cold :
      (es : List Event)
      → (d'.config.cold_water
            + (d'.counter.counter_cold_water + pulses 1 d'.debounce es) * d.config.liters_per_pulse)
          % 2 ^ 32
        ≡ (d.config.cold_water
            + (d.counter.counter_cold_water + pulses 1 d.debounce (e ∷ es))
              * d.config.liters_per_pulse)
          % 2 ^ 32

tick-Conserved :
    (hot cold : ℕ) (d : Device)
    → InSync d
    → Conserved (tick hot cold) d (button_timer_cb hot cold d)
unfolding pulses button_timer_cb
tick-Conserved hot cold d sync =
    let (sync', deb, h, c, cfg, tr) = button_timer_cb-edges hot cold d sync in
    let d' = button_timer_cb hot cold d in
    let l = d.config.liters_per_pulse in
    record {
      sync = sync';
      liters = ap (λ c. c.liters_per_pulse) cfg;
      hot = λ es.
          rw (cfg, h)
            (counted (rises 0 d.debounce d'.debounce) d.config.hot_water d.counter.counter_hot_water
              l (pulses 0 d'.debounce es));
      cold = λ es.
          rw (cfg, c)
            (counted (rises 1 d.debounce d'.debounce) d.config.cold_water
              d.counter.counter_cold_water l (pulses 1 d'.debounce es));
    }

run-Conserved :
    (a : Answers) (d d' : Device) → InSync d → main_timer_cb a d ≡ some d' → Conserved (run a) d d'
unfolding pulses
run-Conserved a d d' (sync0, sync1) h =
    let r = main_timer_cb-Ran a d d' h in
    let l = d.config.liters_per_pulse in
    let c1 = after_hot a d.config d.counter.counter_hot_water in
    let eh = after_hot-hot_water a d.config d.counter.counter_hot_water in
    let ec = after_cold-cold_water a c1 d.counter.counter_cold_water in
    record {
      sync = (rw (r.status_old, r.debounce) sync0, rw (r.status_old, r.debounce) sync1);
      liters = ap (λ c. c.liters_per_pulse) r.config ∙ ec.2 ∙ eh.2;
      hot = λ es.
          rw (r.config, ec.1, eh.0, r.hot_counter, r.debounce)
            (taken (d.counter.counter_hot_water == 0) d.config.hot_water d.counter.counter_hot_water
              l (pulses 0 d.debounce es) refl);
      cold = λ es.
          rw (r.config, ec.0, eh.1, eh.2, r.cold_counter, r.debounce)
            (taken (d.counter.counter_cold_water == 0) d.config.cold_water
              d.counter.counter_cold_water l (pulses 1 d.debounce es) refl);
    }

event-Conserved :
    (e : Event) (d d' : Device) → InSync d → run_event e d ≡ some d' → Conserved e d d'
unfolding run_event
event-Conserved (tick hot cold) d d' sync h =
    subst (Conserved (tick hot cold) d) (some-injective _ _ h) (tick-Conserved hot cold d sync)
event-Conserved (run a) d d' sync h = run-Conserved a d d' sync h

-- From a device whose remembered inputs are those that `debounce` accepts, after any ticks and runs, in
-- any order, that overrun no buffer: each reading, with the pulses still in its counter, has grown by
-- the litres per pulse times the rising edges of its debounced input, modulo 2^32.
pub run_events-conserve :
    (es : List Event) (d d' : Device)
    → InSync d
    → run_events es d ≡ some d'
    → InSync d'
      × (hot_total d' % 2 ^ 32
          ≡ (hot_total d + pulses 0 d.debounce es * d.config.liters_per_pulse) % 2 ^ 32)
      × (cold_total d' % 2 ^ 32
          ≡ (cold_total d + pulses 1 d.debounce es * d.config.liters_per_pulse) % 2 ^ 32)
      × (d'.config.liters_per_pulse ≡ d.config.liters_per_pulse)
unfolding run_events pulses
run_events-conserve [] d d' sync h =
    subst
      (λ e.
        InSync e
        × (hot_total e % 2 ^ 32 ≡ (hot_total d + 0 * d.config.liters_per_pulse) % 2 ^ 32)
        × (cold_total e % 2 ^ 32 ≡ (cold_total d + 0 * d.config.liters_per_pulse) % 2 ^ 32)
        × (e.config.liters_per_pulse ≡ d.config.liters_per_pulse))
      (some-injective _ _ h) (sync, omega arith, omega arith, refl)
run_events-conserve (e ∷ es) d d' sync h =
    let (d1, e1, h1) = >>=-eq-some (run_event e d) _ h in
    let c = event-Conserved e d d1 sync e1 in
    let (sync', ih, ic, il) = run_events-conserve es d1 d' c.sync h1 in
    (
      sync',
      regroup _ d1.config.hot_water _ _ d1.config.liters_per_pulse _ _ _ _ c.liters ih (c.hot es),
      regroup _ d1.config.cold_water _ _ d1.config.liters_per_pulse _ _ _ _ c.liters ic (c.cold es),
      il ∙ c.liters,
    )
  where
    regroup :
        (t w n m k l w0 n0 m0 : ℕ)
        → k ≡ l
        → t % 2 ^ 32 ≡ (w + n * k + m * k) % 2 ^ 32
        → (w + (n + m) * l) % 2 ^ 32 ≡ (w0 + (n0 + m0) * l) % 2 ^ 32
        → t % 2 ^ 32 ≡ (w0 + n0 * l + m0 * l) % 2 ^ 32
    regroup t w n m k l w0 n0 m0 e p q = let p' = rw e at p in omega arith
