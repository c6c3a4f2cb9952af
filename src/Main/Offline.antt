-- ===== src/Main/Offline.antt =====
-- The two timers on a device without a connection: what is on the medium at any time.
use watermeter.Base.{ℕ, ◌≡◌, sym, subst, ◌∙◌, false, List, [], ◌∷◌, some}
use watermeter.Config.Valid.{View, Represents}
use watermeter.Config.Persist.{WordsFit}
use watermeter.Device.{Device}
use watermeter.Counter.{button_timer_cb}
use watermeter.Main.{Answers, main_timer_cb}
use watermeter.Main.Flow.{>>=-eq-some}
use watermeter.Main.Run.{main_timer_cb-Ran}
use watermeter.Main.Readings.{
  view_with_readings, Represents-with_readings, after_run, after_run-with_readings, after_run_lem,
}
use watermeter.Main.Saved.{IsSaved, main_timer_cb-stays_IsSaved}
use watermeter.Main.System.{Event, tick, run, run_event, run_events}
use mathlib.Core.Option.{some-injective}

-- A device without a connection whose configuration, which means `v`, was saved last.
pub record Safe (d : Device) (v : View) : Type 0 where
  pub offline : d.flags.mqtt_connected ≡ false
  pub saved : IsSaved d
  pub means : Represents d.config v
  pub fits : WordsFit v

tick-Safe : (hot cold : ℕ) (d : Device) (v : View) → Safe d v → Safe (button_timer_cb hot cold d) v
unfolding button_timer_cb
tick-Safe hot cold d v s = record {
  offline = s.offline;
  saved = s.saved;
  means = s.means;
  fits = s.fits;
}

-- What the configuration means after a run.
pub after_run-Represents :
    (a : Answers) (d d' : Device) (v : View)
    → main_timer_cb a d ≡ some d'
    → Represents d.config v
    → Represents d'.config (view_with_readings (after_run a d) v)
after_run-Represents a d d' v h means =
    subst (λ c. Represents c (view_with_readings (after_run a d) v))
      (sym ((main_timer_cb-Ran a d d' h).config ∙ after_run-with_readings a d))
      (Represents-with_readings (after_run a d) d.config v means)

run-Safe :
    (a : Answers) (d d' : Device) (v : View)
    → main_timer_cb a d ≡ some d'
    → Safe d v
    → Safe d' (view_with_readings (after_run a d) v)
run-Safe a d d' v h s =
    let (saved, offline) = main_timer_cb-stays_IsSaved a d d' s.offline s.saved h in
    record {
      offline = offline;
      saved = saved;
      means = after_run-Represents a d d' v h s.means;
      fits = (after_run_lem a d v s.means s.fits).0;
    }

event-Safe :
    (e : Event) (d d' : Device) (v : View)
    → run_event e d ≡ some d'
    → Safe d v
    → (v' : View) × Safe d' v'
unfolding run_event
event-Safe (tick hot cold) d d' v h s =
    (v, subst (λ n. Safe n v) (some-injective _ _ h) (tick-Safe hot cold d v s))
event-Safe (run a) d d' v h s = (view_with_readings (after_run a d) v, run-Safe a d d' v h s)

-- Whatever the timers do, what the device has in its configuration is on the medium.
pub run_events-Safe :
    (es : List Event) (d d' : Device) (v : View)
    → run_events es d ≡ some d'
    → Safe d v
    → (v' : View) × Safe d' v'
unfolding run_events
run_events-Safe [] d d' v h s = (v, subst (λ n. Safe n v) (some-injective _ _ h) s)
run_events-Safe (e ∷ es) d d' v h s =
    let (d1, e1, h1) = >>=-eq-some (run_event e d) _ h in
    let (v1, s1) = event-Safe e d d1 v e1 s in run_events-Safe es d1 d' v1 h1 s1
