-- ===== src/Main/Total.antt =====
-- When `mainTimer_cb` ends without an overrun of a buffer.
use watermeter.Base.{
  ℕ, ◌+◌, ◌^◌, ◌≤◌, ◌<◌, ◌≡◌, refl, sym, subst, ap, ap₂, ◌∙◌, arith, Bool, true, false,
}
use watermeter.Base.{[], Option, some, none, ◌==◌, if◌then◌else◌, length, length-append}
use watermeter.Base.Text.{Text, codes}
use watermeter.Base.CString.{◌>>=◌, c_string}
use watermeter.Base.CString.Decimal.{length-decimal_upper}
use watermeter.Config.{Config, local_time}
use watermeter.Device.{Device, emit, main_timer, disarm}
use watermeter.Utils.{Mac, display_update}
use watermeter.Utils.Print.{sprintf-fits, length-get_mac_address, display_update-fits}
use watermeter.Main.{
  Answers, print_topic, print_reading, report, announce, main_hot, main_cold, main_new_hot,
  main_new_cold, main_end, main_timer_cb, hot_out, cold_out,
}
use watermeter.Main.Blocks.{after_hot, after_cold, main_hot-HotDone, main_cold-ColdDone}
use watermeter.Main.Run.{main_new_hot-Keeps, main_new_cold-Keeps}

-- A computation that gives a result.
abbrev pub Returns {ℓ} : {A : Type ℓ} → Option A → Type ℓ
Returns {A} m = (a : A) × (m ≡ some a)

pub Returns->>= {ℓ κ} :
    {A : Type ℓ} {B : Type κ} (m : Option A) (f : A → Option B)
    → Returns m
    → ((a : A) → m ≡ some a → Returns (f a))
    → Returns (m >>= f)
Returns->>= none f (a, e) h = cc
Returns->>= (some a) f (b, e) h = h a refl

print_reading-Returns :
    (time water : ℕ) (suffix : Text)
    → time < 2 ^ 32
    → water < 2 ^ 32
    → length suffix ≤ 10
    → Returns (print_reading time water suffix)
unfolding print_reading
print_reading-Returns time water suffix ht hw hs = (
  _,
  sprintf-fits 32 _ (
      simp (length-append {A = ℕ}) (
        omega (
          arith,
          length-decimal_upper 9 time (omega arith),
          length-decimal_upper 9 water (omega arith),
        ))),
)

print_topic-Returns :
    (topic : Text) (mac : Mac) (ending : Text)
    → length ending ≤ 16
    → Returns (print_topic topic mac ending)
unfolding print_topic
print_topic-Returns topic mac ending h = (
  _,
  sprintf-fits (length topic + 32) _
      (simp (length-append {A = ℕ}) (omega (arith, length-get_mac_address mac))),
)

report-Returns :
    (allocated published : Bool) (topic : Text) (mac : Mac) (ending : Text) (time water : ℕ)
    (d : Device)
    → length ending ≤ 16
    → time < 2 ^ 32
    → water < 2 ^ 32
    → Returns (report allocated published topic mac ending time water d)
unfolding report
report-Returns false published topic mac ending time water d he ht hw = (_, refl)
report-Returns true published topic mac ending time water d he ht hw =
    Returns->>= (print_reading time water []) _
      (print_reading-Returns time water [] ht hw (omega arith))
      (λ payload e.
        Returns->>= (print_topic topic mac ending) _ (print_topic-Returns topic mac ending he)
          (λ full e2. (_, refl)))

announce-Returns :
    (topic : Text) (mac : Mac) (ending : Text) (time water : ℕ) (d : Device)
    → length ending ≤ 16
    → time < 2 ^ 32
    → water < 2 ^ 32
    → Returns (announce topic mac ending time water d)
unfolding announce
announce-Returns topic mac ending time water d he ht hw =
    Returns->>= (print_reading time water (codes " NEW")) _
      (print_reading-Returns time water (codes " NEW") ht hw (omega arith))
      (λ payload e.
        Returns->>= (print_topic topic mac ending) _ (print_topic-Returns topic mac ending he)
          (λ full e2. (_, refl)))

-- A configuration whose times are words and whose topic is a string.
pub record IsReady (c : Config) : Type 0 where
  pub topic : Text
  pub read : c_string c.mqtt_topic ≡ some topic
  pub hot_time : c.hot_time < 2 ^ 32
  pub cold_time : c.cold_time < 2 ^ 32

local_time-lt : (stamp : ℕ) (c : Config) → local_time stamp c < 2 ^ 32
unfolding local_time
local_time-lt stamp c = omega arith

choose {ℓ} : (P : Config → Type ℓ) (b : Bool) (x y : Config) → P x → P y → P (if b then x else y)
choose P true x y p q = p
choose P false x y p q = q

after_hot-IsReady : (a : Answers) (c : Config) (n : ℕ) → IsReady c → IsReady (after_hot a c n)
after_hot-IsReady a c n r = choose IsReady (n == 0) c _ r (record {
  topic = r.topic;
  read = r.read;
  hot_time = local_time-lt a.stamp_hot c;
  cold_time = r.cold_time;
})

after_cold-IsReady : (a : Answers) (c : Config) (n : ℕ) → IsReady c → IsReady (after_cold a c n)
after_cold-IsReady a c n r = choose IsReady (n == 0) c _ r (record {
  topic = r.topic;
  read = r.read;
  hot_time = r.hot_time;
  cold_time = local_time-lt a.stamp_cold c;
})

branch-Returns {ℓ} :
    {A : Type ℓ} (b : Bool) (x y : Option A) → Returns x → Returns y → Returns (if b then x else y)
branch-Returns true x y p q = p
branch-Returns false x y p q = q

main_hot-Returns : (a : Answers) (d : Device) → IsReady d.config → Returns (main_hot a d)
unfolding main_hot
main_hot-Returns a d r =
    branch-Returns (d.counter.counter_hot_water == 0) _ _ (_, refl)
      (rw r.read (
        report-Returns a.topic_hot a.published_hot r.topic a.mac hot_out _ _ _ (omega arith)
          (local_time-lt a.stamp_hot d.config) (omega arith)))

main_cold-Returns : (a : Answers) (d : Device) → IsReady d.config → Returns (main_cold a d)
unfolding main_cold
main_cold-Returns a d r =
    branch-Returns (d.counter.counter_cold_water == 0) _ _ (_, refl)
      (rw r.read (
        report-Returns a.topic_cold a.published_cold r.topic a.mac cold_out _ _ _ (omega arith)
          (local_time-lt a.stamp_cold d.config) (omega arith)))

main_new_hot-Returns :
    (a : Answers) (d : Device)
    → IsReady d.config
    → d.config.hot_water < 2 ^ 32
    → Returns (main_new_hot a d)
unfolding main_new_hot
main_new_hot-Returns a d r h =
    branch-Returns d.flags.subs_hot_water _ _
      (rw r.read (
        branch-Returns a.topic_new_hot _ _
          (announce-Returns r.topic a.mac hot_out _ _ _ (omega arith) r.hot_time h) (_, refl)))
      (_, refl)

main_new_cold-Returns :
    (a : Answers) (d : Device)
    → IsReady d.config
    → d.config.cold_water < 2 ^ 32
    → Returns (main_new_cold a d)
unfolding main_new_cold
main_new_cold-Returns a d r h =
    branch-Returns d.flags.subs_cold_water _ _
      (rw r.read (
        branch-Returns a.topic_new_cold _ _
          (announce-Returns r.topic a.mac cold_out _ _ _ (omega arith) r.cold_time h) (_, refl)))
      (_, refl)

main_end-Returns :
    (a : Answers) (d : Device)
    → d.config.hot_water < 10 ^ 8
    → d.config.cold_water < 10 ^ 8
    → Returns (main_end a d)
unfolding main_end
main_end-Returns a d hot cold =
    Returns->>= (if d.flags.display_write then display_update d else some d) _
      (branch-Returns d.flags.display_write _ _ (_, (display_update-fits d).0 hot cold) (_, refl))
      (λ d1 e. (_, refl))

-- A run overruns no buffer where the topic is a string, the times are words, and the two readings
-- that the run gives are below 10^8 litres.
pub main_timer_cb-total :
    (a : Answers) (d : Device)
    → IsReady d.config
    → let c =
        after_cold a
          (after_hot a d.config d.counter.counter_hot_water)
          d.counter.counter_cold_water in
      c.hot_water < 10 ^ 8 → c.cold_water < 10 ^ 8 → (d' : Device) × (main_timer_cb a d ≡ some d')
unfolding main_timer_cb
main_timer_cb-total a d r hot cold =
    let d0 = emit (disarm main_timer) d in
    Returns->>= (main_hot a d0) _ (main_hot-Returns a d0 r) (λ d1 e1.
      let s1 = main_hot-HotDone a d0 d1 e1 in
      let r1 = subst IsReady (sym s1.config) (after_hot-IsReady a d.config _ r) in
      Returns->>= (main_cold a d1) _ (main_cold-Returns a d1 r1) (λ d2 e2.
        let s2 = main_cold-ColdDone a d1 d2 e2 in
        let e =
          s2.config ∙ ap₂ (after_cold a) s1.config (ap (λ n. n.counter_cold_water) s1.counter) in
        rest d2 (subst IsReady (sym s2.config) (after_cold-IsReady a d1.config _ r1))
          (subst (λ c. c.hot_water < 10 ^ 8) (sym e) hot)
          (subst (λ c. c.cold_water < 10 ^ 8) (sym e) cold)))
  where
    rest :
        (d2 : Device)
        → IsReady d2.config
        → d2.config.hot_water < 10 ^ 8
        → d2.config.cold_water < 10 ^ 8
        → Returns (main_new_hot a d2 >>= λ d3. main_new_cold a d3 >>= λ d4. main_end a d4)
    rest d2 r2 h c =
        Returns->>= (main_new_hot a d2) _ (main_new_hot-Returns a d2 r2 (omega arith)) (λ d3 e3.
          let k3 = (main_new_hot-Keeps a d2 d3 e3).config in
          let r3 = subst IsReady (sym k3) r2 in
          Returns->>= (main_new_cold a d3) _ (main_new_cold-Returns a d3 r3 (rw k3 (omega arith)))
            (λ d4 e4.
              let k4 = (main_new_cold-Keeps a d3 d4 e4).config ∙ k3 in
              main_end-Returns a d4 (rw k4 h) (rw k4 c)))
