-- ===== src/Clock/Month.antt =====
-- The month and day of `epoch_to_str`, and the time of day.
use watermeter.Base.{
  ℕ, zero, suc, ◌+◌, ◌-◌, ◌*◌, ◌/◌, ◌%◌, ◌^◌, ◌≤◌, ◌<◌, ◌≡◌, refl, subst, arith, false,
}
use watermeter.Base.{List, [], ◌∷◌, Option, some, ltb, Bool-cases, inl, inr, length, get_or}
use watermeter.Clock.{
  is_leap, sec_in_year, get_calendar, get_year, month_loop, get_month, Date, epoch_to_str,
}
use watermeter.Clock.Year.{seconds_from, year_loop-Years}

-- The days of the first `n` months.
abbrev pub days_before : List ℕ → ℕ → ℕ
days_before [] n = 0
days_before (d ∷ cal) zero = 0
days_before (d ∷ cal) (suc n) = d + days_before cal n

record Months (cal : List ℕ) (i t : ℕ) (o : Option (ℕ × ℕ)) : Type 0 where
  count : ℕ
  left : ℕ
  found : o ≡ some (i + count + 1, left)
  bounded : count < length cal
  whole : days_before cal count * 86400 + left ≡ t
  inside : left ≤ get_or cal count 0 * 86400

here-Months :
    (d : ℕ) (cal : List ℕ) (i t : ℕ) → t ≤ d * 86400 → Months (d ∷ cal) i t (some (i + 1, t))
here-Months d cal i t h =
    let e : i + 0 + 1 ≡ i + 1 = omega arith in
    record {
      count = 0;
      left = t;
      found = rw e refl;
      bounded = omega arith;
      whole = omega arith;
      inside = h;
    }

month_loop-Months :
    (d : ℕ) (cal : List ℕ) (i t : ℕ)
    → t ≤ days_before (d ∷ cal) (length (d ∷ cal)) * 86400
    → Months (d ∷ cal) i t (month_loop (d ∷ cal) i t)
unfolding month_loop
month_loop-Months d [] i t h =
    let e : ltb (d * 86400) t ≡ false = ground arith in rw e (here-Months d [] i t (omega arith))
month_loop-Months d (d2 ∷ cal) i t h = elim (Bool-cases (ltb (d * 86400) t)) [
  | inl more ↦
      let above : d * 86400 < t = ground arith in
      let r = month_loop-Months d2 cal (i + 1) (t - d * 86400) (omega arith) in
      let e : i + 1 + r.count + 1 ≡ i + suc r.count + 1 = omega arith in
      rw more (record {
        count = suc r.count;
        left = r.left;
        found =
            subst (λ m. month_loop (d2 ∷ cal) (i + 1) (t - d * 86400) ≡ some (m, r.left)) e r.found;
        bounded = omega (arith, r.bounded);
        whole = omega (arith, r.whole);
        inside = r.inside;
      })
  | inr here ↦ rw here (here-Months d (d2 ∷ cal) i t (ground arith))
]

get_month-Months :
    (t year : ℕ)
    → t ≤ sec_in_year year
    → Months (get_calendar year) 0 t (get_month t year) × (length (get_calendar year) ≡ 12)
unfolding get_month get_calendar sec_in_year
get_month-Months t year h = elim (Bool-cases (is_leap year)) [
  | inl leap ↦ rw leap (
    month_loop-Months 31 (29 ∷ 31 ∷ 30 ∷ 31 ∷ 30 ∷ 31 ∷ 31 ∷ 30 ∷ 31 ∷ 30 ∷ 31 ∷ []) 0 t
        (rw leap at h),
    refl,
  )
  | inr plain ↦ rw plain (
    month_loop-Months 31 (28 ∷ 31 ∷ 30 ∷ 31 ∷ 30 ∷ 31 ∷ 31 ∷ 30 ∷ 31 ∷ 30 ∷ 31 ∷ []) 0 t
        (rw plain at h),
    refl,
  )
]

-- The days of a month, counted from 1, by the calendar of the file.
abbrev pub days_of : ℕ → ℕ → ℕ
days_of year month = get_or (get_calendar year) (month - 1) 0

-- The date stands for the second `epoch`. At the midnight that ends a month, and only there, its day
-- is one more than the month has.
pub record IsDateOf (epoch : ℕ) (d : Date) : Type 0 where
  pub years : ℕ
  pub year : d.year ≡ 1970 + years
  pub sum :
      seconds_from 1970 years
        + days_before (get_calendar d.year) (d.month - 1) * 86400
        + (d.day - 1) * 86400
        + (d.hour * 3600 + d.min * 60 + d.sec)
      ≡ epoch
  pub month : (1 ≤ d.month) × (d.month ≤ 12)
  pub day :
      (1 ≤ d.day)
      × (d.day ≤ days_of d.year d.month + 1)
      × (d.day ≡ days_of d.year d.month + 1 → d.hour * 3600 + d.min * 60 + d.sec ≡ 0)
  pub time : (d.hour < 24) × (d.min < 60) × (d.sec < 60)

abbrev date_of_parts : ℕ → ℕ → ℕ → Date
date_of_parts year month left = record {
  year = year;
  month = month;
  day = 1 + left / 86400;
  hour = left % 86400 / 3600;
  min = left % 86400 % 3600 / 60;
  sec = left % 86400 % 3600 % 60;
}

-- Every second of 32 bits has its date: the loops end, no month is read behind the calendar, and the
-- date adds up to the second again, in the calendar in which every fourth year is a leap year.
pub epoch_to_str-IsDateOf :
    (epoch : ℕ) → epoch < 2 ^ 32 → (d : Date) × (epoch_to_str epoch ≡ some d) × IsDateOf epoch d
unfolding epoch_to_str get_year
epoch_to_str-IsDateOf epoch h =
    let y = year_loop-Years 150 1970 epoch (omega arith) in
    let (m, twelve) = get_month-Months y.left (1970 + y.count) y.inside in
    let e : 0 + m.count + 1 - 1 ≡ m.count = omega arith in
    (
      date_of_parts (1970 + y.count) (0 + m.count + 1) m.left,
      rw (y.found, m.found) refl,
      record {
        years = y.count;
        year = refl;
        sum = rw e (omega (arith, y.whole, m.whole));
        month = (omega arith, omega (arith, m.bounded, twelve));
        day = (
          omega arith,
          rw e (omega (arith, m.inside)),
          λ last. omega (arith, m.inside, rw e at last),
        );
        time = (omega arith, omega arith, omega arith);
      },
    )
