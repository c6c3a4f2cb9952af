-- ===== src/Clock.antt =====
-- user/Get_Time.c: the date of a number of seconds since 1970.
pub mod Year
pub mod Month
use watermeter.Base.{
  ℕ, zero, suc, ◌+◌, ◌-◌, ◌*◌, ◌/◌, ◌%◌, Bool, true, false, List, [], ◌∷◌, Option, some, none,
}
use watermeter.Base.{ltb, ◌==◌, get_or, if◌then◌else◌}
use watermeter.Base.CString.{◌>>=◌}

-- `IS_LEAP`.
unfoldable pub is_leap : ℕ → Bool
is_leap year = year % 4 == 0

-- `SEC_IN_YEAR`.
unfoldable pub sec_in_year : ℕ → ℕ
sec_in_year year = if is_leap year then 86400 * 366 else 86400 * 365

abbrev pub calendar : List ℕ
calendar = 31 ∷ 28 ∷ 31 ∷ 30 ∷ 31 ∷ 30 ∷ 31 ∷ 31 ∷ 30 ∷ 31 ∷ 30 ∷ 31 ∷ []

abbrev pub calendar_leap : List ℕ
calendar_leap = 31 ∷ 29 ∷ 31 ∷ 30 ∷ 31 ∷ 30 ∷ 31 ∷ 31 ∷ 30 ∷ 31 ∷ 30 ∷ 31 ∷ []

-- `get_calendar`.
unfoldable pub get_calendar : ℕ → List ℕ
get_calendar year = if is_leap year then calendar_leap else calendar

-- The loop of `get_year` from `year` on: the year, and the seconds that are left in it.
unfoldable pub year_loop : ℕ → ℕ → ℕ → Option (ℕ × ℕ)
year_loop zero year t = none
year_loop (suc fuel) year t =
    let rest = year_loop fuel (year + 1) (t - sec_in_year year) in
    if ltb (sec_in_year year) t then rest else some (year, t)

-- `get_year`, for a number of 32 bits.
unfoldable pub get_year : ℕ → Option (ℕ × ℕ)
get_year t = year_loop 150 1970 t

-- The loop of `get_month` over what is left of the calendar from month `i` on.
unfoldable pub month_loop : List ℕ → ℕ → ℕ → Option (ℕ × ℕ)
month_loop [] i t = none
month_loop (days ∷ cal) i t =
    let rest = month_loop cal (i + 1) (t - days * 86400) in
    if ltb (days * 86400) t then rest else some (i + 1, t)

-- `get_month`; `none` is a read behind the calendar.
unfoldable pub get_month : ℕ → ℕ → Option (ℕ × ℕ)
get_month t year = month_loop (get_calendar year) 0 t

-- The globals that `epoch_to_str` sets.
pub record Date : Type 0 where
  pub year : ℕ
  pub month : ℕ
  pub day : ℕ
  pub hour : ℕ
  pub min : ℕ
  pub sec : ℕ

unfoldable pub epoch_to_str : ℕ → Option Date
epoch_to_str epoch = do
  (year, in_year) ← get_year epoch
  (month, in_month) ← get_month in_year year
  let in_day = in_month % 86400
  some (record {
    year = year;
    month = month;
    day = 1 + in_month / 86400;
    hour = in_day / 3600;
    min = in_day % 3600 / 60;
    sec = in_day % 3600 % 60;
  })
