-- ===== src/Clock/Year.antt =====
-- `epoch_to_str` loses no second, and ends within its loops.
use watermeter.Base.{ℕ, zero, suc, ◌+◌, ◌-◌, ◌*◌, ◌≤◌, ◌<◌, ◌≡◌, refl, subst, arith}
use watermeter.Base.{Option, some, ltb, Bool-cases, inl, inr}
use watermeter.Clock.{sec_in_year, year_loop}

-- The seconds before the 1st of January of 1970 + `n`, counted year by year.
abbrev pub seconds_from : ℕ → ℕ → ℕ
seconds_from year zero = 0
seconds_from year (suc n) = sec_in_year year + seconds_from (year + 1) n

-- The loop finds a number of whole years, and what is left is in the last.
pub record Years (year t : ℕ) (o : Option (ℕ × ℕ)) : Type 0 where
  pub count : ℕ
  pub left : ℕ
  pub found : o ≡ some (year + count, left)
  pub whole : seconds_from year count + left ≡ t
  pub inside : left ≤ sec_in_year (year + count)

sec_in_year-lower : (year : ℕ) → 31536000 ≤ sec_in_year year
unfolding sec_in_year
sec_in_year-lower year = ground arith

pub year_loop-Years : (fuel year t : ℕ) → t < fuel * 31536000 → Years year t (year_loop fuel year t)
unfolding year_loop
year_loop-Years zero year t h = absurd (omega arith)
year_loop-Years (suc fuel) year t h = elim (Bool-cases (ltb (sec_in_year year) t)) [
  | inl more ↦
      let low = sec_in_year-lower year in
      let above : sec_in_year year < t = ground arith in
      let r = year_loop-Years fuel (year + 1) (t - sec_in_year year) (omega arith) in
      let e : year + 1 + r.count ≡ year + suc r.count = omega arith in
      rw more (record {
        count = suc r.count;
        left = r.left;
        found =
            subst (λ y. year_loop fuel (year + 1) (t - sec_in_year year) ≡ some (y, r.left)) e
              r.found;
        whole = omega (arith, r.whole);
        inside = subst (λ y. r.left ≤ sec_in_year y) e r.inside;
      })
  | inr here ↦
      let e : year + 0 ≡ year = omega arith in
      rw here (record {
        count = 0;
        left = t;
        found = rw e refl;
        whole = omega arith;
        inside = rw e (ground arith);
      })
]
