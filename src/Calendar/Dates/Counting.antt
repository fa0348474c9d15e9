-- ===== src/Calendar/Dates/Counting.antt =====
-- Day numbers and dates: each day has one date, and that date is real.
use hostrepository.Base.{
  ℕ, zero, suc, ◌+◌, ◌-◌, ◌*◌, ◌/◌, ◌≤◌, ◌<◌, ◌≡◌, refl, Bool-cases, inl, inr, subst, ltb, some,
  arith,
}
use hostrepository.Calendar.Dates.{
  year_days, days_before_year, month_days, days_after_month, last_day, find_year, find_month,
  date_of, real_date,
}

year_days_positive : (y : ℕ) → 365 ≤ year_days y
unfolding year_days
year_days_positive y = ground arith

-- The Gregorian count of days, without the sum over the years.
days_before_year_closed :
    (y : ℕ) → days_before_year y + (y + 99) / 100 ≡ 365 * y + (y + 3) / 4 + (y + 399) / 400
unfolding days_before_year year_days
days_before_year_closed zero = refl
days_before_year_closed (suc y) = let ih = days_before_year_closed y in ground arith

year_below : (y n : ℕ) → days_before_year y ≤ n → n < last_day → y < 10000
year_below y n low high = let e = days_before_year_closed y in omega arith

days_before_year-suc : (y : ℕ) → days_before_year (suc y) ≡ days_before_year y + year_days y
unfolding days_before_year
days_before_year-suc y = refl

days_after_month-suc :
    (y m : ℕ) → days_after_month y (suc m) ≡ days_after_month y m + month_days y (suc m)
unfolding days_after_month
days_after_month-suc y m = refl

find_year_lem :
    (n y r : ℕ)
    → r ≤ n
    → (days_before_year ((find_year n y r).0) + (find_year n y r).1 ≡ days_before_year y + r)
      × ((find_year n y r).1 < year_days ((find_year n y r).0))
unfolding find_year
find_year_lem zero y r h = let p = year_days_positive y in (refl, omega arith)
find_year_lem (suc n) y r h = elim (Bool-cases (ltb r (year_days y))) [
  | inl e ↦ rw (e, find_year) (refl, ground arith)
  | inr e ↦
      let p = year_days_positive y in
      let (a, b) = find_year_lem n (suc y) (r - year_days y) (ground arith) in
      rw (e, find_year) (ground (arith, days_before_year-suc y), b)
]

find_month_lem :
    (n y m r k : ℕ)
    → k ≡ n + m
    → days_after_month y m + r < days_after_month y (suc k)
    → (days_after_month y ((find_month n y m r).0) + (find_month n y m r).1
        ≡ days_after_month y m + r)
      × ((find_month n y m r).1 < month_days y (suc ((find_month n y m r).0)))
      × ((find_month n y m r).0 ≤ k)
unfolding find_month
find_month_lem zero y m r k e h =
    let same : k ≡ m = omega arith in
    let below : days_after_month y m + r < days_after_month y (suc m) =
      subst (λ j. days_after_month y m + r < days_after_month y (suc j)) same h in
    (refl, (omega (arith, days_after_month-suc y m)), omega arith)
find_month_lem (suc n) y m r k s h = elim (Bool-cases (ltb r (month_days y (suc m)))) [
  | inl e ↦ rw (e, find_month) (refl, ground arith, omega arith)
  | inr e ↦
      let (a, b, c) =
        find_month_lem n y (suc m) (r - month_days y (suc m)) k (omega arith)
          (ground (arith, days_after_month-suc y m)) in
      rw (e, find_month) (ground (arith, days_after_month-suc y m), b, omega arith)
]

year_months : (y : ℕ) → days_after_month y 12 ≡ year_days y
unfolding days_after_month month_days year_days
year_months y = ground arith

month_at_most : (y m : ℕ) → month_days y m ≤ 31
unfolding month_days
month_at_most y m = ground arith

-- What `date_of` gives is a real date of a year below 10000, and that date is the day it began from.
pub date_of_lem :
    (n : ℕ)
    → n < last_day
    → (real_date (date_of n).year (date_of n).month (date_of n).day ≡ some n)
      × ((date_of n).year < 10000)
      × ((date_of n).month ≤ 12)
      × ((date_of n).day ≤ 31)
unfolding date_of real_date days_before_year days_after_month
date_of_lem n h =
    let (a, b) = find_year_lem n 0 n (omega arith) in
    let y = (find_year n 0 n).0 in
    let below = year_below y n (omega arith) h in
    let whole = year_months y in
    let (c, d, f) = find_month_lem 11 y 0 (find_year n 0 n).1 11 refl (ground arith) in
    let size = month_at_most y (suc ((find_month 11 y 0 (find_year n 0 n).1).0)) in
    (ground arith, below, omega arith, omega arith)
