-- ===== src/Calendar/Dates.antt =====
-- The dates of the calendar files: day numbers from 0000-01-01, and what `Date` makes of a text
-- `YYYY-MM-DD` and back, for the years 0 to 9999.
pub mod Counting
use Prim.Native.Nat.{compare, Ordering}
use hostrepository.Base.{
  ℕ, zero, suc, ◌+◌, ◌-◌, ◌*◌, ◌/◌, ◌%◌, Bool, true, false, ◌&&◌, ◌||◌, not, Option, none, some,
  List, [], ◌∷◌, ◌++◌, ◌==◌, leb, ltb, if◌then◌else◌,
}
use hostrepository.Base.Text.{Text}

abbrev pub is_leap : ℕ → Bool
is_leap y = y % 4 == 0 && (not (y % 100 == 0) || y % 400 == 0)

unfoldable pub year_days : ℕ → ℕ
year_days y = if is_leap y then 366 else 365

unfoldable pub days_before_year : ℕ → ℕ
days_before_year zero = 0
days_before_year (suc y) = days_before_year y + year_days y

-- Months are counted from 1.
unfoldable pub month_days : ℕ → ℕ → ℕ
month_days y m =
    if m == 2
    then (if is_leap y then 29 else 28)
    else (if m == 4 || m == 6 || m == 9 || m == 11 then 30 else 31)

-- The days of a year before the month after the `m`-th.
unfoldable pub days_after_month : ℕ → ℕ → ℕ
days_after_month y zero = 0
days_after_month y (suc m) = days_after_month y m + month_days y (suc m)

abbrev pub day_number : ℕ → ℕ → ℕ → ℕ
day_number y m d = days_before_year y + days_after_month y (m - 1) + (d - 1)

-- The day 10000-01-01, whose ISO text has another form.
abbrev pub last_day : ℕ
last_day = 3652425

-- The year of a day, and the days of the year before it; a year has a day, so that as many rounds as
-- days are enough.
unfoldable pub find_year : ℕ → ℕ → ℕ → ℕ × ℕ
find_year zero y r = (y, r)
find_year (suc n) y r = elim (ltb r (year_days y)) [
  | true ↦ (y, r)
  | false ↦ find_year n (suc y) (r - year_days y)
]

-- The months before the month of a day of the year, and the days of that month before it.
unfoldable pub find_month : ℕ → ℕ → ℕ → ℕ → ℕ × ℕ
find_month zero y m r = (m, r)
find_month (suc n) y m r = elim (ltb r (month_days y (suc m))) [
  | true ↦ (m, r)
  | false ↦ find_month n y (suc m) (r - month_days y (suc m))
]

pub record Date : Type 0 where
  pub year : ℕ
  pub month : ℕ
  pub day : ℕ

unfoldable pub date_of : ℕ → Date
date_of n =
    let (y, r) = find_year n 0 n in
    let (m, d) = find_month 11 y 0 r in record { year = y; month = suc m; day = suc d }

abbrev pub digit : ℕ → ℕ
digit n = 48 + n % 10

abbrev pub digits2 : ℕ → Text
digits2 n = digit (n / 10) ∷ digit n ∷ []

abbrev pub digits4 : ℕ → Text
digits4 n = digit (n / 1000) ∷ digit (n / 100) ∷ digit (n / 10) ∷ digit n ∷ []

-- `toISOString().slice(0, 10)`
unfoldable pub iso_date : ℕ → Text
iso_date n =
    let date = date_of n in
    digits4 date.year ++ (45 ∷ (digits2 date.month ++ (45 ∷ digits2 date.day)))

abbrev pub is_digit : ℕ → Bool
is_digit c = leb 48 c && leb c 57

-- `isRealDate`, and the day that the text names.
unfoldable pub real_date : ℕ → ℕ → ℕ → Option ℕ
real_date y m d =
    if leb 1 m && leb m 12 && leb 1 d && leb d (month_days y m)
    then some (day_number y m d)
    else none
