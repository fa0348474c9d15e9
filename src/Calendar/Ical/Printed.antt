-- ===== src/Calendar/Ical/Printed.antt =====
-- Dates as the export prints them: parseCalendarDate reads the compact form back.
use hostrepository.Base.{
  ℕ, ◌<◌, ◌≡◌, refl, sym, ap, ◌∙◌, Bool, true, false, not, ◌&&◌, ◌++◌, ◌==◌, take, filter, all,
  arith,
}
use hostrepository.Base.Text.{Text, is_space, trim}
use hostrepository.Base.Text.Trimmed.{is_solid, is_solid_text, trim_solid}
use hostrepository.Base.Result.{ok, ok_eq}
use hostrepository.Calendar.Dates.{
  Date, date_of, digit, digits2, digits4, iso_date, is_digit, last_day,
}
use hostrepository.Calendar.Dates.Counting.{date_of_lem}
use hostrepository.Calendar.Export.{compact_date}
use hostrepository.Calendar.Ical.{parse_calendar_date, number, number_from}

digit_hyphen : (n : ℕ) → (digit n == 45) ≡ false
digit_hyphen n = ground arith

digit-is_digit : (n : ℕ) → is_digit (digit n) ≡ true
digit-is_digit n = ground arith

-- What an exported UID is made of: no white space, and no backslash.
abbrev pub is_plain : ℕ → Bool
is_plain c = is_solid c && not (c == 92)

digit_backslash : (n : ℕ) → (digit n == 92) ≡ false
digit_backslash n = ground arith

pub digit_solid : (n : ℕ) → is_solid (digit n) ≡ true
unfolding is_space
digit_solid n = ground arith

-- The eight digits of a date.
abbrev pub compact_digits : Date → Text
compact_digits date = digits4 date.year ++ (digits2 date.month ++ digits2 date.day)

pub compact_date_lem : (n : ℕ) → compact_date n ≡ compact_digits (date_of n)
unfolding compact_date iso_date
compact_date_lem n = simp (digit_hyphen) refl

number-digits4 : (n : ℕ) → n < 10000 → number (digits4 n) ≡ n
unfolding number_from
number-digits4 n h = omega arith

number-digits2 : (n : ℕ) → n < 100 → number (digits2 n) ≡ n
unfolding number_from
number-digits2 n h = omega arith

pub compact_date-is_solid : (n : ℕ) → is_solid_text (compact_date n) ≡ true
compact_date-is_solid n = rw (compact_date_lem n) (simp (digit_solid) refl)

compact_digits_digits : (date : Date) → all is_digit (compact_digits date) ≡ true
compact_digits_digits date = simp (digit-is_digit) refl

pub parse_calendar_date-compact_date :
    (n : ℕ) → n < last_day → parse_calendar_date (compact_date n) ≡ ok n
unfolding parse_calendar_date
parse_calendar_date-compact_date n h =
    let date = date_of n in
    let (real, below, months, days) = date_of_lem n h in
    let plain : trim (compact_date n) ≡ compact_digits date =
      trim_solid (compact_date n) (compact_date-is_solid n) ∙ compact_date_lem n in
    let y = number-digits4 date.year below in
    let m = number-digits2 date.month (omega arith) in
    let d = number-digits2 date.day (omega arith) in
    rw plain (rw (compact_digits_digits date) (rw (y, m, d, real) refl))

pub iso_date-is_plain : (n : ℕ) → all is_plain (iso_date n) ≡ true
unfolding iso_date is_space
iso_date-is_plain n = simp (digit_solid, digit_backslash) refl

pub take-iso_date : (n : ℕ) (rest : Text) → take 10 (iso_date n ++ rest) ≡ iso_date n
unfolding iso_date
take-iso_date n rest = refl

-- Two days whose texts are the same are one day.
pub iso_date_eq : (n m : ℕ) → n < last_day → m < last_day → iso_date n ≡ iso_date m → n ≡ m
iso_date_eq n m h k e =
    let same : compact_date n ≡ compact_date m =
      unfold compact_date in ap (filter (λ c. not (c == 45))) e in
    ok_eq (
      sym (parse_calendar_date-compact_date n h)
      ∙ ap parse_calendar_date same
      ∙ parse_calendar_date-compact_date m k)
