-- ===== src/Calendar/Export/Grouped.antt =====
-- groupConsecutiveDates: the ranges are in order, and their nights are the dates.
use hostrepository.Base.{
  ℕ, zero, suc, ◌+◌, ◌-◌, ◌≤◌, ◌<◌, ◌≡◌, refl, ap, ◌∙◌, and_right, and_true, leb-true, Bool, true,
  false, ◌&&◌, List, [], ◌∷◌, ◌++◌, ◌==◌, ltb, leb, length, all, filter, arith, Bool-cases, inl,
  inr,
}
use mathlib.Core.List.{append_assoc}
use hostrepository.Calendar.Availability.{dates_from, enumerate_dates}
use hostrepository.Calendar.Dates.{last_day}
use hostrepository.Calendar.Export.{
  DateRange, range_of, group_from, group_consecutive_dates, insert_date, sorted_dates,
}
use hostrepository.Calendar.Export.Ordered.{are_ordered}
use hostrepository.Calendar.Export.Ranges.{is_range}

-- Dates in order, the first not before `b` and the last at least one day before `end`.
abbrev pub are_dates : ℕ → ℕ → List ℕ → Bool
are_dates end b [] = true
are_dates end b (d ∷ dates) = leb b d && (ltb (d + 1) end && are_dates end (d + 1) dates)

module _ (end b d : ℕ) (dates : List ℕ) (h : are_dates end b (d ∷ dates) ≡ true) where
  dates_first : b ≤ d
  dates_first = ground arith

  dates_end : d + 1 < end
  dates_end = ground arith

  dates_rest : are_dates end (d + 1) dates ≡ true
  dates_rest =
      and_right (ltb (d + 1) end) (are_dates end (d + 1) dates)
        (and_right (leb b d) (ltb (d + 1) end && are_dates end (d + 1) dates) h)

are_dates_earlier :
    (end a b : ℕ) (dates : List ℕ)
    → a ≤ b
    → are_dates end b dates ≡ true
    → are_dates end a dates ≡ true
are_dates_earlier end a b [] h k = refl
are_dates_earlier end a b (d ∷ dates) h k =
    let first : leb a d ≡ true =
      leb-true a d (let f = dates_first end b d dates k in omega arith) in
    and_true first (and_right (leb b d) (ltb (d + 1) end && are_dates end (d + 1) dates) k)

pub dates_from-are_dates : (end b n : ℕ) → b + n < end → are_dates end b (dates_from b n) ≡ true
dates_from-are_dates end b zero h = refl
dates_from-are_dates end b (suc n) h =
    and_true (leb-true b b (omega arith))
      (and_true (ground arith) (dates_from-are_dates end (b + 1) n (omega arith)))

pub filter-are_dates :
    (p : ℕ → Bool) (end b : ℕ) (dates : List ℕ)
    → are_dates end b dates ≡ true
    → are_dates end b (filter p dates) ≡ true
filter-are_dates p end b [] h = refl
filter-are_dates p end b (d ∷ dates) h =
    let first = dates_first end b d dates h in
    let rest = filter-are_dates p end (d + 1) dates (dates_rest end b d dates h) in
    elim (Bool-cases (p d)) [
      | inl e ↦ rw e (
          and_true (leb-true b d first) (and_true (ground (arith, dates_end end b d dates h)) rest))
      | inr e ↦ rw e (are_dates_earlier end b (d + 1) (filter p dates) (omega arith) rest)
    ]

insert_first :
    (end d : ℕ) (dates : List ℕ)
    → are_dates end (d + 1) dates ≡ true
    → insert_date d dates ≡ d ∷ dates
unfolding insert_date
insert_first end d [] h = refl
insert_first end d (e ∷ dates) h =
    let first = dates_first end (d + 1) e dates h in
    let other : (d == e) ≡ false = ground arith in
    let before : ltb d e ≡ true = ground arith in rw other (rw before refl)

-- Dates in order are left as they are.
pub sorted_dates_same :
    (end b : ℕ) (dates : List ℕ) → are_dates end b dates ≡ true → sorted_dates dates ≡ dates
unfolding sorted_dates
sorted_dates_same end b [] h = refl
sorted_dates_same end b (d ∷ dates) h =
    let rest = dates_rest end b d dates h in
    ap (insert_date d) (sorted_dates_same end (d + 1) dates rest) ∙ insert_first end d dates rest

-- The nights of ranges, one after the other.
unfoldable pub nights_of : List DateRange → List ℕ
nights_of [] = []
nights_of (r ∷ ranges) = enumerate_dates r.starts_on r.ends_on ++ nights_of ranges

dates_from_last : (a n b : ℕ) → a + n ≡ b → dates_from a (suc n) ≡ dates_from a n ++ (b ∷ [])
dates_from_last a zero b h = let same : a ≡ b = omega arith in ap (λ (d : ℕ). d ∷ []) same
dates_from_last a (suc n) b h =
    ap (λ (ds : List ℕ). a ∷ ds) (dates_from_last (a + 1) n b (omega arith))

one_more : (a b : ℕ) → a ≤ b → enumerate_dates a (b + 1) ≡ enumerate_dates a b ++ (b ∷ [])
one_more a b h =
    let count : b + 1 - a ≡ suc (b - a) = omega arith in
    ap (dates_from a) count ∙ dates_from_last a (b - a) b (omega arith)

one_day : (d : ℕ) → enumerate_dates d (d + 1) ≡ d ∷ []
one_day d =
    let none_yet : d - d ≡ 0 = omega arith in
    one_more d d (omega arith) ∙ ap (λ (n : ℕ). dates_from d n ++ (d ∷ [])) none_yet

nights-group_from :
    (a b : ℕ) (dates : List ℕ)
    → a ≤ b
    → nights_of (group_from a b dates) ≡ enumerate_dates a (b + 1) ++ dates
unfolding nights_of group_from
nights-group_from a b [] h = refl
nights-group_from a b (d ∷ dates) h = elim (Bool-cases (d == b + 1)) [
  | inl e ↦
      let next : d ≡ b + 1 = ground arith in
      rw (e, group_from)
        (nights-group_from a d dates (omega arith)
          ∙ ap (λ (ds : List ℕ). ds ++ dates) (one_more a d (omega arith))
          ∙ append_assoc (enumerate_dates a d) (d ∷ []) dates
          ∙ ap (λ (n : ℕ). enumerate_dates a n ++ (d ∷ dates)) next)
  | inr e ↦
      rw (e, group_from)
        (ap (λ (ds : List ℕ). enumerate_dates a (b + 1) ++ ds)
          (nights-group_from d d dates (omega arith)
            ∙ ap (λ (ds : List ℕ). ds ++ dates) (one_day d)))
]

-- The ranges of later dates start later.
group_from_later :
    (end c a b : ℕ) (dates : List ℕ)
    → c < a
    → a ≤ b
    → are_dates end (b + 1) dates ≡ true
    → all (λ (r : DateRange). ltb c r.starts_on) (group_from a b dates) ≡ true
unfolding group_from
group_from_later end c a b [] h k o = and_true (ground arith) refl
group_from_later end c a b (d ∷ dates) h k o =
    let first = dates_first end (b + 1) d dates o in
    let rest = dates_rest end (b + 1) d dates o in
    let here : ltb c a ≡ true = ground arith in
    elim (Bool-cases (d == b + 1)) [
      | inl e ↦ rw (e, group_from) (group_from_later end c a d dates h (omega arith) rest)
      | inr e ↦
          rw (e, group_from)
            (and_true here (group_from_later end c d d dates (omega arith) (omega arith) rest))
    ]

group_from-are_ordered :
    (a b : ℕ) (dates : List ℕ)
    → a ≤ b
    → b + 1 < last_day
    → are_dates last_day (b + 1) dates ≡ true
    → are_ordered (group_from a b dates) ≡ true
unfolding group_from
group_from-are_ordered a b [] h k o = and_true (ground arith) refl
group_from-are_ordered a b (d ∷ dates) h k o =
    let first = dates_first last_day (b + 1) d dates o in
    let last = dates_end last_day (b + 1) d dates o in
    let rest = dates_rest last_day (b + 1) d dates o in
    let here : is_range (range_of a b) ≡ true = ground arith in
    elim (Bool-cases (d == b + 1)) [
      | inl e ↦ rw (e, group_from) (group_from-are_ordered a d dates (omega arith) last rest)
      | inr e ↦
          rw (e, group_from)
            (and_true here (
              and_true (group_from_later last_day a d d dates (omega arith) (omega arith) rest)
                (group_from-are_ordered d d dates (omega arith) last rest)))
    ]

length-group_from : (a b : ℕ) (dates : List ℕ) → length (group_from a b dates) ≤ suc (length dates)
unfolding group_from
length-group_from a b [] = omega arith
length-group_from a b (d ∷ dates) = elim (Bool-cases (d == b + 1)) [
  | inl e ↦ rw (e, group_from) (omega (arith, length-group_from a d dates))
  | inr e ↦ rw (e, group_from) (omega (arith, length-group_from d d dates))
]

-- Dates in order, below the year 10000: their ranges are in order, their nights are the dates, and
-- there are no more of them than dates.
pub group_consecutive_dates_lem :
    (b : ℕ) (dates : List ℕ)
    → are_dates last_day b dates ≡ true
    → (are_ordered (group_consecutive_dates dates) ≡ true)
      × (nights_of (group_consecutive_dates dates) ≡ dates)
      × (length (group_consecutive_dates dates) ≤ length dates)
unfolding group_consecutive_dates
group_consecutive_dates_lem b [] h = unfold sorted_dates nights_of in (refl, refl, omega arith)
group_consecutive_dates_lem b (d ∷ dates) h =
    let rest = dates_rest last_day b d dates h in
    rw (sorted_dates_same last_day b (d ∷ dates) h) (
      group_from-are_ordered d d dates (omega arith) (dates_end last_day b d dates h) rest,
      nights-group_from d d dates (omega arith) ∙ ap (λ (ds : List ℕ). ds ++ dates) (one_day d),
      length-group_from d d dates,
    )
