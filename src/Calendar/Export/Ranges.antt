-- ===== src/Calendar/Export/Ranges.antt =====
-- parseICalendar over the lines of all ranges: one event for each, in their order.
use hostrepository.Base.{
  ℕ, ◌/◌, ◌%◌, ◌+◌, ◌<◌, ◌≡◌, refl, sym, ap, ◌∙◌, all-append, length-append, and_left, and_right,
  ltb→lt, Bool, true, false, ◌&&◌, none, some, List, [], ◌∷◌, ◌++◌, map, ltb, leb, length, take,
  all, arith, Bool-cases, inl, inr,
}
use hostrepository.Base.Text.{Text, codes, is_space, same_text}
use hostrepository.Base.Text.Trimmed.{is_solid, is_solid_text, same_text_eq, same_text-append}
use hostrepository.Base.Result.{ok, ◌>>=◌}
use hostrepository.Calendar.Feeds.{CalendarEvent}
use hostrepository.Calendar.Dates.{last_day, iso_date, digits2}
use hostrepository.Calendar.Ical.{Parser, parse_line, parse_lines, new_event, add_event, set_event}
use hostrepository.Calendar.Ical.Printed.{
  is_plain, iso_date-is_plain, iso_date_eq, take-iso_date, compact_date-is_solid, digit_solid,
}
use hostrepository.Calendar.Export.{
  DateRange, compact_date, exported_uid, generated_at, event_lines,
}
use hostrepository.Calendar.Export.Events.{
  parse-begin, parse-uid, parse-dtstamp, parse-dtstart, parse-dtend, parse-status, parse-transp,
  parse-summary, parse-end, pending_of, exported_event, finish_plain, plain_solid,
}

-- An identifier that the export can put into a UID.
abbrev pub is_property_id : Text → Bool
is_property_id s = all is_plain s && leb (length s) 454

-- A range of at least one night, of years that the format can write.
abbrev pub is_range : DateRange → Bool
is_range range = ltb range.starts_on range.ends_on && ltb range.ends_on last_day

length-iso_date : (n : ℕ) (t : Text) → length (iso_date n ++ t) ≡ 10 + length t
unfolding iso_date
length-iso_date n t = omega arith

module _ (property_id : Text) (named : is_property_id property_id ≡ true) (range : DateRange) where
  pub exported_uid-is_plain : all is_plain (exported_uid property_id range) ≡ true
  unfolding is_space
  exported_uid-is_plain =
      all-append is_plain property_id
        (45
          ∷ (iso_date range.starts_on
              ++ (45 ∷ (iso_date range.ends_on ++ codes "@hostcityliving.com"))))
        (and_left (all is_plain property_id) (leb (length property_id) 454) named)
        (all-append is_plain (iso_date range.starts_on)
          (45 ∷ (iso_date range.ends_on ++ codes "@hostcityliving.com"))
          (iso_date-is_plain range.starts_on)
          (all-append is_plain (iso_date range.ends_on) (codes "@hostcityliving.com")
            (iso_date-is_plain range.ends_on) refl))

  length-exported_uid : length (exported_uid property_id range) ≡ length property_id + 46
  length-exported_uid = omega (
    arith,
    length-append property_id (
        45
        ∷ (iso_date range.starts_on
            ++ (45 ∷ (iso_date range.ends_on ++ codes "@hostcityliving.com")))),
    length-iso_date range.starts_on (45 ∷ (iso_date range.ends_on ++ codes "@hostcityliving.com")),
    length-iso_date range.ends_on (codes "@hostcityliving.com"),
  )

two_digits_solid : (n : ℕ) → is_solid_text (digits2 n) ≡ true
two_digits_solid n = simp (digit_solid) refl

pub generated_at-is_solid : (now : ℕ) → is_solid_text (generated_at now) ≡ true
unfolding generated_at is_space
generated_at-is_solid now =
    let day = compact_date (now / 86400000) in
    let hour = 84 ∷ digits2 (now / 3600000 % 24) in
    let minute = digits2 (now / 60000 % 60) in
    let second = digits2 (now / 1000 % 60) in
    let with_hour =
      all-append is_solid day hour (compact_date-is_solid (now / 86400000))
        (two_digits_solid (now / 3600000 % 24)) in
    let with_minute =
      all-append is_solid (day ++ hour) minute with_hour (two_digits_solid (now / 60000 % 60)) in
    let with_second =
      all-append is_solid (day ++ hour ++ minute) second with_minute
        (two_digits_solid (now / 1000 % 60)) in
    all-append is_solid (day ++ hour ++ minute ++ second) (90 ∷ []) with_second refl

pub parse_lines_step :
    (line : Text) (lines : List Text) (parser next : Parser)
    → parse_line line parser ≡ ok next
    → parse_lines (line ∷ lines) parser ≡ parse_lines lines next
unfolding parse_lines
parse_lines_step line lines parser next h = rw h refl

abbrev pub between : List CalendarEvent → Parser
between events = record { events = events; pending = none }

-- What the lines of one range add.
pub read_event :
    (now : ℕ) (property_id : Text) (range : DateRange) (events : List CalendarEvent)
    (rest : List Text)
    → is_property_id property_id ≡ true
    → is_range range ≡ true
    → parse_lines (event_lines now property_id range ++ rest) (between events)
      ≡ (add_event (some (exported_event property_id range)) (between events) >>= parse_lines rest)
unfolding parse_lines add_event
read_event now property_id range events rest named h =
    let id = exported_uid property_id range in
    let plain = exported_uid-is_plain property_id named range in
    let size = length-exported_uid property_id named range in
    let first : range.starts_on < range.ends_on = ground arith in
    let last : range.ends_on < last_day = ground arith in
    let finished =
      finish_plain id range.starts_on range.ends_on plain (omega arith) (ground arith) first in
    let with_uid = record new_event { uid = some id } in
    let with_start = record with_uid { starts_on = some range.starts_on } in
    let with_end = record with_start { ends_on = some range.ends_on } in
    let with_status = record with_end { status = some (codes "CONFIRMED") } in
    rw (parse-begin events) (
      rw (parse-uid events new_event id (plain_solid id plain)) (
        rw (parse-dtstamp events with_uid (generated_at now) (generated_at-is_solid now)) (
          rw (parse-dtstart events with_uid range.starts_on (omega arith)) (
            rw (parse-dtend events with_start range.ends_on last) (
              rw (parse-status events with_end) (
                rw (parse-transp events with_status) (
                  rw (parse-summary events with_status) (
                    rw (parse-end events (pending_of id range.starts_on range.ends_on) finished)
                      refl))))))))

module _ (property_id : Text) where
  exported_uid-starts_on :
      (a b : DateRange)
      → same_text (exported_uid property_id a) (exported_uid property_id b) ≡ true
      → iso_date a.starts_on ≡ iso_date b.starts_on
  exported_uid-starts_on a b h =
      let rest = λ (r : DateRange).
        iso_date r.starts_on ++ (45 ∷ (iso_date r.ends_on ++ codes "@hostcityliving.com")) in
      let same : rest a ≡ rest b =
        same_text_eq (rest a) (rest b)
          (sym (same_text-append property_id (45 ∷ rest a) (45 ∷ rest b)) ∙ h) in
      sym (take-iso_date a.starts_on (45 ∷ (iso_date a.ends_on ++ codes "@hostcityliving.com")))
      ∙ ap (take 10) same
      ∙ take-iso_date b.starts_on (45 ∷ (iso_date b.ends_on ++ codes "@hostcityliving.com"))

  other_uid :
      (a b : DateRange)
      → a.starts_on < b.starts_on
      → b.starts_on < last_day
      → same_text (exported_uid property_id a) (exported_uid property_id b) ≡ false
  other_uid a b before h =
      elim (Bool-cases (same_text (exported_uid property_id a) (exported_uid property_id b))) [
        | inl e ↦
            let same =
              iso_date_eq a.starts_on b.starts_on (omega arith) h (exported_uid-starts_on a b e) in
            absurd (omega arith)
        | inr e ↦ e
      ]

  -- An event of a later range is added at the end.
  pub set_later_event :
      (done : List DateRange) (range : DateRange)
      → all (λ (d : DateRange). ltb d.starts_on range.starts_on) done ≡ true
      → range.starts_on < last_day
      → set_event (exported_event property_id range) (map (exported_event property_id) done)
        ≡ map (exported_event property_id) (done ++ (range ∷ []))
  unfolding set_event
  set_later_event [] range h k = refl
  set_later_event (d ∷ done) range h k =
      let before = ltb→lt d.starts_on range.starts_on (
        and_left (ltb d.starts_on range.starts_on)
          (all (λ (d : DateRange). ltb d.starts_on range.starts_on) done) h) in
      let other = other_uid d range before k in
      rw
        (
          other,
          set_later_event done range
              (and_right (ltb d.starts_on range.starts_on)
                (all (λ (d : DateRange). ltb d.starts_on range.starts_on) done) h)
              k,
        )
        refl
