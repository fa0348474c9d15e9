-- ===== src/Calendar/Export/Events.antt =====
-- How parseICalendar reads the lines that the export writes for one range.
use hostrepository.Base.{
  ℕ, ◌≤◌, ◌<◌, ◌≡◌, refl, ap, and_left, and_right, and_true, not-true, ◌∙◌, Bool, true, false, not,
  ◌&&◌, Option, none, some, List, [], ◌∷◌, ◌++◌, ◌==◌, ltb, leb, length, all, arith,
}
use hostrepository.Base.Text.{Text, codes, is_space, to_upper_case, same_text, split_at_first}
use hostrepository.Base.Text.Trimmed.{is_solid, is_solid_text, trim_end_solid, trim_solid}
use hostrepository.Base.Result.{ok}
use hostrepository.Calendar.Feeds.{CalendarEvent}
use hostrepository.Calendar.Dates.{last_day}
use hostrepository.Calendar.Ical.{
  Parser, PendingEvent, new_event, parse_line, begin_event, end_event, read_property, set_property,
  property_of, split_content_line, replace_escape, unescape_text, is_letter_n, complete_event,
  finish_event, add_event,
}
use hostrepository.Calendar.Ical.Printed.{
  is_plain, compact_date-is_solid, parse_calendar_date-compact_date,
}
use hostrepository.Calendar.Export.{DateRange, compact_date, exported_uid}

abbrev pub in_event : List CalendarEvent → PendingEvent → Parser
in_event events event = record { events = events; pending = some event }

-- A line without white space that neither begins nor ends an event.
abbrev pub is_content : Text → Bool
is_content line =
    not (same_text (to_upper_case line) (codes "BEGIN:VEVENT"))
    && not (same_text (to_upper_case line) (codes "END:VEVENT"))

parse_line_content :
    (line : Text) (parser : Parser)
    → is_solid_text line ≡ true
    → is_content line ≡ true
    → parse_line line parser ≡ read_property line parser
unfolding parse_line
parse_line_content line parser h k =
    let begins = not-true (same_text (to_upper_case line) (codes "BEGIN:VEVENT")) (
      and_left (not (same_text (to_upper_case line) (codes "BEGIN:VEVENT")))
        (not (same_text (to_upper_case line) (codes "END:VEVENT"))) k) in
    let ends = not-true (same_text (to_upper_case line) (codes "END:VEVENT")) (
      and_right (not (same_text (to_upper_case line) (codes "BEGIN:VEVENT")))
        (not (same_text (to_upper_case line) (codes "END:VEVENT"))) k) in
    rw (trim_end_solid line h) (rw (trim_solid line h) (rw begins (rw ends refl)))

module _ (events : List CalendarEvent) (event : PendingEvent) where
  pub parse-uid :
      (value : Text)
      → is_solid_text value ≡ true
      → parse_line (codes "UID:" ++ value) (in_event events event)
        ≡ ok (in_event events (record event { uid = some value }))
  parse-uid value h =
      parse_line_content (codes "UID:" ++ value) (in_event events event) (unfold is_space in h) refl
      ∙ (unfold read_property split_content_line split_at_first property_of set_property in refl)

  pub parse-dtstamp :
      (value : Text)
      → is_solid_text value ≡ true
      → parse_line (codes "DTSTAMP:" ++ value) (in_event events event) ≡ ok (in_event events event)
  parse-dtstamp value h =
      parse_line_content (codes "DTSTAMP:" ++ value) (in_event events event) (unfold is_space in h)
        refl
      ∙ (unfold read_property split_content_line split_at_first property_of set_property in refl)

  pub parse-dtstart :
      (n : ℕ)
      → n < last_day
      → parse_line (codes "DTSTART;VALUE=DATE:" ++ compact_date n) (in_event events event)
        ≡ ok (in_event events (record event { starts_on = some n }))
  parse-dtstart n h =
      parse_line_content (codes "DTSTART;VALUE=DATE:" ++ compact_date n) (in_event events event)
        (unfold is_space in compact_date-is_solid n) refl
      ∙ (unfold read_property split_content_line split_at_first property_of set_property in
          rw (parse_calendar_date-compact_date n h) refl)

  pub parse-dtend :
      (n : ℕ)
      → n < last_day
      → parse_line (codes "DTEND;VALUE=DATE:" ++ compact_date n) (in_event events event)
        ≡ ok (in_event events (record event { ends_on = some n }))
  parse-dtend n h =
      parse_line_content (codes "DTEND;VALUE=DATE:" ++ compact_date n) (in_event events event)
        (unfold is_space in compact_date-is_solid n) refl
      ∙ (unfold read_property split_content_line split_at_first property_of set_property in
          rw (parse_calendar_date-compact_date n h) refl)

  -- The lines of the event that say nothing of it.
  pub parse-transp :
      parse_line (codes "TRANSP:OPAQUE") (in_event events event) ≡ ok (in_event events event)
  unfolding parse_line read_property split_content_line split_at_first property_of set_property
      is_space
  parse-transp = refl

  pub parse-status :
      parse_line (codes "STATUS:CONFIRMED") (in_event events event)
      ≡ ok (in_event events (record event { status = some (codes "CONFIRMED") }))
  unfolding parse_line read_property split_content_line split_at_first property_of set_property
      is_space
  parse-status = refl

  pub parse-summary :
      parse_line (codes "SUMMARY:Unavailable") (in_event events event)
      ≡ ok (in_event events (record event { summary = some (codes "Unavailable") }))
  unfolding parse_line read_property split_content_line split_at_first property_of set_property
      is_space
  parse-summary = refl

  pub parse-end :
      {completed : Option CalendarEvent}
      → finish_event event ≡ ok completed
      → parse_line (codes "END:VEVENT") (in_event events event)
        ≡ add_event completed (in_event events event)
  unfolding parse_line end_event is_space
  parse-end h = rw h refl

pub parse-begin :
    (events : List CalendarEvent)
    → parse_line (codes "BEGIN:VEVENT") (record { events = events; pending = none })
      ≡ ok (in_event events new_event)
unfolding parse_line begin_event is_space
parse-begin events = refl

-- A text that has no backslash and no white space is not changed by unescapeText.
replace_escape_plain :
    (hit : ℕ → Bool) (put : ℕ) (s : Text)
    → all is_plain s ≡ true
    → replace_escape hit put false s ≡ s
unfolding replace_escape
replace_escape_plain hit put [] h = refl
replace_escape_plain hit put (c ∷ s) h =
    let plain = and_left (is_plain c) (all is_plain s) h in
    let other = not-true (c == 92) (and_right (is_solid c) (not (c == 92)) plain) in
    rw (other) (
      ap (λ (t : Text). c ∷ t)
        (replace_escape_plain hit put s (and_right (is_plain c) (all is_plain s) h)))

pub plain_solid : (s : Text) → all is_plain s ≡ true → is_solid_text s ≡ true
plain_solid [] h = refl
plain_solid (c ∷ s) h =
    let plain = and_left (is_plain c) (all is_plain s) h in
    and_true (and_left (is_solid c) (not (c == 92)) plain)
      (plain_solid s (and_right (is_plain c) (all is_plain s) h))

unescape_plain : (s : Text) → all is_plain s ≡ true → unescape_text s ≡ s
unfolding unescape_text
unescape_plain s h =
    rw
      (
        replace_escape_plain is_letter_n 32 s h,
        replace_escape_plain (λ c. c == 44) 44 s h,
        replace_escape_plain (λ c. c == 59) 59 s h,
        replace_escape_plain (λ c. c == 92) 92 s h,
      )
      (trim_solid s (plain_solid s h))

-- The event that the lines of a range stand for.
abbrev pub exported_event : Text → DateRange → CalendarEvent
exported_event property_id range = record {
  event_key = exported_uid property_id range;
  external_uid = exported_uid property_id range;
  starts_on = range.starts_on;
  ends_on = range.ends_on;
  summary = some (codes "Unavailable");
}

abbrev pub pending_of : Text → ℕ → ℕ → PendingEvent
pending_of external_uid starts_on ends_on = record {
  uid = some external_uid;
  recurrence_id = none;
  starts_on = some starts_on;
  ends_on = some ends_on;
  summary = some (codes "Unavailable");
  status = some (codes "CONFIRMED");
  recurring = false;
}

pub finish_plain :
    (external_uid : Text) (starts_on ends_on : ℕ)
    → all is_plain external_uid ≡ true
    → 0 < length external_uid
    → length external_uid ≤ 500
    → starts_on < ends_on
    → finish_event (pending_of external_uid starts_on ends_on)
      ≡ ok (
          some (record {
            event_key = external_uid;
            external_uid = external_uid;
            starts_on = starts_on;
            ends_on = ends_on;
            summary = some (codes "Unavailable");
          }))
unfolding finish_event complete_event
finish_plain [] starts_on ends_on h some_code short order = absurd (omega arith)
finish_plain (c ∷ s) starts_on ends_on h some_code short order =
    let same = unescape_plain (c ∷ s) h in
    let nothing : unescape_text [] ≡ [] = unfold unescape_text replace_escape in refl in
    let text : unescape_text (codes "Unavailable") ≡ codes "Unavailable" =
      unfold unescape_text replace_escape is_space in refl in
    let short_uid : ltb 500 (length (c ∷ s)) ≡ false = ground arith in
    let in_order : leb ends_on starts_on ≡ false = ground arith in
    rw (same, nothing, text) (rw (short_uid, in_order) refl)
