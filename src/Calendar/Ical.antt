-- ===== src/Calendar/Ical.antt =====
-- The parser of lib/calendar/ical.ts: parseICalendar and what it calls for a line and an event.
pub mod Keys
pub mod Printed
pub mod Sound
use hostrepository.Base.{
  ℕ, zero, suc, ◌+◌, ◌*◌, ◌-◌, Bool, true, false, ◌&&◌, ◌||◌, Option, none, some, List, [], ◌∷◌,
  ◌++◌, ◌==◌, leb, ltb, length, take, all, any, if◌then◌else◌,
}
use hostrepository.Base.Text.{
  Text, codes, drop, is_empty, trim, trim_end, to_upper_case, same_text, split_at_first,
  byte_length,
}
use hostrepository.Base.Result.{Result, ok, err, ◌>>=◌, ◌>>◌, throw_if, require, or_throw}
use hostrepository.Calendar.Dates.{is_digit, real_date}
use hostrepository.Calendar.Lines.{unfold_lines}
use hostrepository.Calendar.Feeds.{CalendarEvent}

-- `CalendarParseError`, by what its message says.
pub data CalendarParseError : Type 0 where
  file_too_large not_a_calendar nested_event end_without_begin too_many_events : CalendarParseError
  missing_end no_date not_a_real_date recurring_event missing_uid uid_too_long : CalendarParseError
  missing_dates ends_before_start key_too_long : CalendarParseError

abbrev pub max_ical_bytes : ℕ
max_ical_bytes = 2097152

abbrev pub max_ical_events : ℕ
max_ical_events = 5000

pub data PropertyName : Type 0 where
  uid recurrence_id dtstart dtend summary status recurrence other : PropertyName

-- The `switch` on the name.
unfoldable pub property_of : Text → PropertyName
property_of name =
    if same_text name (codes "UID")
    then uid
    else if same_text name (codes "RECURRENCE-ID")
    then recurrence_id
    else if same_text name (codes "DTSTART")
    then dtstart
    else if same_text name (codes "DTEND")
    then dtend
    else if same_text name (codes "SUMMARY")
    then summary
    else if same_text name (codes "STATUS")
    then status
    else if same_text name (codes "RRULE") || same_text name (codes "RDATE")
    then recurrence
    else other

-- The text before the first `;`, or all of it.
abbrev pub before_parameters : Text → Option (Text × Text) → Text
before_parameters property none = property
before_parameters property (some (name, parameters)) = name

abbrev pub content_of : Option (Text × Text) → Text × Text
content_of none = ([], [])
content_of (some ([], value)) = ([], [])
content_of (some (c ∷ property, value)) =
    (to_upper_case (before_parameters (c ∷ property) (split_at_first 59 (c ∷ property))), value)

-- The name and the value of a line, `:` being 58 and `;` 59.
unfoldable pub split_content_line : Text → Text × Text
split_content_line line = content_of (split_at_first 58 line)

unfoldable pub number_from : ℕ → Text → ℕ
number_from n [] = n
number_from n (c ∷ s) = number_from (n * 10 + (c - 48)) s

abbrev pub number : Text → ℕ
number = number_from 0

abbrev pub read_compact : Text → Result CalendarParseError ℕ
read_compact compact = do
  require (length compact == 8 && all is_digit compact) no_date
  or_throw
      (real_date (number (take 4 compact)) (number (take 2 (drop 4 compact)))
        (number (drop 6 compact)))
      not_a_real_date

-- `parseCalendarDate`
unfoldable pub parse_calendar_date : Text → Result CalendarParseError ℕ
parse_calendar_date value = read_compact (take 8 (trim value))

-- `.replace(…, …)` of a backslash and a code unit that passes the test, by `put`. `held`: the code unit
-- before is a backslash that has not been written out.
unfoldable pub replace_escape : (ℕ → Bool) → ℕ → Bool → Text → Text
replace_escape hit put true [] = 92 ∷ []
replace_escape hit put false [] = []
replace_escape hit put held (c ∷ s) = elim (held && hit c) [
  | true ↦ put ∷ replace_escape hit put false s
  | false ↦
      let rest = replace_escape hit put (c == 92) s in
      let written = if c == 92 then rest else c ∷ rest in if held then 92 ∷ written else written
]

abbrev pub is_letter_n : ℕ → Bool
is_letter_n c = c == 110 || c == 78

unfoldable pub unescape_text : Text → Text
unescape_text value = trim (
    replace_escape (λ c. c == 92) 92 false
      (replace_escape (λ c. c == 59) 59 false
        (replace_escape (λ c. c == 44) 44 false (replace_escape is_letter_n 32 false value))))

-- `PendingEvent`
pub record PendingEvent : Type 0 where
  pub uid : Option Text
  pub recurrence_id : Option Text
  pub starts_on : Option ℕ
  pub ends_on : Option ℕ
  pub summary : Option Text
  pub status : Option Text
  pub recurring : Bool

abbrev pub new_event : PendingEvent
new_event = record {
  uid = none;
  recurrence_id = none;
  starts_on = none;
  ends_on = none;
  summary = none;
  status = none;
  recurring = false;
}

-- `value ?? ""`
abbrev pub or_empty : Option Text → Text
or_empty none = []
or_empty (some s) = s

abbrev pub both_dates : Option ℕ → Option ℕ → Option (ℕ × ℕ)
both_dates (some a) (some b) = some (a, b)
both_dates _ _ = none

abbrev pub key_of : Text → Text → Text
key_of external_uid instance_id =
    if is_empty instance_id then external_uid else external_uid ++ codes "::" ++ instance_id

abbrev pub summary_of : Text → Option Text
summary_of text = if is_empty text then none else some (take 300 text)

unfoldable pub complete_event : PendingEvent → Result CalendarParseError CalendarEvent
complete_event event = do
  throw_if event.recurring recurring_event
  let external_uid = unescape_text (or_empty event.uid)
  throw_if (is_empty external_uid) missing_uid
  throw_if (ltb 500 (length external_uid)) uid_too_long
  dates ← or_throw (both_dates event.starts_on event.ends_on) missing_dates
  throw_if (leb dates.1 dates.0) ends_before_start
  let event_key = key_of external_uid (unescape_text (or_empty event.recurrence_id))
  throw_if (ltb 500 (length event_key)) key_too_long
  ok (record {
    event_key = event_key;
    external_uid = external_uid;
    starts_on = dates.0;
    ends_on = dates.1;
    summary = summary_of (unescape_text (or_empty event.summary));
  })

abbrev pub is_cancelled : PendingEvent → Bool
is_cancelled event = same_text (to_upper_case (or_empty event.status)) (codes "CANCELLED")

-- `finishEvent`
unfoldable pub finish_event : PendingEvent → Result CalendarParseError (Option CalendarEvent)
finish_event event =
    if is_cancelled event
    then ok none
    else (complete_event event >>= λ completed. ok (some completed))

-- `events.set(key, event)` of a `Map`: an event with the key gives its place to the new one.
unfoldable pub set_event : CalendarEvent → List CalendarEvent → List CalendarEvent
set_event event [] = event ∷ []
set_event event (e ∷ events) =
    let rest = set_event event events in
    if same_text e.event_key event.event_key then event ∷ events else e ∷ rest

-- The variables of the loop.
pub record Parser : Type 0 where
  pub events : List CalendarEvent
  pub pending : Option PendingEvent

unfoldable pub add_event : Option CalendarEvent → Parser → Result CalendarParseError Parser
add_event none parser = ok (record parser { pending = none })
add_event (some event) parser = do
  let events = set_event event parser.events
  throw_if (ltb max_ical_events (length events)) too_many_events
  ok (record { events = events; pending = none })

unfoldable pub begin_event : Parser → Result CalendarParseError Parser
begin_event parser = elim parser.pending [
  | none ↦ ok (record parser { pending = some new_event })
  | some event ↦ err nested_event
]

unfoldable pub end_event : Parser → Result CalendarParseError Parser
end_event parser = elim parser.pending [
  | none ↦ err end_without_begin
  | some event ↦ finish_event event >>= λ completed. add_event completed parser
]

unfoldable pub set_property :
    PropertyName → Text → PendingEvent → Result CalendarParseError PendingEvent
set_property uid value event = ok (record event { uid = some value })
set_property recurrence_id value event = ok (record event { recurrence_id = some value })
set_property dtstart value event =
    parse_calendar_date value >>= λ date. ok (record event { starts_on = some date })
set_property dtend value event =
    parse_calendar_date value >>= λ date. ok (record event { ends_on = some date })
set_property summary value event = ok (record event { summary = some value })
set_property status value event = ok (record event { status = some value })
set_property recurrence value event = ok (record event { recurring = true })
set_property other value event = ok event

unfoldable pub read_property : Text → Parser → Result CalendarParseError Parser
read_property line parser = elim parser.pending [
  | none ↦ ok parser
  | some event ↦
      let (name, value) = split_content_line line in
      set_property (property_of name) value event >>= λ changed.
      ok (record parser { pending = some changed })
]

-- `line.trim().toUpperCase()`
abbrev pub marker_of : Text → Text
marker_of line = to_upper_case (trim line)

-- One round of the loop.
unfoldable pub parse_line : Text → Parser → Result CalendarParseError Parser
parse_line raw_line parser =
    let line = trim_end raw_line in
    let marker = marker_of line in
    if same_text marker (codes "BEGIN:VEVENT")
    then begin_event parser
    else if same_text marker (codes "END:VEVENT")
    then end_event parser
    else read_property line parser

unfoldable pub parse_lines : List Text → Parser → Result CalendarParseError Parser
parse_lines [] parser = ok parser
parse_lines (line ∷ lines) parser = parse_line line parser >>= parse_lines lines

abbrev pub has_no_event : Option PendingEvent → Bool
has_no_event none = true
has_no_event (some event) = false

abbrev pub is_calendar_start : Text → Bool
is_calendar_start line = same_text (marker_of line) (codes "BEGIN:VCALENDAR")

-- `locale a b`: `a.localeCompare(b) <= 0`, for keys.
abbrev pub sorts_before : (Text → Text → Bool) → CalendarEvent → CalendarEvent → Bool
sorts_before locale a b =
    if a.starts_on == b.starts_on
    then locale a.event_key b.event_key
    else ltb a.starts_on b.starts_on

unfoldable pub insert_event :
    (Text → Text → Bool) → CalendarEvent → List CalendarEvent → List CalendarEvent
insert_event locale event [] = event ∷ []
insert_event locale event (e ∷ events) =
    let rest = insert_event locale event events in
    if sorts_before locale event e then event ∷ e ∷ events else e ∷ rest

-- `sort` is stable.
unfoldable pub sort_events : (Text → Text → Bool) → List CalendarEvent → List CalendarEvent
sort_events locale [] = []
sort_events locale (event ∷ events) = insert_event locale event (sort_events locale events)

unfoldable pub parse_icalendar :
    (Text → Text → Bool) → Text → Result CalendarParseError (List CalendarEvent)
parse_icalendar locale source = do
  throw_if (ltb max_ical_bytes (byte_length source)) file_too_large
  let lines = unfold_lines source
  require (any is_calendar_start lines) not_a_calendar
  parser ← parse_lines lines (record { events = []; pending = none })
  require (has_no_event parser.pending) missing_end
  ok (sort_events locale parser.events)
