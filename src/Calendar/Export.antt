-- ===== src/Calendar/Export.antt =====
-- lib/calendar/calendarExport.ts: the calendar of a property's unavailable nights.
pub mod Events
pub mod Ranges
pub mod Ordered
pub mod Escaped
pub mod Grouped
pub mod RoundTrip
pub mod Nights
use hostrepository.Base.{
  ℕ, zero, suc, ◌+◌, ◌-◌, ◌*◌, ◌/◌, ◌%◌, Bool, true, false, not, ◌&&◌, Option, none, some, List, [],
  ◌∷◌, ◌++◌, map, ◌==◌, ltb, leb, filter, find?, if◌then◌else◌,
}
use hostrepository.Base.Text.{Text, codes, same_text}
use hostrepository.Store.{Env, Block, Blocks, BlockStatus, available, blocked, booked}
use hostrepository.Calendar.Availability.{enumerate_dates}
use hostrepository.Calendar.Dates.{Date, date_of, iso_date, digits2, digits4}
use hostrepository.Calendar.Lines.{starts_with_code, write_lines}

pub record DateRange : Type 0 where
  pub starts_on : ℕ
  pub ends_on : ℕ

pub record CalendarExport : Type 0 where
  pub property_id : ℕ
  pub property_name : Text
  pub body : Text

-- `value.replace(/-/g, "")` of the text of a date.
unfoldable pub compact_date : ℕ → Text
compact_date n = filter (λ c. not (c == 45)) (iso_date n)

-- `.replace(/\r?\n/g, "\\n")`
unfoldable pub escape_newlines : Text → Text
escape_newlines [] = []
escape_newlines (c ∷ s) =
    let rest = escape_newlines s in
    if c == 10
    then codes "\\n" ++ rest
    else if c == 13 && starts_with_code 10 s
    then rest
    else c ∷ rest

-- `.replace(…, …)` of one code unit by itself with a backslash before it.
unfoldable pub escape_code : ℕ → Text → Text
escape_code code [] = []
escape_code code (c ∷ s) =
    let rest = escape_code code s in if c == code then 92 ∷ c ∷ rest else c ∷ rest

unfoldable pub escape_ical_text : Text → Text
escape_ical_text value = escape_code 59 (escape_code 44 (escape_newlines (escape_code 92 value)))

-- A date of `new Set(values)`, sorted.
unfoldable pub insert_date : ℕ → List ℕ → List ℕ
insert_date d [] = d ∷ []
insert_date d (e ∷ dates) =
    let rest = insert_date d dates in
    if d == e then e ∷ dates else if ltb d e then d ∷ e ∷ dates else e ∷ rest

unfoldable pub sorted_dates : List ℕ → List ℕ
sorted_dates [] = []
sorted_dates (d ∷ values) = insert_date d (sorted_dates values)

abbrev pub range_of : ℕ → ℕ → DateRange
range_of range_start previous = record { starts_on = range_start; ends_on = previous + 1 }

-- The loop over `dates.slice(1)`, and the range that is pushed after it.
unfoldable pub group_from : ℕ → ℕ → List ℕ → List DateRange
group_from range_start previous [] = range_of range_start previous ∷ []
group_from range_start previous (date ∷ dates) = elim (date == previous + 1) [
  | true ↦ group_from range_start date dates
  | false ↦ range_of range_start previous ∷ group_from date date dates
]

abbrev pub group_sorted : List ℕ → List DateRange
group_sorted [] = []
group_sorted (d ∷ dates) = group_from d d dates

unfoldable pub group_consecutive_dates : List ℕ → List DateRange
group_consecutive_dates values = group_sorted (sorted_dates values)

-- `new Date().toISOString()` without `-`, `:` and the milliseconds.
unfoldable pub generated_at : ℕ → Text
generated_at now =
    compact_date (now / 86400000)
    ++ (84 ∷ digits2 (now / 3600000 % 24))
    ++ digits2 (now / 60000 % 60)
    ++ digits2 (now / 1000 % 60)
    ++ (90 ∷ [])

abbrev pub exported_uid : Text → DateRange → Text
exported_uid property_id range =
    codes "host-"
    ++ (property_id
        ++ (45
            ∷ (iso_date range.starts_on
                ++ (45 ∷ (iso_date range.ends_on ++ codes "@hostcityliving.com")))))

-- The lines of one range.
abbrev pub event_lines : ℕ → Text → DateRange → List Text
event_lines now property_id range =
    codes "BEGIN:VEVENT"
    ∷ (codes "UID:" ++ exported_uid property_id range)
    ∷ (codes "DTSTAMP:" ++ generated_at now)
    ∷ (codes "DTSTART;VALUE=DATE:" ++ compact_date range.starts_on)
    ∷ (codes "DTEND;VALUE=DATE:" ++ compact_date range.ends_on)
    ∷ codes "STATUS:CONFIRMED"
    ∷ codes "TRANSP:OPAQUE"
    ∷ codes "SUMMARY:Unavailable"
    ∷ codes "END:VEVENT"
    ∷ []

unfoldable pub all_event_lines : ℕ → Text → List DateRange → List Text
all_event_lines now property_id [] = []
all_event_lines now property_id (range ∷ ranges) =
    event_lines now property_id range ++ all_event_lines now property_id ranges

abbrev pub calendar_lines : ℕ → Text → Text → List DateRange → List Text
calendar_lines now property_id property_name ranges =
    codes "BEGIN:VCALENDAR"
    ∷ codes "VERSION:2.0"
    ∷ codes "PRODID:-//HOST//Property Availability//EN"
    ∷ codes "CALSCALE:GREGORIAN"
    ∷ codes "METHOD:PUBLISH"
    ∷ (codes "X-WR-CALNAME:" ++ escape_ical_text (codes "HOST - " ++ property_name))
    ∷ (all_event_lines now property_id ranges ++ (codes "END:VCALENDAR" ∷ []))

unfoldable pub build_calendar : ℕ → Text → Text → List DateRange → Text
build_calendar now property_id property_name ranges =
    write_lines (calendar_lines now property_id property_name ranges)

-- A row of `property_calendar_exports` with the name of its property.
pub record ExportRow : Type 0 where
  pub export_token : Text
  pub property_id : ℕ
  pub property_name : Text

abbrev pub is_unavailable : Option Block → Bool
is_unavailable none = false
is_unavailable (some row) = elim row.status [ available ↦ false | blocked ↦ true | booked ↦ true ]

-- `date >= CURRENT_DATE AND status != 'available'`. The query has no upper end and the table of the
-- model is a function, so `horizon` is a day before which all its rows stand. A date that the driver
-- returns is its day number: `normalizeDate` reads it in UTC, as the server's clock does.
unfoldable pub unavailable_dates : Env → ℕ → ℕ → Blocks → List ℕ
unavailable_dates env p horizon blocks =
    filter (λ d. is_unavailable (blocks p d)) (enumerate_dates env.today horizon)

-- `generateCalendarExport`; `shown` is the text of a property's identifier.
unfoldable pub generate_calendar_export :
    Env → ℕ → (ℕ → Text) → List ExportRow → Blocks → Text → Option CalendarExport
generate_calendar_export env horizon shown exports blocks token =
    elim (find? (λ (row : ExportRow). same_text row.export_token token) exports) [
      | none ↦ none
      | some row ↦ some (record {
        property_id = row.property_id;
        property_name = row.property_name;
        body =
            build_calendar env.now (shown row.property_id) row.property_name
              (group_consecutive_dates (unavailable_dates env row.property_id horizon blocks));
      })
    ]
