-- ===== src/Tests/Export.antt =====
-- Concrete runs of the calendar export and the parser.
use hostrepository.Base.{
  ℕ, Bool, ◌≤◌, ◌≡◌, refl, true, some, List, [], ◌∷◌, ◌++◌, map, filter, length, all, arith,
}
use hostrepository.Base.Text.{Text, codes, byte_length, byte_length_from, is_space}
use hostrepository.Base.Result.{ok}
use hostrepository.Calendar.Availability.{enumerate_dates, imported_block, set_block}
use hostrepository.Store.{Blocks}
use hostrepository.Calendar.Feeds.{CalendarEvent}
use hostrepository.Calendar.Dates.{iso_date, date_of, find_year, find_month, year_days, month_days}
use hostrepository.Calendar.Lines.{
  unfold_lines, write_lines, fold_all, fold_line, fold_rest, join_lines,
}
use hostrepository.Calendar.Lines.Folded.{is_short, unfold-write_lines}
use hostrepository.Calendar.Ical.{parse_icalendar}
use hostrepository.Calendar.Ical.Sound.{is_sound_event, parse_icalendar_sound}
use hostrepository.Calendar.Ical.Keys.{have_distinct_keys, are_sorted}
use hostrepository.Calendar.Sync.{imported_events}
use hostrepository.Calendar.Export.{
  DateRange, ExportRow, CalendarExport, build_calendar, generate_calendar_export, unavailable_dates,
  group_consecutive_dates, all_event_lines, escape_ical_text, escape_code, escape_newlines,
  generated_at, compact_date, sorted_dates, insert_date, group_from,
}
use hostrepository.Calendar.Export.Events.{exported_event}
use hostrepository.Calendar.Export.RoundTrip.{parse_icalendar-build_calendar}
use hostrepository.Calendar.Export.Nights.{event_nights, is_taken, generate_calendar_export_nights}
use hostrepository.Tests.Data.{env, db}

-- A line of 90 code units, which is folded.
abbrev long_line : Text
long_line =
    codes
      "X-NOTE:aaaaaaaaaaaaaaaaaaaaaaaaaaaaaaaaaaaaaaaaaaaaaaaaaaaaaaaaaaaaaaaaaaaaaaaaaaaaaaaaaaa"

unfold-write_lines_example :
    (all is_short (fold_all (long_line ∷ codes "END" ∷ [])) ≡ true)
    × (unfold_lines (write_lines (long_line ∷ codes "END" ∷ []))
        ≡ (long_line ∷ codes "END" ∷ []) ++ ([] ∷ []))
unfold-write_lines_example = unfold-write_lines (long_line ∷ codes "END" ∷ []) refl

abbrev by_key : Text → Text → Bool
by_key a b = true

-- Nights 20 and 21 and night 30 of the year 2027, counted from 739890.
abbrev ranges : List DateRange
ranges =
    record { starts_on = 740371; ends_on = 740373 }
    ∷ record { starts_on = 740380; ends_on = 740381 }
    ∷ []

made_size :
    byte_length (build_calendar 63871200000000 (codes "p-7") (codes "Sea, view") ranges) ≤ 2097152
unfolding byte_length byte_length_from build_calendar all_event_lines escape_ical_text escape_code
    escape_newlines generated_at compact_date iso_date date_of find_year find_month year_days
    month_days fold_all fold_line fold_rest join_lines
made_size = omega arith

parse_icalendar-build_calendar_example :
    parse_icalendar by_key (build_calendar 63871200000000 (codes "p-7") (codes "Sea, view") ranges)
    ≡ ok (map (exported_event (codes "p-7")) ranges)
unfolding build_calendar byte_length is_space
parse_icalendar-build_calendar_example =
    parse_icalendar-build_calendar by_key 63871200000000 (codes "p-7") (codes "Sea, view") ranges
      refl refl refl (omega arith) made_size

parse_icalendar_sound_example :
    (all is_sound_event (map (exported_event (codes "p-7")) ranges) ≡ true)
    × (have_distinct_keys (map (exported_event (codes "p-7")) ranges) ≡ true)
    × (are_sorted (map (exported_event (codes "p-7")) ranges) ≡ true)
    × (length (map (exported_event (codes "p-7")) ranges) ≤ 5000)
parse_icalendar_sound_example =
    parse_icalendar_sound by_key
      (build_calendar 63871200000000 (codes "p-7") (codes "Sea, view") ranges)
      parse_icalendar-build_calendar_example

abbrev token : Text
token = codes "0b1c"

abbrev exports : List ExportRow
exports = record { export_token = token; property_id = 7; property_name = codes "Sea, view" } ∷ []

abbrev blocks : Blocks
blocks = set_block (set_block db.blocks 7 20002 (some imported_block)) 7 20003 (some imported_block)

abbrev shown : ℕ → Text
shown p = codes "p-7"

abbrev export : CalendarExport
export = record {
  property_id = 7;
  property_name = codes "Sea, view";
  body =
      build_calendar env.now (codes "p-7") (codes "Sea, view")
        (group_consecutive_dates (unavailable_dates env 7 20010 blocks));
}

export_size : byte_length export.body ≤ 2097152
unfolding byte_length byte_length_from build_calendar all_event_lines escape_ical_text escape_code
    escape_newlines generated_at compact_date iso_date date_of find_year find_month year_days
    month_days fold_all fold_line fold_rest join_lines group_consecutive_dates sorted_dates
    insert_date group_from unavailable_dates
export_size = omega arith

generate_calendar_export_nights_example :
    (events : List CalendarEvent) × (parse_icalendar by_key export.body ≡ ok events)
    × (event_nights events
        ≡ filter (λ (d : ℕ). is_taken (blocks 7 d)) (enumerate_dates env.today 20010))
    × (imported_events events ≡ [])
unfolding generate_calendar_export unavailable_dates is_space
generate_calendar_export_nights_example =
    generate_calendar_export_nights by_key env 20010 shown exports blocks token export refl refl
      refl (omega arith) (omega arith) export_size
