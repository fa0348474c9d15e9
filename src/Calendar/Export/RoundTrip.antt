-- ===== src/Calendar/Export/RoundTrip.antt =====
-- The exported calendar, read by parseICalendar.
use hostrepository.Base.{
  ℕ, ◌≤◌, ◌≡◌, refl, ap, ◌∙◌, all_first, all_rest, all-append, and_true, Bool, true, false, List,
  [], ◌∷◌, ◌++◌, map, ltb, length, all, any, arith,
}
use mathlib.Core.List.{append_assoc}
use hostrepository.Base.Text.{Text, codes, is_space, byte_length}
use hostrepository.Base.Text.Trimmed.{is_solid, is_solid_text}
use hostrepository.Base.Result.{ok}
use hostrepository.Calendar.Feeds.{CalendarEvent}
use hostrepository.Calendar.Ical.{
  parse_line, parse_lines, max_ical_bytes, read_property, parse_icalendar, is_calendar_start,
}
use hostrepository.Calendar.Export.{
  DateRange, escape_ical_text, generated_at, compact_date, exported_uid, all_event_lines,
  calendar_lines, build_calendar, event_lines,
}
use hostrepository.Calendar.Ical.Printed.{compact_date-is_solid}
use hostrepository.Calendar.Lines.{unfold_lines}
use hostrepository.Calendar.Lines.Folded.{is_inline, is_line, are_lines, unfold-write_lines}
use hostrepository.Calendar.Export.Events.{exported_event, plain_solid}
use hostrepository.Calendar.Export.Escaped.{no_return, escape_ical_text-is_inline}
use hostrepository.Calendar.Export.Ordered.{
  are_ordered, read_ranges, sort_exported, all_after_nothing,
}
use hostrepository.Calendar.Export.Ranges.{
  generated_at-is_solid, exported_uid-is_plain, is_property_id, between,
}

-- The lines before the first event, and those after the last, say nothing.
skip_header :
    (name : Text) (rest : List Text)
    → parse_lines
        (codes "BEGIN:VCALENDAR"
          ∷ codes "VERSION:2.0"
          ∷ codes "PRODID:-//HOST//Property Availability//EN"
          ∷ codes "CALSCALE:GREGORIAN"
          ∷ codes "METHOD:PUBLISH"
          ∷ (codes "X-WR-CALNAME:" ++ name)
          ∷ rest)
        (between [])
      ≡ parse_lines rest (between [])
unfolding parse_lines parse_line read_property is_space
skip_header name rest = refl

skip_footer :
    (events : List CalendarEvent)
    → parse_lines (codes "END:VCALENDAR" ∷ [] ∷ []) (between events) ≡ ok (between events)
unfolding parse_lines parse_line read_property is_space
skip_footer events = refl

solid_code : (c : ℕ) → is_solid c ≡ true → is_inline c ≡ true
unfolding is_space
solid_code c h = ground arith

solid_inline : (s : Text) → is_solid_text s ≡ true → all is_inline s ≡ true
solid_inline [] h = refl
solid_inline (c ∷ s) h =
    and_true (solid_code c (all_first is_solid c s h)) (solid_inline s (all_rest is_solid c s h))

module _ (now : ℕ) (property_id : Text) (named : is_property_id property_id ≡ true) where
  event_lines-are_lines : (r : DateRange) → are_lines (event_lines now property_id r) ≡ true
  event_lines-are_lines r =
      let uid : is_line (codes "UID:" ++ exported_uid property_id r) ≡ true =
        and_true
          (solid_inline (exported_uid property_id r)
            (plain_solid (exported_uid property_id r) (exported_uid-is_plain property_id named r)))
          refl in
      let stamp : is_line (codes "DTSTAMP:" ++ generated_at now) ≡ true =
        and_true (solid_inline (generated_at now) (generated_at-is_solid now)) refl in
      let start : is_line (codes "DTSTART;VALUE=DATE:" ++ compact_date r.starts_on) ≡ true =
        and_true (solid_inline (compact_date r.starts_on) (compact_date-is_solid r.starts_on))
          refl in
      let end : is_line (codes "DTEND;VALUE=DATE:" ++ compact_date r.ends_on) ≡ true =
        and_true (solid_inline (compact_date r.ends_on) (compact_date-is_solid r.ends_on)) refl in
      and_true uid (and_true stamp (and_true start (and_true end refl)))

  all_event_lines-are_lines :
      (ranges : List DateRange) → are_lines (all_event_lines now property_id ranges) ≡ true
  unfolding all_event_lines
  all_event_lines-are_lines [] = refl
  all_event_lines-are_lines (r ∷ ranges) =
      all-append is_line (event_lines now property_id r) (all_event_lines now property_id ranges)
        (event_lines-are_lines r) (all_event_lines-are_lines ranges)

  calendar_lines-are_lines :
      (property_name : Text) (ranges : List DateRange)
      → all no_return property_name ≡ true
      → are_lines (calendar_lines now property_id property_name ranges) ≡ true
  calendar_lines-are_lines property_name ranges h =
      and_true (and_true (escape_ical_text-is_inline (codes "HOST - " ++ property_name) h) refl) (
        all-append is_line (all_event_lines now property_id ranges) (codes "END:VCALENDAR" ∷ [])
          (all_event_lines-are_lines ranges) refl)

-- An exported calendar of at most 5000 ranges and 2 MB, read by parseICalendar, gives the event of
-- each range, in order.
pub parse_icalendar-build_calendar :
    (locale : Text → Text → Bool) (now : ℕ) (property_id property_name : Text)
    (ranges : List DateRange)
    → is_property_id property_id ≡ true
    → all no_return property_name ≡ true
    → are_ordered ranges ≡ true
    → length ranges ≤ 5000
    → byte_length (build_calendar now property_id property_name ranges) ≤ max_ical_bytes
    → parse_icalendar locale (build_calendar now property_id property_name ranges)
      ≡ ok (map (exported_event property_id) ranges)
unfolding parse_icalendar
parse_icalendar-build_calendar locale now property_id property_name ranges named titled ordered few
      small =
    let source = build_calendar now property_id property_name ranges in
    let lines = calendar_lines now property_id property_name ranges in
    let events = map (exported_event property_id) ranges in
    let name = escape_ical_text (codes "HOST - " ++ property_name) in
    let footer = codes "END:VCALENDAR" ∷ [] ∷ [] in
    let size : ltb max_ical_bytes (byte_length source) ≡ false = ground arith in
    let unfolded : unfold_lines source ≡ lines ++ ([] ∷ []) =
      unfold build_calendar in
      (unfold-write_lines lines
        (calendar_lines-are_lines now property_id named property_name ranges titled)).1 in
    let start : any is_calendar_start (lines ++ ([] ∷ [])) ≡ true = unfold is_space in refl in
    let parsed : parse_lines (lines ++ ([] ∷ [])) (between []) ≡ ok (between events) =
      skip_header name
        (all_event_lines now property_id ranges ++ (codes "END:VCALENDAR" ∷ []) ++ ([] ∷ []))
      ∙ ap (λ (rest : List Text). parse_lines rest (between []))
          (append_assoc (all_event_lines now property_id ranges) (codes "END:VCALENDAR" ∷ [])
            ([] ∷ []))
      ∙ read_ranges now property_id named [] ranges footer (all_after_nothing ranges) ordered
          (omega arith)
      ∙ skip_footer events in
    rw size
      (rw unfolded (rw start (rw parsed (ap ok (sort_exported locale property_id ranges ordered)))))
