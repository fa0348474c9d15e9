-- ===== src/Calendar/Export/Nights.antt =====
-- What reading an export gives: the nights that the property is unavailable, and nothing to import.
use hostrepository.Base.{
  ℕ, ◌-◌, ◌≤◌, ◌<◌, ◌≡◌, refl, sym, ap, subst, ◌∙◌, or-true, Bool, true, false, Option, none, some,
  List, [], ◌∷◌, ◌++◌, map, filter, ltb, length, all, find?, arith, Bool-cases, Option-cases, inl,
  inr,
}
use hostrepository.Base.Text.{Text, codes, to_lower_case, same_text, ends_with, byte_length}
use hostrepository.Base.Text.Trimmed.{trim_solid}
use hostrepository.Base.Result.{ok}
use hostrepository.Store.{Env, Block, Blocks, available, blocked, booked}
use hostrepository.Calendar.Availability.{enumerate_dates}
use hostrepository.Calendar.Dates.{last_day, iso_date}
use hostrepository.Calendar.Feeds.{CalendarEvent}
use hostrepository.Calendar.Ical.{max_ical_bytes, parse_icalendar}
use hostrepository.Calendar.Sync.{is_host_calendar_event, imported_events}
use hostrepository.Calendar.Export.{
  DateRange, ExportRow, CalendarExport, build_calendar, exported_uid, group_consecutive_dates,
  is_unavailable, unavailable_dates, generate_calendar_export,
}
use hostrepository.Calendar.Export.Events.{exported_event, plain_solid}
use hostrepository.Calendar.Export.Ranges.{is_property_id, exported_uid-is_plain}
use hostrepository.Calendar.Export.Escaped.{no_return}
use hostrepository.Calendar.Export.Grouped.{
  are_dates, nights_of, dates_from-are_dates, filter-are_dates, group_consecutive_dates_lem,
}
use hostrepository.Calendar.Export.RoundTrip.{parse_icalendar-build_calendar}

-- The nights of events, one after the other.
unfoldable pub event_nights : List CalendarEvent → List ℕ
event_nights [] = []
event_nights (e ∷ events) = enumerate_dates e.starts_on e.ends_on ++ event_nights events

event_nights-map :
    (property_id : Text) (ranges : List DateRange)
    → event_nights (map (exported_event property_id) ranges) ≡ nights_of ranges
unfolding event_nights nights_of
event_nights-map property_id [] = refl
event_nights-map property_id (r ∷ ranges) =
    ap (λ (ds : List ℕ). enumerate_dates r.starts_on r.ends_on ++ ds)
      (event_nights-map property_id ranges)

ends_with_more :
    (s t suffix : Text)
    → ends_with (to_lower_case t) suffix ≡ true
    → ends_with (to_lower_case (s ++ t)) suffix ≡ true
ends_with_more [] t suffix h = h
ends_with_more (c ∷ s) t suffix h = rw (ends_with_more s t suffix h) (or-true _)

exported-is_host :
    (property_id : Text) (r : DateRange)
    → is_property_id property_id ≡ true
    → is_host_calendar_event (exported_event property_id r) ≡ true
unfolding is_host_calendar_event
exported-is_host property_id r named =
    let suffix = codes "@hostcityliving.com" in
    let uid = exported_uid property_id r in
    let last = ends_with_more (iso_date r.ends_on) suffix suffix refl in
    let after_start = 45 ∷ (iso_date r.ends_on ++ suffix) in
    let middle =
      ends_with_more (iso_date r.starts_on) after_start suffix
        (ends_with_more (45 ∷ []) (iso_date r.ends_on ++ suffix) suffix last) in
    let after_id = 45 ∷ (iso_date r.starts_on ++ after_start) in
    let whole =
      ends_with_more property_id after_id suffix
        (ends_with_more (45 ∷ []) (iso_date r.starts_on ++ after_start) suffix middle) in
    rw (trim_solid uid (plain_solid uid (exported_uid-is_plain property_id named r)))
      (ends_with_more (codes "host-") (property_id ++ after_id) suffix whole)

nothing_imported :
    (property_id : Text) (ranges : List DateRange)
    → is_property_id property_id ≡ true
    → imported_events (map (exported_event property_id) ranges) ≡ []
nothing_imported property_id [] named = refl
nothing_imported property_id (r ∷ ranges) named =
    rw (exported-is_host property_id r named) (nothing_imported property_id ranges named)

abbrev export_of : Env → ℕ → (ℕ → Text) → Blocks → ExportRow → CalendarExport
export_of env horizon shown blocks row = record {
  property_id = row.property_id;
  property_name = row.property_name;
  body =
      build_calendar env.now (shown row.property_id) row.property_name
        (group_consecutive_dates (unavailable_dates env row.property_id horizon blocks));
}

generated_from :
    (env : Env) (horizon : ℕ) (shown : ℕ → Text) (exports : List ExportRow) (blocks : Blocks)
    (token : Text) (row : ExportRow)
    → find? (λ (row : ExportRow). same_text row.export_token token) exports ≡ some row
    → generate_calendar_export env horizon shown exports blocks token
      ≡ some (export_of env horizon shown blocks row)
unfolding generate_calendar_export
generated_from env horizon shown exports blocks token row e = rw (e, generate_calendar_export) refl

generated_of :
    (env : Env) (horizon : ℕ) (shown : ℕ → Text) (exports : List ExportRow) (blocks : Blocks)
    (token : Text) {export : CalendarExport}
    → generate_calendar_export env horizon shown exports blocks token ≡ some export
    → (row : ExportRow) × (export ≡ export_of env horizon shown blocks row)
unfolding generate_calendar_export
generated_of env horizon shown exports blocks token h =
    elim (Option-cases (find? (λ (row : ExportRow). same_text row.export_token token) exports)) [
      | inl e ↦ absurd (ground arith)
      | inr (row, e) ↦
          let made = generated_from env horizon shown exports blocks token row e in (row, cc)
    ]

unavailable-are_dates :
    (env : Env) (p horizon : ℕ) (blocks : Blocks)
    → horizon < last_day
    → are_dates last_day env.today (unavailable_dates env p horizon blocks) ≡ true
unfolding unavailable_dates
unavailable-are_dates env p horizon blocks h = elim (Bool-cases (ltb env.today horizon)) [
  | inl before ↦
      filter-are_dates (λ d. is_unavailable (blocks p d)) last_day env.today
        (enumerate_dates env.today horizon)
        (dates_from-are_dates last_day env.today (horizon - env.today) (ground arith))
  | inr after ↦ let nothing : horizon - env.today ≡ 0 = ground arith in rw nothing refl
]

-- A row that keeps a night from being sold.
abbrev pub is_taken : Option Block → Bool
is_taken none = false
is_taken (some row) = elim row.status [ available ↦ false | blocked ↦ true | booked ↦ true ]

unavailable_dates_lem :
    (env : Env) (p horizon : ℕ) (blocks : Blocks)
    → unavailable_dates env p horizon blocks
      ≡ filter (λ (d : ℕ). is_taken (blocks p d)) (enumerate_dates env.today horizon)
unfolding unavailable_dates
unavailable_dates_lem env p horizon blocks = refl

-- The calendar that an export token gives, read by parseICalendar: its nights are those from today on
-- which a row blocks or books, each once and in order, and a synchronisation would import none of its
-- events. The property's identifier has neither white space nor backslashes and at most 454 code
-- units, its name no carriage return, and the table no row from 31 December 9999 on; at most 5000 nights
-- are unavailable and the file has at most 2 MB.
pub generate_calendar_export_nights :
    (locale : Text → Text → Bool) (env : Env) (horizon : ℕ) (shown : ℕ → Text)
    (exports : List ExportRow) (blocks : Blocks) (token : Text) (export : CalendarExport)
    → generate_calendar_export env horizon shown exports blocks token ≡ some export
    → is_property_id (shown export.property_id) ≡ true
    → all no_return export.property_name ≡ true
    → horizon < last_day
    → length (unavailable_dates env export.property_id horizon blocks) ≤ 5000
    → byte_length export.body ≤ max_ical_bytes
    → (events : List CalendarEvent) × (parse_icalendar locale export.body ≡ ok events)
      × (event_nights events
          ≡ filter
              (λ (d : ℕ). is_taken (blocks export.property_id d))
              (enumerate_dates env.today horizon))
      × (imported_events events ≡ [])
generate_calendar_export_nights locale env horizon shown exports blocks token export h named titled
      ends few small =
    let (row, e) = generated_of env horizon shown exports blocks token h in
    let p = export.property_id in
    let ranges = group_consecutive_dates (unavailable_dates env p horizon blocks) in
    let (ordered, nights, fewer) =
      group_consecutive_dates_lem env.today (unavailable_dates env p horizon blocks)
        (unavailable-are_dates env p horizon blocks ends) in
    let body : export.body ≡ build_calendar env.now (shown p) export.property_name ranges =
      subst
        (λ (x : CalendarExport).
          x.body
          ≡ build_calendar env.now (shown x.property_id) x.property_name
              (group_consecutive_dates (unavailable_dates env x.property_id horizon blocks)))
        (sym e) refl in
    (
      map (exported_event (shown p)) ranges,
      rw body (
          parse_icalendar-build_calendar locale env.now (shown p) export.property_name ranges named
            titled ordered (omega arith)
            (subst (λ (t : Text). byte_length t ≤ max_ical_bytes) body small)),
      event_nights-map (shown p) ranges ∙ nights ∙ unavailable_dates_lem env p horizon blocks,
      nothing_imported (shown p) ranges named,
    )
