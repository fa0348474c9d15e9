-- ===== src/Calendar/Ical/Sound.antt =====
-- Whatever file parseICalendar accepts: what its events satisfy.
use hostrepository.Base.{
  ℕ, ◌≤◌, ◌≡◌, refl, sym, ap, ◌∙◌, subst, and_true, Bool, true, false, not, ◌&&◌, Option, none,
  some, List, [], ◌∷◌, ltb, leb, length, all, any, arith, Bool-cases, inl, inr,
}
use hostrepository.Base.Text.{Text, byte_length, codes, is_empty, trim_end, same_text}
use hostrepository.Base.Result.{
  ok, ◌>>=◌, >>=-eq-ok, throw_if-eq-ok, ok_eq, throw_if, require, or_throw,
}
use hostrepository.Calendar.Feeds.{CalendarEvent}
use hostrepository.Calendar.Lines.{unfold_lines}
use hostrepository.Calendar.Ical.Keys.{
  have_distinct_keys, are_sorted, not-false, all-set_event, have_distinct_keys-set_event,
  all-sort_events, have_distinct_keys-sort_events, length-sort_events, sort_events-are_sorted,
}
use hostrepository.Calendar.Ical.{
  Parser, PendingEvent, missing_uid, uid_too_long, missing_dates, ends_before_start, key_too_long,
  recurring_event, complete_event, finish_event, is_cancelled, set_event, add_event, begin_event,
  end_event, read_property, set_property, property_of, split_content_line, parse_line, parse_lines,
  marker_of, parse_icalendar, unescape_text, or_empty, both_dates, key_of, max_ical_events,
  max_ical_bytes, has_no_event, is_calendar_start, file_too_large, not_a_calendar, missing_end,
  too_many_events,
}

-- The limits of an event.
abbrev pub is_sound_event : CalendarEvent → Bool
is_sound_event event =
    (not (is_empty event.external_uid) && leb (length event.external_uid) 500)
    && (leb (length event.event_key) 500 && ltb event.starts_on event.ends_on)

leb_of_not_ltb : (a b : ℕ) → ltb b a ≡ false → leb a b ≡ true
leb_of_not_ltb a b h = ground arith

ltb_of_not_leb : (a b : ℕ) → leb b a ≡ false → ltb a b ≡ true
ltb_of_not_leb a b h = ground arith

complete_event-is_sound :
    (event : PendingEvent) {completed : CalendarEvent}
    → complete_event event ≡ ok completed
    → is_sound_event completed ≡ true
unfolding complete_event
complete_event-is_sound event {completed} h =
    let uid = unescape_text (or_empty event.uid) in
    let (u0, single, h0) = >>=-eq-ok (throw_if event.recurring recurring_event) _ h in
    let (u1, named, h1) = >>=-eq-ok (throw_if (is_empty uid) missing_uid) _ h0 in
    let (u2, short, h2) = >>=-eq-ok (throw_if (ltb 500 (length uid)) uid_too_long) _ h1 in
    let (dates, dated, h3) =
      >>=-eq-ok (or_throw (both_dates event.starts_on event.ends_on) missing_dates) _ h2 in
    let (u4, order, h4) = >>=-eq-ok (throw_if (leb dates.1 dates.0) ends_before_start) _ h3 in
    let key = key_of uid (unescape_text (or_empty event.recurrence_id)) in
    let (u5, short_key, h5) = >>=-eq-ok (throw_if (ltb 500 (length key)) key_too_long) _ h4 in
    subst (λ (e : CalendarEvent). is_sound_event e ≡ true) (ok_eq h5)
      (and_true
        (and_true (not-false (is_empty uid) (throw_if-eq-ok (is_empty uid) missing_uid named)) (
          leb_of_not_ltb (length uid) 500
            (throw_if-eq-ok (ltb 500 (length uid)) uid_too_long short)))
        (and_true
          (leb_of_not_ltb (length key) 500
            (throw_if-eq-ok (ltb 500 (length key)) key_too_long short_key))
          (ltb_of_not_leb dates.0 dates.1
            (throw_if-eq-ok (leb dates.1 dates.0) ends_before_start order))))

-- What the parser has collected.
abbrev pub IsSound : List CalendarEvent → Type 0
IsSound events =
    (all is_sound_event events ≡ true) × (have_distinct_keys events ≡ true) × (length events ≤ 5000)

add_event-IsSound :
    (completed : Option CalendarEvent) (parser : Parser) {next : Parser}
    → ((event : CalendarEvent) → completed ≡ some event → is_sound_event event ≡ true)
    → IsSound parser.events
    → add_event completed parser ≡ ok next
    → IsSound next.events
unfolding add_event
add_event-IsSound none parser sound h e = subst (λ (p : Parser). IsSound p.events) (ok_eq e) h
add_event-IsSound (some event) parser sound h e =
    let events = set_event event parser.events in
    let (u, few, done) =
      >>=-eq-ok (throw_if (ltb max_ical_events (length events)) too_many_events) _ e in
    let few' = throw_if-eq-ok (ltb max_ical_events (length events)) too_many_events few in
    subst (λ (p : Parser). IsSound p.events) (ok_eq done)
      (
        all-set_event is_sound_event event parser.events (sound event refl) h.0,
        have_distinct_keys-set_event event parser.events h.1,
        ground arith,
      )

finish_cancelled : (event : PendingEvent) → is_cancelled event ≡ true → finish_event event ≡ ok none
unfolding finish_event
finish_cancelled event h = rw h refl

finish_kept :
    (event : PendingEvent)
    → is_cancelled event ≡ false
    → finish_event event ≡ (complete_event event >>= λ completed. ok (some completed))
unfolding finish_event
finish_kept event h = rw h refl

finish_event-is_sound :
    (event : PendingEvent) {completed : Option CalendarEvent}
    → finish_event event ≡ ok completed
    → (e : CalendarEvent) → completed ≡ some e
    → is_sound_event e ≡ true
finish_event-is_sound event {completed} h e made = elim (Bool-cases (is_cancelled event)) [
  | inl cancelled ↦
      let gone : none ≡ completed = ok_eq (sym (finish_cancelled event cancelled) ∙ h) in
      absurd (ground arith)
  | inr kept ↦
      let (done, sound, last) =
        >>=-eq-ok (complete_event event) _ (sym (finish_kept event kept) ∙ h) in
      let same : some done ≡ completed = ok_eq last in
      let this : done ≡ e = ground arith in
      subst (λ (x : CalendarEvent). is_sound_event x ≡ true) this
        (complete_event-is_sound event sound)
]

abbrev at : List CalendarEvent → Option PendingEvent → Parser
at events pending = record { events = events; pending = pending }

begin_event-events :
    (events : List CalendarEvent) (pending : Option PendingEvent) {next : Parser}
    → begin_event (at events pending) ≡ ok next
    → events ≡ next.events
unfolding begin_event
begin_event-events events none h = ap (λ (p : Parser). p.events) (ok_eq h)
begin_event-events events (some event) h = cc

read_property-events :
    (line : Text) (events : List CalendarEvent) (pending : Option PendingEvent) {next : Parser}
    → read_property line (at events pending) ≡ ok next
    → events ≡ next.events
unfolding read_property
read_property-events line events none h = ap (λ (p : Parser). p.events) (ok_eq h)
read_property-events line events (some event) h =
    let content = split_content_line line in
    let (changed, set, done) =
      >>=-eq-ok (set_property (property_of content.0) content.1 event) _ h in
    ap (λ (p : Parser). p.events) (ok_eq done)

end_event-IsSound :
    (events : List CalendarEvent) (pending : Option PendingEvent) {next : Parser}
    → IsSound events
    → end_event (at events pending) ≡ ok next
    → IsSound next.events
unfolding end_event
end_event-IsSound events none sound h = cc
end_event-IsSound events (some event) sound h =
    let (completed, finished, added) = >>=-eq-ok (finish_event event) _ h in
    add_event-IsSound completed (at events (some event)) (finish_event-is_sound event finished)
      sound added

parse_line-IsSound :
    (line : Text) (parser : Parser) {next : Parser}
    → IsSound parser.events
    → parse_line line parser ≡ ok next
    → IsSound next.events
unfolding parse_line
parse_line-IsSound raw_line parser sound h =
    let line = trim_end raw_line in
    elim (Bool-cases (same_text (marker_of line) (codes "BEGIN:VEVENT"))) [
      | inl begins ↦
          subst IsSound (begin_event-events parser.events parser.pending (rw begins at h)) sound
      | inr goes ↦ elim (Bool-cases (same_text (marker_of line) (codes "END:VEVENT"))) [
        | inl ends ↦ end_event-IsSound parser.events parser.pending sound (rw (goes, ends) at h)
        | inr inside ↦
            subst IsSound
              (read_property-events line parser.events parser.pending (rw (goes, inside) at h))
              sound
      ]
    ]

parse_lines-IsSound :
    (lines : List Text) (parser : Parser) {last : Parser}
    → IsSound parser.events
    → parse_lines lines parser ≡ ok last
    → IsSound last.events
unfolding parse_lines
parse_lines-IsSound [] parser sound h = subst (λ (p : Parser). IsSound p.events) (ok_eq h) sound
parse_lines-IsSound (line ∷ lines) parser sound h =
    let (next, here, rest) = >>=-eq-ok (parse_line line parser) _ h in
    parse_lines-IsSound lines next (parse_line-IsSound line parser sound here) rest

-- Whatever text parseICalendar accepts: each event has a UID of 1 to 500 code units, a key of at most
-- 500 and at least one night, no two events have one key, they come in the order of their first days,
-- and there are at most 5000.
pub parse_icalendar_sound :
    (locale : Text → Text → Bool) (source : Text) {events : List CalendarEvent}
    → parse_icalendar locale source ≡ ok events
    → (all is_sound_event events ≡ true)
      × (have_distinct_keys events ≡ true)
      × (are_sorted events ≡ true)
      × (length events ≤ 5000)
unfolding parse_icalendar
parse_icalendar_sound locale source {events} h =
    let lines = unfold_lines source in
    let (u0, small, h0) =
      >>=-eq-ok (throw_if (ltb max_ical_bytes (byte_length source)) file_too_large) _ h in
    let (u1, start, h1) = >>=-eq-ok (require (any is_calendar_start lines) not_a_calendar) _ h0 in
    let (parser, parsed, h2) = >>=-eq-ok (parse_lines lines (at [] none)) _ h1 in
    let (u3, closed, h3) = >>=-eq-ok (require (has_no_event parser.pending) missing_end) _ h2 in
    let (sound, distinct, few) =
      parse_lines-IsSound lines (at [] none) (refl, refl, omega arith) parsed in
    subst
      (λ (es : List CalendarEvent).
        (all is_sound_event es ≡ true)
        × (have_distinct_keys es ≡ true)
        × (are_sorted es ≡ true)
        × (length es ≤ 5000))
      (ok_eq h3)
      (
        all-sort_events locale is_sound_event parser.events sound,
        have_distinct_keys-sort_events locale parser.events distinct,
        sort_events-are_sorted locale parser.events,
        omega (arith, length-sort_events locale parser.events),
      )
