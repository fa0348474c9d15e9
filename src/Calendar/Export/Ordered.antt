-- ===== src/Calendar/Export/Ordered.antt =====
-- parseICalendar over the lines of ranges in order: it adds an event for each, and sorts none away.
use hostrepository.Base.{
  ℕ, ◌+◌, ◌≤◌, ◌<◌, ◌≡◌, refl, sym, ap, ◌∙◌, all_first, all_rest, all-append, length-append,
  length-map, and_left, and_right, and_true, Bool, true, false, ◌&&◌, some, List, [], ◌∷◌, ◌++◌,
  map, ◌==◌, ltb, length, all, arith,
}
use mathlib.Core.List.{append_assoc, append-nil}
use hostrepository.Base.Text.{Text}
use hostrepository.Base.Result.{Result, ok, ◌>>=◌}
use hostrepository.Calendar.Feeds.{CalendarEvent}
use hostrepository.Calendar.Dates.{last_day}
use hostrepository.Calendar.Ical.{
  CalendarParseError, Parser, parse_lines, add_event, max_ical_events, insert_event, sort_events,
}
use hostrepository.Calendar.Export.{DateRange, all_event_lines, event_lines}
use hostrepository.Calendar.Export.Events.{exported_event}
use hostrepository.Calendar.Export.Ranges.{
  is_property_id, is_range, between, read_event, set_later_event,
}

abbrev pub is_before : DateRange → DateRange → Bool
is_before b a = ltb a.starts_on b.starts_on

-- Every range of `todo` starts after all of `done`.
abbrev pub all_after : List DateRange → List DateRange → Bool
all_after done = all (λ (r : DateRange). all (is_before r) done)

-- Ranges of at least one night, each starting after those before it.
abbrev pub are_ordered : List DateRange → Bool
are_ordered [] = true
are_ordered (r ∷ ranges) =
    is_range r && (all (λ (s : DateRange). is_before s r) ranges && are_ordered ranges)

module _ (r : DateRange) (ranges : List DateRange) (h : are_ordered (r ∷ ranges) ≡ true) where
  abbrev rest_ordered : Bool
  rest_ordered = all (λ (s : DateRange). is_before s r) ranges && are_ordered ranges

  pub ordered_first : is_range r ≡ true
  ordered_first = and_left (is_range r) rest_ordered h

  pub ordered_later : all (λ (s : DateRange). is_before s r) ranges ≡ true
  ordered_later =
      and_left (all (λ (s : DateRange). is_before s r) ranges) (are_ordered ranges)
        (and_right (is_range r) rest_ordered h)

  pub ordered_rest : are_ordered ranges ≡ true
  ordered_rest =
      and_right (all (λ (s : DateRange). is_before s r) ranges) (are_ordered ranges)
        (and_right (is_range r) rest_ordered h)

later_too :
    (r : DateRange) (done todo : List DateRange)
    → all_after done todo ≡ true
    → all (λ (s : DateRange). is_before s r) todo ≡ true
    → all_after (done ++ (r ∷ [])) todo ≡ true
later_too r done [] h k = refl
later_too r done (s ∷ todo) h k =
    let before = λ (t : DateRange). is_before t r in
    let after = λ (t : DateRange). all (is_before t) done in
    and_true
      (all-append (is_before s) done (r ∷ []) (all_first after s todo h)
        (and_true (all_first before s todo k) refl))
      (later_too r done todo (all_rest after s todo h) (all_rest before s todo k))

add_later_event :
    (property_id : Text) (done : List DateRange) (r : DateRange)
    → all (is_before r) done ≡ true
    → is_range r ≡ true
    → length done < 5000
    → add_event
        (some (exported_event property_id r))
        (between (map (exported_event property_id) done))
      ≡ ok (between (map (exported_event property_id) (done ++ (r ∷ []))))
unfolding add_event
add_later_event property_id done r later h few =
    let start : r.starts_on < last_day = ground arith in
    let events = map (exported_event property_id) (done ++ (r ∷ [])) in
    let size : ltb max_ical_events (length events) ≡ false = ground (
      arith,
      length-map (exported_event property_id) (done ++ (r ∷ [])),
      length-append done (r ∷ []),
    ) in
    rw (set_later_event property_id done r later start) (rw size refl)

module _ (now : ℕ) (property_id : Text) (named : is_property_id property_id ≡ true) where
  abbrev pub after_ranges : List DateRange → Parser
  after_ranges ranges = between (map (exported_event property_id) ranges)

  pub read_ranges :
      (done todo : List DateRange) (rest : List Text)
      → all_after done todo ≡ true
      → are_ordered todo ≡ true
      → length done + length todo ≤ 5000
      → parse_lines (all_event_lines now property_id todo ++ rest) (after_ranges done)
        ≡ parse_lines rest (after_ranges (done ++ todo))
  unfolding all_event_lines
  read_ranges done [] rest later order few =
      ap (λ (ranges : List DateRange). parse_lines rest (after_ranges ranges))
        (sym (append-nil done))
  read_ranges done (r ∷ todo) rest later order few =
      let after = λ (s : DateRange). all (is_before s) done in
      let here = ordered_first r todo order in
      let next = all_event_lines now property_id todo ++ rest in
      let add =
        add_later_event property_id done r (all_first after r todo later) here (omega arith) in
      ap (λ (lines : List Text). parse_lines lines (after_ranges done))
        (append_assoc (event_lines now property_id r) (all_event_lines now property_id todo) rest)
      ∙ read_event now property_id r (map (exported_event property_id) done) next named here
      ∙ ap (λ (added : Result CalendarParseError Parser). added >>= parse_lines next) add
      ∙ read_ranges (done ++ (r ∷ [])) todo rest
          (later_too r done todo (all_rest after r todo later) (ordered_later r todo order))
          (ordered_rest r todo order) (omega (arith, length-append done (r ∷ [])))
      ∙ ap (λ (ranges : List DateRange). parse_lines rest (after_ranges ranges))
          (append_assoc done (r ∷ []) todo)

pub all_after_nothing : (ranges : List DateRange) → all_after [] ranges ≡ true
all_after_nothing [] = refl
all_after_nothing (r ∷ ranges) = all_after_nothing ranges

insert_before :
    (locale : Text → Text → Bool) (a b : CalendarEvent) (events : List CalendarEvent)
    → ltb a.starts_on b.starts_on ≡ true
    → insert_event locale a (b ∷ events) ≡ a ∷ b ∷ events
unfolding insert_event
insert_before locale a b events h =
    let other : (a.starts_on == b.starts_on) ≡ false = ground arith in rw other (rw h refl)

-- Sorting leaves events alone that start one after the other.
pub sort_exported :
    (locale : Text → Text → Bool) (property_id : Text) (ranges : List DateRange)
    → are_ordered ranges ≡ true
    → sort_events locale (map (exported_event property_id) ranges)
      ≡ map (exported_event property_id) ranges
unfolding sort_events
sort_exported locale property_id [] h = refl
sort_exported locale property_id (r ∷ []) h = unfold insert_event in refl
sort_exported locale property_id (r ∷ s ∷ ranges) h =
    let event = exported_event property_id in
    ap (insert_event locale (event r))
      (sort_exported locale property_id (s ∷ ranges) (ordered_rest r (s ∷ ranges) h))
    ∙ insert_before locale (event r) (event s) (map event ranges)
        (all_first (λ (t : DateRange). is_before t r) s ranges (ordered_later r (s ∷ ranges) h))
