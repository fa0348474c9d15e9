-- ===== src/Calendar/Ical/Keys.antt =====
-- Putting an event into the parser's map, and sorting its values: what they keep.
use hostrepository.Base.{
  suc, ◌≡◌, refl, ap, ◌∙◌, subst, and_left, and_right, and_true, not-true, all_first, all_rest,
  Bool, true, false, not, ◌&&◌, List, [], ◌∷◌, leb, length, all, arith, Bool-cases, inl, inr,
}
use hostrepository.Base.Text.{Text, same_text}
use hostrepository.Base.Text.Trimmed.{same_text_eq, same_text_sym}
use hostrepository.Calendar.Feeds.{CalendarEvent}
use hostrepository.Calendar.Ical.{set_event, sorts_before, insert_event, sort_events}

abbrev pub has_other_key : CalendarEvent → CalendarEvent → Bool
has_other_key event e = not (same_text e.event_key event.event_key)

abbrev pub have_distinct_keys : List CalendarEvent → Bool
have_distinct_keys [] = true
have_distinct_keys (event ∷ events) = all (has_other_key event) events && have_distinct_keys events

abbrev pub starts_before : CalendarEvent → CalendarEvent → Bool
starts_before event e = leb event.starts_on e.starts_on

abbrev pub are_sorted : List CalendarEvent → Bool
are_sorted [] = true
are_sorted (event ∷ events) = all (starts_before event) events && are_sorted events

pub not-false : (b : Bool) → b ≡ false → not b ≡ true
not-false true h = cc
not-false false h = refl

pub all-set_event :
    (p : CalendarEvent → Bool) (event : CalendarEvent) (events : List CalendarEvent)
    → p event ≡ true
    → all p events ≡ true
    → all p (set_event event events) ≡ true
unfolding set_event
all-set_event p event [] k h = and_true k refl
all-set_event p event (e ∷ events) k h =
    let first = all_first p e events h in
    let rest = all_rest p e events h in
    elim (Bool-cases (same_text e.event_key event.event_key)) [
      | inl same ↦ rw same (and_true k rest)
      | inr other ↦ rw other (and_true first (all-set_event p event events k rest))
    ]

pub have_distinct_keys-set_event :
    (event : CalendarEvent) (events : List CalendarEvent)
    → have_distinct_keys events ≡ true
    → have_distinct_keys (set_event event events) ≡ true
unfolding set_event
have_distinct_keys-set_event event [] h = refl
have_distinct_keys-set_event event (e ∷ events) h =
    let first = and_left (all (has_other_key e) events) (have_distinct_keys events) h in
    let rest = and_right (all (has_other_key e) events) (have_distinct_keys events) h in
    elim (Bool-cases (same_text e.event_key event.event_key)) [
      | inl same ↦
          let key = same_text_eq e.event_key event.event_key same in
          rw same (
            and_true
              (subst
                (λ (k : Text).
                  all (λ (x : CalendarEvent). not (same_text x.event_key k)) events ≡ true)
                key first)
              rest)
      | inr other ↦
          let new =
            not-false (same_text event.event_key e.event_key)
              (same_text_sym event.event_key e.event_key ∙ other) in
          rw other (
            and_true (all-set_event (has_other_key e) event events new first)
              (have_distinct_keys-set_event event events rest))
    ]

module _ (locale : Text → Text → Bool) where
  all-insert_event :
      (p : CalendarEvent → Bool) (event : CalendarEvent) (events : List CalendarEvent)
      → p event ≡ true
      → all p events ≡ true
      → all p (insert_event locale event events) ≡ true
  unfolding insert_event
  all-insert_event p event [] k h = and_true k refl
  all-insert_event p event (e ∷ events) k h = elim (Bool-cases (sorts_before locale event e)) [
    | inl before ↦ rw before (and_true k h)
    | inr after ↦ rw after (
        and_true (all_first p e events h)
          (all-insert_event p event events k (all_rest p e events h)))
  ]

  pub all-sort_events :
      (p : CalendarEvent → Bool) (events : List CalendarEvent)
      → all p events ≡ true
      → all p (sort_events locale events) ≡ true
  unfolding sort_events
  all-sort_events p [] h = refl
  all-sort_events p (event ∷ events) h =
      all-insert_event p event (sort_events locale events) (all_first p event events h)
        (all-sort_events p events (all_rest p event events h))

  have_distinct_keys-insert_event :
      (event : CalendarEvent) (events : List CalendarEvent)
      → all (has_other_key event) events ≡ true
      → have_distinct_keys events ≡ true
      → have_distinct_keys (insert_event locale event events) ≡ true
  unfolding insert_event
  have_distinct_keys-insert_event event [] k h = refl
  have_distinct_keys-insert_event event (e ∷ events) k h =
      elim (Bool-cases (sorts_before locale event e)) [
        | inl before ↦ rw before (and_true k h)
        | inr after ↦
            let other =
              not-true (same_text e.event_key event.event_key)
                (all_first (has_other_key event) e events k) in
            let new =
              not-false (same_text event.event_key e.event_key)
                (same_text_sym event.event_key e.event_key ∙ other) in
            rw after (
              and_true
                (all-insert_event (has_other_key e) event events new
                  (and_left (all (has_other_key e) events) (have_distinct_keys events) h))
                (have_distinct_keys-insert_event event events
                  (all_rest (has_other_key event) e events k)
                  (and_right (all (has_other_key e) events) (have_distinct_keys events) h)))
      ]

  pub have_distinct_keys-sort_events :
      (events : List CalendarEvent)
      → have_distinct_keys events ≡ true
      → have_distinct_keys (sort_events locale events) ≡ true
  unfolding sort_events
  have_distinct_keys-sort_events [] h = refl
  have_distinct_keys-sort_events (event ∷ events) h =
      have_distinct_keys-insert_event event (sort_events locale events)
        (all-sort_events (has_other_key event) events
          (and_left (all (has_other_key event) events) (have_distinct_keys events) h))
        (have_distinct_keys-sort_events events
          (and_right (all (has_other_key event) events) (have_distinct_keys events) h))

  length-insert_event :
      (event : CalendarEvent) (events : List CalendarEvent)
      → length (insert_event locale event events) ≡ suc (length events)
  unfolding insert_event
  length-insert_event event [] = refl
  length-insert_event event (e ∷ events) = elim (Bool-cases (sorts_before locale event e)) [
    | inl before ↦ rw before refl
    | inr after ↦ rw after (ap suc (length-insert_event event events))
  ]

  pub length-sort_events :
      (events : List CalendarEvent) → length (sort_events locale events) ≡ length events
  unfolding sort_events
  length-sort_events [] = refl
  length-sort_events (event ∷ events) =
      length-insert_event event (sort_events locale events) ∙ ap suc (length-sort_events events)

  starts_earlier :
      (a b : CalendarEvent) (events : List CalendarEvent)
      → leb a.starts_on b.starts_on ≡ true
      → all (starts_before b) events ≡ true
      → all (starts_before a) events ≡ true
  starts_earlier a b [] h k = refl
  starts_earlier a b (e ∷ events) h k =
      let first = all_first (starts_before b) e events k in
      and_true (ground arith) (starts_earlier a b events h (all_rest (starts_before b) e events k))

  insert_event-are_sorted :
      (event : CalendarEvent) (events : List CalendarEvent)
      → are_sorted events ≡ true
      → are_sorted (insert_event locale event events) ≡ true
  unfolding insert_event
  insert_event-are_sorted event [] h = refl
  insert_event-are_sorted event (e ∷ events) h =
      let first = and_left (all (starts_before e) events) (are_sorted events) h in
      elim (Bool-cases (sorts_before locale event e)) [
        | inl before ↦
            let order : leb event.starts_on e.starts_on ≡ true = ground arith in
            rw before (and_true (and_true order (starts_earlier event e events order first)) h)
        | inr after ↦
            let order : leb e.starts_on event.starts_on ≡ true = ground arith in
            rw after (
              and_true (all-insert_event (starts_before e) event events order first) (
                insert_event-are_sorted event events
                  (and_right (all (starts_before e) events) (are_sorted events) h)))
      ]

  pub sort_events-are_sorted :
      (events : List CalendarEvent) → are_sorted (sort_events locale events) ≡ true
  unfolding sort_events
  sort_events-are_sorted [] = refl
  sort_events-are_sorted (event ∷ events) =
      insert_event-are_sorted event (sort_events locale events) (sort_events-are_sorted events)
