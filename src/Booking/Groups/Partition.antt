-- ===== src/Booking/Groups/Partition.antt =====
-- Which bookings the lists of a guest and of a host show, and that none is shown twice
-- (lib/booking/tripGrouping.ts, lib/booking/hostBookingGrouping.ts).
use hostrepository.Base.{
  ℕ, ◌+◌, ◌*◌, ◌≤◌, ◌≡◌, refl, Bool, true, false, not, ◌&&◌, List, [], ◌∷◌, filter, length, In, inl,
  inr, ltb, if◌then◌else◌, arith,
}
use hostrepository.Store.{Booking}
use hostrepository.Booking.Types.{
  BookingStatus, draft, pending_payment, confirmed, cancelled, completed, disputed, refunded,
}
use hostrepository.Booking.Cancellation.{day_ms}
use hostrepository.Booking.Groups.{
  group_trips, group_host_bookings, is_booked, is_kept, is_called_off, is_confirmed, is_before,
  is_from,
}

-- The list that a booking stands in; `unlisted` is none of them.
pub data Place : Type 0 where
  upcoming current past called_off unlisted : Place

abbrev pub is_place : Place → Place → Bool
is_place upcoming upcoming = true
is_place current current = true
is_place past past = true
is_place called_off called_off = true
is_place unlisted unlisted = true
is_place _ _ = false

-- The list of a guest, by the status and by whether the check-in has passed.
abbrev pub trip_place : ℕ → Booking → Place
trip_place now t = by_status t.status (ltb (t.check_in * day_ms) now)
  where
    by_status : BookingStatus → Bool → Place
    by_status confirmed true = past
    by_status confirmed false = upcoming
    by_status pending_payment true = unlisted
    by_status pending_payment false = upcoming
    by_status completed true = past
    by_status completed false = unlisted
    by_status cancelled begun = called_off
    by_status refunded begun = called_off
    by_status draft begun = unlisted
    by_status disputed begun = unlisted

-- The list of a host, by the status and by whether the check-in and the check-out have passed.
abbrev pub host_place : ℕ → Booking → Place
host_place now b =
    by_status b.status (ltb (b.check_in * day_ms) now) (ltb (b.check_out * day_ms) now)
  where
    by_status : BookingStatus → Bool → Bool → Place
    by_status confirmed begun true = past
    by_status confirmed true false = current
    by_status confirmed false false = upcoming
    by_status pending_payment true ended = unlisted
    by_status pending_payment false ended = upcoming
    by_status completed begun true = past
    by_status completed begun false = unlisted
    by_status cancelled begun ended = called_off
    by_status refunded begun ended = called_off
    by_status draft begun ended = unlisted
    by_status disputed begun ended = unlisted

abbrev pub shown : (Booking → Place) → Place → List Booking → List Booking
shown place at bookings = filter (λ (b : Booking). is_place (place b) at) bookings

filter-same :
    (p q : Booking → Bool) (bookings : List Booking)
    → ((b : Booking) → In b bookings → p b ≡ q b)
    → filter p bookings ≡ filter q bookings
filter-same p q [] same = refl
filter-same p q (b ∷ bookings) same =
    rw (same b (inl refl), filter-same p q bookings (λ c i. same c (inr i))) refl

abbrev count : Bool → ℕ
count b = if b then 1 else 0

length-filter :
    (p : Booking → Bool) (b : Booking) (bs : List Booking)
    → length (filter p (b ∷ bs)) ≡ count (p b) + length (filter p bs)
length-filter p b bs = ground arith

counted :
    (p : Place)
    → count (is_place p upcoming)
        + count (is_place p current)
        + count (is_place p past)
        + count (is_place p called_off)
        + count (is_place p unlisted)
      ≡ 1
counted upcoming = refl
counted current = refl
counted past = refl
counted called_off = refl
counted unlisted = refl

-- Each booking has one place.
shown-counted :
    (place : Booking → Place) (bookings : List Booking)
    → length (shown place upcoming bookings)
        + length (shown place current bookings)
        + length (shown place past bookings)
        + length (shown place called_off bookings)
        + length (shown place unlisted bookings)
      ≡ length bookings
shown-counted place [] = refl
shown-counted place (b ∷ bookings) =
    let rest = shown-counted place bookings in
    let one = counted (place b) in
    rw
      (
        length-filter (λ (b : Booking). is_place (place b) upcoming) b bookings,
        length-filter (λ (b : Booking). is_place (place b) current) b bookings,
        length-filter (λ (b : Booking). is_place (place b) past) b bookings,
        length-filter (λ (b : Booking). is_place (place b) called_off) b bookings,
        length-filter (λ (b : Booking). is_place (place b) unlisted) b bookings,
      )
      (omega arith)

-- No trip of a guest is current.
no_current : (now : ℕ) (trips : List Booking) → shown (trip_place now) current trips ≡ []
no_current now [] = refl
no_current now (t ∷ trips) =
    let none_here : is_place (trip_place now t) current ≡ false = ground arith in
    rw (none_here, no_current now trips) refl

from-before : (day now : ℕ) → is_from day now ≡ not (is_before day now)
from-before day now = ground arith

module _ (now : ℕ) (t : Booking) where
  trip_upcoming :
      (is_booked t.status && is_from t.check_in now) ≡ is_place (trip_place now t) upcoming
  trip_upcoming = ground (arith, from-before t.check_in now)

  trip_past : (is_kept t.status && is_before t.check_in now) ≡ is_place (trip_place now t) past
  trip_past = ground arith

  trip_called_off : is_called_off t.status ≡ is_place (trip_place now t) called_off
  trip_called_off = ground arith

module _ (now : ℕ) (b : Booking) (ordered : b.check_in ≤ b.check_out) where
  host_upcoming :
      (is_booked b.status && is_from b.check_in now) ≡ is_place (host_place now b) upcoming
  host_upcoming = ground (arith, from-before b.check_in now)

  host_current :
      (is_confirmed b.status && is_before b.check_in now && is_from b.check_out now)
      ≡ is_place (host_place now b) current
  host_current = ground (arith, from-before b.check_out now)

  host_past : (is_kept b.status && is_before b.check_out now) ≡ is_place (host_place now b) past
  host_past = ground arith

  host_called_off : is_called_off b.status ≡ is_place (host_place now b) called_off
  host_called_off = ground arith

-- Each list of a guest shows, in order, exactly the trips whose place it is, so no trip is shown
-- twice: upcoming are the confirmed and the unpaid before their check-in, past the confirmed and the
-- completed after it, and called off the cancelled and the refunded. Drafts, disputed trips, unpaid
-- ones after their check-in and completed ones before it are in no list; with them the lengths add up
-- to all trips.
pub group_trips_partition :
    (trips : List Booking) (now : ℕ)
    → let g = group_trips trips now in
      (g.upcoming ≡ shown (trip_place now) upcoming trips)
      × (g.past ≡ shown (trip_place now) past trips)
      × (g.called_off ≡ shown (trip_place now) called_off trips)
      × (length g.upcoming
            + length g.past
            + length g.called_off
            + length (shown (trip_place now) unlisted trips)
          ≡ length trips)
unfolding group_trips
group_trips_partition trips now =
    let up = filter-same _ _ trips (λ t i. trip_upcoming now t) in
    let gone = filter-same _ _ trips (λ t i. trip_past now t) in
    let off = filter-same _ _ trips (λ t i. trip_called_off now t) in
    let whole = shown-counted (trip_place now) trips in
    let counted_all = rw (no_current now trips) at whole in
    (up, gone, off, rw (up, gone, off) (omega arith))

-- Each list of a host shows, in order, exactly the bookings whose place it is, so no booking is shown
-- twice: upcoming are the confirmed and the unpaid before their check-in, current the confirmed
-- between check-in and check-out, past the confirmed and the completed after their check-out, and
-- called off the cancelled and the refunded. Drafts, disputed bookings, unpaid ones after their
-- check-in and completed ones before their check-out are in no list; with them the lengths add up to
-- all bookings. No booking ends before it begins.
pub group_host_bookings_partition :
    (bookings : List Booking) (now : ℕ)
    → ((b : Booking) → In b bookings → b.check_in ≤ b.check_out)
    → let g = group_host_bookings bookings now in
      (g.upcoming ≡ shown (host_place now) upcoming bookings)
      × (g.current ≡ shown (host_place now) current bookings)
      × (g.past ≡ shown (host_place now) past bookings)
      × (g.called_off ≡ shown (host_place now) called_off bookings)
      × (length g.upcoming
            + length g.current
            + length g.past
            + length g.called_off
            + length (shown (host_place now) unlisted bookings)
          ≡ length bookings)
unfolding group_host_bookings
group_host_bookings_partition bookings now ordered =
    let up = filter-same _ _ bookings (λ b i. host_upcoming now b (ordered b i)) in
    let here = filter-same _ _ bookings (λ b i. host_current now b (ordered b i)) in
    let gone = filter-same _ _ bookings (λ b i. host_past now b (ordered b i)) in
    let off = filter-same _ _ bookings (λ b i. host_called_off now b (ordered b i)) in
    (up, here, gone, off, rw (up, here, gone, off) (shown-counted (host_place now) bookings))
