-- ===== src/Booking/Groups.antt =====
-- lib/booking/tripGrouping.ts and lib/booking/hostBookingGrouping.ts: the lists that a guest and a
-- host see. A check-in or check-out is compared with now as the midnight that begins it.
pub mod Partition
use hostrepository.Base.{ℕ, ◌*◌, Bool, true, false, ◌&&◌, List, ltb, leb, filter}
use hostrepository.Store.{Booking}
use hostrepository.Booking.Types.{
  BookingStatus, pending_payment, confirmed, cancelled, completed, refunded,
}
use hostrepository.Booking.Cancellation.{day_ms}

abbrev pub is_booked : BookingStatus → Bool
is_booked confirmed = true
is_booked pending_payment = true
is_booked _ = false

abbrev pub is_kept : BookingStatus → Bool
is_kept confirmed = true
is_kept completed = true
is_kept _ = false

abbrev pub is_called_off : BookingStatus → Bool
is_called_off cancelled = true
is_called_off refunded = true
is_called_off _ = false

abbrev pub is_confirmed : BookingStatus → Bool
is_confirmed confirmed = true
is_confirmed _ = false

-- `new Date(day) < now`
abbrev pub is_before : ℕ → ℕ → Bool
is_before day now = ltb (day * day_ms) now

-- `new Date(day) >= now`
abbrev pub is_from : ℕ → ℕ → Bool
is_from day now = leb now (day * day_ms)

pub record TripGroups : Type 0 where
  pub upcoming : List Booking
  pub past : List Booking
  pub called_off : List Booking

unfoldable pub group_trips : List Booking → ℕ → TripGroups
group_trips trips now = record {
  upcoming = filter (λ (t : Booking). is_booked t.status && is_from t.check_in now) trips;
  past = filter (λ (t : Booking). is_kept t.status && is_before t.check_in now) trips;
  called_off = filter (λ (t : Booking). is_called_off t.status) trips;
}

pub record HostGroups : Type 0 where
  pub upcoming : List Booking
  pub current : List Booking
  pub past : List Booking
  pub called_off : List Booking

unfoldable pub group_host_bookings : List Booking → ℕ → HostGroups
group_host_bookings bookings now = record {
  upcoming = filter (λ (b : Booking). is_booked b.status && is_from b.check_in now) bookings;
  current =
      filter
        (λ (b : Booking).
          is_confirmed b.status && is_before b.check_in now && is_from b.check_out now)
        bookings;
  past = filter (λ (b : Booking). is_kept b.status && is_before b.check_out now) bookings;
  called_off = filter (λ (b : Booking). is_called_off b.status) bookings;
}
