-- ===== src/Tests.antt =====
-- Concrete runs of the model, and one use of each theorem.
pub mod Data
pub mod Calendars
pub mod Charges
pub mod Fetch
pub mod Groups
pub mod Export
pub mod GuestStatus
pub mod Images
pub mod Initiation
pub mod Payouts
pub mod Readiness
pub mod Refunds
pub mod Amounts
use hostrepository.Base.{
  ℕ, ◌≡◌, refl, Bool, true, false, Option, none, some, [], ◌∷◌, inl, inr, arith, find?,
}
use hostrepository.Base.Int.{ℤ, pos, ◌+ℤ◌, ◌-ℤ◌, ◌*ℤ◌, ◌≤ℤ◌}
use hostrepository.Base.Round.{round_div, floor_div}
use hostrepository.Base.Result.{Result, ok, err}
use hostrepository.Store.{Db, Booking, empty_db}
use hostrepository.Booking.Cancellation.{calculate_cancellation}
use hostrepository.Booking.Create.{
  booked_block, is_unavailable, Created, create_booking, create_new, insert_booking, check_stay,
  new_row, book_dates, latest_active, get_active_fee_config,
}
use hostrepository.Booking.Price.{calculate_price, breakdown_of, taxes_of, nights_between}
use hostrepository.Booking.Release.{Cancelled, guest, cancel_booking, release_dates, refund_of}
use hostrepository.Booking.Exclusive.{IsExclusive, IsConsistent}
use hostrepository.Booking.Exclusive.Creating.{create_booking_nights, create_booking_retry}
use hostrepository.Booking.Exclusive.Steps.{
  Reach, here, next, created, cancelled, Reach-IsExclusive,
}
use hostrepository.Tests.Data.{
  js, env, later, db, stay, next_stay, cottage, feed, reservation, pricing, launch_fee, value_or,
}

db-IsConsistent : IsConsistent db
db-IsConsistent = (λ b d i t. elim i [ ], λ b c d i j. elim i [ ])

abbrev nothing : Created
nothing = record { row = new_row js env true stay cottage []; breakdown = none }

abbrev made : Created × Db
made = value_or (nothing, db) (create_booking js env true stay db)

made_ok : create_booking js env true stay db ≡ ok made
unfolding create_booking create_new insert_booking check_stay new_row book_dates latest_active
    get_active_fee_config calculate_price breakdown_of taxes_of nights_between
made_ok = refl

abbrev made_next : Created × Db
made_next = value_or (nothing, db) (create_booking js later true next_stay made.1)

made_next_ok : create_booking js later true next_stay made.1 ≡ ok made_next
unfolding create_booking create_new insert_booking check_stay new_row book_dates latest_active
    get_active_fee_config calculate_price breakdown_of taxes_of nights_between
made_next_ok = refl

abbrev no_outcome : Cancelled
no_outcome = record {
  outcome = calculate_cancellation [] 0 (pos 0) (pos 0) 0;
  refund_initiated = none;
}

abbrev ended : Cancelled × Db
ended = value_or (no_outcome, db) (cancel_booking later 500 guest made_next.1)

ended_ok : cancel_booking later 500 guest made_next.1 ≡ ok ended
unfolding create_booking create_new insert_booking check_stay new_row book_dates latest_active
    get_active_fee_config calculate_price breakdown_of taxes_of nights_between cancel_booking
ended_ok = refl

Reach-IsExclusive_example : IsExclusive ended.1
Reach-IsExclusive_example = Reach-IsExclusive db-IsConsistent (
    next
      (next (next here (created js env true stay made.0 made_ok))
        (created js later true next_stay made_next.0 made_next_ok))
      (cancelled later 500 guest ended.0 ended_ok))

create_booking_nights_example :
    (made.1.blocks 7 20012 ≡ some booked_block) × (true ≡ true → is_unavailable none ≡ false)
unfolding create_booking create_new insert_booking check_stay new_row book_dates latest_active
    get_active_fee_config calculate_price breakdown_of taxes_of nights_between
create_booking_nights_example =
    create_booking_nights js env true stay db made.0 made.1 7 20012 made_ok refl

create_booking_retry_example :
    create_booking js later false stay made.1
    ≡ ok (record { row = made.0.row; breakdown = none }, made.1)
create_booking_retry_example =
    create_booking_retry js env later true false stay db made.0 made.1 made_ok
