-- ===== src/Booking/Release.antt =====
-- The three ways in which a booking gives its dates back: cancelBooking (lib/booking/cancelBooking.ts),
-- releaseExpiredHold (lib/booking/createBooking.ts) and discardUnpaidBooking
-- (lib/booking/discardUnpaidBooking.ts). The refund call to Stripe and the messages that
-- cancelBookingAndRefund makes after the commit are not modelled.
use Prim.Native.String.{String}
use hostrepository.Base.{
  ℕ, ◌==◌, Bool, true, false, ◌&&◌, ◌||◌, Option, none, some, ◌∷◌, leb, within, if◌then◌else◌,
  find?, any, update_where,
}
use hostrepository.Base.Int.{ℤ, pos, ltb_ℤ}
use hostrepository.Base.Result.{Result, ok, ◌>>=◌, ◌>>◌, require, throw_if, or_throw}
use hostrepository.Store.{
  Db, Env, Block, Blocks, BlockStatus, booking, Booking, PriceRow, Payment, PaymentStatus, Attempt,
  AttemptStatus, Entitlement, booking_cancelled, unpaid_booking_discarded,
}
use hostrepository.Booking.Types.{
  BookingStatus, cancelled, confirmed, pending_payment, BookingError, booking_not_found,
  not_cancellable, already_archived, not_discardable, payment_exists,
}
use hostrepository.Booking.Cancellation.{CancellationOutcome, calculate_cancellation}
use hostrepository.Calendar.Availability.{has_source, reconcile}

-- `source = 'booking'`
abbrev pub from_booking : Option Block → Bool
from_booking old = has_source booking old

-- `status = 'booked' AND source = 'booking'`
abbrev pub booked_by_booking : Option Block → Bool
booked_by_booking none = false
booked_by_booking (some r) = elim r.status [
  | BlockStatus.booked ↦ has_source booking (some r)
  | _ ↦ false
]

-- `DELETE FROM availability_blocks WHERE property_id = … AND date >= … AND date < … AND …`
abbrev pub delete_rows : (Option Block → Bool) → ℕ → ℕ → ℕ → Blocks → Blocks
delete_rows test p lo hi b q e = if q == p && within lo hi e && test (b q e) then none else b q e

abbrev pub has_id : ℕ → Booking → Bool
has_id id b = b.id == id

-- The three functions share this: delete the booking's rows, rebuild the imported ones, update the
-- booking.
unfoldable pub release_dates : Env → (Option Block → Bool) → (Booking → Booking) → Booking → Db → Db
release_dates env test change b db =
    let (_, db') =
      reconcile env b.property_id
        (record db { blocks = delete_rows test b.property_id b.check_in b.check_out db.blocks }) in
    record db' { bookings = update_where (has_id b.id) change db'.bookings }

abbrev pub mark_cancelled : Booking → Booking
mark_cancelled b = record b { status = cancelled }

-- releaseExpiredHold: `null` is `none`, with nothing changed.

abbrev pub is_pending : Booking → Bool
is_pending b = elim b.status [ pending_payment ↦ true | _ ↦ false ]

-- `hold_expires_at` is set, and not after now.
abbrev pub hold_is_over : Env → Booking → Bool
hold_is_over env b = elim b.hold_expires_at [ none ↦ false | some at ↦ leb at env.now ]

unfoldable pub release_hold_of : Env → Option Booking → Db → Option Booking × Db
release_hold_of env none db = (none, db)
release_hold_of env (some b) db =
    if hold_is_over env b
    then (some (mark_cancelled b), release_dates env booked_by_booking mark_cancelled b db)
    else (none, db)

-- The row is selected by its id and `status = 'pending_payment'`.
unfoldable pub release_expired_hold : Env → ℕ → Db → Option Booking × Db
release_expired_hold env id db =
    release_hold_of env (find? (λ (b : Booking). has_id id b && is_pending b) db.bookings) db

-- cancelBooking

pub data CancelledBy : Type 0 where
  guest host admin system : CancelledBy

pub data RefundReason : Type 0 where
  guest_cancellation host_cancellation admin_goodwill dispute pricing_error : RefundReason

pub record InitiateRefundInput : Type 0 where
  pub booking_id : ℕ
  pub payment_id : ℕ
  pub provider_payment_intent_id : ℕ
  pub amount_minor : ℤ
  pub currency : String
  pub reason : RefundReason
  pub initiated_by : CancelledBy

pub record Cancelled : Type 0 where
  pub outcome : CancellationOutcome
  pub refund_initiated : Option InitiateRefundInput

abbrev pub reason_of : CancelledBy → RefundReason
reason_of guest = guest_cancellation
reason_of host = host_cancellation
reason_of _ = admin_goodwill

abbrev pub is_cancellable : BookingStatus → Bool
is_cancellable confirmed = true
is_cancellable pending_payment = true
is_cancellable _ = false

abbrev pub is_paid : PaymentStatus → Bool
is_paid PaymentStatus.paid = true
is_paid _ = false

-- A refund is asked for only where one is due and the payment is there and paid.
unfoldable pub refund_of :
    Booking
    → PriceRow
    → Option Payment
    → CancelledBy
    → CancellationOutcome
    → Option InitiateRefundInput
refund_of b price none by outcome = none
refund_of b price (some p) by outcome =
    if ltb_ℤ (pos 0) outcome.refundable_minor && is_paid p.status
    then some (record {
      booking_id = b.id;
      payment_id = p.id;
      provider_payment_intent_id = p.provider_payment_intent_id;
      amount_minor = outcome.refundable_minor;
      currency = price.breakdown.currency;
      reason = reason_of by;
      initiated_by = by;
    })
    else none

unfoldable pub cancel_booking : Env → ℕ → CancelledBy → Db → Result BookingError (Cancelled × Db)
cancel_booking env id by db = do
  b ← or_throw (find? (has_id id) db.bookings) booking_not_found
  price ← or_throw (find? (λ (row : PriceRow). row.booking_id == id) db.prices) booking_not_found
  require (is_cancellable b.status) not_cancellable
  let outcome =
      calculate_cancellation b.cancellation_policy_snapshot b.check_in
        price.breakdown.guest_total_minor price.breakdown.host_payout_minor env.now
  let db' = release_dates env from_booking mark_cancelled b db
  let payment = find? (λ (p : Payment). p.booking_id == id) db.payments
  ok (
    record { outcome = outcome; refund_initiated = refund_of b price payment by outcome },
    record db' {
      audit =
          record { action = booking_cancelled; object_id = id; previous_status = b.status }
          ∷ db'.audit;
    },
  )

-- discardUnpaidBooking

-- `p.status IN ('paid', 'refunded', 'partially_refunded', 'disputed')`
abbrev pub is_legacy_payment : PaymentStatus → Bool
is_legacy_payment PaymentStatus.paid = true
is_legacy_payment PaymentStatus.refunded = true
is_legacy_payment PaymentStatus.partially_refunded = true
is_legacy_payment PaymentStatus.disputed = true
is_legacy_payment _ = false

abbrev pub is_succeeded : AttemptStatus → Bool
is_succeeded AttemptStatus.succeeded = true
is_succeeded _ = false

abbrev pub has_payment_activity : ℕ → Db → Bool
has_payment_activity id db =
    any (λ (p : Payment). p.booking_id == id && is_legacy_payment p.status) db.payments
    || any (λ (a : Attempt). a.booking_id == id && is_succeeded a.status) db.attempts
    || any (λ (e : Entitlement). e.booking_id == id) db.entitlements

abbrev pub is_archived : Booking → Bool
is_archived b = elim b.archived_at [ none ↦ false | some _ ↦ true ]

unfoldable pub assert_discardable : Booking → Db → Result BookingError (Unit {0})
assert_discardable b db = do
  throw_if (is_archived b) already_archived
  require (is_pending b) not_discardable
  throw_if (has_payment_activity b.id db) payment_exists

abbrev pub mark_discarded : ℕ → Booking → Booking
mark_discarded now b = record b { status = cancelled; archived_at = some now; next_retry_at = none }

unfoldable pub discard_unpaid_booking : Env → ℕ → ℕ → Db → Result BookingError Db
discard_unpaid_booking env id guest_id db = do
  b ←
      or_throw (find? (λ (b : Booking). has_id id b && b.guest_id == guest_id) db.bookings)
        booking_not_found
  assert_discardable b db
  let db' = release_dates env booked_by_booking (mark_discarded env.now) b db
  ok (record db' {
    audit =
        record { action = unpaid_booking_discarded; object_id = id; previous_status = b.status }
        ∷ db'.audit;
  })
