-- ===== src/Tests/Refunds.antt =====
-- A concrete report of a partial refund of a booking that was cancelled.
use hostrepository.Base.{◌≡◌, ◌≢◌, refl, ap, true, false, some, [], ◌∷◌, In, any, if◌then◌else◌}
use hostrepository.Base.Int.{pos, leb_ℤ, ◌+ℤ◌}
use hostrepository.Base.Result.{ok}
use hostrepository.Store.{Db, Booking, Payment, PaymentStatus, RefundStatus}
use hostrepository.Booking.Types.{BookingStatus, cancelled}
use hostrepository.Booking.Create.{new_row}
use hostrepository.Booking.Price.{breakdown_of}
use hostrepository.Payments.Reversal.{compute_refund_reversal_entries}
use hostrepository.Payments.Refunds.{
  StripeRefund, is_matched, refunded_total, post_reversal, refund_matched, refund_payment_found,
  on_refund_intent, on_refund_event,
}
use hostrepository.Payments.Refunds.Confirmed.{on_refund_event_once, on_refund_event_status}
use hostrepository.Tests.Data.{js, env, db, stay, cottage, pricing, launch_fee, value_or}

abbrev cancelled_db : Db
cancelled_db = record db {
  bookings = record (new_row js env false stay cottage []) { status = cancelled } ∷ [];
  prices = record { booking_id = 500; breakdown = breakdown_of js pricing (pos 3) launch_fee } ∷ [];
  payments =
      record {
        id = 3;
        booking_id = 500;
        provider_payment_intent_id = 77;
        amount_minor = pos 39600;
        status = PaymentStatus.paid;
      }
      ∷ [];
  refunds =
      record {
        booking_id = 500;
        provider_refund_id = some 4;
        amount_minor = pos 19800;
        status = RefundStatus.pending;
      }
      ∷ [];
}

abbrev report : StripeRefund
report = record { id = 4; is_succeeded = true; payment_intent = some 77; amount = pos 19800 }

abbrev reported : Db
reported = value_or cancelled_db (on_refund_event report cancelled_db)

reported_ok : on_refund_event report cancelled_db ≡ ok reported
unfolding on_refund_event on_refund_intent refund_payment_found refund_matched post_reversal
    refunded_total new_row compute_refund_reversal_entries ◌+ℤ◌
reported_ok = refl

reported_changes : reported ≢ cancelled_db
unfolding on_refund_event on_refund_intent refund_payment_found refund_matched post_reversal
    refunded_total new_row compute_refund_reversal_entries ◌+ℤ◌
reported_changes same = let e = ap (λ (d : Db). any (is_matched 4) d.refunds) same in cc

on_refund_event_once_example : on_refund_event report reported ≡ ok reported
on_refund_event_once_example = on_refund_event_once report cancelled_db reported reported_ok

on_refund_event_status_example :
    (p : Payment) × In p cancelled_db.payments
    × (report.payment_intent ≡ some p.provider_payment_intent_id)
    × ((b : Booking)
        → In b reported.bookings
        → b.id ≡ p.booking_id
        → b.status ≡ (
            if leb_ℤ p.amount_minor (refunded_total p.booking_id reported.refunds)
            then BookingStatus.refunded
            else BookingStatus.confirmed))
on_refund_event_status_example =
    on_refund_event_status report cancelled_db reported reported_ok reported_changes
