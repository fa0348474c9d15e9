-- ===== src/Payments/GuestStatus.antt =====
-- What a guest is shown of a payment: deriveGuestPaymentStatus, computeGuestPaymentStatus and the
-- tests of the grace period in lib/payments/scheduledCharges.ts.
pub mod Nonpayment
use hostrepository.Base.{
  ℕ, ◌+◌, Bool, true, false, not, ◌&&◌, Option, none, some, List, ltb, leb, if◌then◌else◌,
}
use hostrepository.Store.{Attempt, AttemptStatus, PaymentFlow}
use hostrepository.Booking.Types.{BookingStatus}
use hostrepository.Payments.Charges.{is_delayed, latest_attempt}
use hostrepository.Payments.Charges.Record.{grace_period_ms, reminder_after_ms}

pub data GuestPaymentStatus : Type 0 where
  payment_method_required payment_method_saved payment_scheduled : GuestPaymentStatus
  payment_attempting authentication_required payment_failed : GuestPaymentStatus
  payment_grace_period paid cancelled_for_nonpayment : GuestPaymentStatus

pub record GuestPaymentInput : Type 0 where
  pub has_payment_method : Bool
  pub scheduled_charge_date : Option ℕ
  pub latest_attempt_status : Option AttemptStatus
  pub has_succeeded : Bool
  pub grace_period_expires_at : Option ℕ
  pub booking_cancelled_for_nonpayment : Bool

-- `at && now < at`
abbrev pub is_until : Option ℕ → ℕ → Bool
is_until none now = false
is_until (some at) now = ltb now at

-- The last three lines, for an attempt that decides nothing.
abbrev pub without_attempt : GuestPaymentInput → ℕ → GuestPaymentStatus
without_attempt input now =
    if not input.has_payment_method
    then payment_method_required
    else if is_until input.scheduled_charge_date now
    then payment_scheduled
    else payment_method_saved

abbrev pub by_attempt : Option AttemptStatus → GuestPaymentInput → ℕ → GuestPaymentStatus
by_attempt (some AttemptStatus.requires_action) input now = authentication_required
by_attempt (some AttemptStatus.failed) input now =
    if is_until input.grace_period_expires_at now then payment_grace_period else payment_failed
by_attempt (some AttemptStatus.processing) input now = payment_attempting
by_attempt _ input now = without_attempt input now

unfoldable pub derive_guest_payment_status : GuestPaymentInput → ℕ → GuestPaymentStatus
derive_guest_payment_status input now =
    if input.booking_cancelled_for_nonpayment
    then cancelled_for_nonpayment
    else if input.has_succeeded
    then paid
    else by_attempt input.latest_attempt_status input now

-- `now >= at + 72 hours`
unfoldable pub is_grace_period_expired : ℕ → ℕ → Bool
is_grace_period_expired failed_at now = leb (failed_at + grace_period_ms) now

unfoldable pub should_send_reminder : ℕ → ℕ → Bool
should_send_reminder failed_at now =
    leb (failed_at + reminder_after_ms) now && ltb now (failed_at + grace_period_ms)

pub record GuestBooking : Type 0 where
  pub payment_flow_version : PaymentFlow
  pub has_payment_method : Bool
  pub status : BookingStatus
  pub grace_period_started_at : Option ℕ
  pub scheduled_charge_date : Option ℕ

abbrev pub status_of : Option Attempt → Option AttemptStatus
status_of none = none
status_of (some a) = some a.status

abbrev pub is_none : Option Attempt → Bool
is_none none = true
is_none (some a) = false

abbrev pub grace_end : Option ℕ → Option ℕ
grace_end none = none
grace_end (some at) = some (at + grace_period_ms)

abbrev pub is_confirmed : BookingStatus → Bool
is_confirmed BookingStatus.confirmed = true
is_confirmed _ = false

abbrev pub is_cancelled : BookingStatus → Bool
is_cancelled BookingStatus.cancelled = true
is_cancelled _ = false

-- `null` for a booking of the legacy flow.
unfoldable pub compute_guest_payment_status :
    ℕ → GuestBooking → List Attempt → ℕ → Option GuestPaymentStatus
compute_guest_payment_status id b attempts now =
    if not (is_delayed b.payment_flow_version)
    then none
    else let latest = latest_attempt id attempts in
      some (
        derive_guest_payment_status
          (record {
            has_payment_method = b.has_payment_method;
            scheduled_charge_date = b.scheduled_charge_date;
            latest_attempt_status = status_of latest;
            has_succeeded = is_confirmed b.status;
            grace_period_expires_at = grace_end b.grace_period_started_at;
            booking_cancelled_for_nonpayment = is_cancelled b.status && is_none latest;
          })
          now)
