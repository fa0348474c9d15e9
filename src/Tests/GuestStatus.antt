-- ===== src/Tests/GuestStatus.antt =====
-- What a guest is shown a day after a charge failed.
use hostrepository.Base.{◌+◌, ◌≡◌, ◌↔◌, refl, true, false, some, [], ◌∷◌}
use hostrepository.Base.Int.{pos}
use hostrepository.Store.{Attempt, failed, separate_charges_delayed_v1}
use hostrepository.Booking.Types.{pending_payment, cancelled}
use hostrepository.Payments.Charges.{new_attempt, latest_attempt}
use hostrepository.Payments.GuestStatus.{
  GuestBooking, payment_grace_period, payment_failed, cancelled_for_nonpayment,
  compute_guest_payment_status, derive_guest_payment_status, is_grace_period_expired,
  should_send_reminder,
}
use hostrepository.Payments.GuestStatus.Nonpayment.{guest_status_nonpayment}
use hostrepository.Payments.Charges.Record.{grace_period_ms}
use hostrepository.Tests.Data.{env, later}

abbrev waiting : GuestBooking
waiting = record {
  payment_flow_version = separate_charges_delayed_v1;
  has_payment_method = true;
  status = pending_payment;
  grace_period_started_at = some env.now;
  scheduled_charge_date = some env.now;
}

abbrev declined : Attempt
declined = record (new_attempt env 11 500 (pos 39600) "GBP" 1) { status = failed }

-- A day after the failure, within the grace period.
waiting_shown :
    compute_guest_payment_status 500 waiting (declined ∷ []) later.now ≡ some payment_grace_period
unfolding latest_attempt compute_guest_payment_status derive_guest_payment_status
waiting_shown = refl

reminder_due :
    (should_send_reminder env.now later.now ≡ true)
    × (is_grace_period_expired env.now later.now ≡ false)
unfolding is_grace_period_expired should_send_reminder
reminder_due = (refl, refl)

-- Cancelled when the grace period is over.
abbrev unpaid : GuestBooking
unpaid = record waiting { status = cancelled }

unpaid_shown :
    compute_guest_payment_status 500 unpaid (declined ∷ []) (env.now + grace_period_ms)
    ≡ some payment_failed
unfolding latest_attempt compute_guest_payment_status derive_guest_payment_status
unpaid_shown = refl

guest_status_nonpayment_example :
    (compute_guest_payment_status 500 unpaid (declined ∷ []) later.now
      ≡ some cancelled_for_nonpayment)
    ↔ ((true ≡ true) × (true ≡ true) × (true ≡ false))
guest_status_nonpayment_example = guest_status_nonpayment 500 unpaid (declined ∷ []) later.now
