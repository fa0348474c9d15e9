-- ===== src/Payments/GuestStatus/Nonpayment.antt =====
-- When a guest is shown a booking as cancelled for non-payment (lib/payments/scheduledCharges.ts).
use hostrepository.Base.{
  ℕ, ◌≡◌, ◌↔◌, refl, true, false, some, List, [], ◌∷◌, any, arith, Bool-cases, inl, inr,
}
use hostrepository.Store.{Attempt}
use hostrepository.Payments.Charges.{of_booking, latest_attempt, is_delayed}
use hostrepository.Payments.GuestStatus.{
  GuestBooking, cancelled_for_nonpayment, derive_guest_payment_status, compute_guest_payment_status,
  is_cancelled, is_none,
}

-- No row is found exactly if there is none of the booking.
latest_attempt-none :
    (id : ℕ) (attempts : List Attempt)
    → is_none (latest_attempt id attempts) ≡ true
    → any (of_booking id) attempts ≡ false
unfolding latest_attempt
latest_attempt-none id [] h = refl
latest_attempt-none id (a ∷ attempts) h = elim (Bool-cases (of_booking id a)) [
  | inl ours ↦ let found = rw ours at h in absurd (ground arith)
  | inr other ↦ rw other (latest_attempt-none id attempts (rw other at h))
]

latest_attempt-some :
    (id : ℕ) (attempts : List Attempt)
    → any (of_booking id) attempts ≡ false
    → is_none (latest_attempt id attempts) ≡ true
unfolding latest_attempt
latest_attempt-some id [] h = refl
latest_attempt-some id (a ∷ attempts) h = elim (Bool-cases (of_booking id a)) [
  | inl ours ↦ let found = rw ours at h in absurd (ground arith)
  | inr other ↦ rw other (latest_attempt-some id attempts (rw other at h))
]

-- A guest is shown a booking as cancelled for non-payment exactly if it is a cancelled one of the
-- delayed flow of which no charge was ever attempted.
pub guest_status_nonpayment :
    (id : ℕ) (b : GuestBooking) (attempts : List Attempt) (now : ℕ)
    → (compute_guest_payment_status id b attempts now ≡ some cancelled_for_nonpayment) ↔ (
        (is_delayed b.payment_flow_version ≡ true)
        × (is_cancelled b.status ≡ true)
        × (any (of_booking id) attempts ≡ false))
unfolding compute_guest_payment_status derive_guest_payment_status
guest_status_nonpayment id b attempts now =
    ground (arith, latest_attempt-none id attempts, latest_attempt-some id attempts)
