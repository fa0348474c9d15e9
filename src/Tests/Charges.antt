-- ===== src/Tests/Charges.antt =====
-- Concrete charges: two workers meet at one booking.
use mathlib.Core.List.{map}
use hostrepository.Base.{◌≡◌, refl, true, some, [], ◌∷◌, inl, ◌⊎◌, In, subst}
use hostrepository.Base.Int.{pos}
use hostrepository.Store.{Db, Booking, Attempt, AttemptStatus}
use hostrepository.Payments.Charges.{
  Refusal, already_succeeded, refuse, reserve_new, decide_status, decide_latest, decide_checked,
  decide_booking, decide, check_booking, latest_attempt, max_attempt, new_attempt,
}
use hostrepository.Payments.Charges.Record.{
  settle, outcome_of, intent_succeeded, other_error, record_outcome, confirm_of,
  on_new_flow_payment_succeeded,
}
use hostrepository.Payments.Charges.Once.{IsSound}
use hostrepository.Payments.Charges.Reserving.{decide-IsSound}
use hostrepository.Payments.Charges.Leases.{decide_leased}
use hostrepository.Payments.Charges.Steps.{Reach, here, next, decided, recorded}
use hostrepository.Payments.Charges.Settled.{Reach-never_again}
use hostrepository.Payments.Charges.Grace.{IsTimed, record_outcome_deadline}
use hostrepository.Booking.Create.{new_row}
use hostrepository.Tests.Data.{js, env, later, db, stay, cottage}

-- A booking whose guest saved a card.
abbrev due : Booking
due = record (new_row js env true stay cottage []) {
  tax_configured = true;
  stripe_customer_id = some 1;
  stripe_payment_method_id = some 2;
}

abbrev unpaid : Db
unpaid = record db { bookings = due ∷ [] }

no_attempts-IsSound : IsSound unpaid.attempts
no_attempts-IsSound = (λ a b i j. elim i [ ], λ a i. elim i [ ], λ a b i j. elim i [ ])

-- A worker with the token 11 reserves the first attempt, and Stripe takes the money.
abbrev first : Attempt
first = new_attempt env 11 due.id (pos 39600) "GBP" 1

abbrev charging : Db
charging = record unpaid { attempts = first ∷ [] }

decide-charging : (decide env 11 due.id (pos 39600) "GBP" unpaid).1 ≡ charging
unfolding decide decide_booking decide_checked decide_latest reserve_new check_booking
    latest_attempt max_attempt new_row
decide-charging = refl

charging-IsSound : IsSound charging.attempts
charging-IsSound =
    subst (λ (d : Db). IsSound d.attempts) decide-charging
      (decide-IsSound env 11 due.id (pos 39600) "GBP" unpaid (λ b i. elim i [ ])
        no_attempts-IsSound)

abbrev charged : Db
charged = (record_outcome env due.id first.id 11 (outcome_of (intent_succeeded 77)) charging).1

abbrev paid_attempt : Attempt
paid_attempt = settle (outcome_of (intent_succeeded 77)) first

charged_run : Reach unpaid charged
charged_run =
    next
      (subst (Reach unpaid) decide-charging
        (next here (decided env 11 due.id (pos 39600) "GBP" unpaid (λ b i. elim i [ ]))))
      (recorded env due.id first.id 11 (outcome_of (intent_succeeded 77)) charging)

-- The worker reports a failure after the success was recorded.
abbrev late : Db
late = (record_outcome env due.id first.id 11 (outcome_of (other_error "timeout")) charged).1

Reach-never_again_example :
    decide later 12 due.id (pos 39600) "GBP" late ≡ (already_succeeded, late)
unfolding record_outcome new_row
Reach-never_again_example =
    Reach-never_again later 12 due.id (pos 39600) "GBP" {start = charged} {db = late} refl
      (next here (recorded env due.id first.id 11 (outcome_of (other_error "timeout")) charged))

-- Another worker comes while the first waits for Stripe.
decide_leased_example :
    (decide env 12 due.id (pos 39600) "GBP" charging ≡ (already_succeeded, charging))
    ⊎ ((reason : Refusal) × (decide env 12 due.id (pos 39600) "GBP" charging
          ≡ (refuse reason, charging)))
decide_leased_example =
    decide_leased env 12 due.id (pos 39600) "GBP" charging first charging-IsSound (inl refl) refl
      (inl refl) refl

-- Stripe cannot be reached.
record_outcome_deadline_example :
    let db' =
      (record_outcome env due.id first.id 11 (outcome_of (other_error "timeout")) charging).1 in
    (b' : Booking) × In b' db'.bookings × IsTimed env due b'
unfolding new_row
record_outcome_deadline_example =
    record_outcome_deadline env due.id first.id 11 (outcome_of (other_error "timeout")) charging due
      refl refl (inl refl) refl refl

-- Stripe took the money but its answer was lost: the first attempt is recorded as failed. A day later a
-- second attempt is charged, and then the first is reported as paid.
abbrev timed_out : Db
timed_out = (record_outcome env due.id first.id 11 (outcome_of (other_error "timeout")) charging).1

abbrev charged_again : Db
charged_again =
    let db' = (decide later 12 due.id (pos 39600) "GBP" timed_out).1 in
    (record_outcome later due.id 501 12 (outcome_of (intent_succeeded 78)) db').1

abbrev reported_late : Db
reported_late = on_new_flow_payment_succeeded due.id (some first.id) 77 charged_again

charged_twice :
    map (λ (a : Attempt). a.status) reported_late.attempts
    ≡ AttemptStatus.succeeded ∷ AttemptStatus.succeeded ∷ []
unfolding decide decide_booking decide_checked decide_latest decide_status reserve_new check_booking
    latest_attempt max_attempt new_row record_outcome on_new_flow_payment_succeeded confirm_of
charged_twice = refl
