-- ===== src/Payments/Charges/Record.antt =====
-- recordChargeOutcome of lib/payments/scheduledCharges.ts, with Stripe's answer that it records, and
-- onNewFlowPaymentSucceeded of lib/payments/newFlowWebhookHandling.ts.
use Prim.Native.String.{String}
use hostrepository.Base.{
  ℕ, ◌+◌, ◌*◌, ◌==◌, Bool, true, false, not, ◌&&◌, Option, none, some, List, if◌then◌else◌, find?,
  any, update_where,
}
use hostrepository.Store.{
  Db, Env, Booking, Attempt, AttemptStatus, processing, succeeded, failed, requires_action,
}
use hostrepository.Booking.Types.{BookingStatus}
use hostrepository.Booking.Release.{has_id, is_pending, is_succeeded}
use hostrepository.Payments.Charges.{Charge, has_attempt_id}

abbrev pub grace_period_ms : ℕ
grace_period_ms = 72 * 3600000

abbrev pub reminder_after_ms : ℕ
reminder_after_ms = 24 * 3600000

-- How Stripe's call ended: an intent with its status, also the one in a card's decline; an idempotency
-- conflict; or any other error. A decline comes with its code and message.
pub data Answer : Type 0 where
  intent_succeeded intent_requires_action intent_processing : ℕ → Answer
  declined : ℕ → Option String → Option String → Answer
  idempotency_error other_error : String → Answer

pub record Outcome : Type 0 where
  pub status : AttemptStatus
  pub provider_payment_intent_id : Option ℕ
  pub failure_code : Option String
  pub failure_message : Option String

abbrev plain : AttemptStatus → ℕ → Outcome
plain status intent = record {
  status = status;
  provider_payment_intent_id = some intent;
  failure_code = none;
  failure_message = none;
}

abbrev thrown : AttemptStatus → String → Outcome
thrown status message = record {
  status = status;
  provider_payment_intent_id = none;
  failure_code = none;
  failure_message = some message;
}

abbrev pub outcome_of : Answer → Outcome
outcome_of (intent_succeeded intent) = plain succeeded intent
outcome_of (intent_requires_action intent) = plain requires_action intent
outcome_of (intent_processing intent) = plain processing intent
outcome_of (declined intent code message) = record {
  status = failed;
  provider_payment_intent_id = some intent;
  failure_code = code;
  failure_message = message;
}
outcome_of (idempotency_error message) = thrown processing message
outcome_of (other_error message) = thrown failed message

-- `WHERE id = $1 AND claim_token = $2 AND status != 'succeeded'`
abbrev pub is_claimed : ℕ → ℕ → Attempt → Bool
is_claimed attempt_id token a =
    has_attempt_id attempt_id a
    && (elim a.claim_token [ none ↦ false | some t ↦ t == token ])
    && not (is_succeeded a.status)

abbrev coalesce : Option ℕ → Option ℕ → Option ℕ
coalesce none old = old
coalesce (some new) old = some new

abbrev pub settle : Outcome → Attempt → Attempt
settle o a = record a {
  status = o.status;
  provider_payment_intent_id = coalesce o.provider_payment_intent_id a.provider_payment_intent_id;
  failure_code = o.failure_code;
  failure_message = o.failure_message;
  claim_token = none;
  lease_expires_at = none;
}

-- The grace period starts at the first outcome that is no success, and its end is set then.
abbrev pub start_grace : Env → Booking → Booking
start_grace env b = elim b.grace_period_started_at [
  | none ↦ record b {
    grace_period_started_at = some env.now;
    hold_expires_at = some (env.now + grace_period_ms);
  }
  | some _ ↦ b
]

abbrev pub schedule_retry : Env → Booking → Booking
schedule_retry env b = record b { next_retry_at = some (env.now + reminder_after_ms) }

-- What an outcome does to the booking, if that still awaits payment.
abbrev pub after_outcome : Env → AttemptStatus → Booking → Booking
after_outcome env succeeded b = b
after_outcome env failed b = schedule_retry env (start_grace env b)
after_outcome env _ b = start_grace env b

-- The second transaction, recordChargeOutcome: whether the outcome was recorded.
unfoldable pub record_outcome : Env → ℕ → ℕ → ℕ → Outcome → Db → Bool × Db
record_outcome env id attempt_id token o db =
    if any (is_claimed attempt_id token) db.attempts
    then (
      true,
      record db {
        attempts = update_where (is_claimed attempt_id token) (settle o) db.attempts;
        bookings =
            update_where (λ (b : Booking). has_id id b && is_pending b) (after_outcome env o.status)
              db.bookings;
      },
    )
    else (false, db)

abbrev pub record_answer : Env → ℕ → Charge → Answer → Db → Bool × Db
record_answer env id c answer db =
    record_outcome env id c.attempt_id c.claim_token (outcome_of answer) db

-- onNewFlowPaymentSucceeded of lib/payments/newFlowWebhookHandling.ts, its transaction: Stripe reports
-- that `intent` has been paid, and names the booking and, if it has one, the attempt. It locks the
-- booking's row and not the charges' lock. It is one function all the same: all it reads is the row
-- that it locks, and a charge sees its writes together, when it commits.

abbrev pub confirm_attempt : ℕ → Attempt → Attempt
confirm_attempt intent a = record a { status = succeeded; provider_payment_intent_id = some intent }

abbrev pub confirm_attempts : Option ℕ → ℕ → List Attempt → List Attempt
confirm_attempts none intent attempts = attempts
confirm_attempts (some id) intent attempts =
    update_where (has_attempt_id id) (confirm_attempt intent) attempts

abbrev pub is_confirmed : Booking → Bool
is_confirmed b = elim b.status [ BookingStatus.confirmed ↦ true | _ ↦ false ]

abbrev pub mark_confirmed : Booking → Booking
mark_confirmed b = record b { status = BookingStatus.confirmed }

unfoldable pub confirm_of : ℕ → Option ℕ → ℕ → Option Booking → Db → Db
confirm_of id attempt_id intent none db = db
confirm_of id attempt_id intent (some b) db = if is_confirmed b then db else record db {
  attempts = confirm_attempts attempt_id intent db.attempts;
  bookings = update_where (λ (b : Booking). has_id id b && is_pending b) mark_confirmed db.bookings;
}

unfoldable pub on_new_flow_payment_succeeded : ℕ → Option ℕ → ℕ → Db → Db
on_new_flow_payment_succeeded id attempt_id intent db =
    confirm_of id attempt_id intent (find? (has_id id) db.bookings) db
