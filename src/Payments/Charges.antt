-- ===== src/Payments/Charges.antt =====
-- attemptScheduledCharge of lib/payments/scheduledCharges.ts. A charge is two
-- transactions with the call of Stripe between them: `decide` reserves an attempt, and
-- `record_answer` (Charges/Record) records what Stripe said. Each takes the booking's lock, so each is one function,
-- and other workers may run between the two.
pub mod Record
pub mod Once
pub mod Reserving
pub mod Leases
pub mod Steps
pub mod Settled
pub mod Grace
use Prim.Native.String.{String}
use hostrepository.Base.{
  ℕ, suc, ◌+◌, ◌*◌, ◌==◌, Bool, true, false, not, ◌&&◌, Option, none, some, List, [], ◌∷◌, ltb, leb,
  max, if◌then◌else◌, find?, any, update_where,
}
use hostrepository.Base.Int.{ℤ}
use hostrepository.Base.Result.{Result, ok, err, ◌>>=◌, ◌>>◌, require, throw_if, or_throw}
use hostrepository.Store.{
  Db, Env, Booking, PaymentFlow, Attempt, AttemptStatus, pending, processing, succeeded, failed,
  requires_action, cancelled,
}
use hostrepository.Booking.Types.{BookingStatus}
use hostrepository.Booking.Release.{has_id, is_pending, is_succeeded}

abbrev pub execution_lease_ms : ℕ
execution_lease_ms = 120 * 1000

-- The reasons with which a charge is refused.
pub data Refusal : Type 0 where
  booking_not_found not_delayed_flow tax_unconfigured no_payment_method grace_expired : Refusal
  leased needs_authentication retry_not_due charging_disabled : Refusal

pub record Charge : Type 0 where
  pub attempt_id : ℕ
  pub idempotency_key : ℕ × ℕ
  pub claim_token : ℕ
  pub customer_id : ℕ
  pub payment_method_id : ℕ

pub data Decision : Type 0 where
  already_succeeded : Decision
  refuse : Refusal → Decision
  charge : Charge → Decision

abbrev pub of_booking : ℕ → Attempt → Bool
of_booking id a = a.booking_id == id

abbrev pub has_attempt_id : ℕ → Attempt → Bool
has_attempt_id id a = a.id == id

-- `ORDER BY attempt_number DESC LIMIT 1`
abbrev pub later_attempt : Attempt → Option Attempt → Attempt
later_attempt a none = a
later_attempt a (some b) = if leb b.attempt_number a.attempt_number then a else b

unfoldable pub latest_attempt : ℕ → List Attempt → Option Attempt
latest_attempt id [] = none
latest_attempt id (a ∷ attempts) =
    let rest = latest_attempt id attempts in
    if of_booking id a then some (later_attempt a rest) else rest

-- `COALESCE(MAX(attempt_number), 0)`
unfoldable pub max_attempt : ℕ → List Attempt → ℕ
max_attempt id [] = 0
max_attempt id (a ∷ attempts) =
    let rest = max_attempt id attempts in
    if of_booking id a then max a.attempt_number rest else rest

-- `grace_period_started_at && new Date(hold_expires_at) <= new Date()`; a null date is 1970.
abbrev pub grace_is_over : Env → Booking → Bool
grace_is_over env b = elim b.grace_period_started_at [
  | none ↦ false
  | some _ ↦ elim b.hold_expires_at [ none ↦ true | some at ↦ leb at env.now ]
]

abbrev pub is_delayed : PaymentFlow → Bool
is_delayed PaymentFlow.separate_charges_delayed_v1 = true
is_delayed _ = false

-- The customer and the payment method, if the booking may be charged at all.
unfoldable pub check_booking : Env → Booking → Result Refusal (ℕ × ℕ)
check_booking env b = do
  require (is_delayed b.payment_flow_version) not_delayed_flow
  require b.tax_configured tax_unconfigured
  customer ← or_throw b.stripe_customer_id no_payment_method
  method ← or_throw b.stripe_payment_method_id no_payment_method
  throw_if (grace_is_over env b) grace_expired
  ok (customer, method)

-- `at && new Date(at) > new Date()`, of a lease and of a retry.
abbrev pub is_ahead : Env → Option ℕ → Bool
is_ahead env none = false
is_ahead env (some at) = ltb env.now at

abbrev pub claim : Env → ℕ → Attempt → Attempt
claim env token a = record a {
  claim_token = some token;
  lease_expires_at = some (env.now + execution_lease_ms);
}

-- The hash of the booking and the number is kept as the pair of them.
abbrev pub new_attempt : Env → ℕ → ℕ → ℤ → String → ℕ → Attempt
new_attempt env token id amount currency number = record {
  id = env.fresh_id;
  booking_id = id;
  attempt_number = number;
  status = pending;
  amount_minor = amount;
  currency = currency;
  idempotency_key = (id, number);
  provider_payment_intent_id = none;
  claim_token = some token;
  lease_expires_at = some (env.now + execution_lease_ms);
  failure_code = none;
  failure_message = none;
}

-- `token` is `crypto.randomUUID()`, and `id` the booking.
module _ (env : Env) (token id : ℕ) (amount : ℤ) (currency : String) where
  unfoldable pub reserve_new : ℕ × ℕ → Db → Decision × Db
  reserve_new (customer, method) db =
      let a = new_attempt env token id amount currency (max_attempt id db.attempts + 1) in
      (
        charge (record {
          attempt_id = a.id;
          idempotency_key = a.idempotency_key;
          claim_token = token;
          customer_id = customer;
          payment_method_id = method;
        }),
        record db { attempts = a ∷ db.attempts },
      )

  unfoldable pub claim_again : ℕ × ℕ → Attempt → Db → Decision × Db
  claim_again (customer, method) a db =
      if is_ahead env a.lease_expires_at then (refuse leased, db) else (
        charge (record {
          attempt_id = a.id;
          idempotency_key = a.idempotency_key;
          claim_token = token;
          customer_id = customer;
          payment_method_id = method;
        }),
        record db { attempts = update_where (has_attempt_id a.id) (claim env token) db.attempts },
      )

  -- By the status of the latest attempt.
  unfoldable pub decide_status : AttemptStatus → ℕ × ℕ → Option ℕ → Attempt → Db → Decision × Db
  decide_status pending method next_retry a db = claim_again method a db
  decide_status processing method next_retry a db = claim_again method a db
  decide_status requires_action method next_retry a db = (refuse needs_authentication, db)
  decide_status failed method next_retry a db =
      if is_ahead env next_retry then (refuse retry_not_due, db) else reserve_new method db
  decide_status succeeded method next_retry a db = reserve_new method db
  decide_status cancelled method next_retry a db = reserve_new method db

  unfoldable pub decide_latest : ℕ × ℕ → Option ℕ → Option Attempt → Db → Decision × Db
  decide_latest method next_retry none db = reserve_new method db
  decide_latest method next_retry (some a) db = decide_status a.status method next_retry a db

  unfoldable pub decide_checked : Option ℕ → Result Refusal (ℕ × ℕ) → Db → Decision × Db
  decide_checked next_retry (err reason) db = (refuse reason, db)
  decide_checked next_retry (ok method) db =
      decide_latest method next_retry (latest_attempt id db.attempts) db

  unfoldable pub decide_booking : Option Booking → Db → Decision × Db
  decide_booking none db = (refuse booking_not_found, db)
  decide_booking (some b) db = decide_checked b.next_retry_at (check_booking env b) db

  -- The first transaction.
  unfoldable pub decide : Db → Decision × Db
  decide db =
      if any (λ (a : Attempt). of_booking id a && is_succeeded a.status) db.attempts
      then (already_succeeded, db)
      else decide_booking (find? (has_id id) db.bookings) db

-- attemptScheduledCharge up to the call of Stripe: the flag is read before all else.
unfoldable pub begin_charge : Bool → Env → ℕ → ℕ → ℤ → String → Db → Decision × Db
begin_charge enabled env token id amount currency db =
    if not enabled then (refuse charging_disabled, db) else decide env token id amount currency db
