-- ===== src/Payments/Initiation.antt =====
-- initiateRefund of lib/payments/refund.ts: the local row first, then Stripe, then the row again. A call
-- may stop after any of these three; another call for the same refund is its retry.
pub mod Single
pub mod Calls
use hostrepository.Base.{
  ℕ, zero, suc, Bool, true, false, not, ◌&&◌, Option, none, some, List, [], ◌∷◌, ◌==◌, leb, take,
  find?, filter, update_where, if◌then◌else◌,
}
use hostrepository.Base.Text.{Text}
use hostrepository.Store.{Env, RefundStatus, pending}

pub data RefundReason : Type 0 where
  guest_cancellation host_cancellation admin_goodwill dispute pricing_error : RefundReason

abbrev pub same_reason : RefundReason → RefundReason → Bool
same_reason guest_cancellation guest_cancellation = true
same_reason host_cancellation host_cancellation = true
same_reason admin_goodwill admin_goodwill = true
same_reason dispute dispute = true
same_reason pricing_error pricing_error = true
same_reason _ _ = false

pub data RefundInitiator : Type 0 where
  guest host admin system : RefundInitiator

pub record InitiateRefundInput : Type 0 where
  pub booking_id : ℕ
  pub payment_id : ℕ
  pub provider_payment_intent_id : ℕ
  pub amount_minor : ℕ
  pub currency : Text
  pub reason : RefundReason
  pub initiated_by : RefundInitiator

-- A row of refunds, with the columns that are read and written here.
pub record RefundAttempt : Type 0 where
  pub id : ℕ
  pub booking_id : ℕ
  pub payment_id : ℕ
  pub amount_minor : ℕ
  pub currency : Text
  pub reason : RefundReason
  pub initiated_by : RefundInitiator
  pub status : RefundStatus
  pub provider_refund_id : Option ℕ
  pub created_at : ℕ

-- A refund of Stripe's, with the identifier that its metadata hold.
pub record StripeRefund : Type 0 where
  pub id : ℕ
  pub payment_intent : ℕ
  pub amount : ℕ
  pub host_refund_id : ℕ

abbrev pub is_pending : RefundStatus → Bool
is_pending pending = true
is_pending _ = false

abbrev pub is_same_refund : InitiateRefundInput → RefundAttempt → Bool
is_same_refund input row =
    row.booking_id == input.booking_id
    && row.payment_id == input.payment_id
    && row.amount_minor == input.amount_minor
    && same_reason row.reason input.reason
    && is_pending row.status

abbrev pub later_row : RefundAttempt → Option RefundAttempt → RefundAttempt
later_row row none = row
later_row row (some other) = if leb other.created_at row.created_at then row else other

-- `ORDER BY created_at DESC LIMIT 1`
unfoldable pub existing_attempt : InitiateRefundInput → List RefundAttempt → Option RefundAttempt
existing_attempt input [] = none
existing_attempt input (row ∷ rows) =
    let rest = existing_attempt input rows in
    if is_same_refund input row then some (later_row row rest) else rest

abbrev pub new_refund_row : Env → InitiateRefundInput → RefundAttempt
new_refund_row env input = record {
  id = env.fresh_id;
  booking_id = input.booking_id;
  payment_id = input.payment_id;
  amount_minor = input.amount_minor;
  currency = input.currency;
  reason = input.reason;
  initiated_by = input.initiated_by;
  status = pending;
  provider_refund_id = none;
  created_at = env.now;
}

-- The row's identifier, and whether this is the retry of an unresolved attempt.
abbrev pub Claim : Type 0
Claim = ℕ × Bool

abbrev pub insert_refund_row :
    Env → InitiateRefundInput → List RefundAttempt → Claim × List RefundAttempt
insert_refund_row env input rows = ((env.fresh_id, false), new_refund_row env input ∷ rows)

abbrev pub claim_row :
    Env
    → InitiateRefundInput
    → List RefundAttempt
    → Option RefundAttempt
    → Claim × List RefundAttempt
claim_row env input rows none = insert_refund_row env input rows
claim_row env input rows (some row) = elim row.provider_refund_id [
  | none ↦ ((row.id, true), rows)
  | some known ↦ insert_refund_row env input rows
]

-- The first part: a row that is found or inserted.
unfoldable pub claim_refund :
    Env → InitiateRefundInput → List RefundAttempt → Claim × List RefundAttempt
claim_refund env input rows = claim_row env input rows (existing_attempt input rows)

abbrev pub is_refund_of : ℕ → StripeRefund → Bool
is_refund_of id refund = refund.host_refund_id == id

-- `stripe.refunds.list({ payment_intent, limit: 20 })`, the newest first.
unfoldable pub list_refunds : ℕ → List StripeRefund → List StripeRefund
list_refunds intent refunds =
    take 20 (filter (λ (refund : StripeRefund). refund.payment_intent == intent) refunds)

abbrev pub new_refund : ℕ → InitiateRefundInput → ℕ → StripeRefund
new_refund stripe_id input id = record {
  id = stripe_id;
  payment_intent = input.provider_payment_intent_id;
  amount = input.amount_minor;
  host_refund_id = id;
}

abbrev pub remembered_refund : Bool → ℕ → List StripeRefund → Option StripeRefund
remembered_refund true id refunds = find? (is_refund_of id) refunds
remembered_refund false id refunds = none

-- `stripe.refunds.create` with the row's idempotency key. While Stripe remembers the key, a second
-- request gives the refund of the first; `stripe_id` is the identifier of a new one.
unfoldable pub create_refund :
    Bool → ℕ → InitiateRefundInput → ℕ → List StripeRefund → StripeRefund × List StripeRefund
create_refund remembered stripe_id input id refunds =
    elim (remembered_refund remembered id refunds) [
      | some refund ↦ (refund, refunds)
      | none ↦ (new_refund stripe_id input id, new_refund stripe_id input id ∷ refunds)
    ]

-- The reconciliation of a retry.
abbrev pub reconciled : InitiateRefundInput → Claim → List StripeRefund → Option StripeRefund
reconciled input (id, true) refunds =
    find? (is_refund_of id) (list_refunds input.provider_payment_intent_id refunds)
reconciled input (id, false) refunds = none

-- The second part: what Stripe is asked.
unfoldable pub ask_stripe :
    Bool → ℕ → InitiateRefundInput → Claim → List StripeRefund → StripeRefund × List StripeRefund
ask_stripe remembered stripe_id input claim refunds = elim (reconciled input claim refunds) [
  | some refund ↦ (refund, refunds)
  | none ↦ create_refund remembered stripe_id input claim.0 refunds
]

abbrev pub set_provider_id : ℕ → RefundAttempt → RefundAttempt
set_provider_id stripe_id row = record row { provider_refund_id = some stripe_id }

-- The third part.
unfoldable pub save_refund : ℕ → ℕ → List RefundAttempt → List RefundAttempt
save_refund id stripe_id =
    update_where (λ (row : RefundAttempt). row.id == id) (set_provider_id stripe_id)

pub record RefundTables : Type 0 where
  pub rows : List RefundAttempt
  pub stripe : List StripeRefund

-- How far a call gets.
pub data Progress : Type 0 where
  claimed asked saved : Progress

unfoldable pub finish_refund :
    Progress → Bool → ℕ → InitiateRefundInput → Claim → RefundTables → RefundTables
finish_refund claimed remembered stripe_id input claim tables = tables
finish_refund asked remembered stripe_id input claim tables = record tables {
  stripe = (ask_stripe remembered stripe_id input claim tables.stripe).1;
}
finish_refund saved remembered stripe_id input claim tables =
    let (refund, refunds) = ask_stripe remembered stripe_id input claim tables.stripe in
    record { rows = save_refund claim.0 refund.id tables.rows; stripe = refunds }

-- `initiateRefund`, as far as it gets.
unfoldable pub initiate_refund :
    Env → Progress → Bool → ℕ → InitiateRefundInput → RefundTables → RefundTables
initiate_refund env progress remembered stripe_id input tables =
    let (claim, rows) = claim_refund env input tables.rows in
    finish_refund progress remembered stripe_id input claim (record tables { rows = rows })
