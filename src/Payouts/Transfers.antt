-- ===== src/Payouts/Transfers.antt =====
-- lib/payouts/hostTransfers.ts. A release is a check, the calls of Stripe, and an update: `check_release`
-- and `finish_release`, with other workers between them.
pub mod Steps
pub mod Once
use Prim.Native.String.{String}
use hostrepository.Base.{
  ℕ, suc, ◌==◌, Bool, true, false, not, ◌&&◌, ◌||◌, Option, none, some, List, [], ◌∷◌, map, leb,
  if◌then◌else◌, filter, find?, take, any, update_where,
}
use hostrepository.Base.Int.{ℤ}
use hostrepository.Base.Result.{Result, ok, err, ◌>>=◌, ◌>>◌, require, throw_if, or_throw}
use hostrepository.Store.{
  Db, Env, Booking, Entitlement, EntitlementStatus, entitled, transfer_claimed, transfer_created,
  transfer_failed, HostProfile, RefundRow, RefundStatus,
}
use hostrepository.Booking.Types.{BookingStatus}

pub record EntitlementInput : Type 0 where
  pub booking_id : ℕ
  pub host_id : ℕ
  pub amount_minor : ℤ
  pub tax_amount_minor : Option ℤ
  pub currency : String
  pub scheduled_release_at : ℕ

-- The hash of the booking is kept as the booking.
abbrev pub new_entitlement : Env → EntitlementInput → Entitlement
new_entitlement env input = record {
  id = env.fresh_id;
  booking_id = input.booking_id;
  host_id = input.host_id;
  amount_minor = input.amount_minor;
  tax_amount_minor = input.tax_amount_minor;
  currency = input.currency;
  status = entitled;
  scheduled_release_at = input.scheduled_release_at;
  idempotency_key = input.booking_id;
  claimed_by_worker_id = none;
  provider_transfer_id = none;
}

abbrev pub is_owed_for : ℕ → Entitlement → Bool
is_owed_for booking e = e.booking_id == booking

abbrev pub is_entitlement : ℕ → Entitlement → Bool
is_entitlement id e = e.id == id

-- `INSERT … ON CONFLICT (booking_id) DO NOTHING RETURNING id`
unfoldable pub create_entitlement : Env → EntitlementInput → Db → Option ℕ × Db
create_entitlement env input db =
    if any (is_owed_for input.booking_id) db.entitlements then (none, db) else (
      some env.fresh_id,
      record db { entitlements = new_entitlement env input ∷ db.entitlements },
    )

abbrev pub is_entitled : EntitlementStatus → Bool
is_entitled entitled = true
is_entitled _ = false

-- findReleaseDueEntitlementIds

-- `b.status NOT IN ('cancelled', 'disputed')`
abbrev pub may_pay_out : BookingStatus → Bool
may_pay_out BookingStatus.cancelled = false
may_pay_out BookingStatus.disputed = false
may_pay_out _ = true

abbrev pub is_refunded : RefundStatus → Bool
is_refunded RefundStatus.succeeded = true
is_refunded _ = false

abbrev pub is_release_due : Env → Db → Entitlement → Bool
is_release_due env db e =
    any (λ (b : Booking). b.id == e.booking_id && may_pay_out b.status) db.bookings
    && is_entitled e.status
    && leb e.scheduled_release_at env.now
    && not
        (any (λ (r : RefundRow). r.booking_id == e.booking_id && is_refunded r.status) db.refunds)

unfoldable pub find_release_due_entitlement_ids : Env → Db → List ℕ
find_release_due_entitlement_ids env db =
    take 200 (map (λ (e : Entitlement). e.id) (filter (is_release_due env db) db.entitlements))

-- claimEntitlement

abbrev pub is_claimable : ℕ → Entitlement → Bool
is_claimable id e = is_entitlement id e && is_entitled e.status

abbrev pub claim_by : ℕ → Entitlement → Entitlement
claim_by worker e = record e { status = transfer_claimed; claimed_by_worker_id = some worker }

unfoldable pub claim_entitlement : ℕ → ℕ → Db → Bool × Db
claim_entitlement id worker db = (
  any (is_claimable id) db.entitlements,
  record db { entitlements = update_where (is_claimable id) (claim_by worker) db.entitlements },
)

-- attemptRelease

pub data ReleaseRefusal : Type 0 where
  execution_disabled entitlement_not_found not_claimed transfer_exists no_account : ReleaseRefusal

abbrev pub is_transfer_claimed : EntitlementStatus → Bool
is_transfer_claimed transfer_claimed = true
is_transfer_claimed _ = false

abbrev pub is_set : Option ℕ → Bool
is_set none = false
is_set (some _) = true

-- The account to pay, or why nothing is transferred.
unfoldable pub check_release : Bool → ℕ → Db → Result ReleaseRefusal (Entitlement × ℕ)
check_release enabled id db = do
  require enabled execution_disabled
  e ← or_throw (find? (is_entitlement id) db.entitlements) entitlement_not_found
  profile ←
      or_throw (find? (λ (h : HostProfile). h.id == e.host_id) db.host_profiles)
        entitlement_not_found
  require (is_transfer_claimed e.status) not_claimed
  throw_if (is_set e.provider_transfer_id) transfer_exists
  account ← or_throw profile.stripe_connect_account_id no_account
  ok (e, account)

-- What Stripe has: a transfer that it had already or made now, or an error of making it.
pub data TransferAnswer : Type 0 where
  transferred : ℕ → TransferAnswer
  refused : String → TransferAnswer

abbrev pub settle_transfer : TransferAnswer → Entitlement → Entitlement
settle_transfer (transferred transfer) e = record e {
  status = transfer_created;
  provider_transfer_id = some transfer;
}
settle_transfer (refused message) e = record e { status = transfer_failed }

unfoldable pub finish_release : ℕ → TransferAnswer → Db → Db
finish_release id answer db = record db {
  entitlements = update_where (is_entitlement id) (settle_transfer answer) db.entitlements;
}
