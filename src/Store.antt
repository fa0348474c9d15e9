-- ===== src/Store.antt =====
-- The tables that the code reads and writes, as far as the modelled queries use their columns
-- (migrations/002 to 033). Identifiers are only compared, so they are numbers; a date is the number
-- of its day and a timestamp a number of milliseconds, both counted from 0000-01-01. A table with a
-- unique key that is written by key is a function of the key, and any other is the list of its rows.
use Prim.Native.String.{String}
use hostrepository.Base.{ℕ, Bool, Option, none, List, []}
use hostrepository.Base.Text.{Text}
use hostrepository.Base.Int.{ℤ}
use hostrepository.Payments.Reversal.{LedgerReversalRow}
use hostrepository.Booking.Types.{
  Double, FeeConfig, PriceBreakdown, CancellationTier, BookingStatus,
}

-- availability_blocks

pub data BlockStatus : Type 0 where
  available blocked booked : BlockStatus

pub data BlockSource : Type 0 where
  host booking ical_sync : BlockSource

pub record Block : Type 0 where
  pub status : BlockStatus
  pub source : BlockSource

-- By property and date, the table's unique key.
abbrev pub Blocks : Type 0
Blocks = ℕ → ℕ → Option Block

-- property_calendar_feeds and property_calendar_events

pub data SyncStatus : Type 0 where
  never running success error : SyncStatus

pub record Feed : Type 0 where
  pub id : ℕ
  pub property_id : ℕ
  pub name : String
  pub feed_url : String
  pub is_active : Bool
  pub last_sync_status : SyncStatus
  pub last_sync_started_at : Option ℕ
  pub last_sync_completed_at : Option ℕ
  pub last_successful_sync_at : Option ℕ
  pub last_error : Option String
  pub remote_etag : Option String
  pub remote_last_modified : Option String

pub record EventRow : Type 0 where
  pub feed_id : ℕ
  pub event_key : Text
  pub external_uid : Text
  pub starts_on : ℕ
  pub ends_on : ℕ
  pub summary : Option Text

-- properties, property_compliance_items, cancellation_policies and fee_configs

pub data Applicability : Type 0 where
  required not_applicable : Applicability

pub record ComplianceItem : Type 0 where
  pub property_id : ℕ
  pub applicability : Applicability
  pub valid_until : Option ℕ

pub record Property : Type 0 where
  pub id : ℕ
  pub host_id : ℕ
  pub currency : String
  pub nightly_price : Double
  pub cleaning_fee : Double
  pub accommodation_vat_rate : Option Double
  pub cleaning_vat_rate : Option Double
  pub max_guests : ℤ
  pub min_stay_nights : ℤ
  pub max_stay_nights : ℤ
  pub cancellation_policy_id : Option ℕ
  pub status : String
  pub compliance_status : String

pub record PolicyRow : Type 0 where
  pub id : ℕ
  pub rules : List CancellationTier

pub record FeeConfigRow : Type 0 where
  pub config : FeeConfig
  pub effective_from : ℕ
  pub active : Bool

-- bookings and booking_price_components

pub data PaymentFlow : Type 0 where
  destination_charge_legacy separate_charges_delayed_v1 : PaymentFlow

pub record Booking : Type 0 where
  pub id : ℕ
  pub property_id : ℕ
  pub guest_id : ℕ
  pub host_id : ℕ
  pub check_in : ℕ
  pub check_out : ℕ
  pub guests : ℤ
  pub status : BookingStatus
  pub cancellation_policy_snapshot : List CancellationTier
  pub idempotency_key : String
  pub hold_expires_at : Option ℕ
  pub guest_name : String
  pub guest_email : String
  pub guest_phone : Option String
  pub payment_flow_version : PaymentFlow
  pub scheduled_charge_date : Option ℕ
  pub archived_at : Option ℕ
  pub next_retry_at : Option ℕ
  pub grace_period_started_at : Option ℕ
  pub stripe_customer_id : Option ℕ
  pub stripe_payment_method_id : Option ℕ
  pub tax_configured : Bool

pub record PriceRow : Type 0 where
  pub booking_id : ℕ
  pub breakdown : PriceBreakdown

-- payments, payment_attempts and host_transfer_entitlements

pub data PaymentStatus : Type 0 where
  pending processing paid failed refunded partially_refunded disputed : PaymentStatus

pub record Payment : Type 0 where
  pub id : ℕ
  pub booking_id : ℕ
  pub provider_payment_intent_id : ℕ
  pub amount_minor : ℤ
  pub status : PaymentStatus

pub data AttemptStatus : Type 0 where
  pending processing succeeded failed requires_action cancelled : AttemptStatus

pub record Attempt : Type 0 where
  pub id : ℕ
  pub booking_id : ℕ
  pub attempt_number : ℕ
  pub status : AttemptStatus
  pub amount_minor : ℤ
  pub currency : String
  pub idempotency_key : ℕ × ℕ
  pub provider_payment_intent_id : Option ℕ
  pub claim_token : Option ℕ
  pub lease_expires_at : Option ℕ
  pub failure_code : Option String
  pub failure_message : Option String

pub data EntitlementStatus : Type 0 where
  entitled release_due transfer_claimed transfer_created transfer_failed : EntitlementStatus
  cancelled_before_transfer : EntitlementStatus

pub record Entitlement : Type 0 where
  pub id : ℕ
  pub booking_id : ℕ
  pub host_id : ℕ
  pub amount_minor : ℤ
  pub tax_amount_minor : Option ℤ
  pub currency : String
  pub status : EntitlementStatus
  pub scheduled_release_at : ℕ
  pub idempotency_key : ℕ
  pub claimed_by_worker_id : Option ℕ
  pub provider_transfer_id : Option ℕ

-- host_profiles and refunds

pub record HostProfile : Type 0 where
  pub id : ℕ
  pub stripe_connect_account_id : Option ℕ

pub data RefundStatus : Type 0 where
  pending succeeded failed : RefundStatus

pub record RefundRow : Type 0 where
  pub booking_id : ℕ
  pub provider_refund_id : Option ℕ
  pub amount_minor : ℤ
  pub status : RefundStatus

-- ledger_entries, by booking, and payouts

pub record LedgerRow : Type 0 where
  pub booking_id : ℕ
  pub entry : LedgerReversalRow

pub data PayoutStatus : Type 0 where
  scheduled in_transit paid failed cancelled : PayoutStatus

pub record PayoutRow : Type 0 where
  pub booking_id : ℕ
  pub amount_minor : ℤ
  pub status : PayoutStatus

-- audit_log: the action, the booking and the status before.

pub data AuditAction : Type 0 where
  booking_cancelled unpaid_booking_discarded : AuditAction

pub record AuditEntry : Type 0 where
  pub action : AuditAction
  pub object_id : ℕ
  pub previous_status : BookingStatus

pub record Db : Type 0 where
  pub blocks : Blocks
  pub feeds : List Feed
  pub events : List EventRow
  pub properties : List Property
  pub compliance_items : List ComplianceItem
  pub policies : List PolicyRow
  pub fee_configs : List FeeConfigRow
  pub bookings : List Booking
  pub prices : List PriceRow
  pub payments : List Payment
  pub attempts : List Attempt
  pub entitlements : List Entitlement
  pub host_profiles : List HostProfile
  pub refunds : List RefundRow
  pub ledger : List LedgerRow
  pub payouts : List PayoutRow
  pub audit : List AuditEntry

abbrev pub empty_db : Db
empty_db = record {
  blocks = λ p d. none;
  feeds = [];
  events = [];
  properties = [];
  compliance_items = [];
  policies = [];
  fee_configs = [];
  bookings = [];
  prices = [];
  payments = [];
  attempts = [];
  entitlements = [];
  host_profiles = [];
  refunds = [];
  ledger = [];
  payouts = [];
  audit = [];
}

-- What a transaction takes from outside: `NOW()`, `CURRENT_DATE` and `gen_random_uuid()`.
pub record Env : Type 0 where
  pub now : ℕ
  pub today : ℕ
  pub fresh_id : ℕ
