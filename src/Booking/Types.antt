-- ===== src/Booking/Types.antt =====
-- lib/booking/types.ts. Amounts are whole minor units. A JavaScript double that the code reads
-- from a NUMERIC column is kept as its bit pattern, and only `JsMath` computes with it.
use Prim.Native.String.{String}
use hostrepository.Base.{ℕ, Option}
use hostrepository.Base.Int.{ℤ}

abbrev pub Double : Type 0
Double = ℕ

-- Arithmetic on doubles, which the JavaScript engine does.
pub record JsMath : Type 0 where
  -- `Math.round(x * r)`
  pub round_product : ℤ → Double → ℤ
  -- `Math.round(Number(x) * 100)`
  pub to_minor : Double → ℤ

pub record PropertyForPricing : Type 0 where
  pub nightly_price_minor : ℤ
  pub cleaning_fee_minor : ℤ
  pub currency : String
  pub accommodation_vat_rate : Option Double
  pub cleaning_vat_rate : Option Double

pub record FeeConfig : Type 0 where
  pub version : String
  pub guest_service_fee_rate : Double
  pub host_commission_rate : Double
  pub tax_rate : Double

pub record PriceBreakdown : Type 0 where
  pub currency : String
  pub nights : ℤ
  pub accommodation_minor : ℤ
  pub cleaning_minor : ℤ
  pub guest_service_fee_minor : ℤ
  pub taxes_minor : ℤ
  pub guest_total_minor : ℤ
  pub host_commission_minor : ℤ
  pub host_payout_minor : ℤ
  pub host_revenue_minor : ℤ
  pub fee_config_version : String

pub record CancellationTier : Type 0 where
  pub cutoff_hours : ℕ
  pub refund_percent : ℤ

pub data BookingStatus : Type 0 where
  draft pending_payment confirmed cancelled completed refunded disputed : BookingStatus

-- The errors that the booking code throws, `BookingError` codes and plain `Error`s.
pub data BookingError : Type 0 where
  invalid_date_range invalid_guests property_not_found property_not_available : BookingError
  too_many_guests below_min_stay above_max_stay : BookingError
  dates_unavailable : ℕ → BookingError
  booking_not_found not_cancellable : BookingError
  already_archived not_discardable payment_exists : BookingError
  nights_not_positive vat_unconfigured no_active_fee_config : BookingError
