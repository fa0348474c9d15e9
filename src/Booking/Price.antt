-- ===== src/Booking/Price.antt =====
-- lib/booking/priceEngine.ts. A date is the number of its day, so the rounded difference of two
-- midnights is the difference of the numbers.
pub mod Conservation
use Prim.Native.String.{String}
use text.Mathlib.Text.{◌==◌ as str_eq}
use hostrepository.Base.{
  ℕ, Bool, true, false, ◌&&◌, ◌||◌, Option, none, some, List, if◌then◌else◌, find?,
}
use hostrepository.Base.Int.{ℤ, pos, ◌+ℤ◌, ◌-ℤ◌, ◌*ℤ◌, leb_ℤ, sub_ℕ}
use hostrepository.Base.Result.{Result, ok, err, or_throw}
use hostrepository.Booking.Types.{
  JsMath, Double, PropertyForPricing, FeeConfig, PriceBreakdown, BookingError, nights_not_positive,
  vat_unconfigured, no_active_fee_config,
}

unfoldable pub nights_between : ℕ → ℕ → ℤ
nights_between check_in check_out = sub_ℕ check_out check_in

-- `feeConfig.version === "host-15-inclusive-v1"`
abbrev pub is_launch : FeeConfig → Bool
is_launch fee = str_eq fee.version "host-15-inclusive-v1"

abbrev pub is_null : Option Double → Bool
is_null none = true
is_null (some _) = false

-- `Math.round(x * rate!)`; a null rate counts as 0 in JavaScript, and the guard keeps it out.
abbrev round_vat : JsMath → ℤ → Option Double → ℤ
round_vat js x none = pos 0
round_vat js x (some rate) = js.round_product x rate

unfoldable pub taxes_of : JsMath → PropertyForPricing → FeeConfig → ℤ → ℤ
taxes_of js property fee accommodation =
    if is_launch fee
    then round_vat js accommodation property.accommodation_vat_rate
      +ℤ round_vat js property.cleaning_fee_minor property.cleaning_vat_rate
    else js.round_product (accommodation +ℤ property.cleaning_fee_minor) fee.tax_rate

unfoldable pub breakdown_of : JsMath → PropertyForPricing → ℤ → FeeConfig → PriceBreakdown
breakdown_of js property nights fee =
    let accommodation = property.nightly_price_minor *ℤ nights in
    let cleaning = property.cleaning_fee_minor in
    let service_fee = js.round_product accommodation fee.guest_service_fee_rate in
    let taxes = taxes_of js property fee accommodation in
    let commission = js.round_product accommodation fee.host_commission_rate in
    record {
      currency = property.currency;
      nights = nights;
      accommodation_minor = accommodation;
      cleaning_minor = cleaning;
      guest_service_fee_minor = service_fee;
      taxes_minor = taxes;
      guest_total_minor = accommodation +ℤ cleaning +ℤ service_fee +ℤ taxes;
      host_commission_minor = commission;
      host_payout_minor =
          accommodation +ℤ cleaning +ℤ (if is_launch fee then taxes else pos 0) -ℤ commission;
      host_revenue_minor = commission +ℤ service_fee;
      fee_config_version = fee.version;
    }

unfoldable pub calculate_price :
    JsMath → PropertyForPricing → ℤ → FeeConfig → Result BookingError PriceBreakdown
calculate_price js property nights fee =
    if leb_ℤ nights (pos 0)
    then err nights_not_positive
    else if is_launch fee
        && (is_null property.accommodation_vat_rate || is_null property.cleaning_vat_rate)
    then err vat_unconfigured
    else ok (breakdown_of js property nights fee)
