-- ===== src/Booking/Price/Conservation.antt =====
-- Where the guest's money goes, and the range of each share (lib/booking/priceEngine.ts).
use hostrepository.Base.{◌≡◌, Option, none, some, if◌then◌else◌, arith, Bool-cases, inl, inr}
use hostrepository.Base.Int.{ℤ, pos, ◌+ℤ◌, ◌*ℤ◌, ◌≤ℤ◌, int_laws, mul_nonneg}
use hostrepository.Base.Result.{ok}
use hostrepository.Booking.Types.{JsMath, Double, PropertyForPricing, FeeConfig, PriceBreakdown}
use hostrepository.Booking.Price.{calculate_price, breakdown_of, taxes_of, is_launch, round_vat}

-- `0 <= Math.round(x * r) <= x` for an amount `x` that is not negative, which holds of a rate from
-- 0 to 1.
abbrev pub IsFraction : JsMath → Double → Type 0
IsFraction js r =
    (x : ℤ) → pos 0 ≤ℤ x → (pos 0 ≤ℤ js.round_product x r) × (js.round_product x r ≤ℤ x)

-- `Math.round(x * r)` is not negative for an amount `x` that is not, as for every rate of VAT.
abbrev pub IsRate : JsMath → Double → Type 0
IsRate js r = (x : ℤ) → pos 0 ≤ℤ x → pos 0 ≤ℤ js.round_product x r

abbrev pub IsVat : JsMath → Option Double → Type 0
IsVat js none = Unit
IsVat js (some r) = IsRate js r

round_vat_nonneg :
    (js : JsMath) (x : ℤ) (rate : Option Double)
    → IsVat js rate
    → pos 0 ≤ℤ x
    → pos 0 ≤ℤ round_vat js x rate
round_vat_nonneg js x none h k = omega arith
round_vat_nonneg js x (some r) h k = h x k

module _ (js : JsMath) (property : PropertyForPricing) (nights : ℤ) (fee : FeeConfig) where
  priced :
      (b : PriceBreakdown)
      → calculate_price js property nights fee ≡ ok b
      → (b ≡ breakdown_of js property nights fee) × (pos 1 ≤ℤ nights)
  unfolding calculate_price
  priced b e = ground arith

  breakdown_of-conserves :
      let b = breakdown_of js property nights fee in
      b.guest_total_minor
      ≡ b.host_payout_minor
        +ℤ b.host_revenue_minor
        +ℤ (if is_launch fee then pos 0 else b.taxes_minor)
  unfolding breakdown_of
  breakdown_of-conserves = elim (Bool-cases (is_launch fee)) [
    | inl launch ↦ rw launch (omega int_laws)
    | inr historic ↦ rw historic (omega int_laws)
  ]

  -- Every penny that the guest is charged is accounted for: the total is the host's payout plus the
  -- platform's revenue, plus the taxes where the fee configuration is not the launch one (there the
  -- payout holds them).
  pub calculate_price-conserves :
      (b : PriceBreakdown)
      → calculate_price js property nights fee ≡ ok b
      → b.guest_total_minor
        ≡ b.host_payout_minor
          +ℤ b.host_revenue_minor
          +ℤ (if is_launch fee then pos 0 else b.taxes_minor)
  calculate_price-conserves b e = rw (priced b e).0 breakdown_of-conserves

  module _ (p : pos 0 ≤ℤ property.nightly_price_minor) (c : pos 0 ≤ℤ property.cleaning_fee_minor)
      (service : IsRate js fee.guest_service_fee_rate)
      (commission : IsFraction js fee.host_commission_rate) (tax : IsRate js fee.tax_rate)
      (accommodation_vat : IsVat js property.accommodation_vat_rate)
      (cleaning_vat : IsVat js property.cleaning_vat_rate) where
    taxes_of_nonneg : (x : ℤ) → pos 0 ≤ℤ x → pos 0 ≤ℤ taxes_of js property fee x
    unfolding taxes_of
    taxes_of_nonneg x h = elim (Bool-cases (is_launch fee)) [
      | inl launch ↦
          let first = round_vat_nonneg js x property.accommodation_vat_rate accommodation_vat h in
          let second =
            round_vat_nonneg js property.cleaning_fee_minor property.cleaning_vat_rate cleaning_vat
              c in
          rw launch (omega int_laws)
      | inr historic ↦ rw historic (tax (x +ℤ property.cleaning_fee_minor) (omega int_laws))
    ]

    breakdown_of_shares :
        pos 1 ≤ℤ nights
        → let b = breakdown_of js property nights fee in
          (pos 0 ≤ℤ b.host_revenue_minor)
          × (b.cleaning_minor ≤ℤ b.host_payout_minor)
          × (b.host_payout_minor ≤ℤ b.guest_total_minor)
    unfolding breakdown_of
    breakdown_of_shares n =
        let stay : ℤ = property.nightly_price_minor *ℤ nights in
        let stay_nonneg : pos 0 ≤ℤ stay =
          mul_nonneg property.nightly_price_minor nights p (omega arith) in
        let taxes = taxes_of_nonneg stay stay_nonneg in
        let fee_nonneg = service stay stay_nonneg in
        let (low, high) = commission stay stay_nonneg in
        elim (Bool-cases (is_launch fee)) [
          | inl launch ↦ rw launch (omega int_laws)
          | inr historic ↦ rw historic (omega int_laws)
        ]

    -- With prices that are not negative, a commission rate from 0 to 1, and rates of the guest's fee,
    -- of tax and of VAT that are not negative, in every price that is given the host's payout lies
    -- between the cleaning fee and the guest's total, and the platform's revenue is not negative.
    pub calculate_price_shares :
        (b : PriceBreakdown)
        → calculate_price js property nights fee ≡ ok b
        → (pos 0 ≤ℤ b.host_revenue_minor)
          × (b.cleaning_minor ≤ℤ b.host_payout_minor)
          × (b.host_payout_minor ≤ℤ b.guest_total_minor)
    calculate_price_shares b e = let (same, n) = priced b e in rw same (breakdown_of_shares n)
