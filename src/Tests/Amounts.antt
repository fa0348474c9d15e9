-- ===== src/Tests/Amounts.antt =====
-- Concrete prices, refunds and reversals.
use hostrepository.Base.{ℕ, ◌≡◌, refl, [], ◌∷◌, arith, ◌*◌, ◌≤◌}
use hostrepository.Base.Int.{pos, ◌+ℤ◌, ◌-ℤ◌, ◌*ℤ◌, ◌≤ℤ◌}
use hostrepository.Base.Round.{round_div, share_bounds}
use hostrepository.Base.Result.{ok}
use hostrepository.Booking.Types.{PriceBreakdown}
use hostrepository.Booking.Price.{calculate_price, breakdown_of, taxes_of}
use hostrepository.Booking.Price.Conservation.{
  IsFraction, IsRate, calculate_price-conserves, calculate_price_shares,
}
use hostrepository.Booking.Cancellation.{calculate_cancellation, moderate}
use hostrepository.Booking.Cancellation.Terms.{
  calculate_cancellation_bounds, calculate_cancellation_mono, standard_policies-IsFalling,
}
use hostrepository.Payments.Reversal.{
  accommodation, host_payout, Amounts, Refunded, apply_refund, apply_refunds,
  compute_refund_reversal_entries, reversal_rows, increment_of, already_reversed, sum_reversed,
}
use hostrepository.Payments.Reversal.Sums.{
  apply_refunds-full, apply_refunds-target, apply_refund-mono,
}
use hostrepository.Tests.Data.{js, pricing, launch_fee, value_or}

abbrev price : PriceBreakdown
price = breakdown_of js pricing (pos 3) launch_fee

price_ok : calculate_price js pricing (pos 3) launch_fee ≡ ok price
unfolding calculate_price
price_ok = refl

calculate_price-conserves_example : pos 39600 ≡ price.host_payout_minor +ℤ pos 4500 +ℤ pos 0
unfolding breakdown_of taxes_of round_div ◌+ℤ◌ ◌*ℤ◌ ◌-ℤ◌
calculate_price-conserves_example =
    calculate_price-conserves js pricing (pos 3) launch_fee price price_ok

js-IsFraction : (r : ℕ) → r ≤ 10000 → IsFraction js r
js-IsFraction r h x n = share_bounds x (pos r) 10000 (omega arith) n (omega arith) (omega arith)

js-IsRate : (r : ℕ) → r ≤ 10000 → IsRate js r
js-IsRate r h x n = (js-IsFraction r h x n).0

calculate_price_shares_example :
    (pos 0 ≤ℤ price.host_revenue_minor)
    × (pos 3000 ≤ℤ price.host_payout_minor)
    × (price.host_payout_minor ≤ℤ price.guest_total_minor)
unfolding breakdown_of
calculate_price_shares_example =
    calculate_price_shares js pricing (pos 3) launch_fee (omega arith) (omega arith)
      (js-IsRate 0 (omega arith)) (js-IsFraction 1500 (omega arith)) (js-IsRate 0 (omega arith))
      (js-IsRate 2000 (omega arith)) (js-IsRate 2000 (omega arith)) price price_ok

calculate_cancellation_bounds_example :
    let o = calculate_cancellation moderate 20010 (pos 39600) (pos 35100) (20008 * 86400000) in
    (pos 0 ≤ℤ o.refundable_minor)
    × (o.refundable_minor ≤ℤ pos 39600)
    × (pos 0 ≤ℤ o.host_retained_minor)
    × (o.host_retained_minor ≤ℤ pos 35100)
calculate_cancellation_bounds_example =
    calculate_cancellation_bounds moderate 20010 (pos 39600) (pos 35100) (20008 * 86400000)
      standard_policies-IsFalling.1 (omega arith) (omega arith)

calculate_cancellation_mono_example :
    (calculate_cancellation moderate 20010
      (pos 39600)
      (pos 35100)
      (20008 * 86400000)).refundable_minor
    ≤ℤ (calculate_cancellation moderate 20010
        (pos 39600)
        (pos 35100)
        (20000 * 86400000)).refundable_minor
calculate_cancellation_mono_example =
    calculate_cancellation_mono moderate 20010 (pos 39600) (pos 35100) standard_policies-IsFalling.1
      (omega arith) (20000 * 86400000) (20008 * 86400000) (omega arith)

abbrev original : Amounts
original accommodation = pos 1001
original _ = pos 333

abbrev unrefunded : Refunded
unrefunded = record { cumulative = pos 0; ledger = [] }

-- 1000 refunded in three parts.
abbrev refunded : Refunded
refunded =
    value_or unrefunded
      (apply_refunds original (pos 1000) unrefunded (pos 333 ∷ pos 333 ∷ pos 334 ∷ []))

refunded_ok :
    apply_refunds original (pos 1000) unrefunded (pos 333 ∷ pos 333 ∷ pos 334 ∷ []) ≡ ok refunded
unfolding apply_refunds apply_refund compute_refund_reversal_entries reversal_rows increment_of
    already_reversed sum_reversed round_div ◌+ℤ◌ ◌*ℤ◌ ◌-ℤ◌
refunded_ok = refl

apply_refunds-full_example : already_reversed refunded.ledger accommodation ≡ pos 1001
unfolding apply_refunds apply_refund compute_refund_reversal_entries reversal_rows increment_of
    already_reversed sum_reversed round_div ◌+ℤ◌ ◌*ℤ◌ ◌-ℤ◌
apply_refunds-full_example =
    apply_refunds-full original (pos 1000) unrefunded refunded (pos 333) (pos 333 ∷ pos 334 ∷ [])
      accommodation refunded_ok refl

apply_refunds-target_example :
    already_reversed refunded.ledger host_payout ≡ round_div (pos 333 *ℤ refunded.cumulative) 1000
apply_refunds-target_example =
    apply_refunds-target original (pos 1000) unrefunded refunded (pos 333) (pos 333 ∷ pos 334 ∷ [])
      host_payout refunded_ok

abbrev refunded_once : Refunded
refunded_once = value_or unrefunded (apply_refund original (pos 1000) unrefunded (pos 333))

refunded_once_ok : apply_refund original (pos 1000) unrefunded (pos 333) ≡ ok refunded_once
unfolding apply_refund compute_refund_reversal_entries ◌+ℤ◌
refunded_once_ok = refl

abbrev refunded_again : Refunded
refunded_again = value_or unrefunded (apply_refund original (pos 1000) refunded_once (pos 333))

refunded_again_ok : apply_refund original (pos 1000) refunded_once (pos 333) ≡ ok refunded_again
unfolding apply_refund compute_refund_reversal_entries ◌+ℤ◌
refunded_again_ok = refl

refunded_first_ok : apply_refunds original (pos 1000) unrefunded (pos 333 ∷ []) ≡ ok refunded_once
unfolding apply_refunds apply_refund compute_refund_reversal_entries ◌+ℤ◌
refunded_first_ok = refl

apply_refund-mono_example :
    (already_reversed refunded_once.ledger accommodation
      ≤ℤ already_reversed refunded_again.ledger accommodation)
    × (already_reversed refunded_again.ledger accommodation ≤ℤ pos 1001)
apply_refund-mono_example =
    apply_refund-mono original (pos 1000) refunded_once refunded_again (pos 333 ∷ []) (pos 333)
      accommodation (omega arith) (omega arith) refunded_first_ok refunded_again_ok
