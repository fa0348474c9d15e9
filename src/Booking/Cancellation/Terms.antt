-- ===== src/Booking/Cancellation/Terms.antt =====
-- What a cancellation pays back, and how it falls with time (lib/booking/cancellationEngine.ts).
use hostrepository.Base.{ℕ, ◌≤◌, ◌*◌, ◌≡◌, List, [], ◌∷◌, leb, arith, inl, inr, Bool-cases}
use hostrepository.Base.Int.{ℤ, pos, ◌-ℤ◌, ◌≤ℤ◌, max_ℤ, int_laws, mul_mono}
use hostrepository.Base.Round.{round_div_mono, share_bounds}
use hostrepository.Booking.Types.{CancellationTier}
use hostrepository.Booking.Cancellation.{
  refund_percent_for, ms_until, calculate_cancellation, flexible, moderate, strict, hour_ms,
}

-- Every percentage lies between 0 and `top`, and none is above one that stands before it.
abbrev pub IsFalling : ℤ → List CancellationTier → Type 0
IsFalling top [] = Unit
IsFalling top (t ∷ tiers) =
    (pos 0 ≤ℤ t.refund_percent) × (t.refund_percent ≤ℤ top) × IsFalling t.refund_percent tiers

IsFalling-weaken :
    (a b : ℤ) (tiers : List CancellationTier) → a ≤ℤ b → IsFalling a tiers → IsFalling b tiers
IsFalling-weaken a b [] h f = tt
IsFalling-weaken a b (t ∷ tiers) h (low, high, f) = (low, omega arith, f)

refund_percent_bounds :
    (top : ℤ) (tiers : List CancellationTier) (ms : ℕ)
    → pos 0 ≤ℤ top
    → IsFalling top tiers
    → (pos 0 ≤ℤ refund_percent_for tiers ms) × (refund_percent_for tiers ms ≤ℤ top)
unfolding refund_percent_for
refund_percent_bounds top [] ms h f = (omega arith, h)
refund_percent_bounds top (t ∷ tiers) ms h (low, high, f) =
    let (below, above) = refund_percent_bounds t.refund_percent tiers ms low f in
    elim (Bool-cases (leb (t.cutoff_hours * hour_ms) ms)) [
      | inl met ↦ rw met (low, high)
      | inr late ↦ rw late (below, omega arith)
    ]

-- With less time left the percentage is no higher.
refund_percent_mono :
    (top : ℤ) (tiers : List CancellationTier) (ms ms' : ℕ)
    → pos 0 ≤ℤ top
    → IsFalling top tiers
    → ms ≤ ms'
    → refund_percent_for tiers ms ≤ℤ refund_percent_for tiers ms'
unfolding refund_percent_for
refund_percent_mono top [] ms ms' h f less = omega arith
refund_percent_mono top (t ∷ tiers) ms ms' h (low, high, f) less = ground (
  arith,
  refund_percent_mono t.refund_percent tiers ms ms' low f less,
  refund_percent_bounds t.refund_percent tiers ms low f,
)

module _ (rules : List CancellationTier) (check_in : ℕ) (total payout : ℤ)
    (falling : IsFalling (pos 100) rules) (total_nonneg : pos 0 ≤ℤ total) where
  percent_range :
      (now : ℕ)
      → let p = (calculate_cancellation rules check_in total payout now).refund_percent in
        (pos 0 ≤ℤ p) × (p ≤ℤ pos 100)
  unfolding calculate_cancellation
  percent_range now =
      refund_percent_bounds (pos 100) rules (ms_until check_in now) (omega arith) falling

  -- Cancelling later never pays back more, with tiers of which each refunds between 0 and 100 percent
  -- and none more than one before it, and a total that is not negative.
  pub calculate_cancellation_mono :
      (now later : ℕ)
      → now ≤ later
      → (calculate_cancellation rules check_in total payout later).refundable_minor
        ≤ℤ (calculate_cancellation rules check_in total payout now).refundable_minor
  unfolding calculate_cancellation ms_until
  calculate_cancellation_mono now later h = round_div_mono _ _ 100 (
      mul_mono total _ _ total_nonneg
        (refund_percent_mono (pos 100) rules _ _ (omega arith) falling (omega arith)))

max_of_nonneg : (x : ℤ) → pos 0 ≤ℤ x → max_ℤ (pos 0) x ≡ x
max_of_nonneg x h = ground arith

module _ (rules : List CancellationTier) (check_in : ℕ) (total payout : ℤ) (now : ℕ)
    (falling : IsFalling (pos 100) rules) where
  -- With tiers of which each refunds between 0 and 100 percent and none more than one before it, and
  -- amounts that are not negative, the refund lies between nothing and the guest's total, and the
  -- host keeps between nothing and the payout.
  pub calculate_cancellation_bounds :
      pos 0 ≤ℤ total
      → pos 0 ≤ℤ payout
      → let o = calculate_cancellation rules check_in total payout now in
        (pos 0 ≤ℤ o.refundable_minor)
        × (o.refundable_minor ≤ℤ total)
        × (pos 0 ≤ℤ o.host_retained_minor)
        × (o.host_retained_minor ≤ℤ payout)
  unfolding calculate_cancellation
  calculate_cancellation_bounds h k =
      let p = refund_percent_for rules (ms_until check_in now) in
      let (low, high) = percent_range rules check_in total payout falling h now in
      let (refund_low, refund_high) = share_bounds total p 100 (omega arith) h low high in
      let (kept_low, kept_high) =
        share_bounds payout (pos 100 -ℤ p) 100 (omega arith) k (omega int_laws) (omega int_laws) in
      rw (max_of_nonneg _ kept_low) (refund_low, refund_high, kept_low, kept_high)

-- The three standard policies pay back less and less.
pub standard_policies-IsFalling :
    IsFalling (pos 100) flexible × IsFalling (pos 100) moderate × IsFalling (pos 100) strict
standard_policies-IsFalling = omega arith
