-- ===== src/Booking/Cancellation.antt =====
-- lib/booking/cancellationEngine.ts. Times are milliseconds; `hoursUntil` stays in
-- milliseconds, and a cutoff of `c` hours is met at `c * 3600000` of them.
pub mod Terms
use hostrepository.Base.{
  ℕ, ◌+◌, ◌-◌, ◌*◌, ◌≡◌, refl, Bool, true, false, List, [], ◌∷◌, if◌then◌else◌, leb,
}
use hostrepository.Base.Int.{ℤ, pos, ◌-ℤ◌, ◌*ℤ◌, max_ℤ}
use hostrepository.Base.Round.{round_div}
use hostrepository.Booking.Types.{CancellationTier}

abbrev pub day_ms : ℕ
day_ms = 86400000

abbrev pub hour_ms : ℕ
hour_ms = 3600000

abbrev tier : ℕ → ℕ → CancellationTier
tier cutoff percent = record { cutoff_hours = cutoff; refund_percent = pos percent }

-- `STANDARD_POLICIES`
abbrev pub flexible : List CancellationTier
flexible = tier 24 100 ∷ tier 0 0 ∷ []

abbrev pub moderate : List CancellationTier
moderate = tier 120 100 ∷ tier 24 50 ∷ tier 0 0 ∷ []

abbrev pub strict : List CancellationTier
strict = tier 336 50 ∷ tier 0 0 ∷ []

-- `hoursUntil`, in milliseconds: subtraction stops at 0 as `Math.max(0, …)` does.
unfoldable pub ms_until : ℕ → ℕ → ℕ
ms_until check_in now = check_in * day_ms - now

unfoldable pub refund_percent_for : List CancellationTier → ℕ → ℤ
refund_percent_for [] ms = pos 0
refund_percent_for (t ∷ tiers) ms =
    if leb (t.cutoff_hours * hour_ms) ms then t.refund_percent else refund_percent_for tiers ms

pub record CancellationOutcome : Type 0 where
  pub refund_percent : ℤ
  pub refundable_minor : ℤ
  pub host_retained_minor : ℤ

unfoldable pub calculate_cancellation : List CancellationTier → ℕ → ℤ → ℤ → ℕ → CancellationOutcome
calculate_cancellation rules check_in guest_total host_payout now =
    let percent = refund_percent_for rules (ms_until check_in now) in
    record {
      refund_percent = percent;
      refundable_minor = round_div (guest_total *ℤ percent) 100;
      host_retained_minor = max_ℤ (pos 0) (round_div (host_payout *ℤ (pos 100 -ℤ percent)) 100);
    }
