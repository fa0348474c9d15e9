-- ===== src/Payments/Timing.antt =====
-- decideChargeTiming of lib/payments/scheduledCharges.ts. `Math.floor` of a negative number of days
-- is below the threshold, as 0 is.
use hostrepository.Base.{
  ℕ, ◌-◌, ◌*◌, ◌/◌, Bool, true, false, Option, none, some, ltb, if◌then◌else◌,
}
use hostrepository.Booking.Cancellation.{day_ms}

abbrev pub scheduled_charge_threshold_days : ℕ
scheduled_charge_threshold_days = 60

pub record ChargeTiming : Type 0 where
  pub immediate : Bool
  pub scheduled_charge_date : Option ℕ

unfoldable pub decide_charge_timing : ℕ → ℕ → ChargeTiming
decide_charge_timing check_in now =
    if ltb scheduled_charge_threshold_days ((check_in * day_ms - now) / day_ms)
    then record {
      immediate = false;
      scheduled_charge_date = some (check_in * day_ms - scheduled_charge_threshold_days * day_ms);
    }
    else record { immediate = true; scheduled_charge_date = none }
