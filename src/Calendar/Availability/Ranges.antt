-- ===== src/Calendar/Availability/Ranges.antt =====
-- Which dates a range lists.
use hostrepository.Base.{ℕ, zero, suc, ◌+◌, ◌-◌, ◌≡◌, Bool, List, ◌==◌, within, any, arith}
use hostrepository.Calendar.Availability.{dates_from, enumerate_dates}

abbrev pub listed : ℕ → List ℕ → Bool
listed e ds = any (λ (d : ℕ). e == d) ds

listed-dates_from : (e d n : ℕ) → listed e (dates_from d n) ≡ within d (d + n) e
listed-dates_from e d zero = ground arith
listed-dates_from e d (suc n) = ground (arith, listed-dates_from e (d + 1) n)

pub listed-enumerate_dates : (e lo hi : ℕ) → listed e (enumerate_dates lo hi) ≡ within lo hi e
listed-enumerate_dates e lo hi = ground (arith, listed-dates_from e lo (hi - lo))
