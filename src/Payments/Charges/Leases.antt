-- ===== src/Payments/Charges/Leases.antt =====
-- A lease keeps the other workers out (lib/payments/scheduledCharges.ts).
use Prim.Native.String.{String}
use hostrepository.Base.{
  ℕ, ◌≡◌, refl, sym, subst, ◌∙◌, true, ◌&&◌, ◌⊎◌, inl, inr, Option, none, some, any, find?, In,
  Bool-cases, arith,
}
use hostrepository.Base.Int.{ℤ}
use hostrepository.Base.Result.{Result, ok, err}
use hostrepository.Store.{
  Db, Env, Booking, Attempt, AttemptStatus, pending, processing, succeeded, failed, requires_action,
  cancelled,
}
use hostrepository.Booking.Release.{has_id, is_succeeded}
use hostrepository.Payments.Charges.{
  Decision, Refusal, already_succeeded, refuse, leased, booking_not_found, of_booking,
  latest_attempt, is_ahead, claim_again, decide_status, decide_latest, decide_checked,
  decide_booking, decide, check_booking,
}
use hostrepository.Payments.Charges.Once.{is_live, IsSound, IsLatest, latest_attempt-IsLatest}

module _ (env : Env) (token id : ℕ) (amount : ℤ) (currency : String) (db : Db) (a : Attempt) where
  -- The decision is a refusal, and no row changes.
  abbrev IsRefused : Decision × Db → Type 0
  IsRefused d = (reason : Refusal) × (d ≡ (refuse reason, db))

  module _ (sound : IsSound db.attempts) (i : In a db.attempts) (ours : a.booking_id ≡ id)
      (unsettled : (a.status ≡ pending) ⊎ (a.status ≡ processing))
      (busy : is_ahead env a.lease_expires_at ≡ true) where
    claim_again-IsRefused :
        (method : ℕ × ℕ) → IsRefused (claim_again env token id amount currency method a db)
    unfolding claim_again
    claim_again-IsRefused method = (leased, rw busy refl)

    decide_status-IsRefused :
        (status : AttemptStatus) (method : ℕ × ℕ) (next_retry : Option ℕ)
        → (status ≡ pending) ⊎ (status ≡ processing)
        → IsRefused (decide_status env token id amount currency status method next_retry a db)
    unfolding decide_status
    decide_status-IsRefused pending method next_retry s = claim_again-IsRefused method
    decide_status-IsRefused processing method next_retry s = claim_again-IsRefused method
    decide_status-IsRefused requires_action method next_retry s = absurd (ground arith)
    decide_status-IsRefused failed method next_retry s = absurd (ground arith)
    decide_status-IsRefused succeeded method next_retry s = absurd (ground arith)
    decide_status-IsRefused cancelled method next_retry s = absurd (ground arith)

    decide_latest-IsRefused :
        (method : ℕ × ℕ) (next_retry : Option ℕ) (o : Option Attempt)
        → IsLatest id db.attempts o
        → IsRefused (decide_latest env token id amount currency method next_retry o db)
    unfolding decide_latest
    decide_latest-IsRefused method next_retry none l = absurd (l a i ours)
    decide_latest-IsRefused method next_retry (some b) (j, same, top) =
        let live : is_live a.status ≡ true = elim unsettled [
          | inl e ↦ rw e refl
          | inr e ↦ rw e refl
        ] in
        elim (sound.0 a b i j (ours ∙ sym same) live) [
          | inl e ↦
              subst
                (λ (x : Attempt).
                  IsRefused
                    (decide_status env token id amount currency x.status method next_retry x db))
                e (decide_status-IsRefused a.status method next_retry unsettled)
          | inr less ↦ let below = top a i ours in absurd (omega arith)
        ]

    decide_checked-IsRefused :
        (next_retry : Option ℕ) (r : Result Refusal (ℕ × ℕ))
        → IsRefused (decide_checked env token id amount currency next_retry r db)
    unfolding decide_checked
    decide_checked-IsRefused next_retry (err reason) = (reason, refl)
    decide_checked-IsRefused next_retry (ok method) =
        decide_latest-IsRefused method next_retry (latest_attempt id db.attempts)
          (latest_attempt-IsLatest id db.attempts)

    decide_booking-IsRefused :
        (o : Option Booking) → IsRefused (decide_booking env token id amount currency o db)
    unfolding decide_booking
    decide_booking-IsRefused none = (booking_not_found, refl)
    decide_booking-IsRefused (some b) =
        decide_checked-IsRefused b.next_retry_at (check_booking env b)

    -- While a worker's lease on an attempt lasts, no worker is told to charge that booking: the
    -- decision is a refusal, or that the booking is paid, and no row changes. The attempts are sound
    -- and the leased one is pending or processing.
    pub decide_leased :
        (decide env token id amount currency db ≡ (already_succeeded, db))
        ⊎ ((reason : Refusal) × (decide env token id amount currency db ≡ (refuse reason, db)))
    unfolding decide
    decide_leased =
        let paid = any (λ (a : Attempt). of_booking id a && is_succeeded a.status) db.attempts in
        elim (Bool-cases paid) [
          | inl settled ↦ inl (rw settled refl)
          | inr unpaid ↦ inr (rw unpaid (decide_booking-IsRefused (find? (has_id id) db.bookings)))
        ]
