-- ===== src/Payments/Charges/Settled.antt =====
-- A booking that has been charged is not charged again, and its grace period does not move
-- (lib/payments/scheduledCharges.ts).
use Prim.Native.String.{String}
use hostrepository.Base.{
  ℕ, ◌≡◌, refl, Bool, true, false, ◌&&◌, inl, inr, Option, none, some, List, any, any-update_where,
  find?, Bool-cases, arith,
}
use hostrepository.Base.Int.{ℤ}
use hostrepository.Base.Result.{Result, ok, err}
use hostrepository.Store.{
  Db, Env, Booking, Attempt, AttemptStatus, pending, processing, succeeded, failed, requires_action,
  cancelled,
}
use hostrepository.Booking.Release.{has_id, is_succeeded}
use hostrepository.Payments.Charges.{
  already_succeeded, of_booking, has_attempt_id, reserve_new, claim_again, claim, is_ahead,
  check_booking, Refusal, decide_status, decide_latest, decide_checked, decide_booking, decide,
}
use hostrepository.Payments.Charges.Record.{
  Outcome, is_claimed, settle, record_outcome, confirm_attempt, confirm_of,
  on_new_flow_payment_succeeded, is_confirmed,
}
use hostrepository.Payments.Charges.Steps.{
  Step, decided, recorded, reported, elsewhere, Reach, here, next,
}

-- The booking has an attempt that succeeded.
abbrev pub has_paid : ℕ → List Attempt → Bool
has_paid id attempts = any (λ (a : Attempt). of_booking id a && is_succeeded a.status) attempts

decide_paid :
    (env : Env) (token id : ℕ) (amount : ℤ) (currency : String) (db : Db)
    → has_paid id db.attempts ≡ true
    → decide env token id amount currency db ≡ (already_succeeded, db)
unfolding decide
decide_paid env token id amount currency db paid = rw paid refl

-- What holds of the tables as they are, after a new attempt and after a claim holds after a decision.
module _ (env : Env) (token id : ℕ) (amount : ℤ) (currency : String) (db : Db) (P : Db → Type 0)
    (same : P db)
    (reserved : (method : ℕ × ℕ) → P (reserve_new env token id amount currency method db).1)
    (claimed : (method : ℕ × ℕ) (a : Attempt)
      → P (claim_again env token id amount currency method a db).1) where
  decide_status_cases :
      (status : AttemptStatus) (method : ℕ × ℕ) (next_retry : Option ℕ) (a : Attempt)
      → P (decide_status env token id amount currency status method next_retry a db).1
  unfolding decide_status
  decide_status_cases pending method next_retry a = claimed method a
  decide_status_cases processing method next_retry a = claimed method a
  decide_status_cases requires_action method next_retry a = same
  decide_status_cases failed method next_retry a = elim (Bool-cases (is_ahead env next_retry)) [
    | inl waiting ↦ rw waiting same
    | inr due ↦ rw due (reserved method)
  ]
  decide_status_cases succeeded method next_retry a = reserved method
  decide_status_cases cancelled method next_retry a = reserved method

  decide_latest_cases :
      (method : ℕ × ℕ) (next_retry : Option ℕ) (o : Option Attempt)
      → P (decide_latest env token id amount currency method next_retry o db).1
  unfolding decide_latest
  decide_latest_cases method next_retry none = reserved method
  decide_latest_cases method next_retry (some a) = decide_status_cases a.status method next_retry a

  decide_checked_cases :
      (next_retry : Option ℕ) (r : Result Refusal (ℕ × ℕ))
      → P (decide_checked env token id amount currency next_retry r db).1
  unfolding decide_checked
  decide_checked_cases next_retry (err reason) = same
  decide_checked_cases next_retry (ok method) = decide_latest_cases method next_retry _

  decide_booking_cases :
      (o : Option Booking) → P (decide_booking env token id amount currency o db).1
  unfolding decide_booking
  decide_booking_cases none = same
  decide_booking_cases (some b) = decide_checked_cases b.next_retry_at (check_booking env b)

  decide_cases : P (decide env token id amount currency db).1
  unfolding decide
  decide_cases = elim (Bool-cases (has_paid id db.attempts)) [
    | inl paid ↦ rw paid same
    | inr unpaid ↦ rw unpaid (decide_booking_cases (find? (has_id id) db.bookings))
  ]

module _ (id : ℕ) where
  abbrev counts : Attempt → Bool
  counts a = of_booking id a && is_succeeded a.status

  reserve_new-has_paid :
      (env : Env) (token other : ℕ) (amount : ℤ) (currency : String) (db : Db)
      → has_paid id db.attempts ≡ true
      → (method : ℕ × ℕ)
      → has_paid id (reserve_new env token other amount currency method db).1.attempts ≡ true
  unfolding reserve_new
  reserve_new-has_paid env token other amount currency db paid method = rw paid (ground arith)

  claim_again-has_paid :
      (env : Env) (token other : ℕ) (amount : ℤ) (currency : String) (db : Db)
      → has_paid id db.attempts ≡ true
      → (method : ℕ × ℕ) (a : Attempt)
      → has_paid id (claim_again env token other amount currency method a db).1.attempts ≡ true
  unfolding claim_again
  claim_again-has_paid env token other amount currency db paid method a =
      elim (Bool-cases (is_ahead env a.lease_expires_at)) [
        | inl busy ↦ rw busy paid
        | inr free ↦ rw free (
            any-update_where counts (has_attempt_id a.id) (claim env token) db.attempts
              (λ x h. elim (Bool-cases (has_attempt_id a.id x)) [
                | inl hit ↦ rw hit h
                | inr miss ↦ rw miss h
              ])
              paid)
      ]

  record_outcome-has_paid :
      (env : Env) (other attempt_id token : ℕ) (o : Outcome) (db : Db)
      → has_paid id db.attempts ≡ true
      → has_paid id (record_outcome env other attempt_id token o db).1.attempts ≡ true
  unfolding record_outcome
  record_outcome-has_paid env other attempt_id token o db paid =
      elim (Bool-cases (any (is_claimed attempt_id token) db.attempts)) [
        | inl ours ↦ rw ours (
            any-update_where counts (is_claimed attempt_id token) (settle o) db.attempts
              (λ x h.
                let skipped : is_claimed attempt_id token x ≡ false = ground arith in rw skipped h)
              paid)
        | inr lost ↦ rw lost paid
      ]

  confirm_of-has_paid :
      (other : ℕ) (attempt_id : Option ℕ) (intent : ℕ) (o : Option Booking) (db : Db)
      → has_paid id db.attempts ≡ true
      → has_paid id (confirm_of other attempt_id intent o db).attempts ≡ true
  unfolding confirm_of
  confirm_of-has_paid other attempt_id intent none db paid = paid
  confirm_of-has_paid other none intent (some b) db paid = elim (Bool-cases (is_confirmed b)) [
    | inl before ↦ rw before paid
    | inr waiting ↦ rw waiting paid
  ]
  confirm_of-has_paid other (some attempt_id) intent (some b) db paid =
      elim (Bool-cases (is_confirmed b)) [
        | inl before ↦ rw before paid
        | inr waiting ↦ rw waiting (
            any-update_where counts (has_attempt_id attempt_id) (confirm_attempt intent) db.attempts
              (λ x h. elim (Bool-cases (has_attempt_id attempt_id x)) [
                | inl hit ↦ rw hit (ground arith)
                | inr miss ↦ rw miss h
              ])
              paid)
      ]

  Step-has_paid :
      {db db' : Db} → Step db db' → has_paid id db.attempts ≡ true → has_paid id db'.attempts ≡ true
  unfolding on_new_flow_payment_succeeded
  Step-has_paid (decided env token other amount currency db fresh) paid =
      decide_cases env token other amount currency db (λ (d : Db). has_paid id d.attempts ≡ true)
        paid (reserve_new-has_paid env token other amount currency db paid)
        (claim_again-has_paid env token other amount currency db paid)
  Step-has_paid (recorded env other attempt_id token o db) paid =
      record_outcome-has_paid env other attempt_id token o db paid
  Step-has_paid (reported other attempt_id intent db) paid =
      confirm_of-has_paid other attempt_id intent (find? (has_id other) db.bookings) db paid
  Step-has_paid (elsewhere same) paid = rw same paid

-- Once an attempt of a booking has succeeded, no later decision charges that booking: it says that the
-- booking is paid and changes no row. Between the two come, in any order, decisions, recorded outcomes
-- and reported payments of any booking, late ones included, and transactions that leave the attempts
-- as they are, which those of the immediate charge do not. New identifiers are in no row.
pub Reach-never_again :
    (env : Env) (token id : ℕ) (amount : ℤ) (currency : String) {start db : Db}
    → has_paid id start.attempts ≡ true
    → Reach start db
    → decide env token id amount currency db ≡ (already_succeeded, db)
Reach-never_again env token id amount currency {start} {db} paid r =
    decide_paid env token id amount currency db (go r)
  where
    go : {db : Db} → Reach start db → has_paid id db.attempts ≡ true
    go here = paid
    go (next r s) = Step-has_paid id s (go r)
