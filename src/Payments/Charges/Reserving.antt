-- ===== src/Payments/Charges/Reserving.antt =====
-- The first transaction of a charge keeps the attempts sound (lib/payments/scheduledCharges.ts).
use Prim.Native.String.{String}
use hostrepository.Base.{
  ℕ, ◌≡◌, ◌≢◌, refl, sym, ◌∙◌, true, false, ◌&&◌, inl, inr, Option, none, some, any, find?, In,
  In-any, Bool-cases, arith,
}
use hostrepository.Base.Int.{ℤ}
use hostrepository.Base.Result.{Result, ok, err}
use hostrepository.Store.{
  Db, Env, Booking, Attempt, AttemptStatus, pending, processing, succeeded, failed, requires_action,
  cancelled,
}
use hostrepository.Booking.Release.{has_id, is_succeeded}
use hostrepository.Payments.Charges.{
  Refusal, of_booking, has_attempt_id, latest_attempt, is_ahead, claim, reserve_new, claim_again,
  decide_status, decide_latest, decide_checked, decide_booking, decide, check_booking,
}
use hostrepository.Payments.Charges.Once.{
  is_live, IsSound, IsLatest, latest_attempt-IsLatest, update-IsSound, insert-IsSound,
}

-- A new identifier is in no row.
abbrev pub IsFresh : Env → Db → Type 0
IsFresh env db = (b : Attempt) → In b db.attempts → b.id ≢ env.fresh_id

module _ (env : Env) (token id : ℕ) (amount : ℤ) (currency : String) (db : Db)
    (fresh : IsFresh env db) (sound : IsSound db.attempts)
    (unpaid : any (λ (a : Attempt). of_booking id a && is_succeeded a.status) db.attempts
      ≡ false) where
  not_paid : (b : Attempt) → In b db.attempts → b.booking_id ≡ id → is_succeeded b.status ≡ false
  not_paid b i same = elim (Bool-cases (is_succeeded b.status)) [
    | inl paid ↦
        let hit =
          In-any (λ (a : Attempt). of_booking id a && is_succeeded a.status) b db.attempts i
            (ground arith) in
        cc
    | inr idle ↦ idle
  ]

  reserve_new-IsSound :
      (method : ℕ × ℕ)
      → ((b : Attempt) → In b db.attempts → b.booking_id ≡ id → is_live b.status ≡ false)
      → IsSound (reserve_new env token id amount currency method db).1.attempts
  unfolding reserve_new
  reserve_new-IsSound method closed = insert-IsSound _ db.attempts refl refl fresh closed sound

  claim_again-IsSound :
      (method : ℕ × ℕ) (a : Attempt)
      → In a db.attempts
      → is_live a.status ≡ true
      → IsSound (claim_again env token id amount currency method a db).1.attempts
  unfolding claim_again
  claim_again-IsSound method a i live = elim (Bool-cases (is_ahead env a.lease_expires_at)) [
    | inl busy ↦ rw busy sound
    | inr free ↦ rw free (
        update-IsSound (has_attempt_id a.id) (claim env token) db.attempts (λ x. (refl, refl, refl))
          same_live (λ x j hit h. same_live x j hit) sound)
  ]
    where
      same_live :
          (x : Attempt) → In x db.attempts → has_attempt_id a.id x ≡ true → is_live x.status ≡ true
      same_live x j hit = rw (sound.2 x a j i (ground arith)) live

  -- Nothing is live if the latest attempt is not.
  closed_after :
      (a : Attempt)
      → IsLatest id db.attempts (some a)
      → is_live a.status ≡ false
      → (b : Attempt) → In b db.attempts
      → b.booking_id ≡ id
      → is_live b.status ≡ false
  closed_after a (i, ours, top) dead b j same = elim (Bool-cases (is_live b.status)) [
    | inl live ↦ elim (sound.0 b a j i (same ∙ sym ours) live) [
      | inl e ↦ rw e dead
      | inr less ↦ let below = top b j same in absurd (omega arith)
    ]
    | inr idle ↦ idle
  ]

  decide_status-IsSound :
      (status : AttemptStatus) (method : ℕ × ℕ) (next_retry : Option ℕ) (a : Attempt)
      → a.status ≡ status
      → IsLatest id db.attempts (some a)
      → IsSound
          (decide_status env token id amount currency status method next_retry a db).1.attempts
  unfolding decide_status
  decide_status-IsSound pending method next_retry a e l =
      claim_again-IsSound method a l.0 (rw e refl)
  decide_status-IsSound processing method next_retry a e l =
      claim_again-IsSound method a l.0 (rw e refl)
  decide_status-IsSound requires_action method next_retry a e l = sound
  decide_status-IsSound failed method next_retry a e l =
      elim (Bool-cases (is_ahead env next_retry)) [
        | inl waiting ↦ rw waiting sound
        | inr due ↦ rw due (reserve_new-IsSound method (closed_after a l (rw e refl)))
      ]
  decide_status-IsSound succeeded method next_retry a e l =
      let unsettled = not_paid a l.0 l.1 in absurd (ground arith)
  decide_status-IsSound cancelled method next_retry a e l =
      reserve_new-IsSound method (closed_after a l (rw e refl))

  decide_latest-IsSound :
      (method : ℕ × ℕ) (next_retry : Option ℕ) (o : Option Attempt)
      → IsLatest id db.attempts o
      → IsSound (decide_latest env token id amount currency method next_retry o db).1.attempts
  unfolding decide_latest
  decide_latest-IsSound method next_retry none l =
      reserve_new-IsSound method (λ b i same. absurd (l b i same))
  decide_latest-IsSound method next_retry (some a) l =
      decide_status-IsSound a.status method next_retry a refl l

  decide_checked-IsSound :
      (next_retry : Option ℕ) (r : Result Refusal (ℕ × ℕ))
      → IsSound (decide_checked env token id amount currency next_retry r db).1.attempts
  unfolding decide_checked
  decide_checked-IsSound next_retry (err reason) = sound
  decide_checked-IsSound next_retry (ok method) =
      decide_latest-IsSound method next_retry (latest_attempt id db.attempts)
        (latest_attempt-IsLatest id db.attempts)

  decide_booking-IsSound :
      (o : Option Booking) → IsSound (decide_booking env token id amount currency o db).1.attempts
  unfolding decide_booking
  decide_booking-IsSound none = sound
  decide_booking-IsSound (some b) = decide_checked-IsSound b.next_retry_at (check_booking env b)

pub decide-IsSound :
    (env : Env) (token id : ℕ) (amount : ℤ) (currency : String) (db : Db)
    → IsFresh env db
    → IsSound db.attempts
    → IsSound (decide env token id amount currency db).1.attempts
unfolding decide
decide-IsSound env token id amount currency db fresh sound =
    let paid = any (λ (a : Attempt). of_booking id a && is_succeeded a.status) db.attempts in
    elim (Bool-cases paid) [
      | inl settled ↦ rw settled sound
      | inr unpaid ↦ rw unpaid (
          decide_booking-IsSound env token id amount currency db fresh sound unpaid
            (find? (has_id id) db.bookings))
    ]
