-- ===== src/Payments/Charges/Grace.antt =====
-- The grace period of a booking whose charge failed (recordChargeOutcome of
-- lib/payments/scheduledCharges.ts).
use hostrepository.Base.{
  ℕ, ◌+◌, ◌≡◌, refl, sym, ◌∙◌, true, false, ◌&&◌, Option, none, some, any, In, In-update, arith,
}
use hostrepository.Store.{
  Db, Env, Booking, AttemptStatus, pending, processing, succeeded, failed, requires_action,
  cancelled,
}
use hostrepository.Booking.Release.{has_id, is_pending, is_succeeded}
use hostrepository.Payments.Charges.Record.{
  Outcome, is_claimed, record_outcome, after_outcome, start_grace, grace_period_ms,
}

-- What the booking's row keeps and gains.
abbrev pub IsTimed : Env → Booking → Booking → Type 0
IsTimed env b b' =
    (b'.id ≡ b.id)
    × (b.grace_period_started_at ≡ none
        → (b'.grace_period_started_at ≡ some env.now)
          × (b'.hold_expires_at ≡ some (env.now + grace_period_ms)))
    × ((at : ℕ)
        → b.grace_period_started_at ≡ some at
        → (b'.grace_period_started_at ≡ some at) × (b'.hold_expires_at ≡ b.hold_expires_at))

start_grace-IsTimed : (env : Env) (b : Booking) → IsTimed env b (start_grace env b)
start_grace-IsTimed env b = go b.grace_period_started_at refl
  where
    go : (o : Option ℕ) → b.grace_period_started_at ≡ o → IsTimed env b (start_grace env b)
    go none e = (rw e refl, λ h. rw e (refl, refl), λ at h. absurd (ground arith))
    go (some t) e = (rw e refl, λ h. absurd (ground arith), λ at h. rw e (sym e ∙ h, refl))

after_outcome-IsTimed :
    (env : Env) (status : AttemptStatus) (b : Booking)
    → is_succeeded status ≡ false
    → IsTimed env b (after_outcome env status b)
after_outcome-IsTimed env succeeded b h = cc
after_outcome-IsTimed env failed b h = start_grace-IsTimed env b
after_outcome-IsTimed env pending b h = start_grace-IsTimed env b
after_outcome-IsTimed env processing b h = start_grace-IsTimed env b
after_outcome-IsTimed env requires_action b h = start_grace-IsTimed env b
after_outcome-IsTimed env cancelled b h = start_grace-IsTimed env b

-- The first outcome that is no success starts the grace period of a booking that awaits payment, 72
-- hours long; a later one moves neither its start nor its end. The outcome is of an attempt that the
-- worker still holds.
pub record_outcome_deadline :
    (env : Env) (id attempt_id token : ℕ) (o : Outcome) (db : Db) (b : Booking)
    → any (is_claimed attempt_id token) db.attempts ≡ true
    → is_succeeded o.status ≡ false
    → In b db.bookings
    → b.id ≡ id
    → is_pending b ≡ true
    → let db' = (record_outcome env id attempt_id token o db).1 in
      (b' : Booking) × In b' db'.bookings × IsTimed env b b'
unfolding record_outcome
record_outcome_deadline env id attempt_id token o db b ours unpaid i same awaits =
    let hit : (has_id id b && is_pending b) ≡ true = ground arith in
    let row = after_outcome env o.status b in
    let listed =
      In-update (λ (b : Booking). has_id id b && is_pending b) (after_outcome env o.status) b
        db.bookings i in
    rw ours (row, rw hit at listed, after_outcome-IsTimed env o.status b unpaid)
