-- ===== src/Booking/Exclusive/Confirming.antt =====
-- A payment that confirms a booking, and a charge that fails, keep the bookings exclusive
-- (lib/payments/newFlowWebhookHandling.ts, lib/payments/scheduledCharges.ts).
use hostrepository.Base.{
  ℕ, ◌≡◌, refl, sym, ◌∙◌, Bool, true, ◌&&◌, Option, none, some, List, In-update_where, find?, any,
  update_where, if◌then◌else◌, Bool-cases, inl, inr, arith,
}
use hostrepository.Store.{
  Db, Env, Booking, Attempt, AttemptStatus, pending, processing, succeeded, failed, requires_action,
  cancelled,
}
use hostrepository.Booking.Release.{has_id, is_pending}
use hostrepository.Booking.Exclusive.{Takes, IsConsistent}
use hostrepository.Payments.Charges.Record.{
  Outcome, mark_confirmed, is_confirmed, confirm_of, on_new_flow_payment_succeeded, start_grace,
  after_outcome, is_claimed, settle, confirm_attempts, record_outcome,
}

-- The row that a row was, which held the same nights.
abbrev IsWas : Booking → Booking → Type 0
IsWas y w = (y.id ≡ w.id) × (y.property_id ≡ w.property_id) × ((d : ℕ) → Takes y d → Takes w d)

-- Changing bookings without giving them another night keeps them consistent with the same blocks.
module _ (test : Booking → Bool) (change : Booking → Booking)
    (was : (w : Booking) → test w ≡ true → IsWas (change w) w) where
  earlier_row : (w y : Booking) → y ≡ (if test w then change w else w) → IsWas y w
  earlier_row w y e = elim (Bool-cases (test w)) [
    | inl hit ↦ rw (rw hit at e) (was w hit)
    | inr miss ↦ rw (rw miss at e) (refl, refl, λ d t. t)
  ]

  changed-IsConsistent :
      (db : Db) (attempts : List Attempt)
      → IsConsistent db
      → IsConsistent
          (record db { attempts = attempts; bookings = update_where test change db.bookings })
  changed-IsConsistent db attempts (covered, exclusive) = (
    λ y d i t.
        let (w, j, e) = In-update_where test change db.bookings i in
        let (_, place, takes) = earlier_row w y e in rw place (covered w d j (takes d t)),
    λ y z d i k ne same t u.
        let (w, j, e) = In-update_where test change db.bookings i in
        let (v, l, f) = In-update_where test change db.bookings k in
        let (id_w, place_w, takes_w) = earlier_row w y e in
        let (id_v, place_v, takes_v) = earlier_row v z f in
        exclusive w v d j l (λ s. ne (id_w ∙ s ∙ sym id_v)) (sym place_w ∙ same ∙ place_v)
          (takes_w d t) (takes_v d u),
  )

abbrev is_due : ℕ → Booking → Bool
is_due id b = has_id id b && is_pending b

confirmed-IsWas : (id : ℕ) (w : Booking) → is_due id w ≡ true → IsWas (mark_confirmed w) w
confirmed-IsWas id w hit = (refl, refl, λ d t. (ground arith, t.1))

confirm_of-IsConsistent :
    (id : ℕ) (attempt_id : Option ℕ) (intent : ℕ) (o : Option Booking) (db : Db)
    → IsConsistent db
    → IsConsistent (confirm_of id attempt_id intent o db)
unfolding confirm_of
confirm_of-IsConsistent id attempt_id intent none db c = c
confirm_of-IsConsistent id attempt_id intent (some b) db c = elim (Bool-cases (is_confirmed b)) [
  | inl before ↦ rw before c
  | inr waiting ↦ rw waiting (
      changed-IsConsistent (is_due id) mark_confirmed (confirmed-IsWas id) db
        (confirm_attempts attempt_id intent db.attempts) c)
]

pub on_new_flow_payment_succeeded-IsConsistent :
    (id : ℕ) (attempt_id : Option ℕ) (intent : ℕ) (db : Db)
    → IsConsistent db
    → IsConsistent (on_new_flow_payment_succeeded id attempt_id intent db)
unfolding on_new_flow_payment_succeeded
on_new_flow_payment_succeeded-IsConsistent id attempt_id intent db c =
    confirm_of-IsConsistent id attempt_id intent (find? (has_id id) db.bookings) db c

start_grace-IsWas : (env : Env) (w : Booking) → IsWas (start_grace env w) w
start_grace-IsWas env w = go w.grace_period_started_at refl
  where
    go : (o : Option ℕ) → w.grace_period_started_at ≡ o → IsWas (start_grace env w) w
    go none e = rw e (refl, refl, λ d t. t)
    go (some at) e = rw e (refl, refl, λ d t. t)

after_outcome-IsWas :
    (env : Env) (status : AttemptStatus) (w : Booking) → IsWas (after_outcome env status w) w
after_outcome-IsWas env succeeded w = (refl, refl, λ d t. t)
after_outcome-IsWas env failed w = start_grace-IsWas env w
after_outcome-IsWas env pending w = start_grace-IsWas env w
after_outcome-IsWas env processing w = start_grace-IsWas env w
after_outcome-IsWas env requires_action w = start_grace-IsWas env w
after_outcome-IsWas env cancelled w = start_grace-IsWas env w

pub record_outcome-IsConsistent :
    (env : Env) (id attempt_id token : ℕ) (o : Outcome) (db : Db)
    → IsConsistent db
    → IsConsistent (record_outcome env id attempt_id token o db).1
unfolding record_outcome
record_outcome-IsConsistent env id attempt_id token o db c =
    elim (Bool-cases (any (is_claimed attempt_id token) db.attempts)) [
      | inl ours ↦ rw ours (
          changed-IsConsistent (is_due id) (after_outcome env o.status)
            (λ w hit. after_outcome-IsWas env o.status w) db
            (update_where (is_claimed attempt_id token) (settle o) db.attempts) c)
      | inr lost ↦ rw lost c
    ]
