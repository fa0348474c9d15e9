-- ===== src/Booking/Exclusive/Releasing.antt =====
-- Giving dates back keeps the bookings exclusive.
use hostrepository.Base.{
  ℕ, ◌≡◌, ◌≢◌, refl, Bool, true, false, ◌&&◌, ◌==◌, Option, none, some, List, ◌∷◌, within, In,
  In-update_where, find?-In, update_where, arith, ◌∙◌, Bool-cases, inl, inr, if◌then◌else◌, find?,
}
use hostrepository.Base.Result.{
  ok, second_eq, ok_eq, >>=-eq-ok, or_throw, require, or_throw-eq-ok, require-eq-ok,
}
use hostrepository.Store.{Db, Env, Block, Booking, AuditEntry, PriceRow, booking_cancelled}
use hostrepository.Booking.Types.{BookingStatus, booking_not_found, not_cancellable}
use hostrepository.Booking.Create.{booked_block}
use hostrepository.Booking.Release.{
  release_dates, delete_rows, has_id, release_expired_hold, cancel_booking, discard_unpaid_booking,
  booked_by_booking, from_booking, mark_cancelled, mark_discarded, is_pending, Cancelled,
  CancelledBy, assert_discardable, is_cancellable, hold_is_over, release_hold_of,
}
use hostrepository.Booking.Exclusive.{holds, Takes, IsConsistent}
use hostrepository.Calendar.Availability.{reconcile}
use hostrepository.Calendar.Availability.Reconciled.{reconcile_keeps}

module _ (env : Env) (test : Option Block → Bool) (change : Booking → Booking)
    (ends : (b : Booking) → holds (change b).status ≡ false) where
  unchanged_row :
      (id : ℕ) (w y : Booking)
      → y ≡ (if has_id id w then change w else w)
      → holds y.status ≡ true
      → (y ≡ w) × (w.id ≢ id)
  unchanged_row id w y e h = elim (Bool-cases (has_id id w)) [
    | inl hit ↦
        let changed : y ≡ change w = rw hit at e in
        let held : holds (change w).status ≡ true = rw changed at h in cc (ends w)
    | inr miss ↦ (rw miss at e, ground arith)
  ]

  -- A row that still holds dates is one that was there, of another booking.
  unchanged :
      (id : ℕ) (y : Booking) (rows : List Booking)
      → In y (update_where (has_id id) change rows)
      → holds y.status ≡ true
      → In y rows × (y.id ≢ id)
  unchanged id y rows i h =
      let (w, j, e) = In-update_where (has_id id) change rows i in
      let (same, other) = unchanged_row id w y e h in rw same (j, other)

  deleted : (x : Booking) (db : Db) → Db
  deleted x db = record db {
    blocks = delete_rows test x.property_id x.check_in x.check_out db.blocks;
  }

  -- The rows that the deletion leaves to another booking.
  deleted-covered :
      (x y : Booking) (d : ℕ) (db : Db)
      → IsConsistent db
      → In x db.bookings
      → holds x.status ≡ true
      → In y db.bookings
      → y.id ≢ x.id
      → Takes y d
      → (deleted x db).blocks y.property_id d ≡ some booked_block
  unfolding deleted
  deleted-covered x y d db (covered, exclusive) i hx j ne takes =
      let here = covered y d j takes in
      elim (Bool-cases (y.property_id == x.property_id && within x.check_in x.check_out d)) [
        | inl overlap ↦ absurd (exclusive y x d j i ne (ground arith) takes (hx, ground arith))
        | inr apart ↦ rw here (ground arith)
      ]

  release_dates-IsConsistent :
      (x : Booking) (db : Db)
      → In x db.bookings
      → holds x.status ≡ true
      → IsConsistent db
      → IsConsistent (release_dates env test change x db)
  unfolding release_dates deleted reconcile
  release_dates-IsConsistent x db i hx c = (covered, exclusive)
    where
      rebuilt : Db
      rebuilt = (reconcile env x.property_id (deleted x db)).1

      covered :
          (y : Booking) (d : ℕ)
          → In y (update_where (has_id x.id) change db.bookings)
          → Takes y d
          → rebuilt.blocks y.property_id d ≡ some booked_block
      covered y d j takes =
          let (k, ne) = unchanged x.id y db.bookings j takes.0 in
          let here = deleted-covered x y d db c i hx k ne takes in
          reconcile_keeps env x.property_id (deleted x db) y.property_id d (rw here refl) ∙ here

      exclusive :
          (y z : Booking) (d : ℕ)
          → In y (update_where (has_id x.id) change db.bookings)
          → In z (update_where (has_id x.id) change db.bookings)
          → y.id ≢ z.id
          → y.property_id ≡ z.property_id
          → Takes y d
          → ¬ Takes z d
      exclusive y z d j k ne same ty tz =
          let (j', _) = unchanged x.id y db.bookings j ty.0 in
          let (k', _) = unchanged x.id z db.bookings k tz.0 in c.1 y z d j' k' ne same ty tz

pending-holds : (b : Booking) → is_pending b ≡ true → holds b.status ≡ true
pending-holds b h = ground arith

cancellable-holds : (s : BookingStatus) → is_cancellable s ≡ true → holds s ≡ true
cancellable-holds s h = ground arith

abbrev cancelled_entry : ℕ → Booking → AuditEntry
cancelled_entry id b = record {
  action = booking_cancelled;
  object_id = id;
  previous_status = b.status;
}

module _ (env : Env) (db : Db) (c : IsConsistent db) where
  release_hold_of-IsConsistent :
      (o : Option Booking)
      → ((b : Booking) → o ≡ some b → In b db.bookings × (holds b.status ≡ true))
      → IsConsistent (release_hold_of env o db).1
  unfolding release_hold_of
  release_hold_of-IsConsistent none h = c
  release_hold_of-IsConsistent (some b) h = elim (Bool-cases (hold_is_over env b)) [
    | inl over ↦
        let (i, held) = h b refl in
        rw over (
          release_dates-IsConsistent env booked_by_booking mark_cancelled (λ x. refl) b db i held c)
    | inr waiting ↦ rw waiting c
  ]

  -- Releasing an expired hold keeps the bookings exclusive.
  pub release_expired_hold-IsConsistent : (id : ℕ) → IsConsistent (release_expired_hold env id db).1
  unfolding release_expired_hold
  release_expired_hold-IsConsistent id = release_hold_of-IsConsistent _ (λ b e.
      let (i, h) = find?-In (λ (b : Booking). has_id id b && is_pending b) db.bookings e in
      (i, pending-holds b (ground arith)))

  cancel_booking-released :
      (id : ℕ) (by : CancelledBy) (r : Cancelled) (db' : Db)
      → cancel_booking env id by db ≡ ok (r, db')
      → (b : Booking) × (entries : List AuditEntry) × (find? (has_id id) db.bookings ≡ some b)
        × (is_cancellable b.status ≡ true)
        × (db' ≡ record (release_dates env from_booking mark_cancelled b db) { audit = entries })
  unfolding cancel_booking
  cancel_booking-released id by r db' e =
      let (b, found, e₁) =
        >>=-eq-ok (or_throw (find? (has_id id) db.bookings) booking_not_found) _ e in
      let (price, priced, e₂) =
        >>=-eq-ok
          (or_throw (find? (λ (row : PriceRow). row.booking_id == id) db.prices) booking_not_found)
          _ e₁ in
      let (_, allowed, e₃) = >>=-eq-ok (require (is_cancellable b.status) not_cancellable) _ e₂ in
      let state = release_dates env from_booking mark_cancelled b db in
      (
        b,
        cancelled_entry id b ∷ state.audit,
        or_throw-eq-ok _ _ found,
        require-eq-ok _ _ allowed,
        second_eq e₃,
      )

  -- Cancelling a booking keeps the bookings exclusive.
  pub cancel_booking-IsConsistent :
      (id : ℕ) (by : CancelledBy) (r : Cancelled) (db' : Db)
      → cancel_booking env id by db ≡ ok (r, db')
      → IsConsistent db'
  cancel_booking-IsConsistent id by r db' e =
      let (b, entries, found, allowed, same) = cancel_booking-released id by r db' e in
      let (i, _) = find?-In (has_id id) db.bookings found in
      rw same (
        release_dates-IsConsistent env from_booking mark_cancelled (λ x. refl) b db i
          (cancellable-holds b.status allowed) c)

  -- Discarding an unpaid booking keeps the bookings exclusive.
  pub discard_unpaid_booking-IsConsistent :
      (id guest_id : ℕ) (db' : Db)
      → discard_unpaid_booking env id guest_id db ≡ ok db'
      → IsConsistent db'
  unfolding discard_unpaid_booking assert_discardable
  discard_unpaid_booking-IsConsistent id guest_id db' e =
      let test = λ (b : Booking). has_id id b && b.guest_id == guest_id in
      let (b, found, e₁) = >>=-eq-ok (or_throw (find? test db.bookings) booking_not_found) _ e in
      let (_, checked, e₂) = >>=-eq-ok (assert_discardable b db) _ e₁ in
      let (i, _) = find?-In test db.bookings (or_throw-eq-ok _ _ found) in
      let pending : is_pending b ≡ true = ground arith in
      rw (← ok_eq e₂) (
        release_dates-IsConsistent env booked_by_booking (mark_discarded env.now) (λ x. refl) b db i
          (pending-holds b pending) c)
