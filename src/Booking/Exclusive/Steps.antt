-- ===== src/Booking/Exclusive/Steps.antt =====
-- The operations on bookings, payments, host blocks and calendars as steps, and their sequences.
use Prim.Native.String.{String}
use hostrepository.Base.{
  ℕ, ◌==◌, length, leb, filter, ◌≡◌, refl, ◌∙◌, Bool, Option, none, some, List, find?, Bool-cases,
  inl, inr, any,
}
use hostrepository.Base.Result.{ok, ok_eq, >>=-eq-ok, require, throw_if}
use hostrepository.Store.{Db, Env, Feed}
use hostrepository.Booking.Types.{JsMath}
use hostrepository.Booking.Create.{CreateBookingInput, Created, booked_block, create_booking}
use hostrepository.Booking.Release.{
  CancelledBy, Cancelled, cancel_booking, release_expired_hold, discard_unpaid_booking,
}
use hostrepository.Booking.Exclusive.{IsExclusive, IsConsistent}
use hostrepository.Booking.Exclusive.Confirming.{
  on_new_flow_payment_succeeded-IsConsistent, record_outcome-IsConsistent,
}
use hostrepository.Payments.Charges.Record.{Outcome, on_new_flow_payment_succeeded, record_outcome}
use hostrepository.Booking.Exclusive.Creating.{create_booking-IsConsistent}
use hostrepository.Booking.Exclusive.Releasing.{
  cancel_booking-IsConsistent, release_expired_hold-IsConsistent,
  discard_unpaid_booking-IsConsistent,
}
use hostrepository.Calendar.Availability.{reconcile}
use hostrepository.Calendar.Availability.Reconciled.{reconcile_keeps}
use hostrepository.Calendar.Feeds.{
  CalendarEvent, create_calendar_feed, set_calendar_feed_active, delete_calendar_feed,
  replace_feed_events, feed_not_found, is_feed, too_many_feeds, max_feeds_per_property,
}
use hostrepository.Calendar.Sync.{
  Fetched, threw, not_modified, calendar, finish_sync, sync_feed, sync_calendar_feed,
}
use hostrepository.Hosts.Availability.{Action, mutate_availability}
use hostrepository.Hosts.Availability.Nights.{mutate_availability_keeps}

-- Nothing is changed about the bookings and the nights that they hold.
abbrev Keeps : Db → Db → Type 0
Keeps db db' =
    (db'.bookings ≡ db.bookings)
    × ((q e : ℕ) → db.blocks q e ≡ some booked_block → db'.blocks q e ≡ some booked_block)

Keeps-IsConsistent : (db db' : Db) → Keeps db db' → IsConsistent db → IsConsistent db'
Keeps-IsConsistent db db' (same, kept) (covered, exclusive) = (
  λ b d i t. kept b.property_id d (covered b d (rw same at i) t),
  λ b c d i j ne p. exclusive b c d (rw same at i) (rw same at j) ne p,
)

Keeps-trans : (a b c : Db) → Keeps a b → Keeps b c → Keeps a c
Keeps-trans a b c (same, kept) (same', kept') = (same' ∙ same, λ q e h. kept' q e (kept q e h))

reconcile-Keeps : (env : Env) (p : ℕ) (db : Db) → Keeps db (reconcile env p db).1
unfolding reconcile
reconcile-Keeps env p db = (refl, λ q e h. reconcile_keeps env p db q e (rw h refl) ∙ h)

mutate_availability-Keeps :
    (env : Env) (p check_in check_out : ℕ) (action : Action) (db : Db)
    → Keeps db (mutate_availability env p check_in check_out action db).1
unfolding mutate_availability reconcile
mutate_availability-Keeps env p check_in check_out action db = (
  refl,
  λ q e h. mutate_availability_keeps env p check_in check_out action db q e (rw h refl) ∙ h,
)

set_calendar_feed_active-Keeps :
    (env : Env) (p id : ℕ) (active : Bool) (db db' : Db)
    → set_calendar_feed_active env p id active db ≡ ok db'
    → Keeps db db'
unfolding set_calendar_feed_active
set_calendar_feed_active-Keeps env p id active db db' e =
    let (_, _, e₁) = >>=-eq-ok (require (any (is_feed p id) db.feeds) feed_not_found) _ e in
    rw (← ok_eq e₁) (reconcile-Keeps env p _)

delete_calendar_feed-Keeps :
    (env : Env) (p id : ℕ) (db db' : Db) → delete_calendar_feed env p id db ≡ ok db' → Keeps db db'
unfolding delete_calendar_feed
delete_calendar_feed-Keeps env p id db db' e =
    let (_, _, e₁) = >>=-eq-ok (require (any (is_feed p id) db.feeds) feed_not_found) _ e in
    rw (← ok_eq e₁) (reconcile-Keeps env p _)

create_calendar_feed-Keeps :
    (env : Env) (p : ℕ) (name url : String) (db db' : Db)
    → create_calendar_feed env p name url db ≡ ok db'
    → Keeps db db'
unfolding create_calendar_feed
create_calendar_feed-Keeps env p name url db db' e =
    let full =
      leb max_feeds_per_property
        (length (filter (λ (feed : Feed). feed.property_id == p) db.feeds)) in
    let (_, _, e₁) = >>=-eq-ok (throw_if full too_many_feeds) _ e in
    rw (← ok_eq e₁) (refl, λ q d h. h)

replace_feed_events-Keeps :
    (env : Env) (p id : ℕ) (events : List CalendarEvent) (etag last_modified : Option String)
    (db : Db)
    → Keeps db (replace_feed_events env p id events etag last_modified db).1
unfolding replace_feed_events
replace_feed_events-Keeps env p id events etag last_modified db = reconcile-Keeps env p _

module _ (env : Env) (p id : ℕ) where
  finish_sync-Keeps : (fetched : Fetched) (db : Db) → Keeps db (finish_sync env p id fetched db).1
  unfolding finish_sync
  finish_sync-Keeps (threw message) db = (refl, λ q d h. h)
  finish_sync-Keeps (not_modified etag last_modified) db = (refl, λ q d h. h)
  finish_sync-Keeps (calendar events etag last_modified) db =
      replace_feed_events-Keeps env p id _ etag last_modified db

  sync_feed-Keeps :
      (fetched : Fetched) (o : Option Feed) (db : Db) → Keeps db (sync_feed env p id fetched o db).1
  unfolding sync_feed
  sync_feed-Keeps fetched none db = (refl, λ q d h. h)
  sync_feed-Keeps fetched (some feed) db = elim (Bool-cases feed.is_active) [
    | inl active ↦ rw active (finish_sync-Keeps fetched _)
    | inr off ↦ rw off (refl, λ q d h. h)
  ]

-- One call of the program, at any time and under any flags, that changed the tables.
pub data Step : Db → Db → Type 0 where
  created :
      (js : JsMath) (env : Env) (delayed_flow : Bool) (input : CreateBookingInput) (r : Created)
      {db db' : Db}
      → create_booking js env delayed_flow input db ≡ ok (r, db')
      → Step db db'
  cancelled :
      (env : Env) (id : ℕ) (by : CancelledBy) (r : Cancelled) {db db' : Db}
      → cancel_booking env id by db ≡ ok (r, db')
      → Step db db'
  discarded :
      (env : Env) (id guest_id : ℕ) {db db' : Db}
      → discard_unpaid_booking env id guest_id db ≡ ok db'
      → Step db db'
  expired : (env : Env) (id : ℕ) (db : Db) → Step db (release_expired_hold env id db).1
  paid_for :
      (id : ℕ) (attempt_id : Option ℕ) (intent : ℕ) (db : Db)
      → Step db (on_new_flow_payment_succeeded id attempt_id intent db)
  charge_recorded :
      (env : Env) (id attempt_id token : ℕ) (o : Outcome) (db : Db)
      → Step db (record_outcome env id attempt_id token o db).1
  changed_by_host :
      (env : Env) (p check_in check_out : ℕ) (action : Action) (db : Db)
      → Step db (mutate_availability env p check_in check_out action db).1
  feed_created :
      (env : Env) (p : ℕ) (name url : String) {db db' : Db}
      → create_calendar_feed env p name url db ≡ ok db'
      → Step db db'
  feed_switched :
      (env : Env) (p id : ℕ) (active : Bool) {db db' : Db}
      → set_calendar_feed_active env p id active db ≡ ok db'
      → Step db db'
  feed_deleted :
      (env : Env) (p id : ℕ) {db db' : Db} → delete_calendar_feed env p id db ≡ ok db' → Step db db'
  synchronised :
      (env : Env) (p id : ℕ) (fetched : Fetched) (db : Db)
      → Step db (sync_calendar_feed env p id fetched db).1

pub data Reach (start : Db) : Db → Type 0 where
  here : Reach start start
  next : {db db' : Db} → Reach start db → Step db db' → Reach start db'

pub Step-IsConsistent : {db db' : Db} → Step db db' → IsConsistent db → IsConsistent db'
unfolding sync_calendar_feed
Step-IsConsistent (created js env flow input r {db} {db'} e) c =
    create_booking-IsConsistent js env flow input db r db' c e
Step-IsConsistent (cancelled env id by r {db} {db'} e) c =
    cancel_booking-IsConsistent env db c id by r db' e
Step-IsConsistent (discarded env id guest_id {db} {db'} e) c =
    discard_unpaid_booking-IsConsistent env db c id guest_id db' e
Step-IsConsistent (expired env id db) c = release_expired_hold-IsConsistent env db c id
Step-IsConsistent (paid_for id attempt_id intent db) c =
    on_new_flow_payment_succeeded-IsConsistent id attempt_id intent db c
Step-IsConsistent (charge_recorded env id attempt_id token o db) c =
    record_outcome-IsConsistent env id attempt_id token o db c
Step-IsConsistent (changed_by_host env p check_in check_out action db) c =
    Keeps-IsConsistent db (mutate_availability env p check_in check_out action db).1
      (mutate_availability-Keeps env p check_in check_out action db) c
Step-IsConsistent (feed_created env p name url {db} {db'} e) c =
    Keeps-IsConsistent db db' (create_calendar_feed-Keeps env p name url db db' e) c
Step-IsConsistent (feed_switched env p id active {db} {db'} e) c =
    Keeps-IsConsistent db db' (set_calendar_feed_active-Keeps env p id active db db' e) c
Step-IsConsistent (feed_deleted env p id {db} {db'} e) c =
    Keeps-IsConsistent db db' (delete_calendar_feed-Keeps env p id db db' e) c
Step-IsConsistent (synchronised env p id fetched db) c =
    Keeps-IsConsistent db (sync_calendar_feed env p id fetched db).1
      (sync_feed-Keeps env p id fetched (find? (is_feed p id) db.feeds) db) c

-- From a consistent database, whatever calls of `Step` follow one another (bookings, cancellations,
-- discards, expiries, payments and failed charges of the new flow, host actions, calendar operations;
-- not a report of a refund), no two bookings that are confirmed or await payment hold the same night of
-- the same property.
pub Reach-IsExclusive : {start db : Db} → IsConsistent start → Reach start db → IsExclusive db
Reach-IsExclusive c r = (go c r).1
  where
    go : {start db : Db} → IsConsistent start → Reach start db → IsConsistent db
    go c here = c
    go c (next r s) = Step-IsConsistent s (go c r)
