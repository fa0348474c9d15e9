-- ===== src/Calendar/Availability/Reconciled.antt =====
-- The table that `reconcile` leaves, date by date.
use hostrepository.Base.{
  leb, ℕ, ◌≡◌, Bool, true, false, not, ◌&&◌, ◌||◌, Option, none, some, List, [], ◌∷◌, ◌==◌, max,
  within, if◌then◌else◌, any, arith, Bool-cases, inl, inr,
}
use hostrepository.Store.{Db, Env, Block, Blocks, ical_sync, Feed, EventRow}
use hostrepository.Calendar.Availability.{
  has_source, imported_block, insert_imported, insert_dates, is_imported, occupied_dates,
  insert_events, reconcile,
}
use hostrepository.Calendar.Availability.Ranges.{listed, listed-enumerate_dates}

abbrev filled : Option Block → Option Block
filled none = some imported_block
filled (some r) = some r

insert_imported_lem :
    (p d : ℕ) (s : Blocks × ℕ) (q e : ℕ)
    → (insert_imported p d s).0 q e ≡ (if q == p && e == d then filled (s.0 q e) else s.0 q e)
unfolding insert_imported
insert_imported_lem p d (b, n) q e = ground arith

insert_dates_lem :
    (p : ℕ) (ds : List ℕ) (s : Blocks × ℕ) (q e : ℕ)
    → (insert_dates p ds s).0 q e ≡ (if q == p && listed e ds then filled (s.0 q e) else s.0 q e)
unfolding insert_dates
insert_dates_lem p [] s q e = ground arith
insert_dates_lem p (d ∷ ds) s q e =
    rw (insert_dates_lem p ds (insert_imported p d s) q e, insert_imported_lem p d s q e)
      (ground arith)

-- Whether an event of an active feed of the property takes the night of `e`, which is not past.
abbrev pub takes : Env → ℕ → List Feed → ℕ → EventRow → Bool
takes env p feeds e event =
    any (λ (feed : Feed). feed.id == event.feed_id && feed.property_id == p && feed.is_active) feeds
    && leb env.today e
    && within event.starts_on event.ends_on e

takes_lem :
    (env : Env) (p : ℕ) (feeds : List Feed) (e : ℕ) (event : EventRow)
    → takes env p feeds e event
      ≡ is_imported env p feeds event && within (max event.starts_on env.today) event.ends_on e
takes_lem env p feeds e event = ground arith

insert_event_lem :
    (env : Env) (p : ℕ) (feeds : List Feed) (event : EventRow) (s : Blocks × ℕ) (q e : ℕ)
    → (if is_imported env p feeds event then insert_dates p (occupied_dates env event) s else s).0 q
        e
      ≡ (if q == p && takes env p feeds e event then filled (s.0 q e) else s.0 q e)
insert_event_lem env p feeds event s q e =
    rw (takes_lem env p feeds e event) (elim (Bool-cases (is_imported env p feeds event)) [
      | inl joined ↦ rw (
        joined,
        insert_dates_lem p (occupied_dates env event) s q e,
        listed-enumerate_dates e (max event.starts_on env.today) event.ends_on,
      )
      | inr other ↦ rw other (ground arith)
    ])

filled_twice :
    (here one more : Bool) (old : Option Block)
    → (if here && more
        then filled (if here && one then filled old else old)
        else (if here && one then filled old else old))
      ≡ (if here && (one || more) then filled old else old)
filled_twice here one more old = ground arith

insert_events_lem :
    (env : Env) (p : ℕ) (feeds : List Feed) (events : List EventRow) (s : Blocks × ℕ) (q e : ℕ)
    → (insert_events env p feeds events s).0 q e
      ≡ (if q == p && any (takes env p feeds e) events then filled (s.0 q e) else s.0 q e)
unfolding insert_events
insert_events_lem env p feeds [] s q e = ground arith
insert_events_lem env p feeds (event ∷ events) s q e =
    rw (insert_events_lem env p feeds events _ q e, insert_event_lem env p feeds event s q e)
      (filled_twice (q == p) _ _ _)

-- The row that `reconcile` leaves where one stood before.
abbrev pub reconciled : Bool → Option Block → Option Block
reconciled taken old =
    if has_source ical_sync old || is_none old
    then (if taken then some imported_block else none)
    else old
  where
    is_none : Option Block → Bool
    is_none none = true
    is_none (some _) = false

filled_deleted :
    (here taken : Bool) (old : Option Block)
    → (if here && taken
        then filled (if here && has_source ical_sync old then none else old)
        else (if here && has_source ical_sync old then none else old))
      ≡ (if here then reconciled taken old else old)
filled_deleted here taken old = ground arith

-- After reconciliation a date of the property has its booking's or its host's row if it had one; of
-- the other dates exactly those that an active feed's event takes from today on are blocked, as
-- imported. No other property changes.
pub reconcile_lem :
    (env : Env) (p : ℕ) (db : Db) (q e : ℕ)
    → (reconcile env p db).1.blocks q e ≡ (
        if q == p
        then reconciled (any (takes env p db.feeds e) db.events) (db.blocks q e)
        else db.blocks q e)
unfolding reconcile
reconcile_lem env p db q e =
    rw (insert_events_lem env p db.feeds db.events _ q e)
      (filled_deleted (q == p) _ (db.blocks q e))

abbrev pub is_own : Option Block → Bool
is_own none = false
is_own (some r) = not (has_source ical_sync (some r))

-- Rows of bookings and hosts survive.
pub reconcile_keeps :
    (env : Env) (p : ℕ) (db : Db) (q e : ℕ)
    → is_own (db.blocks q e) ≡ true
    → (reconcile env p db).1.blocks q e ≡ db.blocks q e
reconcile_keeps env p db q e h = rw (reconcile_lem env p db q e) (ground arith)
