-- ===== src/Calendar/Sync/Nights.antt =====
-- What a synchronised calendar does to the nights, and to a later booking
-- (lib/calendar/calendarSync.ts, lib/booking/createBooking.ts).
use Prim.Native.String.{String}
use hostrepository.Base.{
  ℕ, ◌≤◌, ◌<◌, ◌≡◌, true, false, refl, not, filter-In, ◌&&◌, ◌==◌, Option, some, List, find?, In,
  In-any, In-append_right, In-map, In-update, find?-In, if◌then◌else◌, arith,
}
use hostrepository.Store.{Db, Env, Block, Feed}
use hostrepository.Calendar.Availability.{imported_block}
use hostrepository.Calendar.Availability.Reconciled.{reconcile_lem, reconciled, takes, is_own}
use hostrepository.Calendar.Feeds.{
  CalendarEvent, event_row, replaced_events, replace_feed_events, is_feed,
}
use hostrepository.Calendar.Sync.{
  calendar, start_sync, set_feed, imported_events, is_host_calendar_event, finish_sync, sync_feed,
  sync_calendar_feed,
}

-- The row of a night that an imported event takes.
abbrev pub shown : Option Block → Option Block
shown old = if is_own old then old else some imported_block

taken_shown : (old : Option Block) → reconciled true old ≡ shown old
taken_shown old = ground arith

module _ (env : Env) (p id e : ℕ) (event : CalendarEvent) (events : List CalendarEvent)
    (listed : In event events) (starts : event.starts_on ≤ e) (ends : e < event.ends_on)
    (future : env.today ≤ e) where
  event_takes :
      (feed : Feed) (feeds : List Feed)
      → In feed feeds
      → feed.id ≡ id
      → feed.property_id ≡ p
      → feed.is_active ≡ true
      → takes env p feeds e (event_row id event) ≡ true
  event_takes feed feeds i same here active =
      let joined =
        In-any (λ (f : Feed). f.id == id && f.property_id == p && f.is_active) feed feeds i
          (ground arith) in
      ground (arith, joined)

  replaced_night :
      (feed : Feed) (etag last_modified : Option String) (db : Db)
      → In feed db.feeds
      → feed.id ≡ id
      → feed.property_id ≡ p
      → feed.is_active ≡ true
      → (replace_feed_events env p id events etag last_modified db).1.blocks p e
        ≡ shown (db.blocks p e)
  unfolding replace_feed_events
  replaced_night feed etag last_modified db i same here active =
      let taken =
        In-any (takes env p db.feeds e) (event_row id event) (replaced_events id events db.events)
          (In-append_right _ _ _ (In-map (event_row id) event events listed))
          (event_takes feed db.feeds i same here active) in
      let here_too : (p == p) ≡ true = ground arith in
      rw (reconcile_lem env p _ p e, taken, here_too) (taken_shown (db.blocks p e))

-- After a feed has been synchronised, every night from today on that one of its reservations takes
-- (but HOST's own) shows the row of a booking or of the host if it had one, and is blocked as
-- imported otherwise.
pub sync_calendar_feed_night :
    (env : Env) (p id e : ℕ) (event : CalendarEvent) (events : List CalendarEvent)
    (etag last_modified : Option String) (feed : Feed) (db : Db)
    → find? (is_feed p id) db.feeds ≡ some feed
    → feed.is_active ≡ true
    → In event events
    → is_host_calendar_event event ≡ false
    → event.starts_on ≤ e
    → e < event.ends_on
    → env.today ≤ e
    → (sync_calendar_feed env p id (calendar events etag last_modified) db).1.blocks p e
      ≡ shown (db.blocks p e)
unfolding sync_calendar_feed sync_feed finish_sync
sync_calendar_feed_night env p id e event events etag last_modified feed db found active listed
      foreign starts ends future =
    let (i, ours) = find?-In (is_feed p id) db.feeds found in
    let started = In-update (is_feed p id) (start_sync env) feed db.feeds i in
    rw (found, sync_feed, active)
      (replaced_night env p id e event (imported_events events)
        (filter-In (λ (e : CalendarEvent). not (is_host_calendar_event e)) event events listed
          (rw foreign refl))
        starts ends future (start_sync env feed) etag last_modified
        (set_feed p id (start_sync env) db) (rw ours at started) (ground arith) (ground arith)
        active)
