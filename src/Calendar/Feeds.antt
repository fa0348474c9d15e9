-- ===== src/Calendar/Feeds.antt =====
-- The feeds of lib/calendar/calendarSync.ts: creating, switching, deleting, and replacing the events
-- of one. What a call returns of a feed (`mapFeed`) is read off its row and left out.
use Prim.Native.String.{String}
use hostrepository.Base.{
  ℕ, ◌==◌, Bool, true, not, ◌&&◌, Option, none, some, List, ◌∷◌, ◌++◌, map, length, leb, filter,
  any, update_where,
}
use hostrepository.Base.Text.{Text}
use hostrepository.Base.Result.{Result, ok, ◌>>◌, require, throw_if}
use hostrepository.Store.{Db, Env, Feed, EventRow, never, success}
use hostrepository.Calendar.Availability.{reconcile}

-- `CalendarEvent` of lib/calendar/ical.ts
pub record CalendarEvent : Type 0 where
  pub event_key : Text
  pub external_uid : Text
  pub starts_on : ℕ
  pub ends_on : ℕ
  pub summary : Option Text

pub data SyncError : Type 0 where
  feed_not_found feed_disabled too_many_feeds : SyncError
  -- The message that `safeSyncError` made of what a fetch or a parse threw.
  sync_failed : String → SyncError

abbrev pub max_feeds_per_property : ℕ
max_feeds_per_property = 10

-- `WHERE id = $1 AND property_id = $2`
abbrev pub is_feed : ℕ → ℕ → Feed → Bool
is_feed p id feed = feed.id == id && feed.property_id == p

-- `feed_url` has passed `assertSafeCalendarUrl`, and `name` is trimmed.
unfoldable pub create_calendar_feed : Env → ℕ → String → String → Db → Result SyncError Db
create_calendar_feed env p name feed_url db = do
  throw_if
      (leb max_feeds_per_property
        (length (filter (λ (feed : Feed). feed.property_id == p) db.feeds)))
      too_many_feeds
  ok (record db {
    feeds =
        record {
          id = env.fresh_id;
          property_id = p;
          name = name;
          feed_url = feed_url;
          is_active = true;
          last_sync_status = never;
          last_sync_started_at = none;
          last_sync_completed_at = none;
          last_successful_sync_at = none;
          last_error = none;
          remote_etag = none;
          remote_last_modified = none;
        }
        ∷ db.feeds;
  })

abbrev pub switch : Bool → Feed → Feed
switch active feed = record feed { is_active = active }

unfoldable pub set_calendar_feed_active : Env → ℕ → ℕ → Bool → Db → Result SyncError Db
set_calendar_feed_active env p id active db = do
  require (any (is_feed p id) db.feeds) feed_not_found
  ok
      (reconcile env p
        (record db { feeds = update_where (is_feed p id) (switch active) db.feeds })).1

-- Deleting a feed deletes its events (`ON DELETE CASCADE`).
unfoldable pub delete_calendar_feed : Env → ℕ → ℕ → Db → Result SyncError Db
delete_calendar_feed env p id db = do
  require (any (is_feed p id) db.feeds) feed_not_found
  ok
      (reconcile env p (record db {
        feeds = filter (λ (feed : Feed). not (is_feed p id feed)) db.feeds;
        events = filter (λ (event : EventRow). not (event.feed_id == id)) db.events;
      })).1

abbrev pub event_row : ℕ → CalendarEvent → EventRow
event_row id event = record {
  feed_id = id;
  event_key = event.event_key;
  external_uid = event.external_uid;
  starts_on = event.starts_on;
  ends_on = event.ends_on;
  summary = event.summary;
}

abbrev pub synced : Env → Option String → Option String → Feed → Feed
synced env etag last_modified feed = record feed {
  last_sync_status = success;
  last_sync_completed_at = some env.now;
  last_successful_sync_at = some env.now;
  last_error = none;
  remote_etag = etag;
  remote_last_modified = last_modified;
}

-- The events of a feed after they have been replaced.
abbrev pub replaced_events : ℕ → List CalendarEvent → List EventRow → List EventRow
replaced_events id events rows =
    filter (λ (event : EventRow). not (event.feed_id == id)) rows ++ map (event_row id) events

unfoldable pub replace_feed_events :
    Env → ℕ → ℕ → List CalendarEvent → Option String → Option String → Db → ℕ × Db
replace_feed_events env p id events etag last_modified db =
    let (count, db') =
      reconcile env p (record db { events = replaced_events id events db.events }) in
    (
      count,
      record db' { feeds = update_where (is_feed p id) (synced env etag last_modified) db'.feeds },
    )
