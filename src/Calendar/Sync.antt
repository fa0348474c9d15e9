-- ===== src/Calendar/Sync.antt =====
-- syncCalendarFeed and syncDueCalendarFeeds of lib/calendar/calendarSync.ts. What the network and the
-- parser give is an argument: the program fetches the feed and parses the body before it writes.
pub mod Nights
use Prim.Native.String.{String}
use hostrepository.Base.{
  ℕ, ◌+◌, ◌-◌, ◌*◌, ◌==◌, Bool, true, false, not, ◌&&◌, ◌||◌, Option, none, some, List, [], ◌∷◌,
  length, ltb, filter, find?, update_where, if◌then◌else◌,
}
use hostrepository.Base.Text.{codes, trim, to_lower_case, ends_with}
use hostrepository.Base.Result.{Result, ok, err}
use hostrepository.Store.{Db, Env, Feed, SyncStatus, running, success, error}
use hostrepository.Calendar.Feeds.{
  CalendarEvent, SyncError, feed_not_found, feed_disabled, sync_failed, is_feed,
  replace_feed_events,
}

-- How `fetchCalendar` and `parseICalendar` ended: thrown, with the message of `safeSyncError`; not
-- modified; or the events, with the new validators.
pub data Fetched : Type 0 where
  threw : String → Fetched
  not_modified : Option String → Option String → Fetched
  calendar : List CalendarEvent → Option String → Option String → Fetched

pub record CalendarSyncResult : Type 0 where
  pub feed_id : ℕ
  pub not_modified : Bool
  pub event_count : ℕ
  pub blocked_date_count : ℕ

-- `COALESCE($3, remote_etag)`
abbrev pub coalesce : Option String → Option String → Option String
coalesce none old = old
coalesce (some new) old = some new

abbrev pub start_sync : Env → Feed → Feed
start_sync env feed = record feed {
  last_sync_status = running;
  last_sync_started_at = some env.now;
  last_error = none;
}

abbrev pub keep_synced : Env → Option String → Option String → Feed → Feed
keep_synced env etag last_modified feed = record feed {
  last_sync_status = success;
  last_sync_completed_at = some env.now;
  last_successful_sync_at = some env.now;
  last_error = none;
  remote_etag = coalesce etag feed.remote_etag;
  remote_last_modified = coalesce last_modified feed.remote_last_modified;
}

abbrev pub fail_sync : Env → String → Feed → Feed
fail_sync env message feed = record feed {
  last_sync_status = error;
  last_sync_completed_at = some env.now;
  last_error = some message;
}

abbrev pub set_feed : ℕ → ℕ → (Feed → Feed) → Db → Db
set_feed p id change db = record db { feeds = update_where (is_feed p id) change db.feeds }

unfoldable pub is_host_calendar_event : CalendarEvent → Bool
is_host_calendar_event event =
    ends_with (to_lower_case (trim event.external_uid)) (codes "@hostcityliving.com")

abbrev pub imported_events : List CalendarEvent → List CalendarEvent
imported_events = filter (λ (event : CalendarEvent). not (is_host_calendar_event event))

-- The `try` and the `catch`, after the feed has been marked as running.
unfoldable pub finish_sync : Env → ℕ → ℕ → Fetched → Db → Result SyncError CalendarSyncResult × Db
finish_sync env p id (threw message) db =
    (err (sync_failed message), set_feed p id (fail_sync env message) db)
finish_sync env p id (not_modified etag last_modified) db = (
  ok (record { feed_id = id; not_modified = true; event_count = 0; blocked_date_count = 0 }),
  set_feed p id (keep_synced env etag last_modified) db,
)
finish_sync env p id (calendar events etag last_modified) db =
    let (count, db') =
      replace_feed_events env p id (imported_events events) etag last_modified db in
    (
      ok (record {
        feed_id = id;
        not_modified = false;
        event_count = length (imported_events events);
        blocked_date_count = count;
      }),
      db',
    )

unfoldable pub sync_feed :
    Env → ℕ → ℕ → Fetched → Option Feed → Db → Result SyncError CalendarSyncResult × Db
sync_feed env p id fetched none db = (err feed_not_found, db)
sync_feed env p id fetched (some feed) db =
    if not feed.is_active
    then (err feed_disabled, db)
    else finish_sync env p id fetched (set_feed p id (start_sync env) db)

-- A failure keeps what was written before it: no transaction spans the whole call.
unfoldable pub sync_calendar_feed :
    Env → ℕ → ℕ → Fetched → Db → Result SyncError CalendarSyncResult × Db
sync_calendar_feed env p id fetched db =
    sync_feed env p id fetched (find? (is_feed p id) db.feeds) db
