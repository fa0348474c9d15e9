-- ===== src/Calendar/Availability.antt =====
-- reconcileCalendarAvailability of lib/calendar/calendarSync.ts, and the date ranges that it shares
-- with the bookings.
pub mod Ranges
pub mod Reconciled
use hostrepository.Base.{
  ℕ, zero, suc, ◌+◌, ◌-◌, max, Bool, true, false, ◌&&◌, ◌||◌, Option, none, some, List, [], ◌∷◌,
  ◌==◌, ltb, within, if◌then◌else◌, any,
}
use hostrepository.Store.{
  Db, Env, Block, Blocks, BlockStatus, BlockSource, host, booking, ical_sync, Feed, EventRow,
}

-- The loop of `enumerateDates`, by the rounds that are left.
abbrev pub dates_from : ℕ → ℕ → List ℕ
dates_from d zero = []
dates_from d (suc n) = d ∷ dates_from (d + 1) n

-- `enumerateDates`: every date from check-in up to check-out, which is not one of them.
abbrev pub enumerate_dates : ℕ → ℕ → List ℕ
enumerate_dates check_in check_out = dates_from check_in (check_out - check_in)

abbrev pub set_block : Blocks → ℕ → ℕ → Option Block → Blocks
set_block b p d v q e = if q == p && e == d then v else b q e

abbrev pub is_source : BlockSource → BlockSource → Bool
is_source host host = true
is_source booking booking = true
is_source ical_sync ical_sync = true
is_source _ _ = false

abbrev pub has_source : BlockSource → Option Block → Bool
has_source s none = false
has_source s (some r) = is_source s r.source

abbrev pub imported_block : Block
imported_block = record { status = BlockStatus.blocked; source = ical_sync }

-- `DELETE … WHERE property_id = $1 AND source = 'ical_sync'`
abbrev pub delete_imported : ℕ → Blocks → Blocks
delete_imported p b q e = if q == p && has_source ical_sync (b q e) then none else b q e

-- `INSERT … ON CONFLICT DO NOTHING`, and whether a row was inserted.
unfoldable pub insert_imported : ℕ → ℕ → Blocks × ℕ → Blocks × ℕ
insert_imported p d (b, n) = elim (b p d) [
  | none ↦ (set_block b p d (some imported_block), n + 1)
  | some _ ↦ (b, n)
]

unfoldable pub insert_dates : ℕ → List ℕ → Blocks × ℕ → Blocks × ℕ
insert_dates p [] s = s
insert_dates p (d ∷ ds) s = insert_dates p ds (insert_imported p d s)

-- The join with the active feeds of the property, and the test on the end of the event.
abbrev pub is_imported : Env → ℕ → List Feed → EventRow → Bool
is_imported env p feeds event =
    any (λ (feed : Feed). feed.id == event.feed_id && feed.property_id == p && feed.is_active) feeds
    && ltb env.today event.ends_on

-- `generate_series(GREATEST(starts_on, CURRENT_DATE), ends_on - 1)`
abbrev pub occupied_dates : Env → EventRow → List ℕ
occupied_dates env event = enumerate_dates (max event.starts_on env.today) event.ends_on

unfoldable pub insert_events : Env → ℕ → List Feed → List EventRow → Blocks × ℕ → Blocks × ℕ
insert_events env p feeds [] s = s
insert_events env p feeds (event ∷ events) s =
    insert_events env p feeds events
      (if is_imported env p feeds event then insert_dates p (occupied_dates env event) s else s)

-- The number of rows inserted comes back with the new table.
unfoldable pub reconcile : Env → ℕ → Db → ℕ × Db
reconcile env p db =
    let (b, n) = insert_events env p db.feeds db.events (delete_imported p db.blocks, 0) in
    (n, record db { blocks = b })
