-- ===== src/Tests/Calendars.antt =====
-- Concrete runs of the calendars and of the host's actions.
use hostrepository.Base.{◌≡◌, refl, none, some, [], ◌∷◌, inl, arith}
use hostrepository.Base.Text.{is_space}
use hostrepository.Store.{Db}
use hostrepository.Booking.Create.{booked_block}
use hostrepository.Calendar.Availability.{reconcile, imported_block, set_block}
use hostrepository.Calendar.Availability.Reconciled.{reconcile_lem}
use hostrepository.Calendar.Feeds.{event_row}
use hostrepository.Calendar.Sync.{calendar, is_host_calendar_event, sync_calendar_feed}
use hostrepository.Calendar.Sync.Nights.{sync_calendar_feed_night}
use hostrepository.Hosts.Availability.{block, mutate_availability, host_block}
use hostrepository.Hosts.Availability.Nights.{mutate_availability_lem, mutate_availability_report}
use hostrepository.Tests.Data.{env, db, feed, reservation}

-- Day 20020 is imported, 20030 booked and 20031 the host's.
abbrev taken : Db
taken = record db {
  events = event_row 1 reservation ∷ [];
  blocks = set_block (set_block db.blocks 7 20030 (some booked_block)) 7 20031 (some host_block);
}

sync_calendar_feed_night_example :
    (sync_calendar_feed env 7 1 (calendar (reservation ∷ []) none none) db).1.blocks 7 20021
    ≡ some imported_block
unfolding is_host_calendar_event is_space
sync_calendar_feed_night_example =
    sync_calendar_feed_night env 7 1 20021 reservation (reservation ∷ []) none none feed db refl
      refl (inl refl) refl (omega arith) (omega arith) (omega arith)

reconcile_lem_example : (reconcile env 7 taken).1.blocks 7 20020 ≡ some imported_block
reconcile_lem_example = reconcile_lem env 7 taken 7 20020

-- The host blocks a range in which an import and a booking stand.
mutate_availability_lem_example :
    (mutate_availability env 7 20019 20032 block taken).1.blocks 7 20019 ≡ some host_block
mutate_availability_lem_example = mutate_availability_lem env 7 20019 20032 block taken 7 20019

mutate_availability_report_example :
    (mutate_availability env 7 20029 20032 block taken).0.blocked ≡ 20029 ∷ 20031 ∷ []
mutate_availability_report_example = mutate_availability_report env 7 20029 20032 block taken
