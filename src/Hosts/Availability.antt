-- ===== src/Hosts/Availability.antt =====
-- mutateAvailability, blockDates and unblockDates of lib/hosts/hostAvailability.ts. The advisory lock
-- makes the transactions on one property follow one another, so each is one function.
pub mod Nights
use hostrepository.Base.{
  ℕ, ◌==◌, Bool, true, false, ◌&&◌, Option, none, some, List, [], ◌∷◌, ◌++◌, if◌then◌else◌,
}
use hostrepository.Store.{
  Db, Env, Block, Blocks, BlockStatus, BlockSource, host, booking, ical_sync,
}
use hostrepository.Calendar.Availability.{enumerate_dates, set_block, has_source, reconcile}

pub data Action : Type 0 where
  block unblock : Action

pub data SkipReason : Type 0 where
  already_booked cannot_unblock_booking managed_by_calendar_sync : SkipReason

pub record BlockResult : Type 0 where
  pub blocked : List ℕ
  pub skipped : List (ℕ × SkipReason)

abbrev pub host_block : Block
host_block = record { status = BlockStatus.blocked; source = host }

-- `INSERT … ON CONFLICT DO UPDATE … WHERE availability_blocks.source = 'host'`
abbrev pub upsert_host : Option Block → Option Block
upsert_host none = some host_block
upsert_host (some r) = if has_source host (some r) then some host_block else some r

-- `DELETE … WHERE source = 'host'`
abbrev pub delete_host : Option Block → Option Block
delete_host old = if has_source host old then none else old

abbrev pub apply_action : Action → Option Block → Option Block
apply_action block old = upsert_host old
apply_action unblock old = delete_host old

abbrev pub booked_reason : Action → SkipReason
booked_reason block = already_booked
booked_reason unblock = cannot_unblock_booking

abbrev pub skip : ℕ → SkipReason → BlockResult → BlockResult
skip date reason r = record r { skipped = r.skipped ++ (date, reason) ∷ [] }

abbrev pub done : ℕ → BlockResult → BlockResult
done date r = record r { blocked = r.blocked ++ date ∷ [] }

-- One round of the loop over the dates. `existing` holds the rows that were read before it.
unfoldable pub mutate_date : Action → ℕ → Blocks → ℕ → Blocks × BlockResult → Blocks × BlockResult
mutate_date action p existing date (b, r) =
    if has_source booking (existing p date)
    then (b, skip date (booked_reason action) r)
    else if has_source ical_sync (existing p date)
    then (b, skip date managed_by_calendar_sync r)
    else (set_block b p date (apply_action action (b p date)), done date r)

unfoldable pub mutate_dates :
    Action → ℕ → Blocks → List ℕ → Blocks × BlockResult → Blocks × BlockResult
mutate_dates action p existing [] s = s
mutate_dates action p existing (date ∷ dates) s =
    mutate_dates action p existing dates (mutate_date action p existing date s)

unfoldable pub mutate_availability : Env → ℕ → ℕ → ℕ → Action → Db → BlockResult × Db
mutate_availability env p check_in check_out action db =
    let (b, r) =
      mutate_dates action p db.blocks (enumerate_dates check_in check_out)
        (db.blocks, record { blocked = []; skipped = [] }) in
    (r, (reconcile env p (record db { blocks = b })).1)

unfoldable pub block_dates : Env → ℕ → ℕ → ℕ → Db → BlockResult × Db
block_dates env p check_in check_out = mutate_availability env p check_in check_out block

unfoldable pub unblock_dates : Env → ℕ → ℕ → ℕ → Db → BlockResult × Db
unblock_dates env p check_in check_out = mutate_availability env p check_in check_out unblock
