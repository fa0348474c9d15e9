-- ===== src/Payments/Charges/Steps.antt =====
-- Every run of the workers that charge bookings when they are due and of Stripe's reports, in any order
-- (lib/payments/scheduledCharges.ts, lib/payments/newFlowWebhookHandling.ts).
use Prim.Native.String.{String}
use hostrepository.Base.{ℕ, ◌≡◌, Bool, true, false, not, ◌&&◌, ◌||◌, Option, none, some, any, In}
use hostrepository.Base.Int.{ℤ}
use hostrepository.Store.{Db, Env, Booking, Attempt}
use hostrepository.Payments.Charges.{has_attempt_id, decide}
use hostrepository.Payments.Charges.Record.{Outcome, record_outcome, on_new_flow_payment_succeeded}
use hostrepository.Payments.Charges.Once.{is_live}
use hostrepository.Payments.Charges.Reserving.{IsFresh}

-- A payment is reported of an attempt that was recorded as failed or cancelled.
abbrev pub is_late : Option ℕ → Db → Bool
is_late none db = false
is_late (some attempt_id) db =
    any (λ (a : Attempt). has_attempt_id attempt_id a && not (is_live a.status)) db.attempts

-- The reported attempt is live.
abbrev IsExpected : Option ℕ → Db → Type 0
IsExpected none db = Unit
IsExpected (some attempt_id) db =
    (a : Attempt) → In a db.attempts → has_attempt_id attempt_id a ≡ true → is_live a.status ≡ true

-- One transaction. A charge is a `decided` and later a `recorded`, with any others between them.
pub data Step : Db → Db → Type 0 where
  decided :
      (env : Env) (token id : ℕ) (amount : ℤ) (currency : String) (db : Db)
      → IsFresh env db
      → Step db (decide env token id amount currency db).1
  recorded :
      (env : Env) (id attempt_id token : ℕ) (o : Outcome) (db : Db)
      → Step db (record_outcome env id attempt_id token o db).1
  reported :
      (id : ℕ) (attempt_id : Option ℕ) (intent : ℕ) (db : Db)
      → Step db (on_new_flow_payment_succeeded id attempt_id intent db)
  -- Whatever leaves the attempts as they are.
  elsewhere : {db db' : Db} → db'.attempts ≡ db.attempts → Step db db'

pub data Reach (start : Db) : Db → Type 0 where
  here : Reach start start
  next : {db db' : Db} → Reach start db → Step db db' → Reach start db'

-- The transaction is a late report.
abbrev is_late_step : {db db' : Db} → Step db db' → Bool
is_late_step (decided env token id amount currency db fresh) = false
is_late_step (recorded env id attempt_id token o db) = false
is_late_step (reported id attempt_id intent db) = is_late attempt_id db
is_late_step (elsewhere same) = false

-- One of the transactions is a late report.
abbrev pub has_late_report : {start db : Db} → Reach start db → Bool
has_late_report here = false
has_late_report (next r s) = has_late_report r || is_late_step s
