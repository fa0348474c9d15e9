-- ===== src/Hosts/Availability/Nights.antt =====
-- What a host's block or unblock does to each night (lib/hosts/hostAvailability.ts).
use mathlib.Core.List.{append-nil, append_assoc}
use hostrepository.Base.{
  sym, filter, ℕ, zero, suc, ◌+◌, ◌-◌, ◌≤◌, ◌≡◌, refl, ◌==◌, Bool, true, false, not, ◌&&◌, ◌||◌,
  Option, none, some, List, [], ◌∷◌, ◌++◌, if◌then◌else◌, within, arith, any, Bool-cases, inl, inr,
}
use hostrepository.Store.{Db, Env, Block, Blocks, BlockSource, blocked, host, booking, ical_sync}
use hostrepository.Calendar.Availability.{enumerate_dates, dates_from, has_source}
use hostrepository.Calendar.Availability.Reconciled.{reconcile_lem, reconciled, takes}
use hostrepository.Hosts.Availability.{
  Action, block, unblock, BlockResult, mutate_date, mutate_dates, mutate_availability, apply_action,
}

-- What the loop makes of a row.
abbrev pub mutated : Action → Option Block → Option Block
mutated action old =
    if has_source booking old || has_source ical_sync old then old else apply_action action old

mutate_date_lem :
    (action : Action) (p : ℕ) (existing : Blocks) (d : ℕ) (s : Blocks × BlockResult)
    → s.0 p d ≡ existing p d
    → (q e : ℕ)
    → (mutate_date action p existing d s).0 q e
      ≡ (if q == p && e == d then mutated action (s.0 q e) else s.0 q e)
unfolding mutate_date
mutate_date_lem action p existing d (b, r) h q e = ground arith

mutate_dates_lem :
    (action : Action) (p : ℕ) (existing : Blocks) (d n : ℕ) (s : Blocks × BlockResult)
    → ((e : ℕ) → d ≤ e → s.0 p e ≡ existing p e)
    → (q e : ℕ)
    → (mutate_dates action p existing (dates_from d n) s).0 q e
      ≡ (if q == p && within d (d + n) e then mutated action (s.0 q e) else s.0 q e)
unfolding mutate_dates
mutate_dates_lem action p existing d zero s h q e = ground arith
mutate_dates_lem action p existing d (suc n) s h q e =
    let step = mutate_date_lem action p existing d s (h d (omega arith)) in
    let rest : (f : ℕ) → d + 1 ≤ f → (mutate_date action p existing d s).0 p f ≡ existing p f =
      λ f k. rw (step p f) (ground (arith, h f)) in
    rw
      (
        mutate_dates_lem action p existing (d + 1) n (mutate_date action p existing d s) rest q e,
        step q e,
      )
      (ground arith)

abbrev nothing_yet : BlockResult
nothing_yet = record { blocked = []; skipped = [] }

looped :
    (action : Action) (p check_in check_out : ℕ) (b : Blocks) (q e : ℕ)
    → (mutate_dates action p b (enumerate_dates check_in check_out) (b, nothing_yet)).0 q e
      ≡ (if q == p && within check_in check_out e then mutated action (b q e) else b q e)
looped action p check_in check_out b q e =
    rw
      (mutate_dates_lem action p b check_in (check_out - check_in) (b, nothing_yet) (λ f k. refl) q
        e)
      (ground arith)

mutated_night :
    (env : Env) (p check_in check_out : ℕ) (action : Action) (db : Db) (q e : ℕ)
    → (mutate_availability env p check_in check_out action db).1.blocks q e ≡ (
        if q == p
        then reconciled
            (any (takes env p db.feeds e) db.events)
            (if within check_in check_out e then mutated action (db.blocks q e) else db.blocks q e)
        else db.blocks q e)
unfolding mutate_availability
mutated_night env p check_in check_out action db q e =
    rw (reconcile_lem env p _ q e, looped action p check_in check_out db.blocks q e) (ground arith)

-- A night that only imported events may take.
abbrev imported_night : Bool → Option Block
imported_night taken =
    if taken then some (record { status = blocked; source = ical_sync }) else none

-- A night of the property after a host's action: whether it lies in the range, whether an imported
-- event takes it, and the row before.
abbrev night_after : Action → Bool → Bool → Option Block → Option Block
night_after block true taken none = some (record { status = blocked; source = host })
night_after block false taken none = imported_night taken
night_after unblock inside taken none = imported_night taken
night_after action inside taken (some row) = by_source action inside row.source
  where
    by_source : Action → Bool → BlockSource → Option Block
    by_source action inside booking = some row
    by_source action inside ical_sync = imported_night taken
    by_source block true host = some (record { status = blocked; source = host })
    by_source unblock true host = imported_night taken
    by_source action false host = some row

mutated_after :
    (action : Action) (inside taken : Bool) (old : Option Block)
    → reconciled taken (if inside then mutated action old else old)
      ≡ night_after action inside taken old
mutated_after action inside taken old = ground arith

-- After a host's action on [check_in, check_out) of property `p`, a booking's night is as it was. In
-- the range, a night that was free or the host's is blocked as the host's by a block, and is left to
-- the imported events by an unblock; outside it the host's nights stay. A night that was imported, or
-- that is left free, is blocked as imported if an imported event takes it, and free otherwise. No
-- other property changes.
pub mutate_availability_lem :
    (env : Env) (p check_in check_out : ℕ) (action : Action) (db : Db) (q e : ℕ)
    → (mutate_availability env p check_in check_out action db).1.blocks q e ≡ (
        if q == p
        then night_after action
            (within check_in check_out e)
            (any (takes env p db.feeds e) db.events)
            (db.blocks q e)
        else db.blocks q e)
mutate_availability_lem env p check_in check_out action db q e =
    rw
      (
        mutated_night env p check_in check_out action db q e,
        mutated_after action (within check_in check_out e) (any (takes env p db.feeds e) db.events)
            (db.blocks q e),
      )
      refl

pub mutate_availability_keeps :
    (env : Env) (p check_in check_out : ℕ) (action : Action) (db : Db) (q e : ℕ)
    → has_source booking (db.blocks q e) ≡ true
    → (mutate_availability env p check_in check_out action db).1.blocks q e ≡ db.blocks q e
mutate_availability_keeps env p check_in check_out action db q e h =
    rw (mutated_night env p check_in check_out action db q e) (ground arith)

-- A date that the host may change: neither a booking nor an import holds it.
abbrev pub is_open : Option Block → Bool
is_open old = not (has_source booking old || has_source ical_sync old)

module _ (action : Action) (p : ℕ) (existing : Blocks) where
  mutate_date_report :
      (d : ℕ) (s : Blocks × BlockResult)
      → (mutate_date action p existing d s).1.blocked
        ≡ s.1.blocked ++ (if is_open (existing p d) then d ∷ [] else [])
  unfolding mutate_date
  mutate_date_report d (b, r) = ground (arith, append-nil r.blocked)

  mutate_dates_report :
      (ds : List ℕ) (s : Blocks × BlockResult)
      → (mutate_dates action p existing ds s).1.blocked
        ≡ s.1.blocked ++ filter (λ (d : ℕ). is_open (existing p d)) ds
  unfolding mutate_dates
  mutate_dates_report [] s = sym (append-nil _)
  mutate_dates_report (d ∷ ds) s =
      rw (mutate_dates_report ds (mutate_date action p existing d s), mutate_date_report d s)
        (elim (Bool-cases (is_open (existing p d))) [
          | inl free ↦ rw free (append_assoc s.1.blocked (d ∷ []) _)
          | inr held ↦ rw held (append_assoc s.1.blocked [] _)
        ])

-- The report of a host's action lists, in order, exactly the dates of the range that neither a
-- booking nor an import held.
pub mutate_availability_report :
    (env : Env) (p check_in check_out : ℕ) (action : Action) (db : Db)
    → (mutate_availability env p check_in check_out action db).0.blocked
      ≡ filter (λ (d : ℕ). is_open (db.blocks p d)) (enumerate_dates check_in check_out)
unfolding mutate_availability
mutate_availability_report env p check_in check_out action db =
    mutate_dates_report action p db.blocks (enumerate_dates check_in check_out)
      (db.blocks, nothing_yet)
