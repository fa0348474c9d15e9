-- ===== src/Payouts/Transfers/Steps.antt =====
-- What an entitlement has left behind it stays behind (lib/payouts/hostTransfers.ts).
use hostrepository.Base.{
  ℕ, ◌≡◌, ◌==◌, Bool, true, false, ◌&&◌, inl, inr, List, if◌then◌else◌, any, any-update_where,
  none-update_where, Bool-cases, arith,
}
use hostrepository.Store.{
  Db, Env, Entitlement, EntitlementStatus, entitled, transfer_created, transfer_failed,
}
use hostrepository.Payouts.Transfers.{
  EntitlementInput, is_owed_for, is_entitlement, create_entitlement, is_entitled, is_claimable,
  claim_by, claim_entitlement, TransferAnswer, transferred, refused, settle_transfer,
  finish_release,
}

pub data Step : Db → Db → Type 0 where
  created :
      (env : Env) (input : EntitlementInput) (db : Db)
      → any (is_entitlement env.fresh_id) db.entitlements ≡ false
      → Step db (create_entitlement env input db).1
  claimed : (id worker : ℕ) (db : Db) → Step db (claim_entitlement id worker db).1
  finished : (id : ℕ) (answer : TransferAnswer) (db : Db) → Step db (finish_release id answer db)
  -- Whatever leaves the entitlements as they are.
  elsewhere : {db db' : Db} → db'.entitlements ≡ db.entitlements → Step db db'

pub data Reach (start : Db) : Db → Type 0 where
  here : Reach start start
  next : {db db' : Db} → Reach start db → Step db db' → Reach start db'

-- The entitlement is there, and its status is none of `early`, which it has left behind.
module _ (early : EntitlementStatus → Bool) (begins : early entitled ≡ true)
    (made : early transfer_created ≡ false) (lost : early transfer_failed ≡ false) (id : ℕ) where
  abbrev pub is_early : Entitlement → Bool
  is_early e = is_entitlement id e && early e.status

  abbrev pub IsPast : List Entitlement → Type 0
  IsPast es = (any (is_entitlement id) es ≡ true) × (any is_early es ≡ false)

  created-IsPast :
      (env : Env) (input : EntitlementInput) (db : Db)
      → any (is_entitlement env.fresh_id) db.entitlements ≡ false
      → IsPast db.entitlements
      → IsPast (create_entitlement env input db).1.entitlements
  unfolding create_entitlement
  created-IsPast env input db fresh (there, past) =
      elim (Bool-cases (any (is_owed_for input.booking_id) db.entitlements)) [
        | inl owed ↦ rw owed (there, past)
        | inr new ↦
            let other : (env.fresh_id == id) ≡ false = elim (Bool-cases (env.fresh_id == id)) [
              | inl same ↦
                  let e : env.fresh_id ≡ id = ground arith in let clash = rw e at fresh in cc
              | inr differs ↦ differs
            ] in
            rw (new, other) (there, past)
      ]

  claimed-IsPast :
      (other worker : ℕ) (db : Db)
      → IsPast db.entitlements
      → IsPast (claim_entitlement other worker db).1.entitlements
  unfolding claim_entitlement
  claimed-IsPast other worker db (there, past) = (
    any-update_where (is_entitlement id) (is_claimable other) (claim_by worker) db.entitlements
        (λ e h. elim (Bool-cases (is_claimable other e)) [
          | inl hit ↦ rw hit h
          | inr miss ↦ rw miss h
        ])
        there,
    none-update_where is_early (is_claimable other) (claim_by worker) db.entitlements
        (λ e h. elim (Bool-cases (is_claimable other e)) [
          | inl hit ↦ rw hit (claimed_row e hit h)
          | inr miss ↦ rw miss h
        ])
        past,
  )
    where
      is_entitled-early : (s : EntitlementStatus) → is_entitled s ≡ true → early s ≡ true
      is_entitled-early entitled h = begins
      is_entitled-early _ h = ground arith

      claimed_row :
          (e : Entitlement)
          → is_claimable other e ≡ true
          → is_early e ≡ false
          → is_early (claim_by worker e) ≡ false
      claimed_row e hit h = let young = is_entitled-early e.status (ground arith) in ground arith

  finished-IsPast :
      (other : ℕ) (answer : TransferAnswer) (db : Db)
      → IsPast db.entitlements
      → IsPast (finish_release other answer db).entitlements
  unfolding finish_release
  finished-IsPast other answer db (there, past) = (
    any-update_where (is_entitlement id) (is_entitlement other) (settle_transfer answer)
        db.entitlements (λ e h. settled_id answer e h) there,
    none-update_where is_early (is_entitlement other) (settle_transfer answer) db.entitlements
        (λ e h. settled_row answer e h) past,
  )
    where
      settled_id :
          (a : TransferAnswer) (e : Entitlement)
          → is_entitlement id e ≡ true
          → is_entitlement id (if is_entitlement other e then settle_transfer a e else e) ≡ true
      settled_id (transferred t) e h = ground arith
      settled_id (refused m) e h = ground arith

      settled_row :
          (a : TransferAnswer) (e : Entitlement)
          → is_early e ≡ false
          → is_early (if is_entitlement other e then settle_transfer a e else e) ≡ false
      settled_row (transferred t) e h = ground (arith, made)
      settled_row (refused m) e h = ground (arith, lost)

  pub Reach-IsPast :
      {start db : Db} → IsPast start.entitlements → Reach start db → IsPast db.entitlements
  Reach-IsPast past here = past
  Reach-IsPast past (next r (created env input db fresh)) =
      created-IsPast env input db fresh (Reach-IsPast past r)
  Reach-IsPast past (next r (claimed other worker db)) =
      claimed-IsPast other worker db (Reach-IsPast past r)
  Reach-IsPast past (next r (finished other answer db)) =
      finished-IsPast other answer db (Reach-IsPast past r)
  Reach-IsPast past (next r (elsewhere same)) = rw same (Reach-IsPast past r)
