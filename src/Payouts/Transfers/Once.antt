-- ===== src/Payouts/Transfers/Once.antt =====
-- What is owed for a booking is claimed once and transferred once (lib/payouts/hostTransfers.ts).
use hostrepository.Base.{
  ℕ, ◌≡◌, ◌==◌, refl, Bool, true, false, ◌&&◌, ◌||◌, inl, inr, some, List, [], ◌∷◌, if◌then◌else◌,
  any, find?, find?-In, update_where, any-update_where, In-any, Bool-cases, arith,
}
use hostrepository.Base.Result.{
  Result, ok, err, >>=-eq-ok, require, or_throw, require-eq-ok, or_throw-eq-ok,
}
use hostrepository.Store.{Db, Entitlement, EntitlementStatus, HostProfile}
use hostrepository.Payouts.Transfers.Steps.{Reach, Reach-IsPast}
use hostrepository.Payouts.Transfers.{
  is_entitlement, is_entitled, is_claimable, claim_by, claim_entitlement, ReleaseRefusal,
  is_transfer_claimed, check_release, execution_disabled, entitlement_not_found, not_claimed,
  TransferAnswer, transferred, refused, settle_transfer, finish_release,
}

claimed_past :
    (id worker : ℕ) (es : List Entitlement)
    → any (is_claimable id) es ≡ true
    → any (is_entitlement id) (update_where (is_claimable id) (claim_by worker) es) ≡ true
claimed_past id worker [] h = h
claimed_past id worker (e ∷ es) h = elim (Bool-cases (is_claimable id e)) [
  | inl hit ↦ rw hit (ground arith)
  | inr miss ↦
      let rest = claimed_past id worker es (rw miss at h) in
      rw (miss, rest) (or_true (is_entitlement id e))
]
  where
    or_true : (b : Bool) → (b || true) ≡ true
    or_true true = refl
    or_true false = refl

none_claimable :
    (id worker : ℕ) (es : List Entitlement)
    → any (is_claimable id) (update_where (is_claimable id) (claim_by worker) es) ≡ false
none_claimable id worker [] = refl
none_claimable id worker (e ∷ es) = elim (Bool-cases (is_claimable id e)) [
  | inl hit ↦ rw (hit, none_claimable id worker es) (ground arith)
  | inr miss ↦ rw (miss, miss, none_claimable id worker es) refl
]

-- A claim of an entitlement that succeeded is the last that does: whatever is created, claimed and
-- transferred after it, another claim of that entitlement fails. New identifiers are in no row.
pub claim_entitlement_once :
    (id worker other : ℕ) (start db : Db)
    → (claim_entitlement id worker start).0 ≡ true
    → Reach (claim_entitlement id worker start).1 db
    → (claim_entitlement id other db).0 ≡ false
unfolding claim_entitlement
claim_entitlement_once id worker other start db taken r =
    (Reach-IsPast is_entitled refl refl refl id
      (claimed_past id worker start.entitlements taken, none_claimable id worker start.entitlements)
      r).1

-- Not yet settled: entitled or claimed.
abbrev pub is_unsettled : EntitlementStatus → Bool
is_unsettled s = is_entitled s || is_transfer_claimed s

settled_id :
    (id : ℕ) (a : TransferAnswer) (e : Entitlement)
    → is_entitlement id e ≡ true
    → is_entitlement id (if is_entitlement id e then settle_transfer a e else e) ≡ true
settled_id id (transferred t) e h = ground arith
settled_id id (refused m) e h = ground arith

none_unsettled :
    (id : ℕ) (answer : TransferAnswer) (es : List Entitlement)
    → any
        (λ (e : Entitlement). is_entitlement id e && is_unsettled e.status)
        (update_where (is_entitlement id) (settle_transfer answer) es)
      ≡ false
none_unsettled id answer [] = refl
none_unsettled id (transferred t) (e ∷ es) =
    rw (none_unsettled id (transferred t) es) (ground arith)
none_unsettled id (refused m) (e ∷ es) = rw (none_unsettled id (refused m) es) (ground arith)

module _ (enabled : Bool) (id : ℕ) (db : Db) where
  check_release-claimed :
      (x : Entitlement × ℕ)
      → check_release enabled id db ≡ ok x
      → (e : Entitlement) × (find? (is_entitlement id) db.entitlements ≡ some e)
        × (is_transfer_claimed e.status ≡ true)
  unfolding check_release
  check_release-claimed x h =
      let (_, _, h₁) = >>=-eq-ok (require enabled execution_disabled) _ h in
      let (e, found, h₂) =
        >>=-eq-ok (or_throw (find? (is_entitlement id) db.entitlements) entitlement_not_found) _
          h₁ in
      let (_, _, h₃) =
        >>=-eq-ok
          (or_throw (find? (λ (p : HostProfile). p.id == e.host_id) db.host_profiles)
            entitlement_not_found)
          _ h₂ in
      let (_, checked, _) = >>=-eq-ok (require (is_transfer_claimed e.status) not_claimed) _ h₃ in
      (e, or_throw-eq-ok _ _ found, require-eq-ok _ _ checked)

-- Once the outcome of a transfer has been recorded, nothing more is transferred for that entitlement:
-- at every later time the check before Stripe is called refuses. New identifiers are in no row.
pub finish_release_once :
    (enabled : Bool) (id : ℕ) (answer : TransferAnswer) (start db : Db)
    → any (is_entitlement id) start.entitlements ≡ true
    → Reach (finish_release id answer start) db
    → (reason : ReleaseRefusal) × (check_release enabled id db ≡ err reason)
unfolding finish_release
finish_release_once enabled id answer start db there r = go (check_release enabled id db) refl
  where
    past :
        any (λ (e : Entitlement). is_entitlement id e && is_unsettled e.status) db.entitlements
        ≡ false
    past =
        (Reach-IsPast is_unsettled refl refl refl id
          (
            any-update_where (is_entitlement id) (is_entitlement id) (settle_transfer answer)
                start.entitlements (settled_id id answer) there,
            none_unsettled id answer start.entitlements,
          )
          r).1

    go :
        (result : Result ReleaseRefusal (Entitlement × ℕ))
        → check_release enabled id db ≡ result
        → (reason : ReleaseRefusal) × (check_release enabled id db ≡ err reason)
    go (err reason) e = (reason, e)
    go (ok x) h =
        let (e, found, is_claimed) = check_release-claimed enabled id db x h in
        let (i, mine) = find?-In (is_entitlement id) db.entitlements found in
        let hit =
          In-any (λ (e : Entitlement). is_entitlement id e && is_unsettled e.status) e
            db.entitlements i (ground arith) in
        let none_left = past in cc
