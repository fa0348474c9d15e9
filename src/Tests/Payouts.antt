-- ===== src/Tests/Payouts.antt =====
-- Concrete transfers: two workers and one entitlement.
use hostrepository.Base.{◌≡◌, refl, true, false, none, some, [], ◌∷◌}
use hostrepository.Base.Int.{pos}
use hostrepository.Base.Result.{ok, err}
use hostrepository.Store.{Db, transfer_claimed}
use hostrepository.Payouts.Transfers.{
  EntitlementInput, new_entitlement, create_entitlement, claim_entitlement, ReleaseRefusal,
  check_release, transferred, finish_release,
}
use hostrepository.Payouts.Transfers.Steps.{here, next, created, claimed, finished}
use hostrepository.Payouts.Transfers.Once.{claim_entitlement_once, finish_release_once}
use hostrepository.Tests.Data.{env, later, db}

abbrev owed : EntitlementInput
owed = record {
  booking_id = 500;
  host_id = 70;
  amount_minor = pos 35100;
  tax_amount_minor = none;
  currency = "GBP";
  scheduled_release_at = 0;
}

abbrev entitled_db : Db
entitled_db = record db {
  host_profiles = record { id = 70; stripe_connect_account_id = some 9 } ∷ [];
  entitlements = new_entitlement env owed ∷ [];
}

abbrev claimed_db : Db
claimed_db = (claim_entitlement 500 1 entitled_db).1

-- The first worker may transfer.
claimed_db_checks :
    check_release true 500 claimed_db
    ≡ ok (
      record (new_entitlement env owed) {
        status = transfer_claimed;
        claimed_by_worker_id = some 1;
      },
      9,
    )
unfolding check_release claim_entitlement
claimed_db_checks = refl

abbrev owed_next : EntitlementInput
owed_next = record owed { booking_id = 501 }

-- Another booking is paid, and the transfer of the first one goes through.
abbrev transferred_db : Db
transferred_db =
    finish_release 500 (transferred 88) (create_entitlement later owed_next claimed_db).1

claim_entitlement_once_example : (claim_entitlement 500 2 transferred_db).0 ≡ false
unfolding claim_entitlement
claim_entitlement_once_example = claim_entitlement_once 500 1 2 entitled_db transferred_db refl (
    next (next here (created later owed_next claimed_db refl))
      (finished 500 (transferred 88) (create_entitlement later owed_next claimed_db).1))

finish_release_once_example :
    (reason : ReleaseRefusal) × (check_release true 500
        (claim_entitlement 500 2 (finish_release 500 (transferred 88) claimed_db)).1
      ≡ err reason)
unfolding claim_entitlement
finish_release_once_example =
    finish_release_once true 500 (transferred 88) claimed_db
      (claim_entitlement 500 2 (finish_release 500 (transferred 88) claimed_db)).1 refl
      (next here (claimed 500 2 (finish_release 500 (transferred 88) claimed_db)))
