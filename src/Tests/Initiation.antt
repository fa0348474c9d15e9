-- ===== src/Tests/Initiation.antt =====
-- Concrete runs of refunds that are initiated.
use hostrepository.Base.{◌≡◌, refl, false, arith}
use hostrepository.Base.Text.{codes}
use hostrepository.Payments.Initiation.{
  InitiateRefundInput, RefundTables, admin_goodwill, admin, asked, saved, initiate_refund,
  finish_refund, claim_refund, existing_attempt, ask_stripe, create_refund, list_refunds,
}
use hostrepository.Payments.Initiation.Single.{IsSingle}
use hostrepository.Payments.Initiation.Calls.{here, next, called, no_refunds, Reach-IsSingle}
use hostrepository.Tests.Data.{env, later}

abbrev input : InitiateRefundInput
input = record {
  booking_id = 1;
  payment_id = 2;
  provider_payment_intent_id = 2;
  amount_minor = 500;
  currency = codes "GBP";
  reason = admin_goodwill;
  initiated_by = admin;
}

-- A call breaks off after Stripe has made the refund, and its retry finds that refund in the list.
abbrev broken : RefundTables
broken = initiate_refund env asked false 900 input no_refunds

abbrev retried : RefundTables
retried = initiate_refund later saved false 901 input broken

Reach-IsSingle_example : IsSingle (λ payment. payment) retried
unfolding initiate_refund finish_refund claim_refund existing_attempt ask_stripe create_refund
    list_refunds
Reach-IsSingle_example = Reach-IsSingle {intent_of = λ payment. payment} (
    next (next here (called env asked false 900 input refl refl (omega arith) refl))
      (called later saved false 901 input refl refl (omega arith) refl))

retried_once : retried.stripe ≡ broken.stripe
unfolding initiate_refund finish_refund claim_refund existing_attempt ask_stripe create_refund
    list_refunds
retried_once = refl
