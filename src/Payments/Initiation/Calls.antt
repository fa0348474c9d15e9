-- ===== src/Payments/Initiation/Calls.antt =====
-- Any calls of initiateRefund, one after the other.
use hostrepository.Base.{
  ℕ, ◌≤◌, ◌≡◌, refl, sym, subst, Bool, true, false, Bool-cases, Option-cases, inl, inr, Option,
  List, [], ◌==◌, length, any, filter, arith,
}
use hostrepository.Store.{Env}
use hostrepository.Payments.Initiation.{
  InitiateRefundInput, RefundAttempt, StripeRefund, RefundTables, Progress, claimed, asked, saved,
  Claim, existing_attempt, claim_row, claim_refund, new_refund_row, insert_refund_row, is_refund_of,
  ask_stripe, finish_refund, initiate_refund,
}
use hostrepository.Payments.Initiation.Single.{
  any-In, has_row_id, IsSingle, IsClaim, existing_attempt-In, ask-IsSingle, save-IsSingle,
  insert-IsSingle,
}

module _ (intent_of : ℕ → ℕ) (env : Env) (input : InitiateRefundInput) (tables : RefundTables)
    (fresh : any (has_row_id env.fresh_id) tables.rows ≡ false)
    (h : IsSingle intent_of tables) where
  abbrev IsClaimed : Claim × List RefundAttempt → Type 0
  IsClaimed (claim, rows) =
      IsSingle intent_of (record tables { rows = rows })
      × IsClaim intent_of input claim (record tables { rows = rows })

  no_refund_yet : any (is_refund_of env.fresh_id) tables.stripe ≡ false
  no_refund_yet = elim (Bool-cases (any (is_refund_of env.fresh_id) tables.stripe)) [
    | inr e ↦ e
    | inl e ↦
        let (r, i, k) = any-In (is_refund_of env.fresh_id) tables.stripe e in
        let hers : r.host_refund_id ≡ env.fresh_id = ground arith in
        let listed = subst (λ (n : ℕ). any (has_row_id n) tables.rows ≡ true) hers (h.known r i) in
        cc
  ]

  inserted : IsClaimed (insert_refund_row env input tables.rows)
  inserted = (
    insert-IsSingle intent_of env input tables fresh h,
    ((new_refund_row env input, inl refl, refl, refl), λ e. no_refund_yet),
  )

  claim-IsClaimed : IsClaimed (claim_refund env input tables.rows)
  unfolding claim_refund
  claim-IsClaimed = elim (Option-cases (existing_attempt input tables.rows)) [
    | inl e ↦
        subst (λ (o : Option RefundAttempt). IsClaimed (claim_row env input tables.rows o)) (sym e)
          inserted
    | inr (row, e) ↦
        let (listed, paid) = existing_attempt-In input tables.rows e in
        subst (λ (o : Option RefundAttempt). IsClaimed (claim_row env input tables.rows o)) (sym e)
          (elim (Option-cases row.provider_refund_id) [
            | inl unresolved ↦ rw unresolved (h, ((row, listed, refl, paid), λ k. cc))
            | inr (known, resolved) ↦ rw resolved inserted
          ])
  ]

  initiate-IsSingle :
      (progress : Progress) (remembered : Bool) (stripe_id : ℕ)
      → input.provider_payment_intent_id ≡ intent_of input.payment_id
      → length (
          filter
            (λ (r : StripeRefund). r.payment_intent == input.provider_payment_intent_id)
            tables.stripe)
        ≤ 20
      → IsSingle intent_of (initiate_refund env progress remembered stripe_id input tables)
  unfolding initiate_refund finish_refund
  initiate-IsSingle claimed remembered stripe_id fits few = claim-IsClaimed.0
  initiate-IsSingle asked remembered stripe_id fits few =
      let (claim, rows) = claim_refund env input tables.rows in
      ask-IsSingle intent_of input fits remembered stripe_id claim (record tables { rows = rows })
        claim-IsClaimed.0 claim-IsClaimed.1 few
  initiate-IsSingle saved remembered stripe_id fits few =
      let (claim, rows) = claim_refund env input tables.rows in
      let answer = ask_stripe remembered stripe_id input claim tables.stripe in
      save-IsSingle intent_of claim.0 answer.0.id (record { rows = rows; stripe = answer.1 })
        (ask-IsSingle intent_of input fits remembered stripe_id claim
          (record tables { rows = rows }) claim-IsClaimed.0 claim-IsClaimed.1 few)

-- A call that gets as far as it gets. A new row has an identifier that is in no row, a payment has one
-- payment intent, and Stripe holds at most 20 refunds of it, so that a retry sees them all.
pub data Call (intent_of : ℕ → ℕ) : RefundTables → RefundTables → Type 0 where
  called :
      {before after : RefundTables} (env : Env) (progress : Progress) (remembered : Bool)
      (stripe_id : ℕ) (input : InitiateRefundInput)
      → any (has_row_id env.fresh_id) before.rows ≡ false
      → input.provider_payment_intent_id ≡ intent_of input.payment_id
      → length (
          filter
            (λ (r : StripeRefund). r.payment_intent == input.provider_payment_intent_id)
            before.stripe)
        ≤ 20
      → after ≡ initiate_refund env progress remembered stripe_id input before
      → Call intent_of before after

pub data Reach (intent_of : ℕ → ℕ) (start : RefundTables) : RefundTables → Type 0 where
  here : Reach intent_of start start
  next :
      {before after : RefundTables}
      → Reach intent_of start before
      → Call intent_of before after
      → Reach intent_of start after

abbrev pub no_refunds : RefundTables
no_refunds = record { rows = []; stripe = [] }

-- From no refunds, after any calls one after the other, however far each got and whether or not Stripe
-- still remembered its keys: Stripe has made at most one refund for a row, and each of its refunds is
-- for a row and on the payment intent of that row's payment.
pub Reach-IsSingle :
    {intent_of : ℕ → ℕ} {tables : RefundTables}
    → Reach intent_of no_refunds tables
    → IsSingle intent_of tables
Reach-IsSingle here = record {
  once = λ id. omega arith;
  known = λ r i. absurd i;
  intent = λ r i row j e. absurd i;
  payment = λ row other j k e. absurd j;
}
Reach-IsSingle {intent_of}
      (next {before} reach (called env progress remembered stripe_id input fresh fits few e)) =
    subst (IsSingle intent_of) (sym e) (
      initiate-IsSingle intent_of env input before fresh (Reach-IsSingle reach) progress remembered
        stripe_id fits few)
