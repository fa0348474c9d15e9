-- ===== src/Payments/Initiation/Single.antt =====
-- However often refunds are asked for and calls break off: Stripe makes one refund for a row at most.
use hostrepository.Base.{
  ℕ, zero, suc, ◌≤◌, ◌≡◌, refl, sym, ap, ◌∙◌, subst, Bool, true, false, Bool-cases, Option-cases,
  inl, inr, none, some, List, [], ◌∷◌, ◌==◌, length, take, any, leb, find?, filter, filter-In, In,
  or-true, In-any, In-update_where, any-update_where, if◌then◌else◌, arith,
}
use hostrepository.Store.{Env}
use hostrepository.Payments.Initiation.{
  InitiateRefundInput, RefundAttempt, StripeRefund, RefundTables, Claim, is_same_refund,
  existing_attempt, new_refund_row, is_refund_of, list_refunds, new_refund, remembered_refund,
  create_refund, reconciled, ask_stripe, set_provider_id, save_refund,
}

module _ {A : Type 0} (p : A → Bool) where
  pub any-In : (xs : List A) → any p xs ≡ true → (x : A) × In x xs × (p x ≡ true)
  any-In [] h = absurd (ground arith)
  any-In (x ∷ xs) h = elim (Bool-cases (p x)) [
    | inl e ↦ (x, inl refl, e)
    | inr e ↦ let (y, i, k) = any-In xs (rw e at h) in (y, inr i, k)
  ]

  none-any : (xs : List A) → find? p xs ≡ none → any p xs ≡ false
  none-any [] h = refl
  none-any (x ∷ xs) h = ground (arith, none-any xs)

  none-filter : (xs : List A) → any p xs ≡ false → filter p xs ≡ []
  none-filter [] h = refl
  none-filter (x ∷ xs) h = ground (arith, none-filter xs)

  take_all : (n : ℕ) (xs : List A) → length xs ≤ n → take n xs ≡ xs
  take_all zero [] h = refl
  take_all zero (x ∷ xs) h = absurd (omega arith)
  take_all (suc n) [] h = refl
  take_all (suc n) (x ∷ xs) h = ap (λ (ys : List A). x ∷ ys) (take_all n xs (omega arith))

abbrev pub has_row_id : ℕ → RefundAttempt → Bool
has_row_id id row = row.id == id

-- At most one refund for a row; each refund is a row's, on the payment intent of its payment.
pub record IsSingle (intent_of : ℕ → ℕ) (tables : RefundTables) : Type 0 where
  pub once : (id : ℕ) → length (filter (is_refund_of id) tables.stripe) ≤ 1
  pub known :
      (r : StripeRefund) → In r tables.stripe → any (has_row_id r.host_refund_id) tables.rows ≡ true
  pub intent :
      (r : StripeRefund)
      → In r tables.stripe
      → (row : RefundAttempt) → In row tables.rows
      → row.id ≡ r.host_refund_id
      → intent_of row.payment_id ≡ r.payment_intent
  pub payment :
      (row other : RefundAttempt)
      → In row tables.rows
      → In other tables.rows
      → row.id ≡ other.id
      → row.payment_id ≡ other.payment_id

pub existing_attempt-In :
    (input : InitiateRefundInput) (rows : List RefundAttempt) {row : RefundAttempt}
    → existing_attempt input rows ≡ some row
    → In row rows × (row.payment_id ≡ input.payment_id)
unfolding existing_attempt
existing_attempt-In input [] h = absurd (ground arith)
existing_attempt-In input (x ∷ rows) {row} h = elim (Bool-cases (is_same_refund input x)) [
  | inr e ↦ let (i, k) = existing_attempt-In input rows {row = row} (rw e at h) in (inr i, k)
  | inl e ↦
      let paid : x.payment_id ≡ input.payment_id = ground arith in
      elim (Option-cases (existing_attempt input rows)) [
        | inl n ↦
            let here : x ≡ row = ground arith in
            (
              inl (sym here),
              subst (λ (r : RefundAttempt). r.payment_id ≡ input.payment_id) here paid,
            )
        | inr (other, o) ↦
            let (i, k) = existing_attempt-In input rows o in
            elim (Bool-cases (leb other.created_at x.created_at)) [
              | inl b ↦
                  let here : x ≡ row = ground arith in
                  (
                    inl (sym here),
                    subst (λ (r : RefundAttempt). r.payment_id ≡ input.payment_id) here paid,
                  )
              | inr b ↦
                  let there : other ≡ row = ground arith in
                  (
                    inr (subst (λ (r : RefundAttempt). In r rows) there i),
                    subst (λ (r : RefundAttempt). r.payment_id ≡ input.payment_id) there k,
                  )
            ]
      ]
]

-- What the second part may rely on: the row of the claim, and that a new one has no refund yet.
abbrev pub IsClaim : (ℕ → ℕ) → InitiateRefundInput → Claim → RefundTables → Type 0
IsClaim intent_of input claim tables =
    ((row : RefundAttempt) × In row tables.rows
      × (row.id ≡ claim.0)
      × (row.payment_id ≡ input.payment_id))
    × (claim.1 ≡ false → any (is_refund_of claim.0) tables.stripe ≡ false)

module _ (intent_of : ℕ → ℕ) (input : InitiateRefundInput)
    (fits : input.provider_payment_intent_id ≡ intent_of input.payment_id) where
  module _ (id : ℕ) (tables : RefundTables) (h : IsSingle intent_of tables) where
    -- A retry that finds no refund: there is none.
    not_listed :
        (row : RefundAttempt)
        → In row tables.rows
        → row.id ≡ id
        → row.payment_id ≡ input.payment_id
        → length (
            filter
              (λ (r : StripeRefund). r.payment_intent == input.provider_payment_intent_id)
              tables.stripe)
          ≤ 20
        → find? (is_refund_of id) (list_refunds input.provider_payment_intent_id tables.stripe)
          ≡ none
        → any (is_refund_of id) tables.stripe ≡ false
    unfolding list_refunds
    not_listed row listed same paid few missing =
        elim (Bool-cases (any (is_refund_of id) tables.stripe)) [
          | inr e ↦ e
          | inl e ↦
              let (r, i, k) = any-In (is_refund_of id) tables.stripe e in
              let hers : row.id ≡ r.host_refund_id = ground arith in
              let at = h.intent r i row listed hers in
              let mine : (r.payment_intent == input.provider_payment_intent_id) ≡ true =
                ground (arith, ap intent_of paid) in
              let on_intent =
                filter (λ (x : StripeRefund). x.payment_intent == input.provider_payment_intent_id)
                  tables.stripe in
              let there =
                In-any (is_refund_of id) r on_intent
                  (filter-In
                    (λ (x : StripeRefund). x.payment_intent == input.provider_payment_intent_id) r
                    tables.stripe i mine)
                  k in
              let whole = take_all (is_refund_of id) 20 on_intent few in
              let nothing =
                none-any (is_refund_of id) on_intent
                  (ap (find? (is_refund_of id)) (sym whole) ∙ missing) in
              cc
        ]

    add_refund :
        (stripe_id : ℕ) (row : RefundAttempt)
        → In row tables.rows
        → row.id ≡ id
        → row.payment_id ≡ input.payment_id
        → any (is_refund_of id) tables.stripe ≡ false
        → IsSingle intent_of
            (record tables { stripe = new_refund stripe_id input id ∷ tables.stripe })
    add_refund stripe_id row listed same paid absent =
        let none_yet = none-filter (is_refund_of id) tables.stripe absent in
        record {
          once = λ other. elim (Bool-cases (id == other)) [
            | inl e ↦
                let here : id ≡ other = ground arith in
                let empty : length (filter (is_refund_of other) tables.stripe) ≡ 0 =
                  ap (λ (n : ℕ). length (filter (is_refund_of n) tables.stripe)) (sym here)
                  ∙ ap length none_yet in
                rw e (omega arith)
            | inr e ↦ rw e (h.once other)
          ];
          known = λ r i. elim i [
            | inl new ↦
                subst (λ (x : StripeRefund). any (has_row_id x.host_refund_id) tables.rows ≡ true)
                  (sym new) (In-any (has_row_id id) row tables.rows listed (ground arith))
            | inr old ↦ h.known r old
          ];
          intent = λ r i other k e. elim i [
            | inl new ↦
                let hers : other.id ≡ row.id =
                  e ∙ ap (λ (x : StripeRefund). x.host_refund_id) new ∙ sym same in
                ap intent_of (h.payment other row k listed hers ∙ paid)
                ∙ sym fits
                ∙ ap (λ (x : StripeRefund). x.payment_intent) (sym new)
            | inr old ↦ h.intent r old other k e
          ];
          payment = h.payment;
        }

  pub ask-IsSingle :
      (remembered : Bool) (stripe_id : ℕ) (claim : Claim) (tables : RefundTables)
      → IsSingle intent_of tables
      → IsClaim intent_of input claim tables
      → length (
          filter
            (λ (r : StripeRefund). r.payment_intent == input.provider_payment_intent_id)
            tables.stripe)
        ≤ 20
      → IsSingle intent_of
          (record tables { stripe = (ask_stripe remembered stripe_id input claim tables.stripe).1 })
  unfolding ask_stripe create_refund
  ask-IsSingle remembered stripe_id (id, retry) tables h ((row, listed, same, paid), new) few =
      elim (Option-cases (reconciled input (id, retry) tables.stripe)) [
        | inr (r, e) ↦ rw (e, ask_stripe) h
        | inl e ↦ elim (Option-cases (remembered_refund remembered id tables.stripe)) [
          | inr (r, k) ↦ rw (e, ask_stripe) (rw (k, create_refund) h)
          | inl k ↦
              let absent : any (is_refund_of id) tables.stripe ≡ false = elim (Bool-cases retry) [
                | inl t ↦
                    not_listed id tables h row listed same paid few
                      (ap (λ (b : Bool). reconciled input (id, b) tables.stripe) (sym t) ∙ e)
                | inr f ↦ new f
              ] in
              rw (e, ask_stripe)
                (rw (k, create_refund)
                  (add_refund id tables h stripe_id row listed same paid absent))
        ]
      ]

saved_row :
    (id stripe_id : ℕ) (rows : List RefundAttempt) (row : RefundAttempt)
    → In row (save_refund id stripe_id rows)
    → (x : RefundAttempt) × In x rows × (row.id ≡ x.id) × (row.payment_id ≡ x.payment_id)
unfolding save_refund
saved_row id stripe_id rows row i =
    let (x, j, e) = In-update_where (has_row_id id) (set_provider_id stripe_id) rows {y = row} i in
    let same_id : (if has_row_id id x then set_provider_id stripe_id x else x).id ≡ x.id =
      ground arith in
    let same_payment : (if has_row_id id x then set_provider_id stripe_id x else x).payment_id
        ≡ x.payment_id =
      ground arith in
    (
      x,
      j,
      ap (λ (r : RefundAttempt). r.id) e ∙ same_id,
      ap (λ (r : RefundAttempt). r.payment_id) e ∙ same_payment,
    )

pub save-IsSingle :
    (intent_of : ℕ → ℕ) (id stripe_id : ℕ) (tables : RefundTables)
    → IsSingle intent_of tables
    → IsSingle intent_of (record tables { rows = save_refund id stripe_id tables.rows })
save-IsSingle intent_of id stripe_id tables h = record {
  once = h.once;
  known = λ r i.
      unfold save_refund in
      any-update_where (has_row_id r.host_refund_id) (has_row_id id) (set_provider_id stripe_id)
        tables.rows (λ x k. ground arith) (h.known r i);
  intent = λ r i row j e.
      let (x, k, same_id, same_payment) = saved_row id stripe_id tables.rows row j in
      ap intent_of same_payment ∙ h.intent r i x k (sym same_id ∙ e);
  payment = λ row other j k e.
      let (x, l, id_x, paid_x) = saved_row id stripe_id tables.rows row j in
      let (y, m, id_y, paid_y) = saved_row id stripe_id tables.rows other k in
      paid_x ∙ h.payment x y l m (sym id_x ∙ e ∙ id_y) ∙ sym paid_y;
}

-- A new row, whose identifier is in no row.
pub insert-IsSingle :
    (intent_of : ℕ → ℕ) (env : Env) (input : InitiateRefundInput) (tables : RefundTables)
    → any (has_row_id env.fresh_id) tables.rows ≡ false
    → IsSingle intent_of tables
    → IsSingle intent_of (record tables { rows = new_refund_row env input ∷ tables.rows })
insert-IsSingle intent_of env input tables fresh h = record {
  once = h.once;
  known = λ r i. let old = h.known r i in rw old (or-true (env.fresh_id == r.host_refund_id));
  intent = λ r i row j e. elim j [
    | inr old ↦ h.intent r i row old e
    | inl new ↦
        let hers : env.fresh_id ≡ r.host_refund_id =
          ap (λ (x : RefundAttempt). x.id) (sym new) ∙ e in
        let listed =
          subst (λ (n : ℕ). any (has_row_id n) tables.rows ≡ true) (sym hers) (h.known r i) in
        absurd (ground arith)
  ];
  payment = λ row other j k e. elim j [
    | inr old ↦ elim k [
      | inr older ↦ h.payment row other old older e
      | inl new ↦
          let listed =
            In-any (has_row_id env.fresh_id) row tables.rows old
              (ground (arith, ap (λ (x : RefundAttempt). x.id) new)) in
          absurd (ground arith)
    ]
    | inl new ↦ elim k [
      | inl newer ↦ ap (λ (x : RefundAttempt). x.payment_id) (new ∙ sym newer)
      | inr old ↦
          let listed =
            In-any (has_row_id env.fresh_id) other tables.rows old
              (ground (arith, ap (λ (x : RefundAttempt). x.id) new)) in
          absurd (ground arith)
    ]
  ];
}
