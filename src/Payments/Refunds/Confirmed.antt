-- ===== src/Payments/Refunds/Confirmed.antt =====
-- What a reported refund leaves behind, and that it counts once (onRefundEvent of
-- lib/payments/webhookHandler.ts).
use hostrepository.Base.{
  ℕ, ◌≡◌, refl, sym, ap, ◌∙◌, subst, Bool, true, false, not, inl, inr, Option, none, some, List, [],
  ◌∷◌, if◌then◌else◌, any, find?, find?-In, ◌≢◌, ◌⊎◌, update_where, In, In-update_where, Bool-cases,
  arith,
}
use hostrepository.Base.Int.{ℤ, leb_ℤ}
use hostrepository.Base.Result.{ok, >>=-eq-ok, ok_eq, or_throw}
use hostrepository.Store.{Db, Booking, Payment, PriceRow, RefundRow}
use hostrepository.Booking.Types.{BookingStatus}
use hostrepository.Booking.Release.{has_id}
use hostrepository.Payments.Reversal.{compute_refund_reversal_entries, already_reversed}
use hostrepository.Payments.Refunds.{
  StripeRefund, booking_missing, has_intent, is_matched, mark_settled, refunded_total,
  refund_booking, amounts_of, entries_of, or_reversal_error, post_reversal, refund_matched,
  refund_payment_found, on_refund_intent, on_refund_event,
}

-- The ledger's part changes neither refunds nor bookings.
post_reversal_frame :
    (r : StripeRefund) (p : Payment) (cumulative : ℤ) (full : Bool) (o : Option PriceRow)
    (db db' : Db)
    → post_reversal r p cumulative full o db ≡ ok db'
    → (db'.refunds ≡ db.refunds) × (db'.bookings ≡ db.bookings)
unfolding post_reversal
post_reversal_frame r p cumulative full none db db' e = rw (← ok_eq e) (refl, refl)
post_reversal_frame r p cumulative full (some price) db db' e =
    let reversal = or_reversal_error (
      compute_refund_reversal_entries (amounts_of price.breakdown)
        (already_reversed (entries_of p.booking_id db.ledger)) r.amount cumulative
        p.amount_minor) in
    let (x, _, e₁) = >>=-eq-ok reversal _ e in
    let (b, _, e₂) =
      >>=-eq-ok (or_throw (find? (has_id p.booking_id) db.bookings) booking_missing) _ e₁ in
    rw (← ok_eq e₂) (refl, refl)

none_matched :
    (id : ℕ) (rows : List RefundRow)
    → any (is_matched id) (update_where (is_matched id) mark_settled rows) ≡ false
none_matched id [] = refl
none_matched id (row ∷ rows) = elim (Bool-cases (is_matched id row)) [
  | inl hit ↦ rw (hit, none_matched id rows) (ground arith)
  | inr miss ↦ rw (miss, miss, none_matched id rows) refl
]

module _ (r : StripeRefund) (db : Db) where
  -- The database in which the refund's row is settled.
  abbrev settled_db : Db
  settled_db = record db { refunds = update_where (is_matched r.id) mark_settled db.refunds }

  -- A call changes nothing, or finds the payment and an unsettled row of the refund.
  abbrev IsPosted : Db → Type 0
  IsPosted db' =
      (p : Payment) × (intent : ℕ) × (r.payment_intent ≡ some intent)
      × (find? (has_intent intent) db.payments ≡ some p)
      × (refund_matched r p settled_db ≡ ok db')

  payment_found_cases :
      (intent : ℕ) (o : Option Payment) (db' : Db)
      → r.payment_intent ≡ some intent
      → find? (has_intent intent) db.payments ≡ o
      → refund_payment_found r o db ≡ ok db'
      → (db' ≡ db) ⊎ IsPosted db'
  unfolding refund_payment_found
  payment_found_cases intent none db' named found e = inl (sym (ok_eq e))
  payment_found_cases intent (some p) db' named found e =
      elim (Bool-cases (any (is_matched r.id) db.refunds)) [
        | inl hit ↦ inr (p, intent, named, found, rw hit at e)
        | inr miss ↦ inl (sym (ok_eq (rw miss at e)))
      ]

  on_refund_intent_cases :
      (o : Option ℕ) (db' : Db)
      → r.payment_intent ≡ o
      → on_refund_intent r o db ≡ ok db'
      → (db' ≡ db) ⊎ IsPosted db'
  unfolding on_refund_intent
  on_refund_intent_cases none db' named e = inl (sym (ok_eq e))
  on_refund_intent_cases (some intent) db' named e =
      payment_found_cases intent (find? (has_intent intent) db.payments) db' named refl e

  on_refund_event_cases : (db' : Db) → on_refund_event r db ≡ ok db' → (db' ≡ db) ⊎ IsPosted db'
  unfolding on_refund_event
  on_refund_event_cases db' e = go r.is_succeeded e
    where
      go :
          (c : Bool)
          → (if not c then ok db else on_refund_intent r r.payment_intent db) ≡ ok db'
          → (db' ≡ db) ⊎ IsPosted db'
      go true h = on_refund_intent_cases r.payment_intent db' refl h
      go false h = inl (sym (ok_eq h))

  payment_found_unmatched :
      (o : Option Payment)
      → any (is_matched r.id) db.refunds ≡ false
      → refund_payment_found r o db ≡ ok db
  unfolding refund_payment_found
  payment_found_unmatched none miss = refl
  payment_found_unmatched (some p) miss = rw miss refl

  on_refund_intent_unmatched :
      (o : Option ℕ) → any (is_matched r.id) db.refunds ≡ false → on_refund_intent r o db ≡ ok db
  unfolding on_refund_intent
  on_refund_intent_unmatched none miss = refl
  on_refund_intent_unmatched (some intent) miss =
      payment_found_unmatched (find? (has_intent intent) db.payments) miss

  -- Nothing happens for a refund that no unsettled row matches.
  on_refund_event_unmatched :
      any (is_matched r.id) db.refunds ≡ false → on_refund_event r db ≡ ok db
  unfolding on_refund_event
  on_refund_event_unmatched miss = go r.is_succeeded
    where
      go : (c : Bool) → (if not c then ok db else on_refund_intent r r.payment_intent db) ≡ ok db
      go true = on_refund_intent_unmatched r.payment_intent miss
      go false = refl

refund_matched_frame :
    (r : StripeRefund) (p : Payment) (db db' : Db)
    → refund_matched r p db ≡ ok db'
    → (db'.refunds ≡ db.refunds)
      × (db'.bookings
          ≡ update_where
              (has_id p.booking_id)
              (refund_booking (leb_ℤ p.amount_minor (refunded_total p.booking_id db.refunds)))
              db.bookings)
unfolding refund_matched
refund_matched_frame r p db db' e = post_reversal_frame r p _ _ _ _ db' e

-- A report that Stripe delivers again, or a second one of the same refund, changes nothing.
pub on_refund_event_once :
    (r : StripeRefund) (db db' : Db)
    → on_refund_event r db ≡ ok db'
    → on_refund_event r db' ≡ ok db'
on_refund_event_once r db db' e = elim (on_refund_event_cases r db db' e) [
  | inl same ↦ subst (λ (d : Db). on_refund_event r d ≡ ok d) (sym same) (e ∙ ap ok same)
  | inr (p, _, _, _, posted) ↦
      let (kept, _) = refund_matched_frame r p (settled_db r db) db' posted in
      on_refund_event_unmatched r db'
        (ap (any (is_matched r.id)) kept ∙ none_matched r.id db.refunds)
]

-- A report that changed anything leaves the booking of its payment refunded, if what has been refunded
-- of it covers the payment, and confirmed otherwise, whatever its status was before.
pub on_refund_event_status :
    (r : StripeRefund) (db db' : Db)
    → on_refund_event r db ≡ ok db'
    → db' ≢ db
    → (p : Payment) × In p db.payments
      × (r.payment_intent ≡ some p.provider_payment_intent_id)
      × ((b : Booking)
          → In b db'.bookings
          → b.id ≡ p.booking_id
          → b.status ≡ (
              if leb_ℤ p.amount_minor (refunded_total p.booking_id db'.refunds)
              then BookingStatus.refunded
              else BookingStatus.confirmed))
on_refund_event_status r db db' e changed = elim (on_refund_event_cases r db db' e) [
  | inl same ↦ absurd (changed same)
  | inr (p, intent, named, found, posted) ↦
      let (kept, rows) = refund_matched_frame r p (settled_db r db) db' posted in
      let (i, hit) = find?-In (has_intent intent) db.payments found in
      let same : intent ≡ p.provider_payment_intent_id = ground arith in
      (p, i, named ∙ ap some same, λ b j mine. status_of p kept rows b j mine)
]
  where
    status_of :
        (p : Payment)
        → db'.refunds ≡ (settled_db r db).refunds
        → db'.bookings
          ≡ update_where
              (has_id p.booking_id)
              (refund_booking
                (leb_ℤ p.amount_minor (refunded_total p.booking_id (settled_db r db).refunds)))
              db.bookings
        → (b : Booking) → In b db'.bookings
        → b.id ≡ p.booking_id
        → b.status ≡ (
            if leb_ℤ p.amount_minor (refunded_total p.booking_id db'.refunds)
            then BookingStatus.refunded
            else BookingStatus.confirmed)
    status_of p kept rows b j mine =
        let full = leb_ℤ p.amount_minor (refunded_total p.booking_id (settled_db r db).refunds) in
        let (x, _, same) =
          In-update_where (has_id p.booking_id) (refund_booking full) db.bookings
            (subst (λ (l : List Booking). In b l) rows j) in
        elim (Bool-cases (has_id p.booking_id x)) [
          | inl hit ↦ rw (rw hit at same, kept) refl
          | inr miss ↦ let stays : b ≡ x = rw miss at same in absurd (ground arith)
        ]
