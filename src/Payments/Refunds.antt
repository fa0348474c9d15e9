-- ===== src/Payments/Refunds.antt =====
-- onRefundEvent of lib/payments/webhookHandler.ts: Stripe reports a refund. The message to the guest
-- after the commit is left out.
pub mod Confirmed
use Prim.Native.String.{String}
use hostrepository.Base.{
  ℕ, ◌==◌, Bool, true, false, not, ◌&&◌, Option, none, some, List, [], ◌∷◌, ◌++◌, map,
  if◌then◌else◌, filter, find?, any, update_where,
}
use hostrepository.Base.Int.{ℤ, pos, ◌+ℤ◌, ◌-ℤ◌, leb_ℤ, ltb_ℤ}
use hostrepository.Base.Result.{Result, ok, err, ◌>>=◌, or_throw}
use hostrepository.Store.{
  Db, Booking, Payment, PaymentStatus, PriceRow, RefundRow, RefundStatus, LedgerRow, PayoutRow,
  PayoutStatus,
}
use hostrepository.Booking.Types.{BookingStatus, PriceBreakdown}
use hostrepository.Booking.Release.{has_id}
use hostrepository.Payments.Reversal.{
  Category, accommodation, cleaning, guest_service_fee, taxes, host_commission, host_revenue,
  host_payout, Amounts, LedgerReversalRow, RefundReversalResult, ReversalError,
  compute_refund_reversal_entries, already_reversed,
}

-- What the handler reads of Stripe's refund.
pub record StripeRefund : Type 0 where
  pub id : ℕ
  pub is_succeeded : Bool
  pub payment_intent : Option ℕ
  pub amount : ℤ

pub data RefundError : Type 0 where
  reversal_error : ReversalError → RefundError
  booking_missing : RefundError

abbrev pub has_intent : ℕ → Payment → Bool
has_intent intent p = p.provider_payment_intent_id == intent

abbrev pub is_settled : RefundStatus → Bool
is_settled RefundStatus.succeeded = true
is_settled _ = false

-- `WHERE provider_refund_id = $1 AND status != 'succeeded'`
abbrev pub is_matched : ℕ → RefundRow → Bool
is_matched id row =
    (elim row.provider_refund_id [ none ↦ false | some other ↦ other == id ])
    && not (is_settled row.status)

abbrev pub mark_settled : RefundRow → RefundRow
mark_settled row = record row { status = RefundStatus.succeeded }

-- `SUM(amount_minor) … WHERE booking_id = $1 AND status = 'succeeded'`
unfoldable pub refunded_total : ℕ → List RefundRow → ℤ
refunded_total booking [] = pos 0
refunded_total booking (row ∷ rows) =
    if row.booking_id == booking && is_settled row.status
    then row.amount_minor +ℤ refunded_total booking rows
    else refunded_total booking rows

abbrev pub refund_payment : Bool → Payment → Payment
refund_payment full p = record p {
  status = if full then PaymentStatus.refunded else PaymentStatus.partially_refunded;
}

abbrev pub refund_booking : Bool → Booking → Booking
refund_booking full b = record b {
  status = if full then BookingStatus.refunded else BookingStatus.confirmed;
}

-- The two updates that follow the sum.
abbrev pub mark_refunded : Payment → Bool → Db → Db
mark_refunded p full db = record db {
  payments = update_where (λ (q : Payment). q.id == p.id) (refund_payment full) db.payments;
  bookings = update_where (has_id p.booking_id) (refund_booking full) db.bookings;
}

abbrev pub amounts_of : PriceBreakdown → Amounts
amounts_of price accommodation = price.accommodation_minor
amounts_of price cleaning = price.cleaning_minor
amounts_of price guest_service_fee = price.guest_service_fee_minor
amounts_of price taxes = price.taxes_minor
amounts_of price host_commission = price.host_commission_minor
amounts_of price host_revenue = price.host_revenue_minor
amounts_of price host_payout = price.host_payout_minor

abbrev pub entries_of : ℕ → List LedgerRow → List LedgerReversalRow
entries_of booking rows =
    map (λ (row : LedgerRow). row.entry)
      (filter (λ (row : LedgerRow). row.booking_id == booking) rows)

abbrev pub or_reversal_error :
    Result ReversalError RefundReversalResult → Result RefundError RefundReversalResult
or_reversal_error (ok r) = ok r
or_reversal_error (err e) = err (reversal_error e)

abbrev pub is_scheduled : ℕ → PayoutRow → Bool
is_scheduled booking row = row.booking_id == booking && scheduled row.status
  where
    scheduled : PayoutStatus → Bool
    scheduled PayoutStatus.scheduled = true
    scheduled _ = false

abbrev pub cancel_payout : PayoutRow → PayoutRow
cancel_payout row = record row { status = PayoutStatus.cancelled }

abbrev pub reduce_payout : ℤ → PayoutRow → PayoutRow
reduce_payout amount row = record row { amount_minor = row.amount_minor -ℤ amount }

-- A payout that is still scheduled is cancelled by a full refund and reduced by a partial one.
abbrev pub adjust_payouts : ℕ → Bool → ℤ → List PayoutRow → List PayoutRow
adjust_payouts booking full reversal rows =
    if full
    then update_where (is_scheduled booking) cancel_payout rows
    else if ltb_ℤ (pos 0) reversal
    then update_where (is_scheduled booking) (reduce_payout reversal) rows
    else rows

-- The ledger and the payouts. With no price row the handler returns, and what it wrote before stays.
unfoldable pub post_reversal :
    StripeRefund → Payment → ℤ → Bool → Option PriceRow → Db → Result RefundError Db
post_reversal r p cumulative full none db = ok db
post_reversal r p cumulative full (some price) db = do
  reversal ← or_reversal_error (
      compute_refund_reversal_entries (amounts_of price.breakdown)
        (already_reversed (entries_of p.booking_id db.ledger)) r.amount cumulative p.amount_minor)
  b ← or_throw (find? (has_id p.booking_id) db.bookings) booking_missing
  ok (record db {
    ledger =
        db.ledger
        ++ map (λ (row : LedgerReversalRow). record { booking_id = p.booking_id; entry = row })
            reversal.rows;
    payouts = adjust_payouts p.booking_id full reversal.host_payout_reversal_minor db.payouts;
  })

unfoldable pub refund_matched : StripeRefund → Payment → Db → Result RefundError Db
refund_matched r p db =
    let cumulative = refunded_total p.booking_id db.refunds in
    let full = leb_ℤ p.amount_minor cumulative in
    post_reversal r p cumulative full
      (find? (λ (row : PriceRow). row.booking_id == p.booking_id) db.prices)
      (mark_refunded p full db)

unfoldable pub refund_payment_found : StripeRefund → Option Payment → Db → Result RefundError Db
refund_payment_found r none db = ok db
refund_payment_found r (some p) db =
    if any (is_matched r.id) db.refunds
    then refund_matched r p
        (record db { refunds = update_where (is_matched r.id) mark_settled db.refunds })
    else ok db

unfoldable pub on_refund_intent : StripeRefund → Option ℕ → Db → Result RefundError Db
on_refund_intent r none db = ok db
on_refund_intent r (some intent) db =
    refund_payment_found r (find? (has_intent intent) db.payments) db

unfoldable pub on_refund_event : StripeRefund → Db → Result RefundError Db
on_refund_event r db = if not r.is_succeeded then ok db else on_refund_intent r r.payment_intent db
