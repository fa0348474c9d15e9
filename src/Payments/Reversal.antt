-- ===== src/Payments/Reversal.antt =====
-- lib/payments/refundReversal.ts. `CATEGORY_KEYS` is a data type, and a record indexed by its keys
-- is a function of them.
pub mod Sums
use hostrepository.Base.{ℕ, Bool, false, List, [], ◌∷◌, ◌++◌, ◌||◌, ◌==◌, if◌then◌else◌}
use hostrepository.Base.Int.{ℤ, pos, ◌+ℤ◌, ◌-ℤ◌, ◌*ℤ◌, pos_part, leb_ℤ, ltb_ℤ}
use hostrepository.Base.Round.{round_div}
use hostrepository.Base.Result.{Result, ok, err, ◌>>=◌}

pub data Category : Type 0 where
  accommodation cleaning guest_service_fee taxes host_commission host_revenue host_payout : Category

-- `PriceComponentsForReversal` and `AlreadyReversedAmounts`
abbrev pub Amounts : Type 0
Amounts = Category → ℤ

-- The `type` column of `ledger_entries`; `CATEGORY_LEDGER_TYPES` is `of`.
pub data LedgerType : Type 0 where
  guest_charge refund : LedgerType
  of : Category → LedgerType

pub data LedgerStatus : Type 0 where
  pending paid reversed : LedgerStatus

pub record LedgerReversalRow : Type 0 where
  pub type : LedgerType
  pub amount_minor : ℤ
  pub status : LedgerStatus

pub record RefundReversalResult : Type 0 where
  pub rows : List LedgerReversalRow
  pub host_payout_reversal_minor : ℤ

pub data ReversalError : Type 0 where
  charge_not_positive cumulative_out_of_range : ReversalError

abbrev pub category_keys : List Category
category_keys =
    accommodation ∷ cleaning ∷ guest_service_fee ∷ taxes ∷ host_commission ∷ host_revenue
    ∷ host_payout ∷ []

-- `target - alreadyReversed[key]`
unfoldable pub increment_of : Amounts → Amounts → ℤ → ℤ → Category → ℤ
increment_of original already cumulative charge key =
    round_div (original key *ℤ cumulative) (pos_part charge) -ℤ already key

-- The loop over the keys, which pushes a row for each.
unfoldable pub reversal_rows : (Category → ℤ) → List Category → List LedgerReversalRow
reversal_rows increment [] = []
reversal_rows increment (key ∷ keys) =
    record { type = of key; amount_minor = pos 0 -ℤ increment key; status = reversed }
    ∷ reversal_rows increment keys

unfoldable pub compute_refund_reversal_entries :
    Amounts → Amounts → ℤ → ℤ → ℤ → Result ReversalError RefundReversalResult
compute_refund_reversal_entries original already refund_amount cumulative charge =
    if leb_ℤ charge (pos 0)
    then err charge_not_positive
    else if ltb_ℤ cumulative (pos 0) || ltb_ℤ charge cumulative
    then err cumulative_out_of_range
    else ok (record {
      rows =
          record { type = refund; amount_minor = refund_amount; status = paid }
          ∷ reversal_rows (increment_of original already cumulative charge) category_keys;
      host_payout_reversal_minor = increment_of original already cumulative charge host_payout;
    })

-- `SUM(amount_minor) … WHERE status = 'reversed' GROUP BY type`, negated, as webhookHandler.ts reads
-- back what was reversed before.
abbrev pub category_index : Category → ℕ
category_index accommodation = 0
category_index cleaning = 1
category_index guest_service_fee = 2
category_index taxes = 3
category_index host_commission = 4
category_index host_revenue = 5
category_index host_payout = 6

abbrev pub is_reversal_of : Category → LedgerReversalRow → Bool
is_reversal_of key row = matches row.type row.status
  where
    matches : LedgerType → LedgerStatus → Bool
    matches (of k) reversed = category_index k == category_index key
    matches _ _ = false

unfoldable pub sum_reversed : Category → List LedgerReversalRow → ℤ
sum_reversed key [] = pos 0
sum_reversed key (row ∷ rows) =
    if is_reversal_of key row
    then row.amount_minor +ℤ sum_reversed key rows
    else sum_reversed key rows

unfoldable pub already_reversed : List LedgerReversalRow → Amounts
already_reversed ledger key = pos 0 -ℤ sum_reversed key ledger

-- One confirmed refund: what was refunded so far, and the ledger's rows for the booking.
pub record Refunded : Type 0 where
  pub cumulative : ℤ
  pub ledger : List LedgerReversalRow

unfoldable pub apply_refund : Amounts → ℤ → Refunded → ℤ → Result ReversalError Refunded
apply_refund original charge s amount = do
  r ←
      compute_refund_reversal_entries original (already_reversed s.ledger) amount
        (s.cumulative +ℤ amount) charge
  ok (record { cumulative = s.cumulative +ℤ amount; ledger = s.ledger ++ r.rows })

unfoldable pub apply_refunds : Amounts → ℤ → Refunded → List ℤ → Result ReversalError Refunded
apply_refunds original charge s [] = ok s
apply_refunds original charge s (amount ∷ amounts) = do
  s' ← apply_refund original charge s amount
  apply_refunds original charge s' amounts
