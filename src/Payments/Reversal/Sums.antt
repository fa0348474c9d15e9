-- ===== src/Payments/Reversal/Sums.antt =====
-- What a sequence of refunds reverses in all (lib/payments/refundReversal.ts).
use hostrepository.Base.{◌≡◌, refl, List, [], ◌∷◌, arith, Bool-cases, inl, inr, ◌++◌}
use hostrepository.Base.Int.{ℤ, pos, ◌+ℤ◌, ◌-ℤ◌, ◌*ℤ◌, ◌≤ℤ◌, int_laws, pos_part, mul_mono}
use hostrepository.Base.Round.{round_div, round_div_exact, round_div_mono, round_div_zero}
use hostrepository.Base.Result.{ok, >>=-eq-ok}
use hostrepository.Payments.Reversal.{
  Category, Amounts, LedgerReversalRow, refund, paid, host_payout, accommodation, cleaning,
  guest_service_fee, taxes, host_commission, host_revenue, compute_refund_reversal_entries,
  increment_of, reversal_rows, category_keys, is_reversal_of, sum_reversed, already_reversed,
  Refunded, apply_refund, apply_refunds,
}

sum_reversed-append :
    (key : Category) (xs ys : List LedgerReversalRow)
    → sum_reversed key (xs ++ ys) ≡ sum_reversed key xs +ℤ sum_reversed key ys
unfolding sum_reversed
sum_reversed-append key [] ys = omega int_laws
sum_reversed-append key (x ∷ xs) ys = elim (Bool-cases (is_reversal_of key x)) [
  | inl hit ↦ rw (hit, sum_reversed-append key xs ys) (omega int_laws)
  | inr miss ↦ rw (miss, sum_reversed-append key xs ys)
]

-- Of the rows that one refund adds, one is the category's.
sum_reversed-rows :
    (f : Category → ℤ) (key : Category)
    → sum_reversed key (reversal_rows f category_keys) ≡ (pos 0 -ℤ f key) +ℤ pos 0
unfolding sum_reversed reversal_rows
sum_reversed-rows f accommodation = refl
sum_reversed-rows f cleaning = refl
sum_reversed-rows f guest_service_fee = refl
sum_reversed-rows f taxes = refl
sum_reversed-rows f host_commission = refl
sum_reversed-rows f host_revenue = refl
sum_reversed-rows f host_payout = refl

sum_reversed-refund :
    (key : Category) (amount : ℤ) (rows : List LedgerReversalRow)
    → sum_reversed key (record { type = refund; amount_minor = amount; status = paid } ∷ rows)
      ≡ sum_reversed key rows
unfolding sum_reversed
sum_reversed-refund key amount rows = refl

module _ (original : Amounts) (charge : ℤ) where
  -- What a category's reversals come to when `cumulative` has been refunded.
  abbrev pub target : ℤ → Category → ℤ
  target cumulative key = round_div (original key *ℤ cumulative) (pos_part charge)

  added_rows : Refunded → ℤ → List LedgerReversalRow
  added_rows s amount =
      record { type = refund; amount_minor = amount; status = paid }
      ∷ reversal_rows
          (increment_of original (already_reversed s.ledger) (s.cumulative +ℤ amount) charge)
          category_keys

  refunded_more : Refunded → ℤ → Refunded
  refunded_more s amount = record {
    cumulative = s.cumulative +ℤ amount;
    ledger = s.ledger ++ added_rows s amount;
  }

  apply_refund-ok :
      (s s' : Refunded) (amount : ℤ)
      → apply_refund original charge s amount ≡ ok s'
      → (s' ≡ refunded_more s amount) × (pos 1 ≤ℤ charge) × (s'.cumulative ≤ℤ charge)
  unfolding apply_refund compute_refund_reversal_entries refunded_more added_rows
  apply_refund-ok s s' amount e = ground arith

  refunded_more-target :
      (s : Refunded) (amount : ℤ) (key : Category)
      → already_reversed (refunded_more s amount).ledger key
        ≡ target (refunded_more s amount).cumulative key
  unfolding refunded_more added_rows already_reversed increment_of
  refunded_more-target s amount key =
      rw (sum_reversed-append key s.ledger _, sum_reversed-refund, sum_reversed-rows)
        (omega int_laws)

  -- One refund brings every category to its target, whatever was reversed before.
  apply_refund-target :
      (s s' : Refunded) (amount : ℤ) (key : Category)
      → apply_refund original charge s amount ≡ ok s'
      → already_reversed s'.ledger key ≡ target s'.cumulative key
  apply_refund-target s s' amount key e =
      rw (apply_refund-ok s s' amount e).0 (refunded_more-target s amount key)

  -- However a sum is split into refunds, each category is reversed by the rounded share of the whole
  -- that has been refunded, once there is a refund at all.
  pub apply_refunds-target :
      (s s' : Refunded) (amount : ℤ) (amounts : List ℤ) (key : Category)
      → apply_refunds original charge s (amount ∷ amounts) ≡ ok s'
      → already_reversed s'.ledger key ≡ target s'.cumulative key
  unfolding apply_refunds
  apply_refunds-target s s' amount amounts key e =
      let (next, first, rest) = >>=-eq-ok (apply_refund original charge s amount) _ e in
      go next amounts (apply_refund-target s next amount key first) rest
    where
      go :
          (t : Refunded) (rest : List ℤ)
          → already_reversed t.ledger key ≡ target t.cumulative key
          → apply_refunds original charge t rest ≡ ok s'
          → already_reversed s'.ledger key ≡ target s'.cumulative key
      go t [] done e = ground arith
      go t (a ∷ rest) done e =
          let (next, first, later) = >>=-eq-ok (apply_refund original charge t a) _ e in
          go next rest (apply_refund-target t next a key first) later

  charged :
      (s : Refunded) (amount : ℤ) (amounts : List ℤ) (s' : Refunded)
      → apply_refunds original charge s (amount ∷ amounts) ≡ ok s'
      → (next : Refunded) × (apply_refund original charge s amount ≡ ok next)
        × (apply_refunds original charge next amounts ≡ ok s')
  unfolding apply_refunds
  charged s amount amounts s' e = >>=-eq-ok (apply_refund original charge s amount) _ e

  whole : (c : ℤ) → pos 1 ≤ℤ c → pos (pos_part c) ≡ c
  whole c h = ground arith

  target_full : (key : Category) → pos 1 ≤ℤ charge → target charge key ≡ original key
  target_full key h =
      let exact = round_div_exact (original key) (pos_part charge) (omega arith) in
      rw (whole charge h) at exact

  target_mono :
      (key : Category) → pos 0 ≤ℤ original key → (a b : ℤ) → a ≤ℤ b → target a key ≤ℤ target b key
  target_mono key price a b h = round_div_mono _ _ _ (mul_mono (original key) a b price h)

  refunded_more_cumulative :
      (s : Refunded) (amount : ℤ) → (refunded_more s amount).cumulative ≡ s.cumulative +ℤ amount
  unfolding refunded_more
  refunded_more_cumulative s amount = refl

  -- Once the whole charge has been refunded, in any number of parts, each category is reversed to
  -- the penny.
  pub apply_refunds-full :
      (s s' : Refunded) (amount : ℤ) (amounts : List ℤ) (key : Category)
      → apply_refunds original charge s (amount ∷ amounts) ≡ ok s'
      → s'.cumulative ≡ charge
      → already_reversed s'.ledger key ≡ original key
  apply_refunds-full s s' amount amounts key e full =
      let (next, first, _) = charged s amount amounts s' e in
      rw (apply_refunds-target s s' amount amounts key e, full)
        (target_full key (apply_refund-ok s next amount first).1)

  mono_from :
      (s s' : Refunded) (amount : ℤ) (key : Category)
      → pos 0 ≤ℤ original key
      → pos 0 ≤ℤ amount
      → already_reversed s.ledger key ≡ target s.cumulative key
      → apply_refund original charge s amount ≡ ok s'
      → (already_reversed s.ledger key ≤ℤ already_reversed s'.ledger key)
        × (already_reversed s'.ledger key ≤ℤ original key)
  mono_from s s' amount key price more before e =
      let (same, charged, within_charge) = apply_refund-ok s s' amount e in
      let total : s'.cumulative ≡ s.cumulative +ℤ amount =
        rw same (refunded_more_cumulative s amount) in
      rw (before, apply_refund-target s s' amount key e)
        (
          target_mono key price s.cumulative s'.cumulative (rw total (omega int_laws)),
          rw (target_full key charged) at
              (target_mono key price s'.cumulative charge within_charge),
        )

  -- Nothing has been refunded.
  abbrev pub nothing_refunded : Refunded
  nothing_refunded = record { cumulative = pos 0; ledger = [] }

  nothing-target :
      (key : Category)
      → pos 1 ≤ℤ charge
      → already_reversed nothing_refunded.ledger key ≡ target (pos 0) key
  unfolding already_reversed sum_reversed
  nothing-target key h =
      rw (round_div_zero (original key) (pos_part charge) (omega arith)) (omega int_laws)

  reached-target :
      (amounts : List ℤ) (s : Refunded) (key : Category)
      → pos 1 ≤ℤ charge
      → apply_refunds original charge nothing_refunded amounts ≡ ok s
      → already_reversed s.ledger key ≡ target s.cumulative key
  unfolding apply_refunds
  reached-target [] s key h e = let done = nothing-target key h in ground arith
  reached-target (a ∷ amounts) s key h e = apply_refunds-target nothing_refunded s a amounts key e

  -- From an empty ledger and after any refunds, a further one takes nothing back: with a price and an
  -- amount that are not negative, each category is reversed by no less than before, and by no more
  -- than the price.
  pub apply_refund-mono :
      (s s' : Refunded) (amounts : List ℤ) (amount : ℤ) (key : Category)
      → pos 0 ≤ℤ original key
      → pos 0 ≤ℤ amount
      → apply_refunds original charge nothing_refunded amounts ≡ ok s
      → apply_refund original charge s amount ≡ ok s'
      → (already_reversed s.ledger key ≤ℤ already_reversed s'.ledger key)
        × (already_reversed s'.ledger key ≤ℤ original key)
  apply_refund-mono s s' amounts amount key price more before e =
      let (_, charged, _) = apply_refund-ok s s' amount e in
      mono_from s s' amount key price more (reached-target amounts s key charged before) e
