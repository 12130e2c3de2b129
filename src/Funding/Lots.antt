-- ===== src/Funding/Lots.antt =====
-- `reserveCashLotsTx`, `settleCashLotsTx`, `allocateCashDebitTx`, `reservePromotionTx` and
-- `settlePromotionTx` of internal/store/finance.go: an amount is held of the lots in their order, and
-- what is not consumed goes back to the lots that it came from.
use model_dock.Base.{
  ℕ, ◌+◌, ◌-◌, Bool, false, ◌||◌, Option, none, some, List, [], ◌∷◌, ◌++◌, ltb, leb, ◌==◌,
  if◌then◌else◌,
}
use model_dock.Text.{Text, text_eq}
use model_dock.Funding.{
  Lot, Allocation, Debit, Funded, ok, err, finance_state, repeated_debit, ◌>>=◌, ◌>>◌, fail_if,
}

abbrev pub lesser : ℕ → ℕ → ℕ
lesser a b = if ltb b a then b else a

abbrev pub held_of : Text → ℕ → List Allocation → List Allocation
held_of id take rest =
    if take == 0
    then rest
    else record { lot_id = id; reserved = take; consumed = 0; released = 0; reversed = 0 } ∷ rest

-- `INSERT INTO wallet_cash_allocation … 'CASH','DEBIT'`, if there is an amount.
abbrev pub lot_debit : Text → ℕ → List Debit → List Debit
lot_debit id amount rest =
    if amount == 0 then rest else record { lot_id = some id; amount = amount; restored = 0 } ∷ rest

-- The loop over the lots that have something left.
unfoldable pub take_lots : ℕ → List Lot → List Lot × List Allocation
take_lots amount [] = ([], [])
take_lots amount (lot ∷ lots) =
    let take = lesser lot.remaining amount in
    let (rest, held) = take_lots (amount - take) lots in
    (record lot { remaining = lot.remaining - take } ∷ rest, held_of lot.id take held)

-- What is left of the amount, and the allocations with their consumed and released parts.
unfoldable pub settle_allocations : ℕ → List Allocation → ℕ × List Allocation
settle_allocations remaining [] = (remaining, [])
settle_allocations remaining (a ∷ rest) =
    let spent = lesser a.reserved remaining in
    let (left, settled) = settle_allocations (remaining - spent) rest in
    (left, record a { consumed = spent; released = a.reserved - spent } ∷ settled)

abbrev pub after_lot : Lot → Option (List Lot) → Option (List Lot)
after_lot lot none = none
after_lot lot (some lots) = some (lot ∷ lots)

-- `UPDATE wallet_cash_lot SET remaining_amount=remaining_amount+$2 WHERE id=$1 AND
-- remaining_amount+$2<=original_amount`, which must update one row.
unfoldable pub give_back : Text → ℕ → List Lot → Option (List Lot)
give_back id amount [] = none
give_back id amount (lot ∷ lots) =
    if text_eq lot.id id
    then if leb (lot.remaining + amount) lot.original
      then some (record lot { remaining = lot.remaining + amount } ∷ lots)
      else none
    else after_lot lot (give_back id amount lots)

abbrev pub give_back_if_any : Allocation → List Lot → Option (List Lot)
give_back_if_any a lots = if a.released == 0 then some lots else give_back a.lot_id a.released lots

abbrev pub then_lots : Option (List Lot) → (List Lot → Option (List Lot)) → Option (List Lot)
then_lots none f = none
then_lots (some lots) f = f lots

unfoldable pub give_back_all : List Allocation → List Lot → Option (List Lot)
give_back_all [] lots = some lots
give_back_all (a ∷ rest) lots = then_lots (give_back_if_any a lots) (give_back_all rest)

abbrev pub lots_or_fail : Option (List Lot) → Funded (List Lot)
lots_or_fail none = err finance_state
lots_or_fail (some lots) = ok lots

unfoldable pub total_reserved : List Allocation → ℕ
total_reserved [] = 0
total_reserved (a ∷ rest) = a.reserved + total_reserved rest

-- The rows that are inserted for what is consumed of the allocations.
unfoldable pub consumed_debits : List Allocation → List Debit
consumed_debits [] = []
consumed_debits (a ∷ rest) = lot_debit a.lot_id a.consumed (consumed_debits rest)

unfoldable pub taken_debits : List Allocation → List Debit
taken_debits [] = []
taken_debits (a ∷ rest) = lot_debit a.lot_id a.reserved (taken_debits rest)

abbrev pub credit_debit : ℕ → List Debit
credit_debit amount =
    if amount == 0 then [] else record { lot_id = none; amount = amount; restored = 0 } ∷ []

-- The rows of `allocateCashDebitTx`.
unfoldable pub overage_debits : ℕ → List Lot → List Debit
overage_debits amount lots =
    let held = (take_lots amount lots).1 in
    taken_debits held ++ credit_debit (amount - total_reserved held)

abbrev pub is_of_lot : Option Text → Text → Bool
is_of_lot none id = false
is_of_lot (some lot) id = text_eq lot id

unfoldable pub has_debit : Text → List Debit → Bool
has_debit id [] = false
has_debit id (d ∷ rest) = is_of_lot d.lot_id id || has_debit id rest

abbrev pub is_repeated : Option Text → List Debit → Bool
is_repeated none rest = false
is_repeated (some id) rest = has_debit id rest

-- Whether two rows are of one lot. The table wallet_cash_allocation has the constraint
-- UNIQUE(wallet_transaction_id,cash_lot_id,bucket,direction), so such rows of one transaction are
-- refused.
unfoldable pub repeats : List Debit → Bool
repeats [] = false
repeats (d ∷ rest) = is_repeated d.lot_id rest || repeats rest

-- The overage of an estimate is taken of the lots; what they do not cover is credit.
unfoldable pub settle_cash_lots :
    ℕ → List Allocation → List Lot → Funded (List Lot × List Allocation)
settle_cash_lots actual allocations lots =
    let (left, settled) = settle_allocations actual allocations in
    lots_or_fail (give_back_all settled lots) >>= λ lots'.
    fail_if (repeats (consumed_debits settled ++ overage_debits left lots')) repeated_debit
    >> ok ((take_lots left lots').0, settled)

-- The rows that the settlement of `actual` inserts.
abbrev pub debits_of_lots : ℕ → List Allocation → Option (List Lot) → List Debit
debits_of_lots left settled none = []
debits_of_lots left settled (some lots) = consumed_debits settled ++ overage_debits left lots

unfoldable pub charge_debits : ℕ → List Allocation → List Lot → List Debit
charge_debits actual allocations lots =
    let (left, settled) = settle_allocations actual allocations in
    debits_of_lots left settled (give_back_all settled lots)

-- `UPDATE promotion_credit SET amount_remaining=amount_remaining+$2 WHERE id=$1`
unfoldable pub give_back_credit : Text → ℕ → List Lot → List Lot
give_back_credit id amount [] = []
give_back_credit id amount (c ∷ credits) =
    if text_eq c.id id
    then record c { remaining = c.remaining + amount } ∷ credits
    else c ∷ give_back_credit id amount credits

unfoldable pub give_back_credits : List Allocation → List Lot → List Lot
give_back_credits [] credits = credits
give_back_credits (a ∷ rest) credits =
    give_back_credits rest (give_back_credit a.lot_id a.released credits)

unfoldable pub total_remaining : List Lot → ℕ
total_remaining [] = 0
total_remaining (l ∷ lots) = l.remaining + total_remaining lots

unfoldable pub total_consumed : List Allocation → ℕ
total_consumed [] = 0
total_consumed (a ∷ rest) = a.consumed + total_consumed rest

unfoldable pub total_released : List Allocation → ℕ
total_released [] = 0
total_released (a ∷ rest) = a.released + total_released rest

-- `settlePromotionTx`: the amount consumed, the allocations and the credits.
unfoldable pub settle_promotion : ℕ → List Allocation → List Lot → ℕ × List Allocation × List Lot
settle_promotion actual allocations credits =
    let settled = (settle_allocations actual allocations).1 in
    (total_consumed settled, settled, give_back_credits settled credits)
