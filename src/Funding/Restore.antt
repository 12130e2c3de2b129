-- ===== src/Funding/Restore.antt =====
-- `restoreCashAllocationTx` and `reversePromotionTx` of internal/store/finance.go: an amount goes back
-- to the lots and the credits that it was taken of. The rows of a transaction are written at one time
-- and their identifiers are random, so the order in which the queries read them is a parameter.
use model_dock.Base.{ℕ, ◌+◌, ◌-◌, Option, none, some, List, [], ◌∷◌, ltb}
use model_dock.Text.{Text}
use model_dock.Funding.{
  Lot, Allocation, Debit, Funded, ok, err, ◌>>◌, fail_if, finance_state, no_rows,
}
use model_dock.Funding.Lots.{lesser, give_back, give_back_credit}

-- The UPDATE of a lot, whose number of rows is not looked at.
abbrev pub lots_or_same : List Lot → Option (List Lot) → List Lot
lots_or_same lots none = lots
lots_or_same lots (some after) = after

-- The row of a credit line restores no lot.
abbrev pub restore_lot : Option Text → ℕ → List Lot → List Lot
restore_lot none take lots = lots
restore_lot (some id) take lots = lots_or_same lots (give_back id take lots)

-- What is left to restore, the rows with what restores them, and the lots. Nothing is taken of a row
-- that is restored in full, or once nothing is left.
unfoldable pub restore_debits : ℕ → List Debit → List Lot → ℕ × List Debit × List Lot
restore_debits remaining [] lots = (remaining, [], lots)
restore_debits remaining (d ∷ rest) lots =
    let take = lesser (d.amount - d.restored) remaining in
    let lots' = restore_lot d.lot_id take lots in
    let (left, rest', restored) = restore_debits (remaining - take) rest lots' in
    (left, record d { restored = d.restored + take } ∷ rest', restored)

unfoldable pub restore_cash : ℕ → List Debit → List Lot → Funded (List Debit × List Lot)
restore_cash amount debits lots =
    let (left, debits', lots') = restore_debits amount debits lots in
    fail_if (ltb 0 left) finance_state >> ok (debits', lots')

-- The CHARGE transaction of the operation is looked up first.
abbrev pub restore_charge : ℕ → List Debit → List Lot → Funded (List Debit × List Lot)
restore_charge amount [] lots = err no_rows
restore_charge amount (d ∷ debits) lots = restore_cash amount (d ∷ debits) lots

-- What is left, the allocations and the credits.
unfoldable pub reverse_allocations : ℕ → List Allocation → List Lot → ℕ × List Allocation × List Lot
reverse_allocations remaining [] credits = (remaining, [], credits)
reverse_allocations remaining (a ∷ rest) credits =
    let take = lesser (a.consumed - a.reversed) remaining in
    let credits' = give_back_credit a.lot_id take credits in
    let (left, rest', reversed) = reverse_allocations (remaining - take) rest credits' in
    (left, record a { reversed = a.reversed + take } ∷ rest', reversed)

-- The amount that is reversed, which is what was asked for, the allocations and the credits.
unfoldable pub reverse_promotion :
    ℕ → List Allocation → List Lot → Funded (ℕ × List Allocation × List Lot)
reverse_promotion requested allocations credits =
    let (left, allocations', credits') = reverse_allocations requested allocations credits in
    fail_if (ltb 0 left) finance_state >> ok (requested - left, allocations', credits')
