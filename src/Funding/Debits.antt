-- ===== src/Funding/Debits.antt =====
-- What a settlement debits: the rows of its CHARGE transaction.
use model_dock.Base.{
  ℕ, ◌+◌, ◌-◌, ◌≡◌, refl, ap, ◌∙◌, inl, inr, Bool, true, false, Option-cases, some, List, [], ◌∷◌,
  ◌++◌, arith,
}
use model_dock.Text.{Text}
use model_dock.Funding.{Lot, Allocation, Debit, Funded, ok, err, ◌>>◌, fail_if, repeated_debit}
use model_dock.Funding.Lots.{
  lot_debit, credit_debit, consumed_debits, taken_debits, overage_debits, charge_debits,
  settle_allocations, give_back_all, settle_cash_lots, take_lots, total_reserved, total_consumed,
}
use model_dock.Funding.Attribution.{charge_debits-some, take_lots_lem, settle_allocations_lem}
use model_dock.Funding.Reversal.{open_debits}

open_debits-append : (xs ys : List Debit) → open_debits (xs ++ ys) ≡ open_debits xs + open_debits ys
open_debits-append [] ys = omega arith
open_debits-append (x ∷ xs) ys = omega (arith, open_debits-append xs ys)

lot_debit-open :
    (id : Text) (n : ℕ) (rest : List Debit)
    → open_debits (lot_debit id n rest) ≡ n + open_debits rest
lot_debit-open id n rest = ground arith

consumed_debits-open : (xs : List Allocation) → open_debits (consumed_debits xs) ≡ total_consumed xs
unfolding consumed_debits total_consumed
consumed_debits-open [] = refl
consumed_debits-open (a ∷ rest) =
    omega
      (arith, lot_debit-open a.lot_id a.consumed (consumed_debits rest), consumed_debits-open rest)

taken_debits-open : (xs : List Allocation) → open_debits (taken_debits xs) ≡ total_reserved xs
unfolding taken_debits total_reserved
taken_debits-open [] = refl
taken_debits-open (a ∷ rest) =
    omega (arith, lot_debit-open a.lot_id a.reserved (taken_debits rest), taken_debits-open rest)

credit_debit-open : (n : ℕ) → open_debits (credit_debit n) ≡ n
credit_debit-open n = ground arith

overage_debits-open : (n : ℕ) (lots : List Lot) → open_debits (overage_debits n lots) ≡ n
unfolding overage_debits
overage_debits-open n lots =
    let held = (take_lots n lots).1 in
    let (_, reached) = take_lots_lem n lots in
    let parts = open_debits-append (taken_debits held) (credit_debit (n - total_reserved held)) in
    let taken = taken_debits-open held in
    let rest = credit_debit-open (n - total_reserved held) in ground arith

abbrev IsTraced : ℕ → List Debit → Funded (List Lot × List Allocation) → Type 0
IsTraced actual debits (ok r) = open_debits debits ≡ actual
IsTraced actual debits (err e) = Unit

of_lots-IsTraced :
    (actual : ℕ) (held : List Allocation) (lots mid : List Lot)
    → give_back_all (settle_allocations actual held).1 lots ≡ some mid
    → open_debits (charge_debits actual held lots) ≡ actual
of_lots-IsTraced actual held lots mid e =
    let settled = (settle_allocations actual held).1 in
    let left = (settle_allocations actual held).0 in
    let (consumed, split, rest) = settle_allocations_lem actual held in
    ap open_debits (charge_debits-some actual held lots mid e)
    ∙ omega (
      arith,
      open_debits-append (consumed_debits settled) (overage_debits left mid),
      consumed_debits-open settled,
      overage_debits-open left mid,
      rest,
    )

of_fail_if-IsTraced :
    (actual : ℕ) (debits : List Debit) (b : Bool) (r : List Lot × List Allocation)
    → open_debits debits ≡ actual
    → IsTraced actual debits (fail_if b repeated_debit >> ok r)
of_fail_if-IsTraced actual debits true r h = tt
of_fail_if-IsTraced actual debits false r h = h

-- Where the lots are settled, the rows that are inserted are of the amount that is charged.
pub charge_debits-IsTraced :
    (actual : ℕ) (held : List Allocation) (lots : List Lot)
    → IsTraced actual (charge_debits actual held lots) (settle_cash_lots actual held lots)
unfolding settle_cash_lots
charge_debits-IsTraced actual held lots =
    elim (Option-cases (give_back_all (settle_allocations actual held).1 lots)) [
      | inl e ↦ rw e tt
      | inr (mid, e) ↦
          rw e (of_fail_if-IsTraced actual _ _ _ (of_lots-IsTraced actual held lots mid e))
    ]
