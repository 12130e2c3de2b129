-- ===== src/Funding/Overage.antt =====
-- The settlement of an operation that costs more than it holds, while a lot that it holds has more.
use model_dock.Base.{
  ℕ, ◌-◌, ◌<◌, ◌≤◌, ◌≡◌, refl, sym, subst, ◌⊎◌, inl, inr, true, false, ◌&&◌, ◌||◌, Option, none,
  some, List, [], ◌∷◌, ◌++◌, arith, ◌==◌, ltb, Bool-cases, All,
}
use model_dock.Text.{Text, text_eq, text_eq→eq, text_eq_refl}
use model_dock.Funding.{
  ok, err, repeated_debit, Lot, Allocation, Debit, Operation, Store, find_operation,
  is_funding_terminal,
}
use model_dock.Funding.Lots.{
  lesser, lot_debit, credit_debit, take_lots, settle_allocations, give_back_all, consumed_debits,
  taken_debits, overage_debits, is_of_lot, is_repeated, has_debit, repeats, settle_cash_lots,
  total_reserved,
}
use model_dock.Funding.Attribution.{settle_allocations_lem}
use model_dock.Funding.Amounts.{SettlementRequest, invalid_settlement, Charge, settlement_charge}
use model_dock.Funding.Settle.{released_part, settle_open, settle_funding}
use model_dock.Funding.Completion.{FitsRows, settlement_posts, release_posts}

-- An allocation holds something of the lot.
abbrev pub HoldsOf : Text → List Allocation → Type 0
HoldsOf id [] = ⊥
HoldsOf id (a ∷ rest) = ((text_eq a.lot_id id ≡ true) × (0 < a.reserved)) ⊎ HoldsOf id rest

-- Where everything that is held is consumed, nothing is given back, and each lot is debited.
give_back_all-over :
    (actual : ℕ) (held : List Allocation) (lots : List Lot)
    → total_reserved held ≤ actual
    → give_back_all (settle_allocations actual held).1 lots ≡ some lots
unfolding give_back_all settle_allocations total_reserved
give_back_all-over actual [] lots h = refl
give_back_all-over actual (a ∷ rest) lots h =
    let spent = lesser a.reserved actual in
    let whole : spent ≡ a.reserved = ground arith in
    let none_left : (a.reserved - spent == 0) ≡ true = ground arith in
    let ih = give_back_all-over (actual - spent) rest lots (omega (arith, whole)) in rw none_left ih

has_debit-lot_debit :
    (id lot : Text) (n : ℕ) (rest : List Debit)
    → has_debit id (lot_debit lot n rest) ≡ ((text_eq lot id && ltb 0 n) || has_debit id rest)
unfolding has_debit
has_debit-lot_debit id lot n rest = ground arith

consumed_debits-over :
    (actual : ℕ) (held : List Allocation) (id : Text)
    → total_reserved held ≤ actual
    → HoldsOf id held
    → has_debit id (consumed_debits (settle_allocations actual held).1) ≡ true
unfolding consumed_debits settle_allocations total_reserved
consumed_debits-over actual [] id h m = absurd m
consumed_debits-over actual (a ∷ rest) id h (inl (same, some_held)) =
    let spent = lesser a.reserved actual in
    let later = consumed_debits (settle_allocations (actual - spent) rest).1 in
    let here = has_debit-lot_debit id a.lot_id spent later in
    let positive : ltb 0 spent ≡ true = ground arith in ground (arith, here, same, positive)
consumed_debits-over actual (a ∷ rest) id h (inr m) =
    let spent = lesser a.reserved actual in
    let whole : spent ≡ a.reserved = ground arith in
    let later = consumed_debits (settle_allocations (actual - spent) rest).1 in
    let here = has_debit-lot_debit id a.lot_id spent later in
    let ih = consumed_debits-over (actual - spent) rest id (omega (arith, whole)) m in
    ground (arith, here, ih)

has_debit-append :
    (id : Text) (xs ys : List Debit)
    → has_debit id (xs ++ ys) ≡ (has_debit id xs || has_debit id ys)
unfolding has_debit
has_debit-append id [] ys = refl
has_debit-append id (x ∷ xs) ys = ground (arith, has_debit-append id xs ys)

-- None of the lots has money left.
abbrev pub IsEmptied : List Lot → Type 0
IsEmptied lots = All (λ l. l.remaining ≡ 0) lots

take_lots-first :
    (left : ℕ) (emptied : List Lot) (lot : Lot) (lots : List Lot)
    → IsEmptied emptied
    → 0 < left
    → 0 < lot.remaining
    → has_debit lot.id (taken_debits (take_lots left (emptied ++ lot ∷ lots)).1) ≡ true
unfolding take_lots taken_debits has_debit
take_lots-first left [] lot lots empty h more =
    let take = lesser lot.remaining left in
    let positive : (take == 0) ≡ false = ground arith in
    let here = text_eq_refl lot.id in rw positive (ground (arith, here))
take_lots-first left (e ∷ emptied) lot lots (none_left, empty) h more =
    let nothing : (lesser e.remaining left == 0) ≡ true = ground arith in
    let all : left - lesser e.remaining left ≡ left = ground arith in
    let ih = take_lots-first left emptied lot lots empty h more in rw (nothing, all) ih

-- The overage is taken of the first lot that has money left.
overage_debits-first :
    (left : ℕ) (emptied : List Lot) (lot : Lot) (lots : List Lot)
    → IsEmptied emptied
    → 0 < left
    → 0 < lot.remaining
    → has_debit lot.id (overage_debits left (emptied ++ lot ∷ lots)) ≡ true
unfolding overage_debits
overage_debits-first left emptied lot lots empty h more =
    let held = (take_lots left (emptied ++ lot ∷ lots)).1 in
    let both =
      has_debit-append lot.id (taken_debits held) (credit_debit (left - total_reserved held)) in
    ground (arith, both, take_lots-first left emptied lot lots empty h more)

is_repeated-of_lot :
    (lot_id : Option Text) (id : Text) (rest : List Debit)
    → is_of_lot lot_id id ≡ true
    → has_debit id rest ≡ true
    → is_repeated lot_id rest ≡ true
is_repeated-of_lot none id rest e h = absurd (ground (arith, e))
is_repeated-of_lot (some lot) id rest e h =
    subst (λ k. has_debit k rest ≡ true) (sym (text_eq→eq lot id e)) h

repeats-append :
    (id : Text) (xs ys : List Debit)
    → has_debit id xs ≡ true
    → has_debit id ys ≡ true
    → repeats (xs ++ ys) ≡ true
unfolding repeats has_debit
repeats-append id [] ys h h' = absurd (ground (arith, h))
repeats-append id (x ∷ xs) ys h h' = elim (Bool-cases (is_of_lot x.lot_id id)) [
  | inl e ↦
      let both = has_debit-append id xs ys in
      let again = is_repeated-of_lot x.lot_id id (xs ++ ys) e (ground (arith, both, h')) in
      ground (arith, again)
  | inr e ↦ let later = repeats-append id xs ys (ground (arith, h, e)) h' in ground (arith, later)
]

settle_cash_lots-over :
    (actual : ℕ) (held : List Allocation) (emptied : List Lot) (lot : Lot) (lots : List Lot)
    → IsEmptied emptied
    → total_reserved held < actual
    → HoldsOf lot.id held
    → 0 < lot.remaining
    → settle_cash_lots actual held (emptied ++ lot ∷ lots) ≡ err repeated_debit
unfolding settle_cash_lots
settle_cash_lots-over actual held emptied lot lots empty h m more =
    let given = give_back_all-over actual held (emptied ++ lot ∷ lots) (omega (arith, h)) in
    let (consumed, split, left) = settle_allocations_lem actual held in
    let over : 0 < (settle_allocations actual held).0 = ground (arith, h) in
    let twice =
      repeats-append lot.id (consumed_debits (settle_allocations actual held).1)
        (overage_debits (settle_allocations actual held).0 (emptied ++ lot ∷ lots))
        (consumed_debits-over actual held lot.id (omega (arith, h)) m)
        (overage_debits-first (settle_allocations actual held).0 emptied lot lots empty over
          more) in
    rw given (rw twice refl)

-- An open operation and a priced usage of it that costs more than the operation holds of the lots, of
-- whose first one with money left it holds a part.
pub record IsOverage (o : Operation) (r : SettlementRequest) (s : Store) : Type 0 where
  pub charge : Charge
  pub emptied : List Lot
  pub lot : Lot
  pub others : List Lot
  pub valid : invalid_settlement r ≡ false
  pub found : find_operation r.operation_id s.operations ≡ some o
  pub not_over : is_funding_terminal o.status ≡ false
  pub priced : settlement_charge o r s.shadow_amount ≡ ok charge
  pub fits : FitsRows o charge s
  pub exceeds : total_reserved o.cash < charge.actual
  pub lots : s.lots ≡ emptied ++ lot ∷ others
  pub empty : IsEmptied emptied
  pub held : HoldsOf lot.id o.cash
  pub more : 0 < lot.remaining

-- A usage that costs more than its operation holds is never settled while the first lot with money left
-- is one of which the operation holds a part: the overage would be debited to the same lot as the hold,
-- under the same transaction, and the table refuses a second such row.
pub settle_funding-IsRefused :
    (o : Operation) (r : SettlementRequest) (s : Store)
    → IsOverage o r s
    → settle_funding r s ≡ err repeated_debit
unfolding settle_funding settle_open
settle_funding-IsRefused o r s a =
    let actual = a.charge.actual in
    let (ledger, posted) = settlement_posts o.maximum_amount actual s.ledger in
    let (ledger', released) = release_posts (released_part o.maximum_amount actual) ledger in
    let refused =
      subst (λ lots. settle_cash_lots actual o.cash lots ≡ err repeated_debit) (sym a.lots)
        (settle_cash_lots-over actual o.cash a.emptied a.lot a.others a.empty a.exceeds a.held
          a.more) in
    rw (a.valid, a.found, a.not_over) (rw (a.priced, posted, released, a.fits) (rw refused refl))
