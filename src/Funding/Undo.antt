-- ===== src/Funding/Undo.antt =====
-- A settlement that is reversed.
use model_dock.Base.{
  ℕ, ◌-◌, ◌<◌, ◌≤◌, ◌≡◌, ◌≢◌, refl, ◌∙◌, false, some, List, [], ◌∷◌, ◌++◌, ◌||◌, arith, ◌==◌, All,
}
use model_dock.Text.{Text, text_eq}
use model_dock.Pricing.{is_blank}
use model_dock.Funding.{
  ok, post_journal, FundingStatus, pending, held, settled, partially_settled, released, failed,
  reversed, Lot, Allocation, Debit, Operation, Store, find_operation, put_operation,
  is_funding_terminal, Succeeds, Succeeds-bind, Succeeds-fail_if, Succeeds-ok,
}
use model_dock.Funding.Lots.{
  lesser, settle_allocations, settle_promotion, settle_cash_lots, charge_debits, total_consumed,
}
use model_dock.Funding.Amounts.{SettlementRequest, Charge, invalid_settlement}
use model_dock.Funding.Settle.{settled_status, settle_operation, settle_open, settle_funding}
use model_dock.Funding.Restore.{
  restore_charge, restore_cash, restore_debits, reverse_promotion, reverse_allocations,
}
use model_dock.Funding.Reverse.{
  Orders, refund_lines, refund_wallet, reverse_operation, reverse_open, reverse_by, reverse_funding,
}
use model_dock.Funding.Reversal.{
  open_debits, open_promotions, restore_debits_lem, reverse_allocations_lem,
}
use model_dock.Funding.Repeat.{Closed, settle_funding-Closed}
use model_dock.Funding.Debits.{charge_debits-IsTraced}

-- Nothing of the promotions was reversed.
abbrev pub IsUnreversed : List Allocation → Type 0
IsUnreversed allocations = All (λ a. a.reversed ≡ 0) allocations

settle_allocations-unreversed :
    (amount : ℕ) (held : List Allocation)
    → IsUnreversed held
    → open_promotions (settle_allocations amount held).1
      ≡ total_consumed (settle_allocations amount held).1
unfolding settle_allocations total_consumed
settle_allocations-unreversed amount [] h = refl
settle_allocations-unreversed amount (a ∷ rest) (p, ps) =
    let spent = lesser a.reserved amount in
    omega (arith, p, settle_allocations-unreversed (amount - spent) rest ps)

-- The whole charge can be given back.
pub record IsReversible (o : Operation) : Type 0 where
  pub traced : open_debits o.debits ≡ o.settled_amount
  pub consumed : open_promotions o.promotions ≡ o.consumed_promotion
  pub standing : o.status ≢ reversed

settled_status-ne-reversed : (n : ℕ) (r : SettlementRequest) → settled_status n r ≢ reversed
unfolding settled_status
settled_status-ne-reversed n r e = ground arith

-- What the settlement of a charge writes.
abbrev written :
    Operation → SettlementRequest → Charge → List Lot → List Allocation → List Lot → Operation
written o r charge credits cash lots =
    let p = settle_promotion charge.promotion o.promotions credits in
    settle_operation o r charge p.0 cash p.1 (charge_debits charge.actual o.cash lots)

settled-IsReversible :
    (o : Operation) (r : SettlementRequest) (s : Store) (charge : Charge)
    (cash : List Lot × List Allocation)
    → IsUnreversed o.promotions
    → settle_cash_lots charge.actual o.cash s.lots ≡ ok cash
    → IsReversible (written o r charge s.credits cash.1 s.lots)
unfolding settle_operation settle_promotion
settled-IsReversible o r s charge cash h e = record {
  traced = rw e at (charge_debits-IsTraced charge.actual o.cash s.lots);
  consumed = settle_allocations-unreversed charge.promotion o.promotions h;
  standing = settled_status-ne-reversed charge.actual r;
}

settle_open-IsReversible :
    (o : Operation) (r : SettlementRequest) (s : Store)
    → IsUnreversed o.promotions
    → Succeeds (λ result. IsReversible result.0) (settle_open o r s)
unfolding settle_open
settle_open-IsReversible o r s h = search (Succeeds-bind, settled-IsReversible) depth 16

reverse_by-open :
    (t : FundingStatus) (orders : Orders) (o : Operation) (s : Store)
    → t ≢ reversed
    → reverse_by t orders o s ≡ reverse_open orders o s
reverse_by-open reversed orders o s h = absurd (h refl)
reverse_by-open pending orders o s h = refl
reverse_by-open held orders o s h = refl
reverse_by-open settled orders o s h = refl
reverse_by-open partially_settled orders o s h = refl
reverse_by-open released orders o s h = refl
reverse_by-open failed orders o s h = refl

restore_charge-completes :
    (amount : ℕ) (debits : List Debit) (lots : List Lot)
    → 0 < amount
    → amount ≤ open_debits debits
    → (r : List Debit × List Lot) × (restore_charge amount debits lots ≡ ok r)
unfolding restore_cash
restore_charge-completes amount [] lots p h = absurd (omega arith)
restore_charge-completes amount (d ∷ debits) lots p h =
    let r = restore_debits amount (d ∷ debits) lots in
    let (left, _) = restore_debits_lem amount (d ∷ debits) lots in ((r.1, r.2), ground arith)

reverse_promotion-completes :
    (amount : ℕ) (allocations : List Allocation) (credits : List Lot)
    → amount ≤ open_promotions allocations
    → (r : ℕ × List Allocation × List Lot) × (reverse_promotion amount allocations credits ≡ ok r)
unfolding reverse_promotion
reverse_promotion-completes amount allocations credits h =
    let r = reverse_allocations amount allocations credits in
    let (left, _) = reverse_allocations_lem amount allocations credits in
    ((amount - r.0, r.1, r.2), ground arith)

-- The order in which rows are read changes nothing of what they can give back.
pub record KeepsOpen (orders : Orders) : Type 0 where
  pub of_debits : (ds : List Debit) → open_debits (orders.debits ds) ≡ open_debits ds
  pub of_promotions :
      (xs : List Allocation) → open_promotions (orders.allocations xs) ≡ open_promotions xs

reverse_open-completes :
    (orders : Orders) (o : Operation) (s : Store)
    → KeepsOpen orders
    → IsReversible o
    → 0 < o.settled_amount
    → (r : Operation × Store) × (reverse_open orders o s ≡ ok r)
unfolding reverse_open post_journal
reverse_open-completes orders o s keeps able charged =
    let settled : (o.settled_amount == 0) ≡ false = ground arith in
    let (cash, restored) =
      restore_charge-completes o.settled_amount (orders.debits o.debits) s.lots charged
        (omega (arith, keeps.of_debits o.debits, able.traced)) in
    let (promotion, back) =
      reverse_promotion-completes o.consumed_promotion (orders.allocations o.promotions) s.credits
        (omega (arith, keeps.of_promotions o.promotions, able.consumed)) in
    let o' = reverse_operation o promotion.0 promotion.1 cash.0 in
    let after : Store = record s {
      wallet = refund_wallet s.wallet o.settled_amount;
      lots = cash.1;
      credits = promotion.2;
      ledger = s.ledger ++ refund_lines o.settled_amount;
      operations = put_operation o' s.operations;
    } in
    ((o', after), rw (settled, restored, back) refl)

settle_funding-IsReversible :
    (r : SettlementRequest) (o : Operation) (s : Store)
    → find_operation r.operation_id s.operations ≡ some o
    → is_funding_terminal o.status ≡ false
    → IsUnreversed o.promotions
    → Succeeds (λ result. IsReversible result.0) (settle_funding r s)
unfolding settle_funding
settle_funding-IsReversible r o s found still h =
    Succeeds-fail_if _ (invalid_settlement r) _ _
      (λ _. rw (found, still) (settle_open-IsReversible o r s h))

-- Each settlement of an open operation that charges something can be reversed: if nothing of its
-- promotions was reversed before, and the order in which rows are read loses none of them, then the
-- reversal of the settled operation, with a key and a reason, goes through.
pub settle_funding-reversible :
    (orders : Orders) (r : SettlementRequest) (o o' : Operation) (s after : Store)
    (key reason : Text)
    → KeepsOpen orders
    → find_operation r.operation_id s.operations ≡ some o
    → is_funding_terminal o.status ≡ false
    → IsUnreversed o.promotions
    → settle_funding r s ≡ ok (o', after)
    → 0 < o'.settled_amount
    → (text_eq key [] || is_blank reason) ≡ false
    → (result : Operation × Store) × (reverse_funding orders r.operation_id key reason after
        ≡ ok result)
unfolding reverse_funding
settle_funding-reversible orders r o o' s after key reason keeps found still h e charged asked =
    let able : IsReversible o' =
      Succeeds-ok (λ result. IsReversible result.0) (settle_funding r s) e
        (settle_funding-IsReversible r o s found still h) in
    let (there, over) =
      Succeeds-ok (λ result. Closed r.operation_id result.0 result.1) (settle_funding r s) e
        (settle_funding-Closed r s) in
    let (result, done) = reverse_open-completes orders o' after keeps able charged in
    (result, rw (asked, there) (reverse_by-open o'.status orders o' after able.standing ∙ done))
