-- ===== src/Funding/Completion.antt =====
-- When a settlement goes through.
use model_dock.Base.{
  ℕ, ◌+◌, ◌≡◌, refl, sym, ap, ◌∙◌, false, true, ◌&&◌, some, List, ◌++◌, arith, ltb, inl, inr,
  Bool-cases,
}
use model_dock.Funding.{
  ok, JournalLine, Operation, Store, Budget, post_journal, find_operation, put_operation,
  is_funding_terminal,
}
use model_dock.Funding.Lots.{
  take_lots, settle_allocations, settle_cash_lots, settle_promotion, charge_debits, repeats,
}
use model_dock.Funding.Attribution.{charge_debits-some}
use model_dock.Funding.Reserve.{post_if_any, fits_numeric, wallet_fits}
use model_dock.Funding.Amounts.{
  SettlementRequest, invalid_settlement, Charge, settlement_charge, settle_budget,
}
use model_dock.Funding.Settle.{
  released_part, settlement_lines, release_lines, settle_wallet, settle_operation, settle_open,
  settle_funding,
}
use model_dock.Funding.Backing.{IsBacked, give_back_all-settle_allocations}

-- The wallet after the charge, and the amounts of the operation, fit their columns.
abbrev pub FitsRows : Operation → Charge → Store → Type 0
FitsRows o charge s =
    (wallet_fits (settle_wallet s.wallet o.maximum_amount charge.actual)
      && fits_numeric charge.actual
      && fits_numeric charge.shadow)
    ≡ true

-- A request that nothing speaks against: it is valid and its operation open, the charge and the
-- provider's budget can be worked out, the rows fit their columns, the lots back what is held of
-- them, and no two debits of the charge are of one lot, as they are when an overage is taken of a
-- lot whose hold was consumed.
pub record IsSettleable (o : Operation) (r : SettlementRequest) (s : Store) : Type 0 where
  pub charge : Charge
  pub budgets : List Budget
  pub valid : invalid_settlement r ≡ false
  pub found : find_operation r.operation_id s.operations ≡ some o
  pub not_over : is_funding_terminal o.status ≡ false
  pub priced : settlement_charge o r s.shadow_amount ≡ ok charge
  pub affordable : settle_budget o.budget o r s.month s.budgets ≡ ok budgets
  pub fits : FitsRows o charge s
  pub backed : IsBacked s.lots o.cash
  pub unrepeated : repeats (charge_debits charge.actual o.cash s.lots) ≡ false

pub settlement_posts :
    (maximum actual : ℕ) (ledger : List JournalLine)
    → (after : List JournalLine) × (post_if_any actual (settlement_lines maximum actual) ledger
        ≡ ok after)
unfolding post_if_any post_journal
settlement_posts maximum actual ledger = elim (Bool-cases (ltb 0 actual)) [
  | inl e ↦ (ledger ++ settlement_lines maximum actual, ground arith)
  | inr e ↦ (ledger, ground arith)
]

pub release_posts :
    (amount : ℕ) (ledger : List JournalLine)
    → (after : List JournalLine) × (post_if_any amount (release_lines amount) ledger ≡ ok after)
unfolding post_if_any post_journal
release_posts amount ledger = elim (Bool-cases (ltb 0 amount)) [
  | inl e ↦ (ledger ++ release_lines amount, ground arith)
  | inr e ↦ (ledger, ground arith)
]

-- Every request that is settleable is settled.
pub settle_funding-completes :
    (o : Operation) (r : SettlementRequest) (s : Store)
    → IsSettleable o r s
    → (settled : Operation) × (after : Store) × (settle_funding r s ≡ ok (settled, after))
unfolding settle_funding settle_open settle_cash_lots
settle_funding-completes o r s a =
    let actual = a.charge.actual in
    let promotion = settle_promotion a.charge.promotion o.promotions s.credits in
    let release = released_part o.maximum_amount actual in
    let (ledger, posted) = settlement_posts o.maximum_amount actual s.ledger in
    let (ledger', released) = release_posts release ledger in
    let cash = settle_allocations actual o.cash in
    let (lots, given) = give_back_all-settle_allocations actual o.cash s.lots a.backed in
    let unrepeated =
      sym (ap repeats (charge_debits-some actual o.cash s.lots lots given)) ∙ a.unrepeated in
    let settled =
      settle_operation o r a.charge promotion.0 cash.1 promotion.1
        (charge_debits actual o.cash s.lots) in
    let after : Store = record {
      wallet = settle_wallet s.wallet o.maximum_amount actual;
      lots = (take_lots cash.0 lots).0;
      credits = promotion.2;
      ledger = ledger';
      shadow_amount = s.shadow_amount + a.charge.shadow;
      month = s.month;
      budgets = a.budgets;
      operations = put_operation settled s.operations;
    } in
    (
      settled,
      after,
      rw (a.valid, a.found, a.not_over)
          (rw (a.priced, posted, released, a.fits) (rw (given, unrepeated, a.affordable) refl)),
    )
