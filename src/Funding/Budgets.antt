-- ===== src/Funding/Budgets.antt =====
-- The monthly budgets of providers, over an attempt and the settlement of its operation.
use model_dock.Base.{ℕ, ◌≡◌, refl, ap, ◌∙◌, subst, false, none, some, List, ltb, ◌==◌}
use model_dock.Funding.{
  ok, Allocation, Debit, Operation, Budget, BudgetReservation, Store, find_budget, find_operation,
  is_funding_terminal, Succeeds, Succeeds-bind, Succeeds-fail_if, Succeeds-ok,
}
use model_dock.Funding.Amounts.{
  SettlementRequest, Charge, invalid_settlement, settle_row, settle_budget, provider_cost_of,
}
use model_dock.Funding.Settle.{settle_operation, settle_open, settle_funding}
use model_dock.Funding.Fees.{find-update_budget_ne}

settle_row-month :
    (reservation cost : ℕ) (b : Budget) → (settle_row reservation cost b).month ≡ b.month
unfolding settle_row
settle_row-month reservation cost b = refl

settle_budget-other :
    (v : BudgetReservation) (o : Operation) (r : SettlementRequest) (month other : ℕ)
    (budgets : List Budget)
    → (month == other) ≡ false
    → Succeeds
        (λ after. find_budget v.provider_id other after ≡ find_budget v.provider_id other budgets)
        (settle_budget (some v) o r month budgets)
unfolding settle_budget
settle_budget-other v o r month other budgets h =
    Succeeds-bind _ (provider_cost_of o.price_version r.waive r) _ (λ cost _.
      Succeeds-fail_if _ (ltb v.maximum_cost cost) _ _ (λ _.
        find-update_budget_ne (settle_row v.maximum_cost cost) v.provider_id month other budgets
          (settle_row-month v.maximum_cost cost) h))

-- The reservation is no longer the operation's, and its row still has it.
abbrev pub Leaks : BudgetReservation → Store → Operation × Store → Type 0
Leaks v s (o', after) =
    (o'.budget ≡ none)
    × (find_budget v.provider_id v.month after.budgets
        ≡ find_budget v.provider_id v.month s.budgets)

settle_operation-Leaks :
    (v : BudgetReservation) (o : Operation) (r : SettlementRequest) (s after : Store)
    (charge : Charge) (consumed : ℕ) (cash promotions : List Allocation) (debits : List Debit)
    (budgets : List Budget)
    → o.budget ≡ some v
    → (s.month == v.month) ≡ false
    → settle_budget o.budget o r s.month s.budgets ≡ ok budgets
    → after.budgets ≡ budgets
    → Leaks v s (settle_operation o r charge consumed cash promotions debits, after)
unfolding settle_operation
settle_operation-Leaks v o r s after charge consumed cash promotions debits budgets e h settled
      same =
    let reserved : settle_budget (some v) o r s.month s.budgets ≡ ok budgets =
      subst (λ b. settle_budget b o r s.month s.budgets ≡ ok budgets) e settled in
    let kept =
      Succeeds-ok
        (λ bs. find_budget v.provider_id v.month bs ≡ find_budget v.provider_id v.month s.budgets)
        (settle_budget (some v) o r s.month s.budgets) reserved
        (settle_budget-other v o r s.month v.month s.budgets h) in
    (refl, ap (find_budget v.provider_id v.month) same ∙ kept)

settle_open-Leaks :
    (v : BudgetReservation) (o : Operation) (r : SettlementRequest) (s : Store)
    → o.budget ≡ some v
    → (s.month == v.month) ≡ false
    → Succeeds (Leaks v s) (settle_open o r s)
unfolding settle_open
settle_open-Leaks v o r s e h = search (Succeeds-bind, settle_operation-Leaks) depth 20

-- A settlement in another month than that of the operation's budget reservation leaks the reservation:
-- if it succeeds, the operation has no reservation any more, and the row of the month that it was made
-- in still counts it as reserved.
pub settle_funding-Leaks :
    (v : BudgetReservation) (o : Operation) (r : SettlementRequest) (s : Store)
    → find_operation r.operation_id s.operations ≡ some o
    → is_funding_terminal o.status ≡ false
    → o.budget ≡ some v
    → (s.month == v.month) ≡ false
    → Succeeds (Leaks v s) (settle_funding r s)
unfolding settle_funding
settle_funding-Leaks v o r s found still e h =
    Succeeds-fail_if _ (invalid_settlement r) _ _
      (λ _. rw (found, still) (settle_open-Leaks v o r s e h))
