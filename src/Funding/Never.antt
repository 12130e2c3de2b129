-- ===== src/Funding/Never.antt =====
-- `SettleFunding` never reports `ErrFundingTerminal`: an operation that is over is returned.
use model_dock.Base.{
  ℕ, ◌≢◌, refl, Bool, true, false, not, ◌&&◌, Option, none, some, List, ltb, if_lem,
}
use model_dock.Text.{Text}
use model_dock.Pricing.{Rate, Tokens, Result, Checked}
use model_dock.Pricing.Calculate.{calculate}
use model_dock.Funding.{
  Funded, ok, err, ◌>>=◌, fail_if, or_fail, FundingError, terminal, pricing_failed, invalid_amount,
  invalid_journal, finance_state, repeated_debit, unfit_row, budget_exceeded, invalid_usage,
  JournalLine, post_journal, PriceVersion, BudgetReservation, Budget, Lot, Allocation, Operation,
  Store, funding_rat, find_operation, is_funding_terminal,
}
use model_dock.Funding.Lots.{lots_or_fail, settle_cash_lots}
use model_dock.Funding.Reserve.{post_if_any}
use model_dock.Funding.Amounts.{
  SettlementRequest, invalid_settlement, free_rate, amounts_of_result, funding_amounts, charge_for,
  actual_amounts, plain_amount, shadow_charge, customer_charge, platform_charge, settlement_charge,
  cost_of_result, provider_cost_of, settle_budget,
}
use model_dock.Funding.Settle.{settle_open, settle_found, settle_funding}

-- The error, if there is one, is not `ErrFundingTerminal`.
abbrev Avoids {ℓ} : {A : Type ℓ} → Funded A → Type 0
Avoids (ok a) = Unit
Avoids (err e) = e ≢ terminal

Avoids-bind {ℓ κ} :
    {A : Type ℓ} {B : Type κ} (m : Funded A) (f : A → Funded B)
    → Avoids m
    → ((a : A) → Avoids (f a))
    → Avoids (m >>= f)
Avoids-bind (ok a) f h k = k a
Avoids-bind (err e) f h k = h

Avoids-fail_if : (b : Bool) (e : FundingError) → e ≢ terminal → Avoids (fail_if b e)
Avoids-fail_if true e h = h
Avoids-fail_if false e h = tt

Avoids-or_fail {ℓ} :
    {A : Type ℓ} (o : Option A) (e : FundingError) → e ≢ terminal → Avoids (or_fail o e)
Avoids-or_fail none e h = h
Avoids-or_fail (some a) e h = tt

pricing-ne : pricing_failed ≢ terminal
pricing-ne = λ k. cc

amount-ne : invalid_amount ≢ terminal
amount-ne = λ k. cc

state-ne : finance_state ≢ terminal
state-ne = λ k. cc

unfit-ne : unfit_row ≢ terminal
unfit-ne = λ k. cc

repeated-ne : repeated_debit ≢ terminal
repeated-ne = λ k. cc

budget-ne : budget_exceeded ≢ terminal
budget-ne = λ k. cc

journal-ne : invalid_journal ≢ terminal
journal-ne = λ k. cc

amounts_of_result-Avoids : (r : Checked Result) → Avoids (amounts_of_result r)
amounts_of_result-Avoids (Checked.ok r) = tt
amounts_of_result-Avoids (Checked.err e) = pricing-ne

cost_of_result-Avoids : (r : Checked Result) → Avoids (cost_of_result r)
cost_of_result-Avoids (Checked.ok r) =
    Avoids-or_fail (funding_rat r.provider_cost) invalid_amount amount-ne
cost_of_result-Avoids (Checked.err e) = pricing-ne

funding_amounts-Avoids :
    (retail : Rate) (tokens : Tokens) (promotion tax exchange : Text)
    → Avoids (funding_amounts retail tokens promotion tax exchange)
unfolding funding_amounts
funding_amounts-Avoids retail tokens promotion tax exchange =
    amounts_of_result-Avoids (calculate (free_rate retail) retail tokens promotion tax exchange)

charge_for-Avoids :
    (p : Option PriceVersion) (waive : Bool) (o : Operation) (r : SettlementRequest)
    → Avoids (charge_for p waive o r)
charge_for-Avoids (some version) false o r = funding_amounts-Avoids _ _ _ _ _
charge_for-Avoids (some version) true o r = tt
charge_for-Avoids none waive o r = tt

plain_amount-Avoids : (rate : Rate) (r : SettlementRequest) → Avoids (plain_amount rate r)
plain_amount-Avoids rate r = search (Avoids-bind, funding_amounts-Avoids, Avoids-or_fail, amount-ne)

shadow_charge-Avoids :
    (p : Option PriceVersion) (has : Bool) (current : ℕ) (o : Operation) (r : SettlementRequest)
    (fee : ℕ)
    → Avoids (shadow_charge p has current o r fee)
shadow_charge-Avoids (some version) true current o r fee = search (Avoids-bind, plain_amount-Avoids)
shadow_charge-Avoids (some version) false current o r fee = tt
shadow_charge-Avoids none has current o r fee = tt

customer_charge-Avoids :
    (o : Operation) (r : SettlementRequest) (current : ℕ) → Avoids (customer_charge o r current)
unfolding customer_charge
customer_charge-Avoids o r current =
    Avoids-bind (plain_amount o.byok_fees r) _ (plain_amount-Avoids o.byok_fees r)
      (shadow_charge-Avoids o.price_version o.has_credential current o r)

platform_charge-Avoids : (texts : Text × Text) → Avoids (platform_charge texts)
platform_charge-Avoids texts = search (Avoids-bind, Avoids-or_fail, amount-ne)

settlement_charge-Avoids :
    (o : Operation) (r : SettlementRequest) (current : ℕ) → Avoids (settlement_charge o r current)
unfolding settlement_charge actual_amounts
settlement_charge-Avoids o r current =
    Avoids-bind (charge_for o.price_version r.waive o r) _
      (charge_for-Avoids o.price_version r.waive o r)
      (λ texts.
        if_lem Avoids (o.customer_owned && not r.waive) (customer_charge o r current)
          (platform_charge texts) (λ _. customer_charge-Avoids o r current)
          (λ _. platform_charge-Avoids texts))

post_journal-Avoids : (lines ledger : List JournalLine) → Avoids (post_journal lines ledger)
unfolding post_journal
post_journal-Avoids lines ledger = search (Avoids-bind, Avoids-fail_if, journal-ne)

post_if_any-Avoids :
    (amount : ℕ) (lines ledger : List JournalLine) → Avoids (post_if_any amount lines ledger)
unfolding post_if_any
post_if_any-Avoids amount lines ledger =
    if_lem Avoids (ltb 0 amount) (post_journal lines ledger) (ok ledger)
      (λ _. post_journal-Avoids lines ledger) (λ _. tt)

lots_or_fail-Avoids : (o : Option (List Lot)) → Avoids (lots_or_fail o)
lots_or_fail-Avoids none = state-ne
lots_or_fail-Avoids (some lots) = tt

settle_cash_lots-Avoids :
    (actual : ℕ) (held : List Allocation) (lots : List Lot)
    → Avoids (settle_cash_lots actual held lots)
unfolding settle_cash_lots
settle_cash_lots-Avoids actual held lots =
    search (Avoids-bind, lots_or_fail-Avoids, Avoids-fail_if, repeated-ne)

provider_cost_of-Avoids :
    (p : Option PriceVersion) (waive : Bool) (r : SettlementRequest)
    → Avoids (provider_cost_of p waive r)
provider_cost_of-Avoids (some version) false r = cost_of_result-Avoids (calculate _ _ _ _ _ _)
provider_cost_of-Avoids (some version) true r = tt
provider_cost_of-Avoids none waive r = tt

settle_budget-Avoids :
    (v : Option BudgetReservation) (o : Operation) (r : SettlementRequest) (month : ℕ)
    (budgets : List Budget)
    → Avoids (settle_budget v o r month budgets)
unfolding settle_budget
settle_budget-Avoids none o r month budgets = tt
settle_budget-Avoids (some v) o r month budgets =
    search (Avoids-bind, provider_cost_of-Avoids, Avoids-fail_if, budget-ne)

settle_open-Avoids :
    (o : Operation) (r : SettlementRequest) (s : Store) → Avoids (settle_open o r s)
unfolding settle_open
settle_open-Avoids o r s =
    search
      (
        Avoids-bind, settlement_charge-Avoids, post_if_any-Avoids, settle_cash_lots-Avoids,
        settle_budget-Avoids, Avoids-fail_if, unfit-ne,
      )
      depth 20

settle_found-Avoids :
    (found : Option Operation) (r : SettlementRequest) (s : Store) → Avoids (settle_found found r s)
settle_found-Avoids none r s = λ k. cc
settle_found-Avoids (some o) r s =
    if_lem Avoids (is_funding_terminal o.status) (ok (o, s)) (settle_open o r s) (λ _. tt)
      (λ _. settle_open-Avoids o r s)

settle_funding-Avoids : (r : SettlementRequest) (s : Store) → Avoids (settle_funding r s)
unfolding settle_funding
settle_funding-Avoids r s =
    Avoids-bind (fail_if (invalid_settlement r) invalid_usage) _
      (Avoids-fail_if (invalid_settlement r) invalid_usage (λ k. cc))
      (λ _. settle_found-Avoids (find_operation r.operation_id s.operations) r s)

pub settle_funding-ne-terminal :
    (r : SettlementRequest) (s : Store) → settle_funding r s ≢ err terminal
settle_funding-ne-terminal r s e = (rw e at (settle_funding-Avoids r s)) refl
