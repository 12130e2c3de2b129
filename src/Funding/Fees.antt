-- ===== src/Funding/Fees.antt =====
-- The monthly budgets of providers.
use model_dock.Base.{
  ℕ, ◌+◌, ◌-◌, ◌≤◌, ◌≡◌, refl, ap, inl, inr, Bool, false, ◌&&◌, Option, none, some, List, [], ◌∷◌,
  arith, ltb, ◌==◌, if◌then◌else◌, Bool-cases,
}
use model_dock.Text.{Text, text_eq}
use model_dock.Funding.{
  Operation, Budget, BudgetReservation, find_budget, update_budget, Succeeds, Succeeds-bind,
  Succeeds-fail_if,
}
use model_dock.Funding.Amounts.{SettlementRequest, provider_cost_of, settle_row, settle_budget}

-- A row is of the provider and the month.
abbrev pub is_row : Text → ℕ → Budget → Bool
is_row provider month b = text_eq b.provider_id provider && (b.month == month)

abbrev pub Within : ℕ → Option Budget → Option Budget → Type 0
Within reservation none after = after ≡ none
Within reservation (some b) none = ⊥
Within reservation (some b) (some after) =
    (after.reserved_cost ≡ b.reserved_cost - reservation)
    × (b.provider_cost ≤ after.provider_cost)
    × (after.provider_cost ≤ b.provider_cost + reservation)

find-update_budget :
    (reservation cost : ℕ) (provider : Text) (month : ℕ) (budgets : List Budget)
    → cost ≤ reservation
    → Within reservation (find_budget provider month budgets) (
        find_budget provider month
          (update_budget (settle_row reservation cost) provider month budgets))
unfolding find_budget update_budget settle_row
find-update_budget reservation cost provider month [] h = refl
find-update_budget reservation cost provider month (b ∷ rest) h =
    elim (Bool-cases (is_row provider month b)) [
      | inl e ↦ rw (e, e) (refl, omega arith, omega arith)
      | inr e ↦ rw (e, e) (find-update_budget reservation cost provider month rest h)
    ]

pub find-update_budget_ne :
    (f : Budget → Budget) (provider : Text) (month other : ℕ) (budgets : List Budget)
    → ((b : Budget) → (f b).month ≡ b.month)
    → (month == other) ≡ false
    → find_budget provider other (update_budget f provider month budgets)
      ≡ find_budget provider other budgets
unfolding find_budget update_budget
find-update_budget_ne f provider month other [] keeps h = refl
find-update_budget_ne f provider month other (b ∷ rest) keeps h =
    let ih = find-update_budget_ne f provider month other rest keeps h in
    let same = keeps b in
    elim (Bool-cases (is_row provider month b)) [
      | inl e ↦ rw e (ground arith)
      | inr e ↦ rw e (ap (λ x. if is_row provider other b then some b else x) ih)
    ]

-- A settlement that a provider's budget allows takes the reservation out of the reserved cost of the
-- month of the settlement, and adds to its cost no more than was reserved. A month without a row gets
-- none.
pub settle_budget_lem :
    (v : BudgetReservation) (o : Operation) (r : SettlementRequest) (month : ℕ)
    (budgets : List Budget)
    → Succeeds
        (λ after.
          Within v.maximum_cost
            (find_budget v.provider_id month budgets)
            (find_budget v.provider_id month after))
        (settle_budget (some v) o r month budgets)
unfolding settle_budget
settle_budget_lem v o r month budgets =
    Succeeds-bind _ (provider_cost_of o.price_version r.waive r) _ (λ cost _.
      Succeeds-fail_if _ (ltb v.maximum_cost cost) _ _
        (λ e. find-update_budget v.maximum_cost cost v.provider_id month budgets (ground arith)))
