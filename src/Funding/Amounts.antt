-- ===== src/Funding/Amounts.antt =====
-- What `SettleFunding` of internal/store/funding.go charges: the price of the usage, or the fee of a
-- customer's own credential; and what it costs of the provider's budget.
use model_dock.Base.{
  ℕ, ◌+◌, ◌*◌, not, ◌-◌, Bool, true, false, ◌&&◌, ◌||◌, Option, none, some, List, ltb,
  if◌then◌else◌,
}
use model_dock.Base.Int.{ℤ, pos, ltb_ℤ}
use model_dock.Text.{Text, codes}
use model_dock.Decimal.{round_half_away}
use model_dock.Pricing.{Rate, Tokens, Result, Checked}
use model_dock.Pricing.Calculate.{calculate}
use model_dock.Funding.{
  Funded, ok, err, ◌>>=◌, ◌>>◌, fail_if, or_fail, pricing_failed, invalid_amount, Operation,
  PriceVersion, Budget, BudgetReservation, update_budget, budget_exceeded, funding_rat,
}

-- `FundingSettlementRequest`
pub record SettlementRequest : Type 0 where
  pub operation_id : Text
  pub input_tokens : ℤ
  pub cached_input : ℤ
  pub output_tokens : ℤ
  pub observed_bytes : ℤ
  pub failure_code : Text
  pub partial_failure : Bool
  pub waive : Bool

unfoldable pub invalid_settlement : SettlementRequest → Bool
invalid_settlement r =
    ltb_ℤ r.input_tokens (pos 0)
    || ltb_ℤ r.cached_input (pos 0)
    || ltb_ℤ r.output_tokens (pos 0)
    || ltb_ℤ r.input_tokens r.cached_input
    || ltb_ℤ r.observed_bytes (pos 0)

-- The cost rate of `fundingAmountsForVersion`, which asks for the retail amounts alone.
abbrev pub free_rate : Rate → Rate
free_rate retail = record retail {
  input = codes "0";
  cached = codes "0";
  output = codes "0";
  fixed = codes "0";
}

abbrev pub amounts_of_result : Checked Result → Funded (Text × Text)
amounts_of_result (Checked.ok r) = ok (r.final_amount, r.promotion_amount)
amounts_of_result (Checked.err e) = err pricing_failed

-- `fundingAmountsForVersion`: the final amount and the promotion.
unfoldable pub funding_amounts : Rate → Tokens → Text → Text → Text → Funded (Text × Text)
funding_amounts retail tokens promotion tax exchange =
    amounts_of_result (calculate (free_rate retail) retail tokens promotion tax exchange)

abbrev pub tokens_of : SettlementRequest → Tokens
tokens_of r = record { input = r.input_tokens; cached = r.cached_input; output = r.output_tokens }

abbrev pub charge_for :
    Option PriceVersion → Bool → Operation → SettlementRequest → Funded (Text × Text)
charge_for (some version) false o r =
    funding_amounts version.retail (tokens_of r) o.promotion_amount o.tax_rate o.exchange_rate
charge_for (some version) true o r = ok (codes "0", codes "0")
charge_for none waive o r = ok (codes "0", codes "0")

-- `actualAmount` and `actualPromotion`
unfoldable pub actual_amounts : Operation → SettlementRequest → Funded (Text × Text)
actual_amounts o r = charge_for o.price_version r.waive o r

-- What an operation is charged, how much of it is promotion, and what is recorded of a customer's own
-- credential.
pub record Charge : Type 0 where
  pub actual : ℕ
  pub promotion : ℕ
  pub platform_service_fee : ℕ
  pub shadow : ℕ

-- `max(0, total - allowance)`
abbrev pub billable : ℕ → ℕ → ℕ
billable allowance total = total - allowance

-- `incrementalBillable`
unfoldable pub incremental_billable : ℕ → ℕ → ℕ → ℕ
incremental_billable allowance current shadow =
    billable allowance (current + shadow) - billable allowance current

-- The fee of a request, and the rate on what it adds to the spend above the allowance.
unfoldable pub service_fee : ℕ → ℕ → ℕ → ℕ → ℕ → ℕ
service_fee fee current shadow allowance bps =
    round_half_away (fee * 10_000 + incremental_billable allowance current shadow * bps) 10_000

abbrev pub plain_amount : Rate → SettlementRequest → Funded ℕ
plain_amount rate r =
    funding_amounts rate (tokens_of r) (codes "0") (codes "0") (codes "1") >>= λ texts.
    or_fail (funding_rat texts.0) invalid_amount

abbrev pub shadow_charge :
    Option PriceVersion → Bool → ℕ → Operation → SettlementRequest → ℕ → Funded Charge
shadow_charge (some version) true current o r fee = do
  shadow ← plain_amount version.retail r
  let total = service_fee fee current shadow o.byok_allowance o.byok_fee_bps
  ok (record { actual = total; promotion = 0; platform_service_fee = total; shadow = shadow })
shadow_charge (some version) false current o r fee =
    ok (record { actual = fee; promotion = 0; platform_service_fee = fee; shadow = 0 })
shadow_charge none has_credential current o r fee =
    ok (record { actual = fee; promotion = 0; platform_service_fee = fee; shadow = 0 })

-- The charge where the customer's own credential served the request.
unfoldable pub customer_charge : Operation → SettlementRequest → ℕ → Funded Charge
customer_charge o r current = do
  fee ← plain_amount o.byok_fees r
  shadow_charge o.price_version o.has_credential current o r fee

abbrev pub platform_charge : Text × Text → Funded Charge
platform_charge texts = do
  promotion ← or_fail (funding_rat texts.1) invalid_amount
  actual ← or_fail (funding_rat texts.0) invalid_amount
  ok (record { actual = actual; promotion = promotion; platform_service_fee = 0; shadow = 0 })

unfoldable pub settlement_charge : Operation → SettlementRequest → ℕ → Funded Charge
settlement_charge o r current = do
  texts ← actual_amounts o r
  if o.customer_owned && not r.waive then customer_charge o r current else platform_charge texts

abbrev pub cost_of_result : Checked Result → Funded ℕ
cost_of_result (Checked.ok r) = or_fail (funding_rat r.provider_cost) invalid_amount
cost_of_result (Checked.err e) = err pricing_failed

abbrev pub provider_cost_of : Option PriceVersion → Bool → SettlementRequest → Funded ℕ
provider_cost_of (some version) false r = cost_of_result (
    calculate version.cost (free_rate version.cost) (tokens_of r) (codes "0") (codes "0")
      (codes "1"))
provider_cost_of (some version) true r = ok 0
provider_cost_of none waive r = ok 0

unfoldable pub settle_row : ℕ → ℕ → Budget → Budget
settle_row reservation cost b = record b {
  reserved_cost = b.reserved_cost - reservation;
  provider_cost = b.provider_cost + cost;
}

-- The provider's budget of the month of the time now, where the operation has a reservation.
unfoldable pub settle_budget :
    Option BudgetReservation
    → Operation
    → SettlementRequest
    → ℕ
    → List Budget
    → Funded (List Budget)
settle_budget none o r month budgets = ok budgets
settle_budget (some v) o r month budgets = do
  cost ← provider_cost_of o.price_version r.waive r
  fail_if (ltb v.maximum_cost cost) budget_exceeded
  ok (update_budget (settle_row v.maximum_cost cost) v.provider_id month budgets)
