-- ===== src/Pricing/Margin.antt =====
-- `MeetsMinimumMargin` of internal/pricing/pricing.go.
use model_dock.Base.{
  ℕ, ◌+◌, ◌*◌, Bool, true, not, ◌&&◌, ◌||◌, Option, none, some, List, [], ◌∷◌, ◌==◌, if◌then◌else◌,
}
use model_dock.Base.Int.{ℤ, pos, abs, leb_ℤ, ltb_ℤ}
use model_dock.Text.{Text, codes, text_eq}
use model_dock.Decimal.{one_units}
use model_dock.Rat.{Frac, of_units, frac_add, frac_mul, Rat, rat_difference, rat_ltb, rat_string}
use model_dock.Pricing.{
  Rate, Checked, ok, ◌>>=◌, ◌>>◌, fail_if, or_fail, invalid_unit, invalid_currency,
  exchange_rate_required, cost_rate, retail_rate, exchange_rate, exchange_rate_zero, minimum_amount,
  minimum_bps, currency_matches, non_negative, must_rat, is_blank, validate_rate, format,
}
use model_dock.Pricing.Calculate.{normalize_currency, default_if_blank}

-- 1 + bps / 10000
abbrev pub margin_factor : ℕ → Frac
margin_factor bps = record { num = 10_000 + bps; den = 10_000 }

-- A price per token: the rate divided by its unit.
abbrev pub per_token : ℕ → ℤ → Frac
per_token units unit = record { num = units; den = one_units * abs unit }

-- What the retail price of one item has to reach.
unfoldable pub required_price : Frac → ℕ → ℕ → Frac
required_price cost exchange bps = frac_mul (frac_mul cost (of_units exchange)) (margin_factor bps)

-- The pairs of the retail price and the required price, in the order of the loop.
unfoldable pub margin_items : Rate → Rate → ℕ → ℕ → ℕ → List (Frac × Frac)
margin_items cost retail exchange bps minimum =
    (
      per_token (must_rat retail.input) retail.unit,
      required_price (per_token (must_rat cost.input) cost.unit) exchange bps,
    )
    ∷ (
      per_token (must_rat retail.cached) retail.unit,
      required_price (per_token (must_rat cost.cached) cost.unit) exchange bps,
    )
    ∷ (
      per_token (must_rat retail.output) retail.unit,
      required_price (per_token (must_rat cost.output) cost.unit) exchange bps,
    )
    ∷ (
      of_units (must_rat retail.fixed),
      frac_add (required_price (of_units (must_rat cost.fixed)) exchange bps) (of_units minimum),
    )
    ∷ []

-- Whether no margin is negative, and the lowest margin so far.
abbrev pub MarginState : Type 0
MarginState = Bool × Option Rat

abbrev lower_margin : Option Rat → Rat → Option Rat
lower_margin none margin = some margin
lower_margin (some lowest) margin = some (if rat_ltb margin lowest then margin else lowest)

unfoldable pub margin_loop : MarginState → List (Frac × Frac) → MarginState
margin_loop state [] = state
margin_loop (good, lowest) ((price, required) ∷ items) =
    let margin = rat_difference price required in
    margin_loop (good && not (ltb_ℤ margin.num (pos 0)), lower_margin lowest margin) items

abbrev print_lowest : Option Rat → Text
print_lowest none = codes "0"
print_lowest (some lowest) = format (rat_string lowest)

unfoldable pub meets_minimum_margin : Rate → Rate → Text → ℤ → Text → Checked (Bool × Text)
meets_minimum_margin cost retail minimum_text bps exchange_text = do
  let exchange_given = default_if_blank (codes "1") exchange_text
  fail_if (leb_ℤ cost.unit (pos 0) || leb_ℤ retail.unit (pos 0)) invalid_unit
  let c = (normalize_currency cost).currency
  let r = (normalize_currency retail).currency
  fail_if (not (currency_matches c) || not (currency_matches r)) invalid_currency
  fail_if (not (text_eq c r) && is_blank exchange_given) exchange_rate_required
  fail_if (not (validate_rate cost)) cost_rate
  fail_if (not (validate_rate retail)) retail_rate
  minimum ← or_fail (non_negative minimum_text) minimum_amount
  fail_if (ltb_ℤ bps (pos 0)) minimum_bps
  exchange ← or_fail (non_negative exchange_given) exchange_rate
  fail_if (exchange == 0) exchange_rate_zero
  let (good, lowest) =
      margin_loop (true, none) (margin_items cost retail exchange (abs bps) minimum)
  ok (good, print_lowest lowest)
