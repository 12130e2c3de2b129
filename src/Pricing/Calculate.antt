-- ===== src/Pricing/Calculate.antt =====
-- `Calculate` of internal/pricing/pricing.go.
use model_dock.Base.{ℕ, not, ◌&&◌, ◌||◌, ◌==◌, if◌then◌else◌}
use model_dock.Base.Int.{pos, leb_ℤ, ltb_ℤ}
use model_dock.Text.{Text, codes, text_eq, trim_space, to_upper}
use model_dock.Rat.{
  Frac, of_units, frac_add, frac_sub, frac_mul, frac_ltb, Rat, rat_difference, frac_string,
  rat_string,
}
use model_dock.Pricing.{
  Rate, Tokens, Result, Checked, ok, ◌>>=◌, ◌>>◌, fail_if, or_fail, invalid_tokens, invalid_unit,
  invalid_currency, exchange_rate_required, cost_rate, retail_rate, promotion, tax_rate,
  exchange_rate, exchange_rate_zero, currency_matches, non_negative, is_blank, validate_rate,
  calculate_rate, format,
}

-- The currency code in capitals, without white space.
unfoldable pub normalize_currency : Rate → Rate
normalize_currency rate = record rate { currency = to_upper (trim_space rate.currency) }

-- A blank text stands for a default.
unfoldable pub default_if_blank : Text → Text → Text
default_if_blank fallback value = if is_blank value then fallback else value

-- The exact amounts behind the printed ones.
pub record Amounts : Type 0 where
  pub provider_cost : Frac
  pub retail_amount : Frac
  pub exchange_rate : Frac
  pub gross_margin : Rat
  pub promotion_amount : Frac
  pub pre_tax_amount : Frac
  pub tax_rate : Frac
  pub tax_amount : Frac
  pub final_amount : Frac

-- The arithmetic behind the checks; promotion, tax and rate are in units.
unfoldable pub amounts : Rate → Rate → Tokens → ℕ → ℕ → ℕ → Amounts
amounts cost retail tokens promo tax rate =
    let provider_cost = calculate_rate cost tokens in
    let retail_amount = calculate_rate retail tokens in
    let converted_cost = frac_mul provider_cost (of_units rate) in
    let promo_applied =
      if frac_ltb retail_amount (of_units promo) then retail_amount else of_units promo in
    let pre_tax = frac_sub retail_amount promo_applied in
    let tax_amount = frac_mul pre_tax (of_units tax) in
    record {
      provider_cost = provider_cost;
      retail_amount = retail_amount;
      exchange_rate = of_units rate;
      gross_margin = rat_difference retail_amount converted_cost;
      promotion_amount = promo_applied;
      pre_tax_amount = pre_tax;
      tax_rate = of_units tax;
      tax_amount = tax_amount;
      final_amount = frac_add pre_tax tax_amount;
    }

unfoldable pub print_amounts : Amounts → Result
print_amounts a = record {
  provider_cost = format (frac_string a.provider_cost);
  retail_amount = format (frac_string a.retail_amount);
  exchange_rate = format (frac_string a.exchange_rate);
  gross_margin = format (rat_string a.gross_margin);
  promotion_amount = format (frac_string a.promotion_amount);
  pre_tax_amount = format (frac_string a.pre_tax_amount);
  tax_rate = format (frac_string a.tax_rate);
  tax_amount = format (frac_string a.tax_amount);
  final_amount = format (frac_string a.final_amount);
}

-- The checks on tokens, units and currencies.
unfoldable pub check_request : Rate → Rate → Tokens → Text → Checked (Unit {0})
check_request cost retail tokens exchange = do
  fail_if
      (ltb_ℤ tokens.input (pos 0)
        || ltb_ℤ tokens.cached (pos 0)
        || ltb_ℤ tokens.output (pos 0)
        || ltb_ℤ tokens.input tokens.cached)
      invalid_tokens
  fail_if (leb_ℤ cost.unit (pos 0) || leb_ℤ retail.unit (pos 0)) invalid_unit
  let c = (normalize_currency cost).currency
  let r = (normalize_currency retail).currency
  fail_if (not (currency_matches c) || not (currency_matches r)) invalid_currency
  fail_if (not (text_eq c r) && is_blank exchange) exchange_rate_required

unfoldable pub calculate : Rate → Rate → Tokens → Text → Text → Text → Checked Result
calculate cost retail tokens promotion_text tax_text exchange_text = do
  check_request cost retail tokens exchange_text
  fail_if (not (validate_rate cost)) cost_rate
  fail_if (not (validate_rate retail)) retail_rate
  promo ← or_fail (non_negative (default_if_blank (codes "0") promotion_text)) promotion
  tax ← or_fail (non_negative (default_if_blank (codes "0") tax_text)) tax_rate
  rate ← or_fail (non_negative (default_if_blank (codes "1") exchange_text)) exchange_rate
  fail_if (rate == 0) exchange_rate_zero
  ok (print_amounts (amounts cost retail tokens promo tax rate))
