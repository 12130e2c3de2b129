-- ===== src/Tests/Money.antt =====
-- Runs of internal/domain/domain.go (`Decimal`), internal/settlement and internal/pricing.
use model_dock.Base.{◌≡◌, ◌≢◌, refl, true, false, some, [], arith}
use model_dock.Base.Int.{◌*ℤ◌, pos, negsuc, ◌-ℤ◌}
use model_dock.Text.{codes, text_eq, is_space, trim_left, trim_right, trim_space, to_upper}
use model_dock.Rat.{◌≤ₑ◌, frac_add, frac_mul, rat_difference}
use model_dock.Decimal.{
  Decimal, span_digits, digits_value, fraction_value, set_string, decimal_pattern, parse_decimal,
  decimal_rat, natural_digits, fixed_digits, float_string, round_half_away, units_string, multiply,
}
use model_dock.Decimal.RoundTrip.{decimal_rat-units_string}
use model_dock.Decimal.Arithmetic.{Meets, rounded_product, multiply-Meets}
use model_dock.Settlement.{SplitResult, split, ok}
use model_dock.Settlement.Balance.{Accepted, IsSplit, split_lem}
use model_dock.Pricing.{
  Rate, Tokens, Checked, exchange_rate_required, stored_decimal_matches, validate_stored_decimal,
  currency_matches, stored_units, must_rat, non_negative, is_blank, validate_rate, calculate_rate,
  format, trim_right_char,
}
use model_dock.Pricing.Calculate.{normalize_currency, default_if_blank, calculate}
use model_dock.Pricing.Margin.{required_price, margin_items, margin_loop, meets_minimum_margin}
use model_dock.Pricing.MarginBound.{
  required_amount, meets_minimum_margin-covers, WellFormed, blank_exchange_rate,
}

abbrev gross : Decimal
gross = codes " 10.5 "

gross-value : decimal_rat gross ≡ some (pos 10_500_000_000_000)
unfolding decimal_rat parse_decimal decimal_pattern set_string span_digits digits_value
    fraction_value trim_space trim_left trim_right is_space
gross-value = refl

abbrev gross-Accepted : Accepted gross (pos 1_500) (pos 1_000)
gross-Accepted = record {
  g = 10_500_000_000_000;
  c = 1_500;
  r = 1_000;
  value = gross-value;
  commission_is = refl;
  reserve_is = refl;
  commission_bound = omega arith;
  reserve_bound = omega arith;
}

split_lem_example :
    (result : SplitResult) × (split gross (pos 1_500) (pos 1_000) ≡ ok result)
    × IsSplit 10_500_000_000_000 1_500 1_000 result
split_lem_example = split_lem gross (pos 1_500) (pos 1_000) gross-Accepted

multiply-Meets_example :
    Meets rounded_product
      (decimal_rat gross)
      (decimal_rat (codes "-2.25"))
      (multiply gross (codes "-2.25"))
multiply-Meets_example = multiply-Meets gross (codes "-2.25")

decimal_rat-units_string_example : decimal_rat (units_string (negsuc 2_500)) ≡ some (negsuc 2_500)
decimal_rat-units_string_example = decimal_rat-units_string (negsuc 2_500) (omega arith)

abbrev cost : Rate
cost = record {
  input = codes "1.5";
  cached = codes "0.5";
  output = codes "6";
  fixed = codes "0";
  unit = pos 1_000_000;
  currency = codes " usd";
}

abbrev retail : Rate
retail = record {
  input = codes "2";
  cached = codes "1";
  output = codes "8";
  fixed = codes "0.01";
  unit = pos 1_000_000;
  currency = codes "USD";
}

abbrev tokens : Tokens
tokens = record { input = pos 1_000; cached = pos 200; output = pos 350 }

minimum-value : non_negative (codes "0.01") ≡ some 10_000_000_000
unfolding non_negative validate_stored_decimal stored_decimal_matches must_rat stored_units
    span_digits digits_value fraction_value trim_space trim_left trim_right is_space
minimum-value = refl

exchange-value : non_negative (default_if_blank (codes "1") []) ≡ some 1_000_000_000_000
unfolding default_if_blank non_negative validate_stored_decimal stored_decimal_matches must_rat
    stored_units span_digits digits_value fraction_value trim_space trim_left trim_right is_space
exchange-value = refl

margin_met :
    meets_minimum_margin cost retail (codes "0.01") (pos 1_000) [] ≡ Checked.ok (true, codes "0")
unfolding meets_minimum_margin margin_loop margin_items required_price normalize_currency
    currency_matches validate_rate format trim_right_char rat_difference float_string natural_digits
    fixed_digits round_half_away to_upper default_if_blank non_negative validate_stored_decimal
    stored_decimal_matches must_rat stored_units span_digits digits_value fraction_value trim_space
    trim_left trim_right is_space ◌-ℤ◌ ◌*ℤ◌ frac_add frac_mul
margin_met = refl

meets_minimum_margin-covers_example :
    required_amount cost tokens 1_000_000_000_000 1_000 10_000_000_000
    ≤ₑ calculate_rate retail tokens
meets_minimum_margin-covers_example =
    meets_minimum_margin-covers cost retail (codes "0.01") (pos 1_000) [] (codes "0") 10_000_000_000
      1_000_000_000_000 minimum-value exchange-value margin_met tokens

abbrev foreign : Rate
foreign = record cost { currency = codes "eur" }

foreign-WellFormed : WellFormed foreign retail tokens
unfolding normalize_currency currency_matches to_upper trim_space trim_left trim_right is_space
foreign-WellFormed = record {
  input = refl;
  cached = refl;
  output = refl;
  cached_in_input = refl;
  cost_unit = refl;
  retail_unit = refl;
  cost_currency = refl;
  retail_currency = refl;
}

currencies_differ :
    text_eq (normalize_currency foreign).currency (normalize_currency retail).currency ≡ false
unfolding normalize_currency to_upper trim_space trim_left trim_right is_space
currencies_differ = refl

is_blank_empty : is_blank [] ≡ true
unfolding trim_space trim_left trim_right
is_blank_empty = refl

blank_exchange_rate_example :
    (calculate foreign retail tokens [] [] [] ≡ Checked.err exchange_rate_required)
    × (meets_minimum_margin foreign retail (codes "0.01") (pos 1_000) []
        ≢ Checked.err exchange_rate_required)
blank_exchange_rate_example =
    blank_exchange_rate foreign retail tokens [] [] (codes "0.01") (pos 1_000) [] foreign-WellFormed
      currencies_differ is_blank_empty

-- What the check answers of rates in two currencies without an exchange rate.
blank_exchange_rate_accepted :
    meets_minimum_margin foreign retail (codes "0.01") (pos 1_000) [] ≡ Checked.ok (true, codes "0")
unfolding meets_minimum_margin margin_loop margin_items required_price normalize_currency
    currency_matches validate_rate format trim_right_char rat_difference float_string natural_digits
    fixed_digits round_half_away to_upper default_if_blank non_negative validate_stored_decimal
    stored_decimal_matches must_rat stored_units span_digits digits_value fraction_value trim_space
    trim_left trim_right is_space ◌-ℤ◌ ◌*ℤ◌ frac_add frac_mul
blank_exchange_rate_accepted = refl
