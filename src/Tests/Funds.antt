-- ===== src/Tests/Funds.antt =====
-- Runs of internal/store/funding.go and of the cash lots of internal/store/finance.go.
use model_dock.Base.{inl, ℕ, ◌≡◌, refl, true, false, some, List, [], ◌∷◌, arith}
use model_dock.Base.Int.{pos, ◌-ℤ◌, ◌+ℤ◌}
use model_dock.Text.{codes, is_space, trim_left, trim_right, trim_space, to_upper}
use model_dock.Pricing.{Rate}
use model_dock.Funding.{
  err, repeated_debit, ok, prepaid, active, held, Lot, Allocation, Wallet, Operation, Store,
  find_operation, Succeeds,
}
use model_dock.Funding.Lots.{
  total_reserved, settle_allocations, give_back_all, give_back, take_lots, repeats, charge_debits,
  consumed_debits, overage_debits, taken_debits, has_debit, settle_cash_lots, total_remaining,
}
use model_dock.Funding.Attribution.{Charged, settle_cash_lots_lem}
use model_dock.Funding.Reserve.{
  has_request, fits_numeric, wallet_fits, hold_wallet, ReservationRequest, reserve_funding,
  is_invalid, find_idempotent, is_allowed,
}
use model_dock.Funding.Amounts.{SettlementRequest, settle_budget, invalid_settlement}
use model_dock.Funding.Settle.{settle_wallet, settle_funding}
use model_dock.Funding.Bookkeeping.{Booked, reserve_funding-Booked, settle_funding-Booked}
use model_dock.Funding.Repeat.{reserve_funding_idem, settle_funding_idem}
use model_dock.Pricing.{
  stored_decimal_matches, validate_stored_decimal, currency_matches, stored_units, must_rat,
  non_negative, validate_rate, calculate_rate, format, trim_right_char,
}
use model_dock.Pricing.Calculate.{
  normalize_currency, default_if_blank, amounts, print_amounts, check_request, calculate,
}
use model_dock.Decimal.{
  span_digits, digits_value, fraction_value, set_string, decimal_pattern, parse_decimal,
  decimal_rat, natural_digits, fixed_digits, float_string, round_half_away,
}
use model_dock.Rat.{frac_add, frac_sub, frac_mul, rat_difference}
use model_dock.Funding.{funding_rat, Budget, BudgetReservation, update_budget}
use model_dock.Funding.Amounts.{
  Charge, settle_row, settlement_charge, actual_amounts, funding_amounts, customer_charge,
  service_fee, incremental_billable,
}
use model_dock.Funding.Overage.{IsOverage, settle_funding-IsRefused}
use model_dock.Funding.Completion.{FitsRows, IsSettleable, settle_funding-completes}
use model_dock.Funding.Admission.{
  IsCovered, IsAdmissible, reserve_funding-IsCovered, reserve_funding-grants,
}
use model_dock.Funding.Charge.{IsCharged, settle_funding-IsCharged}

-- One unit of money.
abbrev pub one : ℕ
one = 1_000_000_000_000

abbrev pub wallet : Wallet
wallet = record {
  currency = codes "USD";
  billing_mode = prepaid;
  status = active;
  available_balance = pos 5_000_000_000_000;
  reserved_balance = pos 2_000_000_000_000;
  credit_limit = pos 0;
  risk_limit = pos 1_000_000_000_000;
  risk_exposure = pos 0;
  credit_enforced = true;
}

abbrev pub lots : List Lot
lots =
    record { id = codes "a"; original = 3_000_000_000_000; remaining = 1_000_000_000_000 }
    ∷ record { id = codes "b"; original = 4_000_000_000_000; remaining = 4_000_000_000_000 }
    ∷ []

abbrev held_cash : List Allocation
held_cash =
    record {
      lot_id = codes "a";
      reserved = 2_000_000_000_000;
      consumed = 0;
      released = 0;
      reversed = 0;
    }
    ∷ []

abbrev pub price : Rate
price = record {
  input = codes "2";
  cached = codes "1";
  output = codes "8";
  fixed = codes "0.5";
  unit = pos 1_000;
  currency = codes "USD";
}

abbrev pub reservation : BudgetReservation
reservation = record { provider_id = codes "provider"; month = 1; maximum_cost = 2_000_000_000_000 }

abbrev pub open_operation : Operation
open_operation = record {
  id = codes "op";
  project_id = codes "project";
  api_key_id = codes "key";
  request_id = codes "r1";
  idempotency_key = codes "first";
  request_fingerprint = codes "f";
  status = held;
  price_version = some (record { retail = price; cost = price });
  maximum_amount = 2_000_000_000_000;
  promotion_amount = codes "0";
  tax_rate = codes "0";
  exchange_rate = codes "1";
  settled_amount = 0;
  released_amount = 0;
  consumed_promotion = 0;
  cash = held_cash;
  promotions = [];
  debits = [];
  adjustments = [];
  estimated_input = pos 100;
  max_output = pos 200;
  observed_bytes = 0;
  customer_owned = true;
  has_credential = true;
  byok_fees = price;
  byok_fee_bps = 500;
  byok_allowance = 1_000_000_000_000;
  platform_service_fee = 0;
  byok_shadow = 0;
  budget = some reservation;
}

abbrev budget_with : ℕ → ℕ → List Budget
budget_with reserved cost =
    record {
      provider_id = codes "provider";
      month = 1;
      request_count = 1;
      reserved_cost = reserved;
      provider_cost = cost;
    }
    ∷ []

abbrev pub store : Store
store = record {
  wallet = wallet;
  lots = lots;
  credits = [];
  ledger = [];
  shadow_amount = 400_000_000_000;
  month = 1;
  budgets = budget_with 2_000_000_000_000 0;
  operations = open_operation ∷ [];
}

abbrev request : ReservationRequest
request = record {
  organization_id = codes "org";
  project_id = codes "project";
  api_key_id = codes "key";
  request_id = codes "r2";
  idempotency_key = codes "second";
  request_fingerprint = codes "g";
  price_version = some (record { retail = price; cost = price });
  currency = codes "usd";
  maximum_amount = some (pos 3_000_000_000_000);
  promotion_amount = some (pos 0);
  tax_rate = [];
  exchange_rate = [];
  texts_fit = true;
  taken_elsewhere = false;
  estimated_input = pos 100;
  max_output = pos 200;
}

abbrev pub usage : SettlementRequest
usage = record {
  operation_id = codes "op";
  input_tokens = pos 100;
  cached_input = pos 0;
  output_tokens = pos 50;
  observed_bytes = pos 200;
  failure_code = [];
  partial_failure = false;
  waive = false;
}

request-IsAdmissible : IsAdmissible request store
unfolding is_invalid find_idempotent is_allowed trim_space trim_left trim_right is_space to_upper
    total_remaining ◌-ℤ◌ ◌+ℤ◌ has_request fits_numeric wallet_fits hold_wallet
request-IsAdmissible = record {
  maximum = 3_000_000_000_000;
  promotion = 0;
  valid = refl;
  maximum_read = refl;
  promotion_read = refl;
  unknown = refl;
  wallet_active = refl;
  same_currency = refl;
  allowed = refl;
  not_taken = refl;
  request_unknown = refl;
  texts_fit = refl;
  maximum_fits = refl;
  promotion_fits = refl;
  wallet_fits_after = refl;
  promotion_covered = omega arith;
}

reserve_funding-grants_example :
    (o : Operation) × (after : Store) × (reserve_funding (codes "new") request store
      ≡ ok (o, false, after))
reserve_funding-grants_example =
    reserve_funding-grants (codes "new") request store request-IsAdmissible

reserve_funding-IsCovered_example :
    Succeeds
      (λ result. result.1 ≡ false → IsCovered result.2.wallet)
      (reserve_funding (codes "new") request store)
reserve_funding-IsCovered_example = reserve_funding-IsCovered (codes "new") request store

reserve_funding-Booked_example :
    Succeeds (λ result. Booked store result.2) (reserve_funding (codes "new") request store)
reserve_funding-Booked_example = reserve_funding-Booked (codes "new") request store

reserve_funding_idem_example :
    Succeeds
      (λ result. reserve_funding (codes "again") request result.2 ≡ ok (result.0, true, result.2))
      (reserve_funding (codes "new") request store)
reserve_funding_idem_example = reserve_funding_idem (codes "new") (codes "again") request store

settle_funding-Booked_example :
    Succeeds (λ result. Booked store result.1) (settle_funding usage store)
settle_funding-Booked_example = settle_funding-Booked usage store

pub usage-valid : invalid_settlement usage ≡ false
unfolding invalid_settlement
usage-valid = refl

settle_funding_idem_example :
    Succeeds
      (λ result. settle_funding usage result.1 ≡ ok (result.0, result.1))
      (settle_funding usage store)
settle_funding_idem_example = settle_funding_idem usage usage store refl usage-valid

pub operation_found : find_operation (codes "op") store.operations ≡ some open_operation
unfolding find_operation
operation_found = refl

settle_funding-IsCharged_example :
    Succeeds
      (λ result. IsCharged open_operation usage store result.0 result.1)
      (settle_funding usage store)
settle_funding-IsCharged_example =
    settle_funding-IsCharged open_operation usage store operation_found refl

settle_cash_lots_lem_example :
    Charged 1_100_000_000_000 held_cash lots (settle_cash_lots 1_100_000_000_000 held_cash lots)
settle_cash_lots_lem_example = settle_cash_lots_lem 1_100_000_000_000 held_cash lots

abbrev pub charge : Charge
charge = record {
  actual = 1_125_000_000_000;
  promotion = 0;
  platform_service_fee = 1_125_000_000_000;
  shadow = 1_100_000_000_000;
}

pub usage-priced : settlement_charge open_operation usage store.shadow_amount ≡ ok charge
unfolding settlement_charge actual_amounts funding_amounts customer_charge service_fee
    incremental_billable normalize_currency default_if_blank amounts print_amounts check_request
    calculate stored_decimal_matches validate_stored_decimal currency_matches stored_units must_rat
    non_negative validate_rate calculate_rate format trim_right_char span_digits digits_value
    fraction_value set_string decimal_pattern parse_decimal decimal_rat natural_digits fixed_digits
    float_string round_half_away frac_add frac_sub frac_mul rat_difference funding_rat trim_space
    trim_left trim_right is_space to_upper ◌-ℤ◌
usage-priced = refl

abbrev spent : List Budget
spent = budget_with 0 1_100_000_000_000

usage-affordable :
    settle_budget open_operation.budget open_operation usage store.month store.budgets ≡ ok spent
unfolding settle_budget update_budget settle_row settlement_charge actual_amounts funding_amounts
    customer_charge service_fee incremental_billable normalize_currency default_if_blank amounts
    print_amounts check_request calculate stored_decimal_matches validate_stored_decimal
    currency_matches stored_units must_rat non_negative validate_rate calculate_rate format
    trim_right_char span_digits digits_value fraction_value set_string decimal_pattern parse_decimal
    decimal_rat natural_digits fixed_digits float_string round_half_away frac_add frac_sub frac_mul
    rat_difference funding_rat trim_space trim_left trim_right is_space to_upper ◌-ℤ◌
usage-affordable = refl

usage-unrepeated : repeats (charge_debits charge.actual open_operation.cash store.lots) ≡ false
unfolding repeats charge_debits settle_allocations give_back_all give_back consumed_debits
    overage_debits take_lots taken_debits total_reserved has_debit
usage-unrepeated = refl

usage-fits : FitsRows open_operation charge store
unfolding wallet_fits settle_wallet fits_numeric ◌-ℤ◌ ◌+ℤ◌
usage-fits = refl

pub usage-IsSettleable : IsSettleable open_operation usage store
usage-IsSettleable = record {
  charge = charge;
  budgets = spent;
  valid = usage-valid;
  found = operation_found;
  not_over = refl;
  priced = usage-priced;
  affordable = usage-affordable;
  backed = record { place = (omega arith, (omega arith, tt)); present = (inl refl, tt) };
  fits = usage-fits;
  unrepeated = usage-unrepeated;
}

settle_funding-completes_example :
    (settled : Operation) × (after : Store) × (settle_funding usage store ≡ ok (settled, after))
settle_funding-completes_example =
    settle_funding-completes open_operation usage store usage-IsSettleable

-- The same usage, of an operation that holds less of the first lot than it costs.
abbrev small_hold : List Allocation
small_hold =
    record {
      lot_id = codes "a";
      reserved = 1_000_000_000_000;
      consumed = 0;
      released = 0;
      reversed = 0;
    }
    ∷ []

abbrev small_operation : Operation
small_operation = record open_operation { cash = small_hold; maximum_amount = 1_000_000_000_000 }

abbrev small_store : Store
small_store = record store { operations = small_operation ∷ [] }

small_found : find_operation (codes "op") small_store.operations ≡ some small_operation
unfolding find_operation
small_found = refl

small-fits : FitsRows small_operation charge small_store
unfolding wallet_fits settle_wallet fits_numeric ◌-ℤ◌ ◌+ℤ◌
small-fits = refl

small-IsOverage : IsOverage small_operation usage small_store
unfolding settlement_charge actual_amounts customer_charge
small-IsOverage = record {
  charge = charge;
  emptied = [];
  lot = record { id = codes "a"; original = 3_000_000_000_000; remaining = 1_000_000_000_000 };
  others =
      record { id = codes "b"; original = 4_000_000_000_000; remaining = 4_000_000_000_000 } ∷ [];
  valid = usage-valid;
  found = small_found;
  not_over = refl;
  priced = usage-priced;
  fits = small-fits;
  exceeds = unfold total_reserved in omega arith;
  lots = refl;
  empty = tt;
  held = inl (refl, omega arith);
  more = omega arith;
}

settle_funding-IsRefused_example : settle_funding usage small_store ≡ err repeated_debit
settle_funding-IsRefused_example =
    settle_funding-IsRefused small_operation usage small_store small-IsOverage
