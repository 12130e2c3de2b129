-- ===== src/Tests/Reversals.antt =====
-- Runs of the late adjustments, reversals, attempts and recoveries of internal/store/funding.go.
use model_dock.Base.{◌<◌, ◌≡◌, ◌≢◌, ◌∙◌, sym, refl, true, false, none, some, [], ◌∷◌, arith}
use model_dock.Base.Int.{pos, ◌-ℤ◌, ◌+ℤ◌}
use model_dock.Text.{codes, is_space, trim_left, trim_right, trim_space, to_upper}
use model_dock.Pricing.{
  stored_decimal_matches, validate_stored_decimal, currency_matches, stored_units, must_rat,
  non_negative, validate_rate, calculate_rate, format, trim_right_char,
}
use model_dock.Pricing.Calculate.{
  normalize_currency, default_if_blank, amounts, print_amounts, check_request, calculate,
}
use model_dock.Decimal.{
  span_digits, digits_value, fraction_value, set_string, decimal_pattern, parse_decimal,
  decimal_rat, natural_digits, fixed_digits, float_string, round_half_away,
}
use model_dock.Rat.{frac_add, frac_sub, frac_mul, rat_difference}
use model_dock.Funding.{
  ok, settled, reversed, Operation, Store, find_operation, put_operation, post_journal, funding_rat,
  Succeeds, Succeeds-ok,
}
use model_dock.Funding.Lots.{
  repeats, consumed_debits, overage_debits, has_debit, total_reserved, taken_debits, take_lots,
  settle_cash_lots, settle_allocations, give_back_all, give_back,
}
use model_dock.Funding.Reserve.{post_if_any, wallet_fits, fits_numeric}
use model_dock.Funding.Amounts.{
  settlement_charge, actual_amounts, funding_amounts, invalid_settlement, settle_budget,
}
use model_dock.Funding.Settle.{settle_wallet, settled_status, settle_open, settle_funding}
use model_dock.Funding.Completion.{settle_funding-completes}
use model_dock.Funding.Charge.{IsCharged, settle_funding-IsCharged}
use model_dock.Funding.Reverse.{Orders, reverse_funding}
use model_dock.Funding.Reversal.{ReversedOnce, reverse_funding-ReversedOnce}
use model_dock.Funding.Undo.{KeepsOpen, settle_funding-reversible}
use model_dock.Funding.Adjust.{
  LateUsageRequest, invalid_late_usage, corrected_amount, late_lines, charge_wallet,
  adjust_operation, adjust_up, adjust_to, adjust_closed, adjust_late, has_key,
}
use model_dock.Funding.Late.{AdjustedOnce, adjust_late-AdjustedOnce}
use model_dock.Funding.LateReversal.{adjust_late-blocks_reversal, adjust_late-reopens}
use model_dock.Funding.Budgets.{Leaks, settle_funding-Leaks}
use model_dock.Funding.Attempt.{AttemptRequest, AttemptStore, platform, begin_attempt}
use model_dock.Funding.Begin.{IsBegunOf, begin_attempt-IsBegun}
use model_dock.Funding.Recover.{
  recover_stale, recover_each, recovery_request, stale_operations, clamp,
}
use model_dock.Funding.Recovered.{AllRecovered, recover_stale-AllRecovered}
use model_dock.Tests.Funds.{
  lots, wallet, store, usage, open_operation, charge, usage-priced, usage-IsSettleable,
  operation_found, reservation,
}

-- The rows are read as they were written.
abbrev as_written : Orders
as_written = record { debits = λ ds. ds; allocations = λ xs. xs }

as_written-KeepsOpen : KeepsOpen as_written
as_written-KeepsOpen = record { of_debits = λ ds. refl; of_promotions = λ xs. refl }

-- The charge of the operation that is settled.
charged_something :
    (o : Operation) (after : Store)
    → settle_funding usage store ≡ ok (o, after)
    → 0 < o.settled_amount
charged_something o after e =
    let c =
      Succeeds-ok (λ result. IsCharged open_operation usage store result.0 result.1)
        (settle_funding usage store) e
        (settle_funding-IsCharged open_operation usage store operation_found refl) in
    let same : ok c.charge ≡ ok charge = sym c.priced ∙ usage-priced in
    ground (arith, same, c.charged)

settle_funding-reversible_example :
    let done = settle_funding-completes open_operation usage store usage-IsSettleable in
    (result : Operation × Store) × (reverse_funding as_written
        (codes "op")
        (codes "k")
        (codes "refund")
        done.1
      ≡ ok result)
unfolding trim_space trim_left trim_right is_space
settle_funding-reversible_example =
    let done = settle_funding-completes open_operation usage store usage-IsSettleable in
    settle_funding-reversible as_written usage open_operation done.0 store done.1 (codes "k")
      (codes "refund") as_written-KeepsOpen operation_found refl tt done.2
      (charged_something done.0 done.1 done.2) refl

abbrev closed_operation : Operation
closed_operation = record open_operation {
  status = settled;
  settled_amount = 500_000_000_000;
  debits = record { lot_id = some (codes "a"); amount = 500_000_000_000; restored = 0 } ∷ [];
}

abbrev closed_store : Store
closed_store = record store { operations = closed_operation ∷ [] }

reverse_funding-ReversedOnce_example :
    Succeeds
      (ReversedOnce as_written (find_operation (codes "op") closed_store.operations) closed_store)
      (reverse_funding as_written (codes "op") (codes "k") (codes "refund") closed_store)
reverse_funding-ReversedOnce_example =
    reverse_funding-ReversedOnce as_written (codes "op") (codes "k") (codes "refund") closed_store

abbrev late : LateUsageRequest
late = record {
  operation_id = codes "op";
  idempotency_key = codes "late";
  input_tokens = pos 100;
  cached_input = pos 0;
  output_tokens = pos 50;
}

adjust_late-AdjustedOnce_example :
    Succeeds
      (AdjustedOnce as_written late
        (find_operation (codes "op") closed_store.operations)
        closed_store)
      (adjust_late as_written late closed_store)
adjust_late-AdjustedOnce_example = adjust_late-AdjustedOnce as_written late closed_store

late_price : corrected_amount closed_operation late ≡ ok 1_100_000_000_000
unfolding corrected_amount funding_amounts normalize_currency default_if_blank amounts print_amounts
    check_request calculate stored_decimal_matches validate_stored_decimal currency_matches
    stored_units must_rat non_negative validate_rate calculate_rate format trim_right_char
    span_digits digits_value fraction_value set_string decimal_pattern parse_decimal decimal_rat
    natural_digits fixed_digits float_string round_half_away frac_add frac_sub frac_mul
    rat_difference funding_rat trim_space trim_left trim_right is_space to_upper ◌-ℤ◌
late_price = refl

abbrev raised_operation : Operation
raised_operation = record closed_operation {
  status = settled;
  settled_amount = 1_100_000_000_000;
  adjustments = codes "late" ∷ [];
}

abbrev raised_store : Store
raised_store = record closed_store {
  wallet = charge_wallet wallet 600_000_000_000;
  lots = (take_lots 600_000_000_000 lots).0;
  ledger = late_lines 600_000_000_000;
  operations = raised_operation ∷ [];
}

late_run : adjust_late as_written late closed_store ≡ ok (raised_operation, raised_store)
unfolding adjust_late invalid_late_usage find_operation adjust_closed has_key adjust_to adjust_up
    post_journal adjust_operation put_operation
late_run = rw late_price refl

adjust_late-blocks_reversal_example :
    reverse_funding as_written (codes "op") (codes "k") (codes "refund") raised_store
    ≢ ok (raised_operation, raised_store)
unfolding find_operation
adjust_late-blocks_reversal_example =
    adjust_late-blocks_reversal as_written late closed_operation raised_operation closed_store
      raised_store (codes "k") (codes "refund") (raised_operation, raised_store)
      as_written-KeepsOpen refl (omega arith) late_run (omega arith)

abbrev reversed_operation : Operation
reversed_operation = record closed_operation {
  status = reversed;
  settled_amount = 1_100_000_000_000;
}

abbrev reversed_store : Store
reversed_store = record store { operations = reversed_operation ∷ [] }

adjust_late-reopens_example :
    (o' : Operation) × (after : Store) × (adjust_late as_written late reversed_store
      ≡ ok (o', after))
    × (o'.status ≡ settled)
    × (after.wallet ≡ wallet)
    × (after.ledger ≡ [])
unfolding invalid_late_usage find_operation has_key corrected_amount
adjust_late-reopens_example =
    adjust_late-reopens as_written late reversed_operation reversed_store refl refl refl refl
      late_price (omega arith)

-- The time is two months after the reservation.
abbrev later_store : Store
later_store = record store { month = 3 }

settle_funding-Leaks_example :
    Succeeds (Leaks reservation later_store) (settle_funding usage later_store)
settle_funding-Leaks_example =
    settle_funding-Leaks reservation open_operation usage later_store operation_found refl refl refl

abbrev call : AttemptRequest
call = record {
  operation_id = codes "op";
  provider_id = codes "provider";
  credential_id = codes "credential";
  is_fallback = false;
  dispatch = ok tt;
  owner = platform;
  policy = none;
  operation_currency = codes "USD";
  settlement_currency = codes "USD";
  cost_limit = 9_000_000_000_000;
}

abbrev calls : AttemptStore
calls = record { store = store; attempts = [] }

begin_attempt-IsBegun_example :
    Succeeds
      (IsBegunOf call (find_operation (codes "op") store.operations) calls)
      (begin_attempt (codes "attempt") call calls)
begin_attempt-IsBegun_example = begin_attempt-IsBegun (codes "attempt") call calls

-- An operation of a model without a price.
abbrev idle_store : Store
idle_store = record store {
  operations =
      record open_operation { price_version = none; customer_owned = false; budget = none } ∷ [];
}

idle_run : (recover_stale (λ _. true) (pos 10) idle_store).failure ≡ none
unfolding recover_stale clamp stale_operations recover_each recovery_request settle_funding
    invalid_settlement find_operation settle_open settlement_charge actual_amounts funding_rat
    decimal_rat parse_decimal decimal_pattern set_string span_digits digits_value fraction_value
    post_if_any post_journal settle_cash_lots settle_allocations give_back_all give_back
    settle_budget settled_status trim_space repeats consumed_debits overage_debits has_debit
    total_reserved taken_debits take_lots wallet_fits settle_wallet fits_numeric ◌-ℤ◌ ◌+ℤ◌
idle_run = refl

recover_stale-AllRecovered_example :
    AllRecovered
      (stale_operations (λ _. true) (clamp (pos 10)) idle_store.operations)
      (recover_stale (λ _. true) (pos 10) idle_store)
recover_stale-AllRecovered_example =
    recover_stale-AllRecovered (λ _. true) (pos 10) idle_store idle_run
