-- ===== src/Funding/Recover.antt =====
-- `RecoverStaleFunding` of internal/store/funding.go: operations whose heartbeat is too old are settled
-- by what was observed of them.
use model_dock.Base.{
  ℕ, ◌+◌, ◌/◌, zero, suc, Bool, true, false, ◌&&◌, Option, none, some, List, [], ◌∷◌, ltb,
  if◌then◌else◌,
}
use model_dock.Base.Int.{ℤ, pos, ltb_ℤ, leb_ℤ, abs}
use model_dock.Text.{codes}
use model_dock.Funding.{
  Funded, ok, err, FundingError, terminal, invalid_reservation, invalid_amount, invalid_promotion,
  invalid_usage, invalid_journal, not_found, idempotency_conflict, wallet_unavailable,
  pricing_failed, finance_state, budget_exceeded, invalid_adjustment, invalid_reversal, in_progress,
  no_rows, currency_mismatch, repeated_debit, repeated_request, unfit_row, Operation, Store,
}
use model_dock.Funding.Amounts.{SettlementRequest}
use model_dock.Funding.Settle.{settle_funding}
use model_dock.Funding.Adjust.{is_in_progress}

-- `clamp` of internal/store/store.go
unfoldable pub clamp : ℤ → ℕ
clamp n = if leb_ℤ n (pos 0) then 50 else if ltb_ℤ (pos 200) n then 200 else abs n

-- The rows that the query reads: open, stale and not locked by another transaction, up to a limit.
-- `stale` is the test of the heartbeat, in the order of the list.
unfoldable pub stale_operations : (Operation → Bool) → ℕ → List Operation → List Operation
stale_operations stale zero ops = []
stale_operations stale (suc n) [] = []
stale_operations stale (suc n) (o ∷ rest) =
    let more = o ∷ stale_operations stale n rest in
    let others = stale_operations stale (suc n) rest in
    if is_in_progress o.status && stale o then more else others

unfoldable pub recovery_request : Operation → SettlementRequest
recovery_request o = record {
  operation_id = o.id;
  input_tokens = o.estimated_input;
  cached_input = pos 0;
  output_tokens = pos (o.observed_bytes / 4);
  observed_bytes = pos o.observed_bytes;
  failure_code = codes "settlement_recovered";
  partial_failure = ltb 0 o.observed_bytes;
  waive = false;
}

abbrev pub is_terminal_error : FundingError → Bool
is_terminal_error terminal = true
is_terminal_error invalid_reservation = false
is_terminal_error invalid_amount = false
is_terminal_error invalid_promotion = false
is_terminal_error invalid_usage = false
is_terminal_error invalid_journal = false
is_terminal_error not_found = false
is_terminal_error idempotency_conflict = false
is_terminal_error wallet_unavailable = false
is_terminal_error pricing_failed = false
is_terminal_error finance_state = false
is_terminal_error budget_exceeded = false
is_terminal_error invalid_adjustment = false
is_terminal_error invalid_reversal = false
is_terminal_error in_progress = false
is_terminal_error no_rows = false
is_terminal_error currency_mismatch = false
is_terminal_error repeated_debit = false
is_terminal_error repeated_request = false
is_terminal_error unfit_row = false

-- How many were recovered, the error that ended it, and the store: each settlement is a transaction of
-- its own.
pub record Recovery : Type 0 where
  pub recovered : ℕ
  pub failure : Option FundingError
  pub store : Store

abbrev pub one_more : Recovery → Recovery
one_more r = record r { recovered = r.recovered + 1 }

abbrev pub stop_at : FundingError → Store → Recovery
stop_at e s = record { recovered = 0; failure = some e; store = s }

abbrev pub after_error : Bool → FundingError → (Store → Recovery) → Store → Recovery
after_error true e continue s = one_more (continue s)
after_error false e continue s = stop_at e s

abbrev pub after_settlement : Funded (Operation × Store) → (Store → Recovery) → Store → Recovery
after_settlement (ok (o, s')) continue s = one_more (continue s')
after_settlement (err e) continue s = after_error (is_terminal_error e) e continue s

unfoldable pub recover_each : List Operation → Store → Recovery
recover_each [] s = record { recovered = 0; failure = none; store = s }
recover_each (o ∷ rest) s =
    after_settlement (settle_funding (recovery_request o) s) (recover_each rest) s

unfoldable pub recover_stale : (Operation → Bool) → ℤ → Store → Recovery
recover_stale stale limit s = recover_each (stale_operations stale (clamp limit) s.operations) s
