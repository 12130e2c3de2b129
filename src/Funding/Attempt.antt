-- ===== src/Funding/Attempt.antt =====
-- `BeginFundingAttempt` and `FinishFundingAttempt` of internal/store/funding.go: each call of a
-- provider for an operation, the fees of a customer's own credential, and the reservation of the
-- provider's budget.
use model_dock.Base.{
  ℕ, ◌+◌, Bool, true, false, not, ◌&&◌, Option, none, some, List, [], ◌∷◌, ltb, if◌then◌else◌,
}
use model_dock.Base.Int.{pos}
use model_dock.Text.{Text, codes, text_eq}
use model_dock.Pricing.{Rate}
use model_dock.Pricing.Calculate.{calculate}
use model_dock.Funding.{
  Funded, ok, err, ◌>>=◌, ◌>>◌, fail_if, no_rows, terminal, pricing_failed, currency_mismatch,
  budget_exceeded, invalid_usage, PriceVersion, Budget, BudgetReservation, Operation, Store,
  find_operation, put_operation, find_budget, update_budget,
}
use model_dock.Funding.Amounts.{free_rate, cost_of_result}
use model_dock.Funding.Adjust.{is_in_progress}

pub data AttemptStatus : Type 0 where
  started succeeded failed cancelled timed_out : AttemptStatus

-- A row of funding_provider_attempt.
pub record Attempt : Type 0 where
  pub id : Text
  pub operation_id : Text
  pub attempt_no : ℕ
  pub provider_id : Text
  pub credential_id : Text
  pub is_fallback : Bool
  pub status : AttemptStatus

pub data CredentialOwner : Type 0 where
  platform customer : CredentialOwner

-- A row of byok_service_fee_policies.
pub record FeePolicy : Type 0 where
  pub fees : Rate
  pub fee_bps : ℕ
  pub allowance : ℕ

-- What the call is given, and the rows that it reads: whether the provider may be dispatched to
-- (`recheckProviderDispatchTx`), the owner of the credential, the best policy in force for fees, and
-- the currency and the cost limit of the provider, zero if it has none.
pub record AttemptRequest : Type 0 where
  pub operation_id : Text
  pub provider_id : Text
  pub credential_id : Text
  pub is_fallback : Bool
  pub dispatch : Funded (Unit {0})
  pub owner : CredentialOwner
  pub policy : Option FeePolicy
  pub operation_currency : Text
  pub settlement_currency : Text
  pub cost_limit : ℕ

pub record AttemptStore : Type 0 where
  pub store : Store
  pub attempts : List Attempt

abbrev pub is_customer : CredentialOwner → Bool
is_customer customer = true
is_customer platform = false

unfoldable pub own_credential : CredentialOwner → Operation → Operation
own_credential owner o = record o { customer_owned = is_customer owner; has_credential = true }

unfoldable pub set_fees : FeePolicy → Operation → Operation
set_fees p o = record o {
  byok_fees = p.fees;
  byok_fee_bps = p.fee_bps;
  byok_allowance = p.allowance;
}

abbrev pub with_fees : Option FeePolicy → Text → Operation → Funded Operation
with_fees none currency o = err pricing_failed
with_fees (some p) currency o =
    fail_if (not (text_eq p.fees.currency currency)) currency_mismatch >> ok (set_fees p o)

-- `INSERT … ON CONFLICT(provider_id,period_month) DO NOTHING`
abbrev pub open_row : Option Budget → Text → ℕ → List Budget → List Budget
open_row (some b) provider month budgets = budgets
open_row none provider month budgets =
    record {
      provider_id = provider;
      month = month;
      request_count = 0;
      reserved_cost = 0;
      provider_cost = 0;
    }
    ∷ budgets

unfoldable pub ensure_row : Text → ℕ → List Budget → List Budget
ensure_row provider month budgets =
    open_row (find_budget provider month budgets) provider month budgets

-- The cost of the operation if it uses all that it was admitted for.
abbrev pub maximum_cost_of : Option PriceVersion → Text → Operation → Funded ℕ
maximum_cost_of none currency o = err no_rows
maximum_cost_of (some version) currency o = do
  fail_if (not (text_eq version.cost.currency currency)) currency_mismatch
  cost_of_result (
      calculate version.cost (free_rate version.cost)
        (record { input = o.estimated_input; cached = pos 0; output = o.max_output }) (codes "0")
        (codes "0") (codes "1"))

-- There is no limit if it is zero.
abbrev pub exceeds : ℕ → Budget → ℕ → Bool
exceeds limit b cost = ltb 0 limit && ltb limit (b.provider_cost + b.reserved_cost + cost)

unfoldable pub reserve_row : ℕ → Budget → Budget
reserve_row cost b = record b {
  request_count = b.request_count + 1;
  reserved_cost = b.reserved_cost + cost;
}

abbrev pub reserve_in :
    Option Budget → AttemptRequest → Operation → ℕ → List Budget → Funded (Operation × List Budget)
reserve_in none r o month budgets = err no_rows
reserve_in (some b) r o month budgets = do
  cost ← maximum_cost_of o.price_version r.settlement_currency o
  fail_if (exceeds r.cost_limit b cost) budget_exceeded
  let v : BudgetReservation = record {
    provider_id = r.provider_id;
    month = month;
    maximum_cost = cost;
  }
  ok (record o { budget = some v }, update_budget (reserve_row cost) r.provider_id month budgets)

-- The operation has one reservation at most, of the first provider that is called for it.
abbrev pub reserve_budget :
    Option BudgetReservation
    → AttemptRequest
    → Operation
    → ℕ
    → List Budget
    → Funded (Operation × List Budget)
reserve_budget (some v) r o month budgets = ok (o, budgets)
reserve_budget none r o month budgets =
    reserve_in (find_budget r.provider_id month budgets) r o month budgets

abbrev pub prepare_by :
    CredentialOwner → AttemptRequest → Operation → Store → Funded (Operation × List Budget)
prepare_by customer r o s = with_fees r.policy r.operation_currency o >>= λ o'. ok (o', s.budgets)
prepare_by platform r o s =
    reserve_budget o.budget r o s.month (ensure_row r.provider_id s.month s.budgets)

-- `COALESCE(max(attempt_no),0)+1`
unfoldable pub last_attempt : Text → List Attempt → ℕ
last_attempt id [] = 0
last_attempt id (a ∷ rest) =
    let last = last_attempt id rest in
    if text_eq a.operation_id id && ltb last a.attempt_no then a.attempt_no else last

unfoldable pub begin_open :
    Text → AttemptRequest → Operation → AttemptStore → Funded (Attempt × AttemptStore)
begin_open id r o s = do
  fail_if (not (is_in_progress o.status)) terminal
  r.dispatch
  (o', budgets) ← prepare_by r.owner r (own_credential r.owner o) s.store
  let attempt : Attempt = record {
    id = id;
    operation_id = r.operation_id;
    attempt_no = last_attempt r.operation_id s.attempts + 1;
    provider_id = r.provider_id;
    credential_id = r.credential_id;
    is_fallback = r.is_fallback;
    status = started;
  }
  let store = record s.store { budgets = budgets; operations = put_operation o' s.store.operations }
  ok (attempt, record { store = store; attempts = attempt ∷ s.attempts })

abbrev pub begin_found :
    Option Operation → Text → AttemptRequest → AttemptStore → Funded (Attempt × AttemptStore)
begin_found none id r s = err no_rows
begin_found (some o) id r s = begin_open id r o s

-- `id` is the new UUID.
unfoldable pub begin_attempt :
    Text → AttemptRequest → AttemptStore → Funded (Attempt × AttemptStore)
begin_attempt id r s = begin_found (find_operation r.operation_id s.store.operations) id r s

abbrev pub is_started : AttemptStatus → Bool
is_started started = true
is_started succeeded = false
is_started failed = false
is_started cancelled = false
is_started timed_out = false

-- `UPDATE … WHERE id=$1 AND status='STARTED'`: whether a row was updated, and the rows.
unfoldable pub finish_row : Text → AttemptStatus → List Attempt → Bool × List Attempt
finish_row id status [] = (false, [])
finish_row id status (a ∷ rest) =
    let (found, rest') = finish_row id status rest in
    if text_eq a.id id && is_started a.status
    then (true, record a { status = status } ∷ rest)
    else (found, a ∷ rest')

abbrev pub finish_found : Bool × List Attempt → AttemptStore → Funded AttemptStore
finish_found (true, attempts) s = ok (record s { attempts = attempts })
finish_found (false, attempts) s = err terminal

unfoldable pub finish_attempt : Text → AttemptStatus → AttemptStore → Funded AttemptStore
finish_attempt id status s = do
  fail_if (is_started status) invalid_usage
  finish_found (finish_row id status s.attempts) s
