-- ===== src/Funding/Settle.antt =====
-- `SettleFunding` of internal/store/funding.go.
use model_dock.Base.{
  ℕ, ◌+◌, ◌-◌, Bool, not, ◌&&◌, Option, none, some, List, [], ◌∷◌, ◌++◌, ltb, ◌==◌, if◌then◌else◌,
}
use model_dock.Base.Int.{ℤ, pos, ◌+ℤ◌, ◌-ℤ◌, ltb_ℤ}
use model_dock.Text.{text_eq}
use model_dock.Funding.{
  Funded, ok, err, ◌>>=◌, ◌>>◌, fail_if, unfit_row, invalid_usage, not_found, Side, debit, credit,
  Account, available, reserved, revenue, JournalLine, BillingMode, prepaid, postpaid, Wallet,
  WalletStatus, active, frozen, closed, FundingStatus, settled, partially_settled, released, failed,
  is_funding_terminal, Allocation, Debit, Operation, Store, find_operation, put_operation,
}
use model_dock.Funding.Lots.{lesser, settle_cash_lots, settle_promotion, charge_debits}
use model_dock.Funding.Reserve.{post_if_any, fits_numeric, wallet_fits}
use model_dock.Funding.Amounts.{
  Charge, SettlementRequest, invalid_settlement, settle_budget, settlement_charge,
}

abbrev pub reserved_used : ℕ → ℕ → ℕ
reserved_used maximum actual = lesser actual maximum

abbrev pub released_part : ℕ → ℕ → ℕ
released_part maximum actual = maximum - reserved_used maximum actual

abbrev pub overage_part : ℕ → ℕ → ℕ
overage_part maximum actual = actual - reserved_used maximum actual

-- A journal line, where its amount is positive.
abbrev pub line_if_any : Account → Side → ℕ → List JournalLine
line_if_any account side amount =
    if ltb 0 amount then record { account = account; side = side; amount = amount } ∷ [] else []

abbrev pub settlement_lines : ℕ → ℕ → List JournalLine
settlement_lines maximum actual =
    line_if_any reserved debit (reserved_used maximum actual)
    ++ (line_if_any available debit (overage_part maximum actual)
        ++ record { account = revenue; side = credit; amount = actual } ∷ [])

abbrev pub release_lines : ℕ → List JournalLine
release_lines amount =
    record { account = reserved; side = debit; amount = amount }
    ∷ record { account = available; side = credit; amount = amount }
    ∷ []

abbrev pub is_frozen_by : BillingMode → Wallet → ℕ → ℤ → Bool
is_frozen_by postpaid w overage risk = w.credit_enforced && ltb_ℤ w.risk_limit risk && ltb 0 overage
is_frozen_by prepaid w overage risk = ltb_ℤ w.risk_limit risk && ltb 0 overage

-- `newWalletStatus`: only an active wallet is frozen.
abbrev pub status_after : WalletStatus → Bool → WalletStatus
status_after active freeze = if freeze then frozen else active
status_after frozen freeze = frozen
status_after closed freeze = closed

unfoldable pub settle_wallet : Wallet → ℕ → ℕ → Wallet
settle_wallet w maximum actual =
    let overage = overage_part maximum actual in
    let risk = w.risk_exposure +ℤ pos overage in
    record w {
      available_balance = w.available_balance +ℤ pos (released_part maximum actual) -ℤ pos overage;
      reserved_balance = w.reserved_balance -ℤ pos maximum;
      risk_exposure = risk;
      status = status_after w.status (is_frozen_by w.billing_mode w overage risk);
    }

unfoldable pub settled_status : ℕ → SettlementRequest → FundingStatus
settled_status actual r =
    if actual == 0
    then if text_eq r.failure_code [] then released else failed
    else if r.partial_failure
    then partially_settled
    else settled

unfoldable pub settle_operation :
    Operation
    → SettlementRequest
    → Charge
    → ℕ
    → List Allocation
    → List Allocation
    → List Debit
    → Operation
settle_operation o r charge consumed cash promotions debits = record o {
  status = settled_status charge.actual r;
  settled_amount = charge.actual;
  released_amount = released_part o.maximum_amount charge.actual;
  consumed_promotion = consumed;
  cash = cash;
  promotions = promotions;
  debits = debits;
  platform_service_fee = charge.platform_service_fee;
  byok_shadow = charge.shadow;
  budget = none;
}

-- The charge of an operation that is still open.
unfoldable pub settle_open : Operation → SettlementRequest → Store → Funded (Operation × Store)
settle_open o r s = do
  charge ← settlement_charge o r s.shadow_amount
  let actual = charge.actual
  let (consumed, promotions, credits) = settle_promotion charge.promotion o.promotions s.credits
  let release = released_part o.maximum_amount actual
  ledger ← post_if_any actual (settlement_lines o.maximum_amount actual) s.ledger
  ledger' ← post_if_any release (release_lines release) ledger
  fail_if
      (not (
        wallet_fits (settle_wallet s.wallet o.maximum_amount actual)
        && fits_numeric actual
        && fits_numeric charge.shadow))
      unfit_row
  (lots, cash) ← settle_cash_lots actual o.cash s.lots
  budgets ← settle_budget o.budget o r s.month s.budgets
  let debits = charge_debits actual o.cash s.lots
  let after = settle_operation o r charge consumed cash promotions debits
  ok (
    after,
    record {
      wallet = settle_wallet s.wallet o.maximum_amount actual;
      lots = lots;
      credits = credits;
      ledger = ledger';
      shadow_amount = s.shadow_amount + charge.shadow;
      month = s.month;
      budgets = budgets;
      operations = put_operation after s.operations;
    },
  )

-- An operation that is settled already is returned as it is.
abbrev pub settle_found : Option Operation → SettlementRequest → Store → Funded (Operation × Store)
settle_found none r s = err not_found
settle_found (some o) r s = if is_funding_terminal o.status then ok (o, s) else settle_open o r s

unfoldable pub settle_funding : SettlementRequest → Store → Funded (Operation × Store)
settle_funding r s = do
  fail_if (invalid_settlement r) invalid_usage
  settle_found (find_operation r.operation_id s.operations) r s
