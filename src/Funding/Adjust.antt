-- ===== src/Funding/Adjust.antt =====
-- `AdjustLateFundingUsage` of internal/store/funding.go.
use model_dock.Base.{
  ℕ, ◌-◌, Bool, true, false, ◌&&◌, ◌||◌, Option, none, some, List, [], ◌∷◌, ltb, ◌==◌,
  if◌then◌else◌,
}
use model_dock.Base.Int.{ℤ, pos, ◌+ℤ◌, ◌-ℤ◌, ltb_ℤ}
use model_dock.Text.{Text, text_eq}
use model_dock.Pricing.{Tokens}
use model_dock.Funding.{
  Funded, ok, err, ◌>>=◌, ◌>>◌, fail_if, or_fail, not_found, in_progress, invalid_adjustment,
  invalid_amount, debit, credit, available, revenue, JournalLine, BillingMode, prepaid, postpaid,
  Wallet, frozen, FundingStatus, pending, held, settled, partially_settled, released, failed,
  reversed, PriceVersion, Debit, Operation, Store, post_journal, funding_rat, find_operation,
  put_operation,
}
use model_dock.Funding.Lots.{take_lots}
use model_dock.Funding.Amounts.{funding_amounts}
use model_dock.Funding.Restore.{restore_charge}
use model_dock.Funding.Reverse.{Orders, refund_lines}

-- `LateUsageRequest`
pub record LateUsageRequest : Type 0 where
  pub operation_id : Text
  pub idempotency_key : Text
  pub input_tokens : ℤ
  pub cached_input : ℤ
  pub output_tokens : ℤ

unfoldable pub invalid_late_usage : LateUsageRequest → Bool
invalid_late_usage r =
    text_eq r.idempotency_key []
    || ltb_ℤ r.input_tokens (pos 0)
    || ltb_ℤ r.cached_input (pos 0)
    || ltb_ℤ r.output_tokens (pos 0)
    || ltb_ℤ r.input_tokens r.cached_input

abbrev pub late_tokens : LateUsageRequest → Tokens
late_tokens r = record { input = r.input_tokens; cached = r.cached_input; output = r.output_tokens }

-- `corrected`
abbrev pub corrected_by : Option PriceVersion → Operation → LateUsageRequest → Funded ℕ
corrected_by none o r = ok 0
corrected_by (some version) o r = do
  texts ←
      funding_amounts version.retail (late_tokens r) o.promotion_amount o.tax_rate o.exchange_rate
  or_fail (funding_rat texts.0) invalid_amount

unfoldable pub corrected_amount : Operation → LateUsageRequest → Funded ℕ
corrected_amount o r = corrected_by o.price_version o r

abbrev pub late_lines : ℕ → List JournalLine
late_lines amount =
    record { account = available; side = debit; amount = amount }
    ∷ record { account = revenue; side = credit; amount = amount }
    ∷ []

-- `GREATEST(z, 0)`
abbrev pub at_least_zero : ℤ → ℤ
at_least_zero z = if ltb_ℤ z (pos 0) then pos 0 else z

abbrev pub freezes : BillingMode → Wallet → ℤ → Bool
freezes prepaid w risk = ltb_ℤ w.risk_limit risk
freezes postpaid w risk = w.credit_enforced && ltb_ℤ w.risk_limit risk

-- The wallet where more is charged, and where less.
unfoldable pub charge_wallet : Wallet → ℕ → Wallet
charge_wallet w amount =
    let risk = at_least_zero (w.risk_exposure +ℤ pos amount) in
    record w {
      available_balance = w.available_balance -ℤ pos amount;
      risk_exposure = risk;
      status = if freezes w.billing_mode w risk then frozen else w.status;
    }

unfoldable pub relieve_wallet : Wallet → ℕ → Wallet
relieve_wallet w amount = record w {
  available_balance = w.available_balance +ℤ pos amount;
  risk_exposure = at_least_zero (w.risk_exposure -ℤ pos amount);
}

unfoldable pub adjust_operation : Operation → Text → ℕ → List Debit → Operation
adjust_operation o key corrected debits = record o {
  status = if corrected == 0 then released else settled;
  settled_amount = corrected;
  debits = debits;
  adjustments = key ∷ o.adjustments;
}

-- The difference is charged. The debits of the new CHARGE transaction are not linked to the operation.
unfoldable pub adjust_up : Operation → Text → ℕ → Store → Funded (Operation × Store)
adjust_up o key corrected s = do
  let difference = corrected - o.settled_amount
  ledger ← post_journal (late_lines difference) s.ledger
  let after = adjust_operation o key corrected o.debits
  ok (
    after,
    record s {
      wallet = charge_wallet s.wallet difference;
      lots = (take_lots difference s.lots).0;
      ledger = ledger;
      operations = put_operation after s.operations;
    },
  )

-- The difference is sent back.
unfoldable pub adjust_down : Orders → Operation → Text → ℕ → Store → Funded (Operation × Store)
adjust_down orders o key corrected s = do
  let difference = o.settled_amount - corrected
  ledger ← post_journal (refund_lines difference) s.ledger
  (debits, lots) ← restore_charge difference (orders.debits o.debits) s.lots
  let after = adjust_operation o key corrected debits
  ok (
    after,
    record s {
      wallet = relieve_wallet s.wallet difference;
      lots = lots;
      ledger = ledger;
      operations = put_operation after s.operations;
    },
  )

abbrev pub adjust_same : Operation → Text → ℕ → Store → Funded (Operation × Store)
adjust_same o key corrected s =
    let after = adjust_operation o key corrected o.debits in
    ok (after, record s { operations = put_operation after s.operations })

unfoldable pub adjust_to : Orders → Operation → Text → ℕ → Store → Funded (Operation × Store)
adjust_to orders o key corrected s =
    if ltb o.settled_amount corrected
    then adjust_up o key corrected s
    else if ltb corrected o.settled_amount
    then adjust_down orders o key corrected s
    else adjust_same o key corrected s

unfoldable pub has_key : Text → List Text → Bool
has_key key [] = false
has_key key (k ∷ rest) = text_eq k key || has_key key rest

-- An adjustment that was made already returns the operation as it is.
unfoldable pub adjust_closed :
    Orders → Operation → LateUsageRequest → Store → Funded (Operation × Store)
adjust_closed orders o r s =
    if has_key r.idempotency_key o.adjustments
    then ok (o, s)
    else corrected_amount o r >>= λ corrected. adjust_to orders o r.idempotency_key corrected s

abbrev pub is_in_progress : FundingStatus → Bool
is_in_progress pending = true
is_in_progress held = true
is_in_progress settled = false
is_in_progress partially_settled = false
is_in_progress released = false
is_in_progress failed = false
is_in_progress reversed = false

abbrev pub adjust_found :
    Orders → Option Operation → LateUsageRequest → Store → Funded (Operation × Store)
adjust_found orders none r s = err not_found
adjust_found orders (some o) r s =
    fail_if (is_in_progress o.status) in_progress >> adjust_closed orders o r s

unfoldable pub adjust_late : Orders → LateUsageRequest → Store → Funded (Operation × Store)
adjust_late orders r s = do
  fail_if (invalid_late_usage r) invalid_adjustment
  adjust_found orders (find_operation r.operation_id s.operations) r s
