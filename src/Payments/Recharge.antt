-- ===== src/Payments/Recharge.antt =====
-- The recharge order of internal/store/payments.go: MarkRechargePending, MarkRechargeFailed,
-- ApplyPaymentQueryResult, MarkRechargePaid, CreditPaidRecharge, ExpireRechargeOrders and
-- MarkRechargeProviderClosed.
use model_dock.Base.{
  ℕ, Bool, true, false, not, ◌&&◌, ◌||◌, Option, none, some, [], ◌∷◌, if◌then◌else◌,
}
use model_dock.Base.Int.{ℤ, pos, ◌+ℤ◌, eqb_ℤ}
use model_dock.Text.{Text, codes, text_eq}
use model_dock.Pricing.{is_blank}
use model_dock.Funding.{WalletStatus, active, frozen, closed}
use model_dock.Payments.{
  Done, ok, err, ◌>>=◌, ◌>>◌, fail_if, bad_state, mismatch, wallet_unavailable, RechargeStatus,
  created, pending, paid, credited, failed, expired, refund_pending, refunded, chargeback,
  RechargeOrder, CashLot, PaymentWallet, PaymentStatus, reported_paid, reported_failed,
  reported_expired, reported_chargeback, reported_other, topup, State, with_status,
}

-- CREATED or PENDING.
abbrev pub is_awaiting : RechargeStatus → Bool
is_awaiting created = true
is_awaiting pending = true
is_awaiting paid = false
is_awaiting credited = false
is_awaiting failed = false
is_awaiting expired = false
is_awaiting refund_pending = false
is_awaiting refunded = false
is_awaiting chargeback = false

-- A payment counts also after the order has expired.
abbrev pub is_payable : RechargeStatus → Bool
is_payable created = true
is_payable pending = true
is_payable expired = true
is_payable paid = false
is_payable credited = false
is_payable failed = false
is_payable refund_pending = false
is_payable refunded = false
is_payable chargeback = false

abbrev pub is_created : RechargeStatus → Bool
is_created created = true
is_created pending = false
is_created paid = false
is_created credited = false
is_created failed = false
is_created expired = false
is_created refund_pending = false
is_created refunded = false
is_created chargeback = false

unfoldable pub mark_pending : Text → State → Done State
mark_pending provider_order_no s =
    if is_created s.order.status
    then ok (record s {
      order = record s.order { status = pending; provider_order_no = provider_order_no };
    })
    else err bad_state

unfoldable pub mark_failed : State → State
mark_failed s = if is_awaiting s.order.status then with_status failed s else s

unfoldable pub expire : State → State
expire s = if is_awaiting s.order.status then with_status expired s else s

abbrev pub close_expired : RechargeStatus → Bool → State → Done State
close_expired expired false s = ok (record s { order = record s.order { provider_closed = true } })
close_expired expired true s = err bad_state
close_expired created b s = err bad_state
close_expired pending b s = err bad_state
close_expired paid b s = err bad_state
close_expired credited b s = err bad_state
close_expired failed b s = err bad_state
close_expired refund_pending b s = err bad_state
close_expired refunded b s = err bad_state
close_expired chargeback b s = err bad_state

unfoldable pub mark_provider_closed : State → Done State
mark_provider_closed s = close_expired s.order.status s.order.provider_closed s

-- `payment.PaymentResult` and the parts of `payment.VerifiedWebhook` that it shares.
-- `amount_unreported` says whether the text of the amount is "0".
pub record PaymentResult : Type 0 where
  pub provider_order_no : Text
  pub status : PaymentStatus
  pub amount : ℤ
  pub amount_unreported : Bool
  pub currency : Text

abbrev pub when : Bool → RechargeStatus → State → State
when true status s = with_status status s
when false status s = s

abbrev pub apply_status : PaymentStatus → State → State
apply_status reported_paid s = when (is_payable s.order.status) paid s
apply_status reported_failed s = when (is_awaiting s.order.status) failed s
apply_status reported_expired s = when (is_awaiting s.order.status) expired s
apply_status reported_chargeback s = s
apply_status reported_other s = s

-- The amount "0" and a blank currency are not reported, and are not compared.
unfoldable pub contradicts : PaymentResult → RechargeOrder → Bool
contradicts r o =
    not (text_eq r.provider_order_no o.provider_order_no)
    || (not r.amount_unreported && not (eqb_ℤ r.amount (pos o.amount)))
    || (not (text_eq r.currency []) && not (text_eq r.currency o.currency))

unfoldable pub apply_query_result : PaymentResult → State → Done State
apply_query_result r s = do fail_if (contradicts r s.order) mismatch; ok (apply_status r.status s)

abbrev pub is_closed : WalletStatus → Bool
is_closed closed = true
is_closed active = false
is_closed frozen = false

abbrev pub is_unusable : PaymentWallet → RechargeOrder → Bool
is_unusable w o = is_closed w.status || not (text_eq w.currency o.currency)

-- A transfer that an operator has seen.
abbrev pub approve : RechargeStatus → Text → State → Done State
approve paid evidence s = ok s
approve credited evidence s = ok s
approve pending evidence s = do
  fail_if (not (text_eq s.order.payment_provider (codes "manual_transfer")) || is_blank evidence)
      bad_state
  ok (with_status paid s)
approve created evidence s = err bad_state
approve failed evidence s = err bad_state
approve expired evidence s = err bad_state
approve refund_pending evidence s = err bad_state
approve refunded evidence s = err bad_state
approve chargeback evidence s = err bad_state

unfoldable pub mark_paid : Text → State → Done State
mark_paid evidence s = approve s.order.status evidence s

-- `createCashLotTx`, with ON CONFLICT DO NOTHING.
abbrev pub create_lot : ℕ → Option CashLot → Option CashLot
create_lot amount none = some (record { original = amount; remaining = amount })
create_lot amount (some lot) = some lot

unfoldable pub credit_open : State → Done State
credit_open s = do
  fail_if (is_unusable s.wallet s.order) wallet_unavailable
  let amount = s.order.amount
  ok (record s {
    order = record s.order { status = credited };
    wallet = record s.wallet { available_balance = s.wallet.available_balance +ℤ pos amount };
    lot = create_lot amount s.lot;
    transactions = topup amount ∷ s.transactions;
  })

-- Whether it was credited already, and the rows.
abbrev pub credit_by : RechargeStatus → State → Done (Bool × State)
credit_by credited s = ok (true, s)
credit_by refund_pending s = ok (true, s)
credit_by refunded s = ok (true, s)
credit_by chargeback s = ok (true, s)
credit_by paid s = credit_open s >>= λ s'. ok (false, s')
credit_by created s = err bad_state
credit_by pending s = err bad_state
credit_by failed s = err bad_state
credit_by expired s = err bad_state

unfoldable pub credit_paid : State → Done (Bool × State)
credit_paid s = credit_by s.order.status s
