-- ===== src/Payments/Webhook.antt =====
-- Webhooks of a payment provider in internal/store/payments.go: RecordVerifiedPaymentWebhook and
-- applyChargebackTx.
use model_dock.Base.{
  ℕ, ◌-◌, Bool, true, false, not, ◌&&◌, ◌||◌, Option, none, some, List, [], ◌∷◌, if◌then◌else◌,
}
use model_dock.Base.Int.{pos, ◌-ℤ◌, eqb_ℤ}
use model_dock.Text.{Text, codes, text_eq}
use model_dock.Funding.Lots.{lesser}
use model_dock.Payments.{
  Done, ok, err, ◌>>=◌, ◌>>◌, fail_if, mismatch, not_found, wallet_unavailable, RechargeStatus,
  created, pending, paid, credited, failed, expired, refund_pending, refunded, chargeback,
  RechargeOrder, succeeded, RefundOrder, CashLot, PaymentStatus, reported_paid, reported_failed,
  reported_expired, reported_chargeback, reported_other, WebhookEvent, refund, State,
}
use model_dock.Payments.Recharge.{is_awaiting, is_payable, when, is_unusable, PaymentResult}

-- `debitRechargeCashLotTx`: what is still in the lot, up to the amount.
abbrev pub debit_lot : ℕ → Option CashLot → Option CashLot
debit_lot amount none = none
debit_lot amount (some lot) =
    some (record lot { remaining = lot.remaining - lesser lot.remaining amount })

-- The refund order that records a chargeback.
abbrev pub chargeback_refund : Text → Text → ℕ → RefundOrder
chargeback_refund id event amount = record {
  id = id;
  status = succeeded;
  amount = amount;
  reason = codes "Provider chargeback";
  idempotency_key = event;
  application_id = [];
  provider_refund_no = event;
  failure_code = [];
  reserved = 0;
}

-- `applyChargebackTx`; `id` is the new UUID, and `event` the event's identifier with its prefix.
unfoldable pub apply_chargeback : Text → Text → State → Done State
apply_chargeback id event s = do
  fail_if (is_unusable s.wallet s.order) wallet_unavailable
  let amount = s.order.amount
  ok (record s {
    order = record s.order { status = chargeback };
    wallet = record s.wallet { available_balance = s.wallet.available_balance -ℤ pos amount };
    lot = debit_lot amount s.lot;
    refunds = chargeback_refund id event amount ∷ s.refunds;
    transactions = refund amount ∷ s.transactions;
  })

abbrev pub chargeback_if_credited : RechargeStatus → Text → Text → State → Done State
chargeback_if_credited credited id event s = apply_chargeback id event s
chargeback_if_credited created id event s = ok s
chargeback_if_credited pending id event s = ok s
chargeback_if_credited paid id event s = ok s
chargeback_if_credited failed id event s = ok s
chargeback_if_credited expired id event s = ok s
chargeback_if_credited refund_pending id event s = ok s
chargeback_if_credited refunded id event s = ok s
chargeback_if_credited chargeback id event s = ok s

-- A webhook reports no expiry.
abbrev pub apply_webhook : PaymentStatus → Text → Text → State → Done State
apply_webhook reported_paid id event s = ok (when (is_payable s.order.status) paid s)
apply_webhook reported_failed id event s = ok (when (is_awaiting s.order.status) failed s)
apply_webhook reported_chargeback id event s = chargeback_if_credited s.order.status id event s
apply_webhook reported_expired id event s = ok s
apply_webhook reported_other id event s = ok s

-- `payment.VerifiedWebhook` with the hash of its body.
pub record Webhook : Type 0 where
  pub platform_order_no : Text
  pub event_id : Text
  pub replay_key : Text
  pub result : PaymentResult
  pub body_hash : Text

unfoldable pub is_foreign : Text → Webhook → RechargeOrder → Bool
is_foreign provider v o =
    not (text_eq o.payment_provider provider)
    || text_eq o.payment_provider []
    || not (text_eq o.provider_order_no v.result.provider_order_no)
    || not (eqb_ℤ (pos o.amount) v.result.amount)
    || not (text_eq o.currency v.result.currency)

-- The events of the provider are searched for the identifier and for the replay key.
unfoldable pub find_event : Text → Text → List WebhookEvent → Option WebhookEvent
find_event event replay [] = none
find_event event replay (e ∷ rest) =
    if text_eq e.event_id event || text_eq e.replay_key replay
    then some e
    else find_event event replay rest

abbrev pub same_status : PaymentStatus → PaymentStatus → Bool
same_status reported_paid reported_paid = true
same_status reported_failed reported_failed = true
same_status reported_expired reported_expired = true
same_status reported_chargeback reported_chargeback = true
same_status reported_other reported_other = true
same_status a b = false

unfoldable pub is_replay : WebhookEvent → Webhook → RechargeOrder → Bool
is_replay e v o =
    text_eq e.body_hash v.body_hash
    && text_eq e.order_id o.id
    && text_eq e.provider_order_no v.result.provider_order_no
    && same_status e.status v.result.status
    && eqb_ℤ e.amount v.result.amount
    && text_eq e.currency v.result.currency

abbrev pub event_of : Webhook → RechargeOrder → WebhookEvent
event_of v o = record {
  event_id = v.event_id;
  replay_key = v.replay_key;
  order_id = o.id;
  provider_order_no = v.result.provider_order_no;
  status = v.result.status;
  amount = v.result.amount;
  currency = v.result.currency;
  body_hash = v.body_hash;
}

-- Whether the event was known already, and the rows.
abbrev pub record_event : Option WebhookEvent → Text → Text → Webhook → State → Done (Bool × State)
record_event (some e) id event v s = if is_replay e v s.order then ok (true, s) else err mismatch
record_event none id event v s = do
  s' ← apply_webhook v.result.status id event s
  ok (false, record s' { events = event_of v s.order ∷ s'.events })

unfoldable pub record_webhook : Text → Text → Text → Webhook → State → Done (Bool × State)
record_webhook id event provider v s = do
  fail_if (not (text_eq s.order.platform_order_no v.platform_order_no)) not_found
  fail_if (is_foreign provider v s.order) mismatch
  record_event (find_event v.event_id v.replay_key s.events) id event v s
