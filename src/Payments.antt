-- ===== src/Payments.antt =====
-- internal/store/payments.go: a recharge order, which a payment provider collects, from its
-- creation to its credit, refunds and chargeback. A `State` holds the rows of one order: the order,
-- its wallet, the cash lot that its credit creates, its refunds, the webhook events of its
-- provider, and the transactions that are linked to it. An amount is a number of units of 10^-12.
-- Journals, which have the lines of their transaction on both sides, audit records, time stamps and
-- the allocation to a provider that follows a credit are left out.
pub mod Recharge
pub mod Webhook
pub mod Refund
pub mod Invariant
pub mod Orders
pub mod Refunds
pub mod Finished
pub mod Reachable
pub mod Chargeback
use model_dock.Base.{ℕ, ◌+◌, Bool, true, false, Option, List, [], ◌∷◌}
use model_dock.Base.Int.{ℤ}
use model_dock.Text.{Text}
use model_dock.Funding.{WalletStatus}

pub data PaymentError : Type 0 where
  bad_state mismatch not_found wallet_unavailable idempotency_conflict not_eligible finance_state :
      PaymentError

pub data Done {ℓ} (A : Type ℓ) : Type ℓ where
  ok : A → Done A
  err : PaymentError → Done A

infixl 5 ◌>>=◌ ◌>>◌
abbrev pub ◌>>=◌ {ℓ κ} : {A : Type ℓ} {B : Type κ} → Done A → (A → Done B) → Done B
ok a >>= f = f a
err e >>= f = err e

abbrev pub ◌>>◌ {ℓ} : {B : Type ℓ} → Done (Unit {0}) → Done B → Done B
m >> k = m >>= λ _. k

abbrev pub fail_if : Bool → PaymentError → Done (Unit {0})
fail_if true e = err e
fail_if false e = ok tt

pub data RechargeStatus : Type 0 where
  created pending paid credited failed expired refund_pending refunded chargeback : RechargeStatus

pub record RechargeOrder : Type 0 where
  pub id : Text
  pub platform_order_no : Text
  pub payment_provider : Text
  pub provider_order_no : Text
  pub status : RechargeStatus
  pub amount : ℕ
  pub currency : Text
  pub provider_closed : Bool

pub data RefundStatus : Type 0 where
  opened waiting succeeded refused : RefundStatus

-- A row of refund_order: CREATED, PENDING, SUCCEEDED or FAILED, and what it has reserved of the lot in
-- its row of refund_cash_allocation.
pub record RefundOrder : Type 0 where
  pub id : Text
  pub status : RefundStatus
  pub amount : ℕ
  pub reason : Text
  pub idempotency_key : Text
  pub application_id : Text
  pub provider_refund_no : Text
  pub failure_code : Text
  pub reserved : ℕ

-- The row of wallet_cash_lot with the order's identifier.
pub record CashLot : Type 0 where
  pub original : ℕ
  pub remaining : ℕ

pub record PaymentWallet : Type 0 where
  pub status : WalletStatus
  pub currency : Text
  pub available_balance : ℤ

pub data PaymentStatus : Type 0 where
  reported_paid reported_failed reported_expired reported_chargeback reported_other : PaymentStatus

-- A row of payment_webhook_event.
pub record WebhookEvent : Type 0 where
  pub event_id : Text
  pub replay_key : Text
  pub order_id : Text
  pub provider_order_no : Text
  pub status : PaymentStatus
  pub amount : ℤ
  pub currency : Text
  pub body_hash : Text

-- The wallet transactions of the types TOPUP and REFUND.
pub data Transaction : Type 0 where
  topup refund : ℕ → Transaction

pub record State : Type 0 where
  pub order : RechargeOrder
  pub wallet : PaymentWallet
  pub lot : Option CashLot
  pub refunds : List RefundOrder
  pub events : List WebhookEvent
  pub transactions : List Transaction

abbrev pub with_status : RechargeStatus → State → State
with_status status s = record s { order = record s.order { status = status } }

-- What was credited to the wallet, and taken back from it, for the order.
unfoldable pub total_topped_up : List Transaction → ℕ
total_topped_up [] = 0
total_topped_up (topup n ∷ rest) = n + total_topped_up rest
total_topped_up (refund n ∷ rest) = total_topped_up rest

unfoldable pub total_refunded : List Transaction → ℕ
total_refunded [] = 0
total_refunded (topup n ∷ rest) = total_refunded rest
total_refunded (refund n ∷ rest) = n + total_refunded rest
