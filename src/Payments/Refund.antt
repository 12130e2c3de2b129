-- ===== src/Payments/Refund.antt =====
-- The refunds of internal/store/payments.go: CreateRefundOrder, MarkRefundPending, FailRefund and
-- CompleteRefund, with reserveRefundCashTx and settleRefundCashTx of internal/store/finance.go.
use model_dock.Base.{
  ℕ, ◌+◌, ◌-◌, Bool, true, false, not, ◌&&◌, ◌||◌, Option, none, some, List, [], ◌∷◌, ltb, leb,
  ◌==◌, if◌then◌else◌,
}
use model_dock.Base.Int.{pos, ◌-ℤ◌}
use model_dock.Text.{Text, text_eq, trim_space}
use model_dock.Payments.{
  Done, ok, err, ◌>>=◌, ◌>>◌, fail_if, bad_state, not_found, idempotency_conflict, not_eligible,
  finance_state, RechargeStatus, created, pending, paid, credited, failed, expired, refund_pending,
  refunded, chargeback, RefundStatus, opened, waiting, succeeded, refused, RefundOrder, CashLot,
  refund, State,
}

-- `CreateRefundOrderRequest`, and the requested amount of the approved refund application of its
-- identifier for the order, if there is one.
pub record RefundRequest : Type 0 where
  pub amount : ℕ
  pub reason : Text
  pub idempotency_key : Text
  pub application_id : Text
  pub approved : Option ℕ

unfoldable pub find_key : Text → List RefundOrder → Option RefundOrder
find_key key [] = none
find_key key (r ∷ rest) = if text_eq r.idempotency_key key then some r else find_key key rest

unfoldable pub find_refund : Text → List RefundOrder → Option RefundOrder
find_refund id [] = none
find_refund id (r ∷ rest) = if text_eq r.id id then some r else find_refund id rest

unfoldable pub put_refund : RefundOrder → List RefundOrder → List RefundOrder
put_refund new [] = []
put_refund new (r ∷ rest) = if text_eq r.id new.id then new ∷ rest else r ∷ put_refund new rest

unfoldable pub differs : RefundOrder → RefundRequest → Bool
differs r q =
    not (r.amount == q.amount)
    || not (text_eq r.reason (trim_space q.reason))
    || not (text_eq r.application_id (trim_space q.application_id))

abbrev pub is_credited : RechargeStatus → Bool
is_credited credited = true
is_credited created = false
is_credited pending = false
is_credited paid = false
is_credited failed = false
is_credited expired = false
is_credited refund_pending = false
is_credited refunded = false
is_credited chargeback = false

-- Without an application only the whole amount is refunded.
abbrev pub is_approved : Option ℕ → RefundRequest → ℕ → Bool
is_approved none q whole = text_eq q.application_id [] && (q.amount == whole)
is_approved (some n) q whole =
    if text_eq q.application_id [] then q.amount == whole else n == q.amount

abbrev pub take_of_lot : ℕ → Option CashLot → Done (Option CashLot)
take_of_lot amount none = err not_eligible
take_of_lot amount (some lot) = do
  fail_if (ltb lot.remaining amount) not_eligible
  ok (some (record lot { remaining = lot.remaining - amount }))

-- `id` is the new UUID.
unfoldable pub create_fresh : Text → RefundRequest → State → Done (RefundOrder × State)
create_fresh id q s = do
  fail_if
      (not (is_credited s.order.status)
        || (q.amount == 0)
        || text_eq q.idempotency_key []
        || text_eq (trim_space q.reason) [])
      bad_state
  fail_if (not (is_approved q.approved q s.order.amount)) bad_state
  lot ← take_of_lot q.amount s.lot
  let r : RefundOrder = record {
    id = id;
    status = opened;
    amount = q.amount;
    reason = trim_space q.reason;
    idempotency_key = q.idempotency_key;
    application_id = q.application_id;
    provider_refund_no = [];
    failure_code = [];
    reserved = q.amount;
  }
  ok (
    r,
    record s {
      order = record s.order { status = refund_pending };
      lot = lot;
      refunds = r ∷ s.refunds;
    },
  )

abbrev pub create_known :
    Option RefundOrder → Text → RefundRequest → State → Done (RefundOrder × State)
create_known (some r) id q s = if differs r q then err idempotency_conflict else ok (r, s)
create_known none id q s = create_fresh id q s

unfoldable pub create_refund : Text → RefundRequest → State → Done (RefundOrder × State)
create_refund id q s = create_known (find_key q.idempotency_key s.refunds) id q s

abbrev pub is_opened : RefundStatus → Bool
is_opened opened = true
is_opened waiting = false
is_opened succeeded = false
is_opened refused = false

-- CREATED or PENDING.
abbrev pub is_unfinished : RefundStatus → Bool
is_unfinished opened = true
is_unfinished waiting = true
is_unfinished succeeded = false
is_unfinished refused = false

abbrev pub pend_found : Option RefundOrder → Text → State → Done State
pend_found none number s = err bad_state
pend_found (some r) number s = do
  fail_if (not (is_opened r.status)) bad_state
  ok (record s {
    refunds = put_refund (record r { status = waiting; provider_refund_no = number }) s.refunds;
  })

unfoldable pub mark_refund_pending : Text → Text → State → Done State
mark_refund_pending id number s = pend_found (find_refund id s.refunds) number s

-- `settleRefundCashTx` of a refund that has failed.
abbrev pub return_to_lot : ℕ → Option CashLot → Done (Option CashLot)
return_to_lot amount none = err finance_state
return_to_lot amount (some lot) = do
  fail_if (not (leb (lot.remaining + amount) lot.original)) finance_state
  ok (some (record lot { remaining = lot.remaining + amount }))

-- `UPDATE recharge_order SET status='CREDITED' WHERE … AND status='REFUND_PENDING'`
abbrev pub back_to_credited : RechargeStatus → RechargeStatus
back_to_credited refund_pending = credited
back_to_credited created = created
back_to_credited pending = pending
back_to_credited paid = paid
back_to_credited credited = credited
back_to_credited failed = failed
back_to_credited expired = expired
back_to_credited refunded = refunded
back_to_credited chargeback = chargeback

unfoldable pub fail_open : RefundOrder → Text → State → Done State
fail_open r code s = do
  fail_if (not (is_unfinished r.status)) bad_state
  lot ← return_to_lot r.reserved s.lot
  ok (record s {
    order = record s.order { status = back_to_credited s.order.status };
    lot = lot;
    refunds = put_refund (record r { status = refused; failure_code = code }) s.refunds;
  })

abbrev pub fail_by : RefundStatus → RefundOrder → Text → State → Done State
fail_by refused r code s = if text_eq r.failure_code code then ok s else err idempotency_conflict
fail_by opened r code s = fail_open r code s
fail_by waiting r code s = fail_open r code s
fail_by succeeded r code s = fail_open r code s

abbrev pub fail_found : Option RefundOrder → Text → State → Done State
fail_found none code s = err not_found
fail_found (some r) code s = fail_by r.status r code s

unfoldable pub fail_refund : Text → Text → State → Done State
fail_refund id code s = do
  fail_if (text_eq id [] || text_eq (trim_space code) []) bad_state
  fail_found (find_refund id s.refunds) (trim_space code) s

abbrev pub is_refund_pending : RechargeStatus → Bool
is_refund_pending refund_pending = true
is_refund_pending created = false
is_refund_pending pending = false
is_refund_pending paid = false
is_refund_pending credited = false
is_refund_pending failed = false
is_refund_pending expired = false
is_refund_pending refunded = false
is_refund_pending chargeback = false

-- The refund is paid out. After a part the order counts as credited.
unfoldable pub complete_open : RefundOrder → Text → State → Done (RefundOrder × State)
complete_open r number s = do
  fail_if (not (is_unfinished r.status)) bad_state
  fail_if (not (is_refund_pending s.order.status)) bad_state
  let r' = record r { status = succeeded; provider_refund_no = number }
  ok (
    r',
    record s {
      order = record s.order {
        status = if ltb r.amount s.order.amount then credited else refunded;
      };
      wallet = record s.wallet { available_balance = s.wallet.available_balance -ℤ pos r.amount };
      refunds = put_refund r' s.refunds;
      transactions = refund r.amount ∷ s.transactions;
    },
  )

abbrev pub complete_by : RefundStatus → RefundOrder → Text → State → Done (RefundOrder × State)
complete_by succeeded r number s = ok (r, s)
complete_by opened r number s = complete_open r number s
complete_by waiting r number s = complete_open r number s
complete_by refused r number s = complete_open r number s

abbrev pub complete_found : Option RefundOrder → Text → State → Done (RefundOrder × State)
complete_found none number s = err not_found
complete_found (some r) number s = complete_by r.status r number s

unfoldable pub complete_refund : Text → Text → State → Done (RefundOrder × State)
complete_refund id number s = complete_found (find_refund id s.refunds) number s
