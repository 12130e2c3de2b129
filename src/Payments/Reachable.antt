-- ===== src/Payments/Reachable.antt =====
-- Whatever happens to a recharge order, in any order: its operations, and the use of its lot by others.
use model_dock.Base.{ℕ, ◌+◌, ◌-◌, ◌≤◌, ◌≡◌, subst, Bool, some, List, arith}
use model_dock.Text.{Text}
use model_dock.Payments.{ok, RefundOrder, CashLot, Transaction, State}
use model_dock.Payments.Recharge.{
  mark_pending, mark_failed, expire, mark_provider_closed, PaymentResult, contradicts,
  apply_query_result, mark_paid, credit_paid,
}
use model_dock.Payments.Webhook.{Webhook, record_webhook}
use model_dock.Payments.Refund.{
  RefundRequest, create_refund, mark_refund_pending, fail_refund, complete_refund,
}
use model_dock.Payments.Invariant.{
  Holds, Holds-fail_if, Holds-ok, Phase, before, after, charged_back, phase_of, Sound, IsSound,
}
use model_dock.Payments.Orders.{
  mark_pending-IsSound, mark_failed-IsSound, expire-IsSound, close_expired-IsSound,
  apply_status-IsSound, record_webhook-IsSound, mark_paid-IsSound, credit_paid-IsSound,
}
use model_dock.Payments.Refunds.{create_refund-IsSound, mark_refund_pending-IsSound}
use model_dock.Payments.Finished.{fail_refund-IsSound, complete_refund-IsSound}

-- A request holds or consumes an amount of the order's lot, or gives some of that back.
abbrev pub with_lot : CashLot → State → State
with_lot lot s = record s { lot = some lot }

-- One operation that succeeds, or one use of the lot; the number is what others have taken of it.
pub data Step : State → ℕ → State → ℕ → Type 0 where
  pends : (number : Text) {s t : State} {k : ℕ} → mark_pending number s ≡ ok t → Step s k t k
  fails : (s : State) {k : ℕ} → Step s k (mark_failed s) k
  expires : (s : State) {k : ℕ} → Step s k (expire s) k
  closes : {s t : State} {k : ℕ} → mark_provider_closed s ≡ ok t → Step s k t k
  queried : (r : PaymentResult) {s t : State} {k : ℕ} → apply_query_result r s ≡ ok t → Step s k t k
  notified :
      (id event provider : Text) (v : Webhook) (b : Bool) {s t : State} {k : ℕ}
      → record_webhook id event provider v s ≡ ok (b, t)
      → Step s k t k
  approved : (evidence : Text) {s t : State} {k : ℕ} → mark_paid evidence s ≡ ok t → Step s k t k
  credits : (b : Bool) {s t : State} {k : ℕ} → credit_paid s ≡ ok (b, t) → Step s k t k
  refunds :
      (id : Text) (q : RefundRequest) (r : RefundOrder) {s t : State} {k : ℕ}
      → create_refund id q s ≡ ok (r, t)
      → Step s k t k
  refund_pends :
      (id number : Text) {s t : State} {k : ℕ}
      → mark_refund_pending id number s ≡ ok t
      → Step s k t k
  refund_fails :
      (id code : Text) {s t : State} {k : ℕ} → fail_refund id code s ≡ ok t → Step s k t k
  refund_completes :
      (id number : Text) (r : RefundOrder) {s t : State} {k : ℕ}
      → complete_refund id number s ≡ ok (r, t)
      → Step s k t k
  spends :
      (s : State) (lot : CashLot) (n : ℕ) {k k' : ℕ}
      → s.lot ≡ some lot
      → n ≤ lot.remaining
      → k' ≡ k + n
      → Step s k (with_lot (record lot { remaining = lot.remaining - n }) s) k'
  restores :
      (s : State) (lot : CashLot) (n : ℕ) {k k' : ℕ}
      → s.lot ≡ some lot
      → k ≡ k' + n
      → Step s k (with_lot (record lot { remaining = lot.remaining + n }) s) k'

pub data Reach (s : State) (k : ℕ) : State → ℕ → Type 0 where
  here : Reach s k s k
  next : {t u : State} {m n : ℕ} → Reach s k t m → Step t m u n → Reach s k u n

take-Sound :
    (p : Phase) (amount n : ℕ) (lot : CashLot) (rs : List RefundOrder) (ts : List Transaction)
    (k k' : ℕ)
    → n ≤ lot.remaining
    → k' ≡ k + n
    → Sound p amount (some lot) rs ts k
    → Sound p amount (some (record lot { remaining = lot.remaining - n })) rs ts k'
take-Sound before amount n lot rs ts k k' le e h = absurd (ground (arith, h.0))
take-Sound after amount n lot rs ts k k' le e (original, topped, placed) =
    (original, topped, omega (arith, placed, le, e))
take-Sound charged_back amount n lot rs ts k k' le e h = h

restore-Sound :
    (p : Phase) (amount n : ℕ) (lot : CashLot) (rs : List RefundOrder) (ts : List Transaction)
    (k k' : ℕ)
    → k ≡ k' + n
    → Sound p amount (some lot) rs ts k
    → Sound p amount (some (record lot { remaining = lot.remaining + n })) rs ts k'
restore-Sound before amount n lot rs ts k k' e h = absurd (ground (arith, h.0))
restore-Sound after amount n lot rs ts k k' e (original, topped, placed) =
    (original, topped, omega (arith, placed, e))
restore-Sound charged_back amount n lot rs ts k k' e h = h

apply_query_result-IsSound :
    (r : PaymentResult) (s : State) (k : ℕ)
    → IsSound s k
    → Holds (λ t. IsSound t k) (apply_query_result r s)
unfolding apply_query_result
apply_query_result-IsSound r s k h =
    Holds-fail_if _ (contradicts r s.order) _ _ (λ _. apply_status-IsSound r.status s k h)

mark_provider_closed-IsSound :
    (s : State) (k : ℕ) → IsSound s k → Holds (λ t. IsSound t k) (mark_provider_closed s)
unfolding mark_provider_closed
mark_provider_closed-IsSound s k h =
    close_expired-IsSound s.order.status s.order.provider_closed s k h

Step-IsSound : {s t : State} {k m : ℕ} → Step s k t m → IsSound s k → IsSound t m
Step-IsSound {s} {k = k} (pends number e) h =
    Holds-ok (λ t. IsSound t k) (mark_pending number s) e (mark_pending-IsSound number s k h)
Step-IsSound {k = k} (fails s) h = mark_failed-IsSound s k h
Step-IsSound {k = k} (expires s) h = expire-IsSound s k h
Step-IsSound {s} {k = k} (closes e) h =
    Holds-ok (λ t. IsSound t k) (mark_provider_closed s) e (mark_provider_closed-IsSound s k h)
Step-IsSound {s} {k = k} (queried r e) h =
    Holds-ok (λ t. IsSound t k) (apply_query_result r s) e (apply_query_result-IsSound r s k h)
Step-IsSound {s} {k = k} (notified id event provider v b e) h =
    Holds-ok (λ r. IsSound r.1 k) (record_webhook id event provider v s) e
      (record_webhook-IsSound id event provider v s k h)
Step-IsSound {s} {k = k} (approved evidence e) h =
    Holds-ok (λ t. IsSound t k) (mark_paid evidence s) e (mark_paid-IsSound evidence s k h)
Step-IsSound {s} {k = k} (credits b e) h =
    Holds-ok (λ r. IsSound r.1 k) (credit_paid s) e (credit_paid-IsSound s k h)
Step-IsSound {s} {k = k} (refunds id q r e) h =
    Holds-ok (λ x. IsSound x.1 k) (create_refund id q s) e (create_refund-IsSound id q s k h)
Step-IsSound {s} {k = k} (refund_pends id number e) h =
    Holds-ok (λ t. IsSound t k) (mark_refund_pending id number s) e
      (mark_refund_pending-IsSound id number s k h)
Step-IsSound {s} {k = k} (refund_fails id code e) h =
    Holds-ok (λ t. IsSound t k) (fail_refund id code s) e (fail_refund-IsSound id code s k h)
Step-IsSound {s} {k = k} (refund_completes id number r e) h =
    Holds-ok (λ x. IsSound x.1 k) (complete_refund id number s) e
      (complete_refund-IsSound id number s k h)
Step-IsSound (spends s lot n {k} {k'} e le sum) h = record {
  sound =
      take-Sound (phase_of s.order.status) s.order.amount n lot s.refunds s.transactions k k' le sum
        (subst (λ l. Sound (phase_of s.order.status) s.order.amount l s.refunds s.transactions k) e
          h.sound);
  honest = h.honest;
}
Step-IsSound (restores s lot n {k} {k'} e sum) h = record {
  sound =
      restore-Sound (phase_of s.order.status) s.order.amount n lot s.refunds s.transactions k k' sum
        (subst (λ l. Sound (phase_of s.order.status) s.order.amount l s.refunds s.transactions k) e
          h.sound);
  honest = h.honest;
}

-- From rows that are accounted for, such as those of a new order, every run of operations and uses
-- of the lot leads to rows that are accounted for: nothing is credited or refunded before the order
-- is credited; then its amount was credited exactly once, and is in the lot, in use, reserved for
-- refunds or refunded, each unit once, so that no more is refunded than was paid; and only a
-- chargeback can take back more, up to the amount twice.
pub Reach-IsSound :
    {s : State} {k : ℕ} {t : State} {m : ℕ} → IsSound s k → Reach s k t m → IsSound t m
Reach-IsSound h here = h
Reach-IsSound h (next r st) = Step-IsSound st (Reach-IsSound h r)
