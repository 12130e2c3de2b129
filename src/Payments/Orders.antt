-- ===== src/Payments/Orders.antt =====
-- The operations on a recharge order keep its money accounted for.
use model_dock.Base.{
  ℕ, ◌≡◌, refl, ap, subst, inl, inr, Bool, true, false, not, ◌||◌, Option, none, some, List, ◌∷◌,
  arith, if_lem, Bool-cases,
}
use model_dock.Text.{Text, codes, text_eq}
use model_dock.Pricing.{is_blank}
use model_dock.Payments.{
  RechargeStatus, created, pending, paid, credited, failed, expired, refund_pending, refunded,
  chargeback, RefundOrder, CashLot, Transaction, topup, refund, PaymentStatus, reported_paid,
  reported_failed, reported_expired, reported_chargeback, reported_other, WebhookEvent, State,
  with_status, total_topped_up, total_refunded,
}
use model_dock.Payments.Recharge.{
  is_awaiting, is_payable, is_created, mark_pending, mark_failed, expire, close_expired, when,
  apply_status, is_unusable, approve, mark_paid, create_lot, credit_open, credit_by, credit_paid,
}
use model_dock.Payments.Webhook.{
  debit_lot, chargeback_refund, apply_chargeback, chargeback_if_credited, apply_webhook, Webhook,
  is_foreign, find_event, record_event, record_webhook, is_replay,
}
use model_dock.Payments.Invariant.{
  Holds, Holds-bind, Holds-fail_if, before, after, charged_back, phase_of, Sound, IsSound,
}

-- A status of the same phase.
pub moved-IsSound :
    (s : State) (status : RechargeStatus) (spent : ℕ)
    → phase_of s.order.status ≡ phase_of status
    → IsSound s spent
    → IsSound (with_status status s) spent
moved-IsSound s status spent e h = record {
  sound = subst (λ p. Sound p s.order.amount s.lot s.refunds s.transactions spent) e h.sound;
  honest = h.honest;
}

is_awaiting-before : (t : RechargeStatus) → is_awaiting t ≡ true → phase_of t ≡ before
is_awaiting-before created e = refl
is_awaiting-before pending e = refl
is_awaiting-before paid e = absurd (ground arith)
is_awaiting-before credited e = absurd (ground arith)
is_awaiting-before failed e = refl
is_awaiting-before expired e = refl
is_awaiting-before refund_pending e = absurd (ground arith)
is_awaiting-before refunded e = absurd (ground arith)
is_awaiting-before chargeback e = absurd (ground arith)

is_payable-before : (t : RechargeStatus) → is_payable t ≡ true → phase_of t ≡ before
is_payable-before created e = refl
is_payable-before pending e = refl
is_payable-before paid e = refl
is_payable-before credited e = absurd (ground arith)
is_payable-before failed e = refl
is_payable-before expired e = refl
is_payable-before refund_pending e = absurd (ground arith)
is_payable-before refunded e = absurd (ground arith)
is_payable-before chargeback e = absurd (ground arith)

when-IsSound :
    (b : Bool) (s : State) (status : RechargeStatus) (spent : ℕ)
    → (b ≡ true → phase_of s.order.status ≡ phase_of status)
    → IsSound s spent
    → IsSound (when b status s) spent
when-IsSound true s status spent e h = moved-IsSound s status spent (e refl) h
when-IsSound false s status spent e h = h

is_created-before : (t : RechargeStatus) → is_created t ≡ true → phase_of t ≡ before
is_created-before created e = refl
is_created-before pending e = refl
is_created-before paid e = refl
is_created-before credited e = absurd (ground arith)
is_created-before failed e = refl
is_created-before expired e = refl
is_created-before refund_pending e = absurd (ground arith)
is_created-before refunded e = absurd (ground arith)
is_created-before chargeback e = absurd (ground arith)

pub mark_pending-IsSound :
    (number : Text) (s : State) (spent : ℕ)
    → IsSound s spent
    → Holds (λ s'. IsSound s' spent) (mark_pending number s)
unfolding mark_pending
mark_pending-IsSound number s spent h = elim (Bool-cases (is_created s.order.status)) [
  | inl e ↦ rw e (record {
    sound =
        subst (λ p. Sound p s.order.amount s.lot s.refunds s.transactions spent)
          (is_created-before s.order.status e) h.sound;
    honest = h.honest;
  })
  | inr e ↦ rw e tt
]

pub mark_failed-IsSound : (s : State) (spent : ℕ) → IsSound s spent → IsSound (mark_failed s) spent
unfolding mark_failed
mark_failed-IsSound s spent h =
    if_lem (λ s'. IsSound s' spent) (is_awaiting s.order.status) (with_status failed s) s
      (λ e. moved-IsSound s failed spent (is_awaiting-before s.order.status e) h) (λ _. h)

pub expire-IsSound : (s : State) (spent : ℕ) → IsSound s spent → IsSound (expire s) spent
unfolding expire
expire-IsSound s spent h =
    if_lem (λ s'. IsSound s' spent) (is_awaiting s.order.status) (with_status expired s) s
      (λ e. moved-IsSound s expired spent (is_awaiting-before s.order.status e) h) (λ _. h)

pub close_expired-IsSound :
    (t : RechargeStatus) (b : Bool) (s : State) (spent : ℕ)
    → IsSound s spent
    → Holds (λ s'. IsSound s' spent) (close_expired t b s)
close_expired-IsSound expired false s spent h = record { sound = h.sound; honest = h.honest }
close_expired-IsSound expired true s spent h = tt
close_expired-IsSound created b s spent h = tt
close_expired-IsSound pending b s spent h = tt
close_expired-IsSound paid b s spent h = tt
close_expired-IsSound credited b s spent h = tt
close_expired-IsSound failed b s spent h = tt
close_expired-IsSound refund_pending b s spent h = tt
close_expired-IsSound refunded b s spent h = tt
close_expired-IsSound chargeback b s spent h = tt

pub apply_status-IsSound :
    (t : PaymentStatus) (s : State) (spent : ℕ) → IsSound s spent → IsSound (apply_status t s) spent
apply_status-IsSound reported_paid s spent h =
    when-IsSound (is_payable s.order.status) s paid spent (is_payable-before s.order.status) h
apply_status-IsSound reported_failed s spent h =
    when-IsSound (is_awaiting s.order.status) s failed spent (is_awaiting-before s.order.status) h
apply_status-IsSound reported_expired s spent h =
    when-IsSound (is_awaiting s.order.status) s expired spent (is_awaiting-before s.order.status) h
apply_status-IsSound reported_chargeback s spent h = h
apply_status-IsSound reported_other s spent h = h

-- What a chargeback takes back comes on top of what was refunded.
charge_back-Sound :
    (amount : ℕ) (lot lot' : Option CashLot) (refunds refunds' : List RefundOrder)
    (transactions : List Transaction) (spent : ℕ)
    → Sound after amount lot refunds transactions spent
    → Sound charged_back amount lot' refunds' (refund amount ∷ transactions) spent
unfolding total_topped_up total_refunded
charge_back-Sound amount none lot' refunds refunds' transactions spent h = absurd h
charge_back-Sound amount (some lot) lot' refunds refunds' transactions spent
      (original, topped, placed) =
    (topped, omega (arith, placed))

apply_chargeback-IsSound :
    (id event : Text) (s : State) (spent : ℕ)
    → phase_of s.order.status ≡ after
    → IsSound s spent
    → Holds (λ s'. IsSound s' spent) (apply_chargeback id event s)
unfolding apply_chargeback
apply_chargeback-IsSound id event s spent e h =
    Holds-fail_if _ (is_unusable s.wallet s.order) _ _ (λ _. record {
      sound =
          charge_back-Sound s.order.amount s.lot (debit_lot s.order.amount s.lot) s.refunds
            (chargeback_refund id event s.order.amount ∷ s.refunds) s.transactions spent
            (subst (λ p. Sound p s.order.amount s.lot s.refunds s.transactions spent) e h.sound);
      honest = (inl refl, h.honest);
    })

chargeback_if_credited-IsSound :
    (t : RechargeStatus) (id event : Text) (s : State) (spent : ℕ)
    → s.order.status ≡ t
    → IsSound s spent
    → Holds (λ s'. IsSound s' spent) (chargeback_if_credited t id event s)
chargeback_if_credited-IsSound credited id event s spent e h =
    apply_chargeback-IsSound id event s spent (ap phase_of e) h
chargeback_if_credited-IsSound created id event s spent e h = h
chargeback_if_credited-IsSound pending id event s spent e h = h
chargeback_if_credited-IsSound paid id event s spent e h = h
chargeback_if_credited-IsSound failed id event s spent e h = h
chargeback_if_credited-IsSound expired id event s spent e h = h
chargeback_if_credited-IsSound refund_pending id event s spent e h = h
chargeback_if_credited-IsSound refunded id event s spent e h = h
chargeback_if_credited-IsSound chargeback id event s spent e h = h

apply_webhook-IsSound :
    (t : PaymentStatus) (id event : Text) (s : State) (spent : ℕ)
    → IsSound s spent
    → Holds (λ s'. IsSound s' spent) (apply_webhook t id event s)
apply_webhook-IsSound reported_paid id event s spent h =
    apply_status-IsSound reported_paid s spent h
apply_webhook-IsSound reported_failed id event s spent h =
    apply_status-IsSound reported_failed s spent h
apply_webhook-IsSound reported_chargeback id event s spent h =
    chargeback_if_credited-IsSound s.order.status id event s spent refl h
apply_webhook-IsSound reported_expired id event s spent h = h
apply_webhook-IsSound reported_other id event s spent h = h

record_event-IsSound :
    (known : Option WebhookEvent) (id event : Text) (v : Webhook) (s : State) (spent : ℕ)
    → IsSound s spent
    → Holds (λ r. IsSound r.1 spent) (record_event known id event v s)
record_event-IsSound (some e) id event v s spent h =
    if_lem (Holds (λ r. IsSound r.1 spent)) (is_replay e v s.order) _ _ (λ _. h) (λ _. tt)
record_event-IsSound none id event v s spent h =
    Holds-bind _ (λ s'. IsSound s' spent) _ _
      (apply_webhook-IsSound v.result.status id event s spent h)
      (λ s' h'. record { sound = h'.sound; honest = h'.honest })

pub record_webhook-IsSound :
    (id event provider : Text) (v : Webhook) (s : State) (spent : ℕ)
    → IsSound s spent
    → Holds (λ r. IsSound r.1 spent) (record_webhook id event provider v s)
unfolding record_webhook
record_webhook-IsSound id event provider v s spent h =
    Holds-fail_if _ (not (text_eq s.order.platform_order_no v.platform_order_no)) _ _ (λ _.
      Holds-fail_if _ (is_foreign provider v s.order) _ _ (λ _.
        record_event-IsSound (find_event v.event_id v.replay_key s.events) id event v s spent h))

approve-IsSound :
    (t : RechargeStatus) (evidence : Text) (s : State) (spent : ℕ)
    → s.order.status ≡ t
    → IsSound s spent
    → Holds (λ s'. IsSound s' spent) (approve t evidence s)
approve-IsSound paid evidence s spent e h = h
approve-IsSound credited evidence s spent e h = h
approve-IsSound pending evidence s spent e h =
    Holds-fail_if _
      (not (text_eq s.order.payment_provider (codes "manual_transfer")) || is_blank evidence) _ _
      (λ _. moved-IsSound s paid spent (ap phase_of e) h)
approve-IsSound created evidence s spent e h = tt
approve-IsSound failed evidence s spent e h = tt
approve-IsSound expired evidence s spent e h = tt
approve-IsSound refund_pending evidence s spent e h = tt
approve-IsSound refunded evidence s spent e h = tt
approve-IsSound chargeback evidence s spent e h = tt

pub mark_paid-IsSound :
    (evidence : Text) (s : State) (spent : ℕ)
    → IsSound s spent
    → Holds (λ s'. IsSound s' spent) (mark_paid evidence s)
unfolding mark_paid
mark_paid-IsSound evidence s spent h = approve-IsSound s.order.status evidence s spent refl h

credit-Sound :
    (amount : ℕ) (lot : Option CashLot) (refunds : List RefundOrder)
    (transactions : List Transaction) (spent : ℕ)
    → Sound before amount lot refunds transactions spent
    → Sound after amount (create_lot amount lot) refunds (topup amount ∷ transactions) spent
unfolding total_topped_up total_refunded
credit-Sound amount none refunds transactions spent (empty, topped, back, open_refunds, unspent) =
    (refl, omega (arith, topped), omega (arith, back, open_refunds, unspent))
credit-Sound amount (some lot) refunds transactions spent h = absurd (ground (arith, h.0))

credit_open-IsSound :
    (s : State) (spent : ℕ)
    → phase_of s.order.status ≡ before
    → IsSound s spent
    → Holds (λ s'. IsSound s' spent) (credit_open s)
unfolding credit_open
credit_open-IsSound s spent e h = Holds-fail_if _ (is_unusable s.wallet s.order) _ _ (λ _. record {
  sound =
      credit-Sound s.order.amount s.lot s.refunds s.transactions spent
        (subst (λ p. Sound p s.order.amount s.lot s.refunds s.transactions spent) e h.sound);
  honest = h.honest;
})

credit_by-IsSound :
    (t : RechargeStatus) (s : State) (spent : ℕ)
    → s.order.status ≡ t
    → IsSound s spent
    → Holds (λ r. IsSound r.1 spent) (credit_by t s)
credit_by-IsSound credited s spent e h = h
credit_by-IsSound refund_pending s spent e h = h
credit_by-IsSound refunded s spent e h = h
credit_by-IsSound chargeback s spent e h = h
credit_by-IsSound paid s spent e h =
    Holds-bind _ (λ s'. IsSound s' spent) _ _ (credit_open-IsSound s spent (ap phase_of e) h)
      (λ s' h'. h')
credit_by-IsSound created s spent e h = tt
credit_by-IsSound pending s spent e h = tt
credit_by-IsSound failed s spent e h = tt
credit_by-IsSound expired s spent e h = tt

pub credit_paid-IsSound :
    (s : State) (spent : ℕ) → IsSound s spent → Holds (λ r. IsSound r.1 spent) (credit_paid s)
unfolding credit_paid
credit_paid-IsSound s spent h = credit_by-IsSound s.order.status s spent refl h
