-- ===== src/Payments/Chargeback.antt =====
-- A chargeback that meets a refund.
use model_dock.Base.{
  ℕ, ◌<◌, ◌≡◌, refl, sym, ap, ◌∙◌, subst, true, false, not, Option, none, some, List, ◌∷◌, arith,
}
use model_dock.Base.Int.{ℤ, eqb_ℤ}
use model_dock.Text.{Text, text_eq, text_eq_refl}
use model_dock.Payments.{
  ok, credited, refund_pending, RechargeStatus, RechargeOrder, CashLot, PaymentStatus,
  reported_paid, reported_failed, reported_expired, reported_chargeback, reported_other,
  Transaction, RefundOrder, WebhookEvent, State, with_status, total_topped_up, total_refunded,
}
use model_dock.Payments.Recharge.{is_unusable}
use model_dock.Payments.Webhook.{
  apply_chargeback, chargeback_if_credited, apply_webhook, Webhook, is_foreign, find_event,
  event_of, record_webhook, same_status, is_replay,
}
use model_dock.Payments.Invariant.{
  Holds, Holds-bind, Holds-fail_if, after, phase_of, Sound, IsSound,
}

-- More was taken back from the wallet than was credited to it.
abbrev pub Overcharged : State → Type 0
Overcharged s = total_topped_up s.transactions < total_refunded s.transactions

-- The order was credited, and a part of it was refunded.
pub record IsPartlyRefunded (s : State) (spent : ℕ) : Type 0 where
  pub sound : IsSound s spent
  pub status : s.order.status ≡ credited
  pub part : 0 < total_refunded s.transactions

topped-amount :
    (amount : ℕ) (lot : Option CashLot) (rs : List RefundOrder) (ts : List Transaction) (spent : ℕ)
    → Sound after amount lot rs ts spent
    → total_topped_up ts ≡ amount
topped-amount amount none rs ts spent h = absurd h
topped-amount amount (some lot) rs ts spent (original, topped, placed) = topped

apply_chargeback-Overcharged :
    (id event : Text) (s : State) (spent : ℕ)
    → IsPartlyRefunded s spent
    → Holds Overcharged (apply_chargeback id event s)
unfolding apply_chargeback total_topped_up total_refunded
apply_chargeback-Overcharged id event s spent h =
    let sound =
      subst (λ p. Sound p s.order.amount s.lot s.refunds s.transactions spent)
        (ap phase_of h.status) h.sound.sound in
    let topped = topped-amount s.order.amount s.lot s.refunds s.transactions spent sound in
    let part = h.part in
    Holds-fail_if _ (is_unusable s.wallet s.order) _ _ (λ _. omega (arith, topped, part))

apply_webhook-chargeback :
    (t : PaymentStatus) (id event : Text) (s : State)
    → t ≡ reported_chargeback
    → apply_webhook t id event s ≡ chargeback_if_credited s.order.status id event s
apply_webhook-chargeback reported_chargeback id event s e = refl
apply_webhook-chargeback reported_paid id event s e = absurd (ground (arith, e))
apply_webhook-chargeback reported_failed id event s e = absurd (ground (arith, e))
apply_webhook-chargeback reported_expired id event s e = absurd (ground (arith, e))
apply_webhook-chargeback reported_other id event s e = absurd (ground (arith, e))

-- A chargeback of an order of which a part was refunded takes back the whole amount on top: if its
-- event is new and is accepted, more was taken back from the wallet than was ever credited to it.
pub record_webhook-Overcharged :
    (id event provider : Text) (v : Webhook) (s : State) (spent : ℕ)
    → IsPartlyRefunded s spent
    → v.result.status ≡ reported_chargeback
    → find_event v.event_id v.replay_key s.events ≡ none
    → Holds (λ r. Overcharged r.1) (record_webhook id event provider v s)
unfolding record_webhook
record_webhook-Overcharged id event provider v s spent h e new =
    let run : apply_webhook v.result.status id event s ≡ apply_chargeback id event s =
      apply_webhook-chargeback v.result.status id event s e
      ∙ ap (λ t. chargeback_if_credited t id event s) h.status in
    Holds-fail_if _ (not (text_eq s.order.platform_order_no v.platform_order_no)) _ _ (λ _.
      Holds-fail_if _ (is_foreign provider v s.order) _ _ (λ _. rw new (
        Holds-bind _ Overcharged _ _
          (subst (Holds Overcharged) (sym run) (apply_chargeback-Overcharged id event s spent h))
          (λ s' o. o))))

same_status_refl : (t : PaymentStatus) → same_status t t ≡ true
same_status_refl reported_paid = refl
same_status_refl reported_failed = refl
same_status_refl reported_expired = refl
same_status_refl reported_chargeback = refl
same_status_refl reported_other = refl

eqb_ℤ-refl : (z : ℤ) → eqb_ℤ z z ≡ true
eqb_ℤ-refl z = ground arith

is_replay-event_of : (v : Webhook) (o : RechargeOrder) → is_replay (event_of v o) v o ≡ true
unfolding is_replay
is_replay-event_of v o =
    rw
      (
        text_eq_refl v.body_hash,
        text_eq_refl o.id,
        text_eq_refl v.result.provider_order_no,
        same_status_refl v.result.status,
        eqb_ℤ-refl v.result.amount,
        text_eq_refl v.result.currency,
      )
      refl

find_event-event_of :
    (v : Webhook) (o : RechargeOrder) (events : List WebhookEvent)
    → find_event v.event_id v.replay_key (event_of v o ∷ events) ≡ some (event_of v o)
unfolding find_event
find_event-event_of v o events = rw (text_eq_refl v.event_id) refl

is_foreign-status :
    (provider : Text) (v : Webhook) (o : RechargeOrder) (t : RechargeStatus)
    → is_foreign provider v (record o { status = t }) ≡ is_foreign provider v o
unfolding is_foreign
is_foreign-status provider v o t = refl

-- The state after an event that changed nothing else, and then another status.
abbrev noted : Webhook → RechargeStatus → State → State
noted v t s = with_status t (record s { events = event_of v s.order ∷ s.events })

noted-known :
    (id event provider : Text) (v : Webhook) (t : RechargeStatus) (s : State)
    → not (text_eq s.order.platform_order_no v.platform_order_no) ≡ false
    → is_foreign provider v s.order ≡ false
    → record_webhook id event provider v (noted v t s) ≡ ok (true, noted v t s)
unfolding record_webhook
noted-known id event provider v t s own near =
    let near' = is_foreign-status provider v s.order t ∙ near in
    let replay : is_replay (event_of v s.order) v (noted v t s).order ≡ true =
      unfold is_replay in is_replay-event_of v s.order in
    rw (own, near', find_event-event_of v s.order s.events, replay) refl

-- The chargeback has moved no money, and when it is delivered again after the refund has failed it
-- counts as known.
pub record IsDropped (provider : Text) (v : Webhook) (s t : State) : Type 0 where
  pub kept_wallet : t.wallet ≡ s.wallet
  pub kept_transactions : t.transactions ≡ s.transactions
  pub kept_order : t.order ≡ s.order
  pub known :
      (id event : Text)
      → record_webhook id event provider v (with_status credited t)
        ≡ ok (true, with_status credited t)

-- A chargeback that arrives while a refund of the order is pending is lost: if its event is new and
-- accepted, it is recorded and takes nothing back, and when it is delivered again after the refund has
-- failed, and the order is credited again, it is passed over as a replay.
pub record_webhook-IsDropped :
    (id event provider : Text) (v : Webhook) (s : State)
    → s.order.status ≡ refund_pending
    → v.result.status ≡ reported_chargeback
    → find_event v.event_id v.replay_key s.events ≡ none
    → Holds (λ r. IsDropped provider v s r.1) (record_webhook id event provider v s)
unfolding record_webhook
record_webhook-IsDropped id event provider v s status e new =
    let run : apply_webhook v.result.status id event s ≡ ok s =
      apply_webhook-chargeback v.result.status id event s e
      ∙ ap (λ t. chargeback_if_credited t id event s) status in
    Holds-fail_if _ (not (text_eq s.order.platform_order_no v.platform_order_no)) _ _ (λ own.
      Holds-fail_if _ (is_foreign provider v s.order) _ _ (λ near.
        rw (new, run)
          (record {
            kept_wallet = refl;
            kept_transactions = refl;
            kept_order = refl;
            known = λ id' event'. noted-known id' event' provider v credited s own near;
          })))
