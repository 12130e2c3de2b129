-- ===== src/Payments/Refunds.antt =====
-- The operations on the refunds of a recharge order keep its money accounted for.
use model_dock.Base.{
  ℕ, ◌≤◌, ◌≡◌, refl, ap, ◌∙◌, subst, inl, inr, true, not, ◌||◌, Option, none, some, List, [], ◌∷◌,
  arith, ltb, ◌==◌, if◌then◌else◌, if_lem,
}
use model_dock.Text.{Text, text_eq, trim_space}
use model_dock.Payments.{
  RechargeStatus, created, pending, paid, credited, failed, expired, refund_pending, refunded,
  chargeback, RefundStatus, opened, waiting, succeeded, refused, RefundOrder, CashLot, Transaction,
  State,
}
use model_dock.Payments.Refund.{
  RefundRequest, find_key, find_refund, put_refund, is_credited, take_of_lot, create_fresh,
  create_known, create_refund, is_opened, is_unfinished, pend_found, mark_refund_pending, differs,
  is_approved,
}
use model_dock.Payments.Invariant.{
  Holds, Holds-bind, Holds-fail_if, Phase, before, after, charged_back, phase_of, unfinished_total,
  Honest, Sound, IsSound, find_refund-Honest, put_refund-Honest, put_refund-total, find_refund-id,
  counted,
}

is_credited-after : (t : RechargeStatus) → is_credited t ≡ true → phase_of t ≡ after
is_credited-after credited e = refl
is_credited-after created e = absurd (ground arith)
is_credited-after pending e = absurd (ground arith)
is_credited-after paid e = absurd (ground arith)
is_credited-after failed e = absurd (ground arith)
is_credited-after expired e = absurd (ground arith)
is_credited-after refund_pending e = absurd (ground arith)
is_credited-after refunded e = absurd (ground arith)
is_credited-after chargeback e = absurd (ground arith)

-- A new refund moves its amount from the lot to what is reserved.
reserve-Sound :
    (amount n : ℕ) (lot : Option CashLot) (refunds : List RefundOrder) (r : RefundOrder)
    (transactions : List Transaction) (spent : ℕ)
    → r.status ≡ opened
    → r.amount ≡ n
    → Sound after amount lot refunds transactions spent
    → Holds (λ lot'. Sound after amount lot' (r ∷ refunds) transactions spent) (take_of_lot n lot)
unfolding unfinished_total
reserve-Sound amount n none refunds r transactions spent fresh size h = tt
reserve-Sound amount n (some lot) refunds r transactions spent fresh size
      (original, topped, placed) =
    let count : counted r ≡ n = rw fresh size in
    Holds-fail_if (λ lot'. Sound after amount lot' (r ∷ refunds) transactions spent)
      (ltb lot.remaining n) _ _
      (λ e.
        let room : n ≤ lot.remaining = ground arith in
        (original, topped, omega (arith, placed, count, room)))

create_fresh-IsSound :
    (id : Text) (q : RefundRequest) (s : State) (spent : ℕ)
    → IsSound s spent
    → Holds (λ r. IsSound r.1 spent) (create_fresh id q s)
unfolding create_fresh
create_fresh-IsSound id q s spent h =
    Holds-fail_if _
      (not (is_credited s.order.status)
        || (q.amount == 0)
        || text_eq q.idempotency_key []
        || text_eq (trim_space q.reason) [])
      _ _
      (λ e. Holds-fail_if _ (not (is_approved q.approved q s.order.amount)) _ _ (λ _.
        let start = is_credited-after s.order.status (ground arith) in
        let r : RefundOrder = record {
          id = id;
          status = opened;
          amount = q.amount;
          reason = trim_space q.reason;
          idempotency_key = q.idempotency_key;
          application_id = q.application_id;
          provider_refund_no = [];
          failure_code = [];
          reserved = q.amount;
        } in
        Holds-bind _ (λ lot'. Sound after s.order.amount lot' (r ∷ s.refunds) s.transactions spent)
          _ _
          (reserve-Sound s.order.amount q.amount s.lot s.refunds r s.transactions spent refl refl (
            subst (λ p. Sound p s.order.amount s.lot s.refunds s.transactions spent) start h.sound))
          (λ lot' sound. record { sound = sound; honest = (inr refl, h.honest) })))

create_known-IsSound :
    (known : Option RefundOrder) (id : Text) (q : RefundRequest) (s : State) (spent : ℕ)
    → IsSound s spent
    → Holds (λ r. IsSound r.1 spent) (create_known known id q s)
create_known-IsSound (some r) id q s spent h =
    if_lem (Holds (λ x. IsSound x.1 spent)) (differs r q) _ _ (λ _. tt) (λ _. h)
create_known-IsSound none id q s spent h = create_fresh-IsSound id q s spent h

pub create_refund-IsSound :
    (id : Text) (q : RefundRequest) (s : State) (spent : ℕ)
    → IsSound s spent
    → Holds (λ r. IsSound r.1 spent) (create_refund id q s)
unfolding create_refund
create_refund-IsSound id q s spent h =
    create_known-IsSound (find_key q.idempotency_key s.refunds) id q s spent h

-- The refunds may be replaced by others that reserve as much.
same_total-Sound :
    (p : Phase) (amount : ℕ) (lot : Option CashLot) (refunds refunds' : List RefundOrder)
    (transactions : List Transaction) (spent : ℕ)
    → unfinished_total refunds' ≡ unfinished_total refunds
    → Sound p amount lot refunds transactions spent
    → Sound p amount lot refunds' transactions spent
same_total-Sound before amount lot refunds refunds' transactions spent e
      (empty, topped, back, none_open, unspent) =
    (empty, topped, back, e ∙ none_open, unspent)
same_total-Sound after amount none refunds refunds' transactions spent e h = h
same_total-Sound after amount (some lot) refunds refunds' transactions spent e
      (original, topped, placed) =
    (original, topped, omega (arith, e, placed))
same_total-Sound charged_back amount lot refunds refunds' transactions spent e h = h

is_opened-unfinished : (t : RefundStatus) → is_opened t ≡ true → is_unfinished t ≡ true
is_opened-unfinished opened e = refl
is_opened-unfinished waiting e = absurd (ground arith)
is_opened-unfinished succeeded e = absurd (ground arith)
is_opened-unfinished refused e = absurd (ground arith)

pub Honest-reserved :
    (r : RefundOrder) → is_unfinished r.status ≡ true → Honest r → r.reserved ≡ r.amount
Honest-reserved r e (inl f) = absurd (ground (arith, e, f))
Honest-reserved r e (inr g) = g

pend_found-IsSound :
    (id : Text) (found : Option RefundOrder) (number : Text) (s : State) (spent : ℕ)
    → find_refund id s.refunds ≡ found
    → IsSound s spent
    → Holds (λ s'. IsSound s' spent) (pend_found found number s)
pend_found-IsSound id none number s spent e h = tt
pend_found-IsSound id (some r) number s spent e h =
    Holds-fail_if _ (not (is_opened r.status)) _ _ (λ t.
      let unfinished = is_opened-unfinished r.status (ground arith) in
      let new : RefundOrder = record r { status = waiting; provider_refund_no = number } in
      let reserved = Honest-reserved r unfinished (find_refund-Honest id s.refunds r e h.honest) in
      let count : counted r ≡ r.amount = ap (λ b. if b then r.amount else 0) unfinished in
      let total = put_refund-total id new s.refunds r e (find_refund-id id s.refunds r e) in
      record {
        sound =
            same_total-Sound (phase_of s.order.status) s.order.amount s.lot s.refunds
              (put_refund new s.refunds) s.transactions spent (omega (arith, count, total)) h.sound;
        honest = put_refund-Honest new s.refunds (inr reserved) h.honest;
      })

pub mark_refund_pending-IsSound :
    (id number : Text) (s : State) (spent : ℕ)
    → IsSound s spent
    → Holds (λ s'. IsSound s' spent) (mark_refund_pending id number s)
unfolding mark_refund_pending
mark_refund_pending-IsSound id number s spent h =
    pend_found-IsSound id (find_refund id s.refunds) number s spent refl h
