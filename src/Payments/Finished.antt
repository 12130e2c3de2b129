-- ===== src/Payments/Finished.antt =====
-- A refund that ends, paid out or not, keeps the money of its order accounted for.
use model_dock.Base.{
  ℕ, ◌+◌, ◌≡◌, refl, sym, ap, ◌∙◌, subst, inl, Bool, true, false, not, ◌||◌, Option, none, some,
  List, [], ◌∷◌, arith, ltb, leb, if◌then◌else◌, if_lem,
}
use model_dock.Text.{Text, text_eq, trim_space}
use model_dock.Payments.{
  RechargeStatus, created, pending, paid, credited, failed, expired, refund_pending, refunded,
  chargeback, RefundStatus, opened, waiting, succeeded, refused, RefundOrder, CashLot, Transaction,
  refund, State, total_topped_up, total_refunded,
}
use model_dock.Payments.Refund.{
  find_refund, put_refund, is_unfinished, return_to_lot, back_to_credited, fail_open, fail_by,
  fail_found, fail_refund, is_refund_pending, complete_open, complete_by, complete_found,
  complete_refund,
}
use model_dock.Payments.Invariant.{
  Holds, Holds-bind, Holds-fail_if, Phase, before, after, charged_back, phase_of, unfinished_total,
  Sound, IsSound, find_refund-Honest, put_refund-Honest, put_refund-total, find_refund-id, counted,
}
use model_dock.Payments.Refunds.{Honest-reserved}

-- A refund that fails moves its amount back to the lot.
fail-Sound :
    (p : Phase) (amount n : ℕ) (lot : Option CashLot) (refunds refunds' : List RefundOrder)
    (transactions : List Transaction) (spent : ℕ)
    → unfinished_total refunds' + n ≡ unfinished_total refunds
    → Sound p amount lot refunds transactions spent
    → Holds (λ lot'. Sound p amount lot' refunds' transactions spent) (return_to_lot n lot)
fail-Sound before amount n none refunds refunds' transactions spent e h = tt
fail-Sound before amount n (some lot) refunds refunds' transactions spent e h =
    absurd (ground (arith, h.0))
fail-Sound after amount n none refunds refunds' transactions spent e h = tt
fail-Sound after amount n (some lot) refunds refunds' transactions spent e
      (original, topped, placed) =
    Holds-fail_if (λ lot'. Sound after amount lot' refunds' transactions spent)
      (not (leb (lot.remaining + n) lot.original)) _ _
      (λ _. (original, topped, omega (arith, e, placed)))
fail-Sound charged_back amount n none refunds refunds' transactions spent e h = tt
fail-Sound charged_back amount n (some lot) refunds refunds' transactions spent e h =
    Holds-fail_if (λ lot'. Sound charged_back amount lot' refunds' transactions spent)
      (not (leb (lot.remaining + n) lot.original)) _ _ (λ _. h)

back_to_credited-phase : (t : RechargeStatus) → phase_of (back_to_credited t) ≡ phase_of t
back_to_credited-phase created = refl
back_to_credited-phase pending = refl
back_to_credited-phase paid = refl
back_to_credited-phase credited = refl
back_to_credited-phase failed = refl
back_to_credited-phase expired = refl
back_to_credited-phase refund_pending = refl
back_to_credited-phase refunded = refl
back_to_credited-phase chargeback = refl

-- A refund that is found, unfinished and replaced by a finished one.
finish-total :
    (id : Text) (r new : RefundOrder) (s : State) (spent : ℕ)
    → find_refund id s.refunds ≡ some r
    → is_unfinished r.status ≡ true
    → is_unfinished new.status ≡ false
    → new.id ≡ r.id
    → unfinished_total (put_refund new s.refunds) + r.amount ≡ unfinished_total s.refunds
finish-total id r new s spent e still over same =
    let count : counted r ≡ r.amount = ap (λ b. if b then r.amount else 0) still in
    let none_left : counted new ≡ 0 = ap (λ b. if b then new.amount else 0) over in
    let total = put_refund-total id new s.refunds r e (same ∙ find_refund-id id s.refunds r e) in
    omega (arith, count, none_left, total)

fail_open-IsSound :
    (id : Text) (r : RefundOrder) (code : Text) (s : State) (spent : ℕ)
    → find_refund id s.refunds ≡ some r
    → IsSound s spent
    → Holds (λ s'. IsSound s' spent) (fail_open r code s)
unfolding fail_open
fail_open-IsSound id r code s spent e h = Holds-fail_if _ (not (is_unfinished r.status)) _ _ (λ t.
    let still : is_unfinished r.status ≡ true = ground arith in
    let new : RefundOrder = record r { status = refused; failure_code = code } in
    let reserved = Honest-reserved r still (find_refund-Honest id s.refunds r e h.honest) in
    let total = finish-total id r new s spent e still refl refl in
    Holds-bind _
      (λ lot'.
        Sound (phase_of s.order.status) s.order.amount lot' (put_refund new s.refunds)
          s.transactions spent)
      _ _
      (fail-Sound (phase_of s.order.status) s.order.amount r.reserved s.lot s.refunds
        (put_refund new s.refunds) s.transactions spent (omega (arith, total, reserved)) h.sound)
      (λ lot' sound. record {
        sound =
            subst (λ p. Sound p s.order.amount lot' (put_refund new s.refunds) s.transactions spent)
              (sym (back_to_credited-phase s.order.status)) sound;
        honest = put_refund-Honest new s.refunds (inl refl) h.honest;
      }))

fail_by-IsSound :
    (t : RefundStatus) (id : Text) (r : RefundOrder) (code : Text) (s : State) (spent : ℕ)
    → find_refund id s.refunds ≡ some r
    → IsSound s spent
    → Holds (λ s'. IsSound s' spent) (fail_by t r code s)
fail_by-IsSound refused id r code s spent e h =
    if_lem (Holds (λ s'. IsSound s' spent)) (text_eq r.failure_code code) _ _ (λ _. h) (λ _. tt)
fail_by-IsSound opened id r code s spent e h = fail_open-IsSound id r code s spent e h
fail_by-IsSound waiting id r code s spent e h = fail_open-IsSound id r code s spent e h
fail_by-IsSound succeeded id r code s spent e h = fail_open-IsSound id r code s spent e h

fail_found-IsSound :
    (id : Text) (found : Option RefundOrder) (code : Text) (s : State) (spent : ℕ)
    → find_refund id s.refunds ≡ found
    → IsSound s spent
    → Holds (λ s'. IsSound s' spent) (fail_found found code s)
fail_found-IsSound id none code s spent e h = tt
fail_found-IsSound id (some r) code s spent e h = fail_by-IsSound r.status id r code s spent e h

pub fail_refund-IsSound :
    (id code : Text) (s : State) (spent : ℕ)
    → IsSound s spent
    → Holds (λ s'. IsSound s' spent) (fail_refund id code s)
unfolding fail_refund
fail_refund-IsSound id code s spent h =
    Holds-fail_if _ (text_eq id [] || text_eq (trim_space code) []) _ _
      (λ _. fail_found-IsSound id (find_refund id s.refunds) (trim_space code) s spent refl h)

is_refund_pending-after : (t : RechargeStatus) → is_refund_pending t ≡ true → phase_of t ≡ after
is_refund_pending-after refund_pending e = refl
is_refund_pending-after created e = absurd (ground arith)
is_refund_pending-after pending e = absurd (ground arith)
is_refund_pending-after paid e = absurd (ground arith)
is_refund_pending-after credited e = absurd (ground arith)
is_refund_pending-after failed e = absurd (ground arith)
is_refund_pending-after expired e = absurd (ground arith)
is_refund_pending-after refunded e = absurd (ground arith)
is_refund_pending-after chargeback e = absurd (ground arith)

-- A refund that is paid out moves its amount from what is reserved to what is refunded.
complete-Sound :
    (amount n : ℕ) (lot : Option CashLot) (refunds refunds' : List RefundOrder)
    (transactions : List Transaction) (spent : ℕ)
    → unfinished_total refunds' + n ≡ unfinished_total refunds
    → Sound after amount lot refunds transactions spent
    → Sound after amount lot refunds' (refund n ∷ transactions) spent
unfolding total_topped_up total_refunded
complete-Sound amount n none refunds refunds' transactions spent e h = h
complete-Sound amount n (some lot) refunds refunds' transactions spent e
      (original, topped, placed) =
    (original, topped, omega (arith, e, placed))

completed_phase : (b : Bool) → phase_of (if b then credited else refunded) ≡ after
completed_phase true = refl
completed_phase false = refl

complete_open-IsSound :
    (id : Text) (r : RefundOrder) (number : Text) (s : State) (spent : ℕ)
    → find_refund id s.refunds ≡ some r
    → IsSound s spent
    → Holds (λ x. IsSound x.1 spent) (complete_open r number s)
unfolding complete_open
complete_open-IsSound id r number s spent e h =
    Holds-fail_if _ (not (is_unfinished r.status)) _ _ (λ t.
      Holds-fail_if _ (not (is_refund_pending s.order.status)) _ _ (λ u.
        let still : is_unfinished r.status ≡ true = ground arith in
        let waits : is_refund_pending s.order.status ≡ true = ground arith in
        let new : RefundOrder = record r { status = succeeded; provider_refund_no = number } in
        let total = finish-total id r new s spent e still refl refl in
        let start = is_refund_pending-after s.order.status waits in
        let sound =
          complete-Sound s.order.amount r.amount s.lot s.refunds (put_refund new s.refunds)
            s.transactions spent total
            (subst (λ p. Sound p s.order.amount s.lot s.refunds s.transactions spent) start
              h.sound) in
        record {
          sound =
              subst
                (λ p.
                  Sound p s.order.amount s.lot (put_refund new s.refunds)
                    (refund r.amount ∷ s.transactions) spent)
                (sym (completed_phase (ltb r.amount s.order.amount))) sound;
          honest = put_refund-Honest new s.refunds (inl refl) h.honest;
        }))

complete_by-IsSound :
    (t : RefundStatus) (id : Text) (r : RefundOrder) (number : Text) (s : State) (spent : ℕ)
    → find_refund id s.refunds ≡ some r
    → IsSound s spent
    → Holds (λ x. IsSound x.1 spent) (complete_by t r number s)
complete_by-IsSound succeeded id r number s spent e h = h
complete_by-IsSound opened id r number s spent e h = complete_open-IsSound id r number s spent e h
complete_by-IsSound waiting id r number s spent e h = complete_open-IsSound id r number s spent e h
complete_by-IsSound refused id r number s spent e h = complete_open-IsSound id r number s spent e h

complete_found-IsSound :
    (id : Text) (found : Option RefundOrder) (number : Text) (s : State) (spent : ℕ)
    → find_refund id s.refunds ≡ found
    → IsSound s spent
    → Holds (λ x. IsSound x.1 spent) (complete_found found number s)
complete_found-IsSound id none number s spent e h = tt
complete_found-IsSound id (some r) number s spent e h =
    complete_by-IsSound r.status id r number s spent e h

pub complete_refund-IsSound :
    (id number : Text) (s : State) (spent : ℕ)
    → IsSound s spent
    → Holds (λ x. IsSound x.1 spent) (complete_refund id number s)
unfolding complete_refund
complete_refund-IsSound id number s spent h =
    complete_found-IsSound id (find_refund id s.refunds) number s spent refl h
