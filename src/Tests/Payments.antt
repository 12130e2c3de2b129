-- ===== src/Tests/Payments.antt =====
-- Runs of the recharge orders of internal/store/payments.go.
use model_dock.Base.{◌≡◌, refl, false, none, some, [], ◌∷◌, arith}
use model_dock.Base.Int.{pos, ◌+ℤ◌}
use model_dock.Text.{codes, trim_space, trim_left, trim_right, is_space}
use model_dock.Funding.{WalletStatus}
use model_dock.Payments.{
  ok, pending, credited, paid, refund_pending, reported_chargeback, refund, topup, RechargeOrder,
  State, total_topped_up, total_refunded, with_status,
}
use model_dock.Payments.Recharge.{mark_paid, credit_paid, credit_open}
use model_dock.Payments.Webhook.{Webhook, record_webhook, find_event}
use model_dock.Payments.Invariant.{Holds, IsSound, unfinished_total}
use model_dock.Payments.Reachable.{Step, Reach, here, next, Reach-IsSound}
use model_dock.Payments.Chargeback.{
  IsPartlyRefunded, Overcharged, record_webhook-Overcharged, IsDropped, record_webhook-IsDropped,
}

abbrev order : RechargeOrder
order = record {
  id = codes "o";
  platform_order_no = codes "p";
  payment_provider = codes "manual_transfer";
  provider_order_no = codes "x";
  status = pending;
  amount = 100;
  currency = codes "USD";
  provider_closed = false;
}

abbrev fresh : State
fresh = record {
  order = order;
  wallet = record {
    status = WalletStatus.active;
    currency = codes "USD";
    available_balance = pos 7;
  };
  lot = none;
  refunds = [];
  events = [];
  transactions = [];
}

fresh-IsSound : IsSound fresh 0
unfolding total_topped_up total_refunded unfinished_total
fresh-IsSound = record { sound = (refl, refl, refl, refl, refl); honest = tt }

abbrev in_full : State
in_full = record fresh {
  order = record order { status = credited };
  wallet = record {
    status = WalletStatus.active;
    currency = codes "USD";
    available_balance = pos 107;
  };
  lot = some (record { original = 100; remaining = 100 });
  transactions = topup 100 ∷ [];
}

paid_run : mark_paid (codes "receipt") fresh ≡ ok (with_status paid fresh)
unfolding mark_paid trim_space trim_left trim_right is_space
paid_run = refl

credit_run : credit_paid (with_status paid fresh) ≡ ok (false, in_full)
unfolding credit_paid credit_open ◌+ℤ◌
credit_run = refl

run : Reach fresh 0 in_full 0
run = next (next here (Step.approved (codes "receipt") paid_run)) (Step.credits false credit_run)

Reach-IsSound_example : IsSound in_full 0
Reach-IsSound_example = Reach-IsSound fresh-IsSound run

abbrev in_part : State
in_part = record in_full {
  wallet = record {
    status = WalletStatus.active;
    currency = codes "USD";
    available_balance = pos 67;
  };
  lot = some (record { original = 100; remaining = 60 });
  transactions = refund 40 ∷ topup 100 ∷ [];
}

in_part-IsPartlyRefunded : IsPartlyRefunded in_part 0
unfolding total_topped_up total_refunded unfinished_total
in_part-IsPartlyRefunded = record {
  sound = record { sound = (refl, refl, refl); honest = tt };
  status = refl;
  part = omega arith;
}

abbrev complaint : Webhook
complaint = record {
  platform_order_no = codes "p";
  event_id = codes "e";
  replay_key = codes "k";
  result = record {
    provider_order_no = codes "x";
    status = reported_chargeback;
    amount = pos 100;
    amount_unreported = false;
    currency = codes "USD";
  };
  body_hash = codes "h";
}

record_webhook-Overcharged_example :
    Holds
      (λ r. Overcharged r.1)
      (record_webhook
        (codes "u")
        (codes "chargeback:e")
        (codes "manual_transfer")
        complaint
        in_part)
unfolding find_event
record_webhook-Overcharged_example =
    record_webhook-Overcharged (codes "u") (codes "chargeback:e") (codes "manual_transfer")
      complaint in_part 0 in_part-IsPartlyRefunded refl refl

abbrev waiting_state : State
waiting_state = with_status refund_pending in_full

record_webhook-IsDropped_example :
    Holds
      (λ r. IsDropped (codes "manual_transfer") complaint waiting_state r.1)
      (record_webhook
        (codes "u")
        (codes "chargeback:e")
        (codes "manual_transfer")
        complaint
        waiting_state)
unfolding find_event
record_webhook-IsDropped_example =
    record_webhook-IsDropped (codes "u") (codes "chargeback:e") (codes "manual_transfer") complaint
      waiting_state refl refl refl
