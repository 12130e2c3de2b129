-- ===== src/Funding/Charge.antt =====
-- What a settlement charges.
use model_dock.Base.{ℕ, refl, ◌+◌, ◌-◌, ◌≡◌, ap, false, some, List, arith}
use model_dock.Base.Int.{ℤ, pos, ◌+ℤ◌, ◌-ℤ◌, +ℤ_parts, -ℤ_parts, eq_of_parts}
use model_dock.Funding.{
  ok, invalid_usage, is_funding_terminal, Allocation, Debit, Operation, Store, find_operation,
  Succeeds, Succeeds-bind, Succeeds-fail_if,
}
use model_dock.Funding.Amounts.{SettlementRequest, invalid_settlement, Charge, settlement_charge}
use model_dock.Funding.Settle.{
  released_part, overage_part, settle_wallet, settle_operation, settle_open, settle_funding,
}

-- The operation is charged what the code works out for it: the price of its version, the fee of a
-- customer's own credential, or nothing if it is waived or has no price. The charge leaves the
-- wallet's two balances together, the whole hold leaves the reserved one, and what the charge does
-- not use of the hold is released.
pub record IsCharged (o : Operation) (r : SettlementRequest) (s : Store) (settled : Operation)
    (after : Store) : Type 0 where
  pub charge : Charge
  pub priced : settlement_charge o r s.shadow_amount ≡ ok charge
  pub charged : settled.settled_amount ≡ charge.actual
  pub recorded : after.shadow_amount ≡ s.shadow_amount + charge.shadow
  pub paid :
      after.wallet.available_balance +ℤ after.wallet.reserved_balance +ℤ pos settled.settled_amount
      ≡ s.wallet.available_balance +ℤ s.wallet.reserved_balance
  pub freed :
      after.wallet.reserved_balance +ℤ pos o.maximum_amount ≡ s.wallet.reserved_balance +ℤ pos 0
  pub released : settled.released_amount ≡ o.maximum_amount - settled.settled_amount
  pub exposed :
      after.wallet.risk_exposure
      ≡ s.wallet.risk_exposure +ℤ pos (settled.settled_amount - o.maximum_amount)

balance_lem :
    (a r : ℤ) (x y m n : ℕ) → x + n ≡ m + y → a +ℤ pos x -ℤ pos y +ℤ (r -ℤ pos m) +ℤ pos n ≡ a +ℤ r
balance_lem a r x y m n h = eq_of_parts _ _ (
    omega (
      arith,
      +ℤ_parts a (pos x),
      -ℤ_parts (a +ℤ pos x) (pos y),
      -ℤ_parts r (pos m),
      +ℤ_parts (a +ℤ pos x -ℤ pos y) (r -ℤ pos m),
      +ℤ_parts (a +ℤ pos x -ℤ pos y +ℤ (r -ℤ pos m)) (pos n),
      +ℤ_parts a r,
      h,
    ))

split_lem : (m n : ℕ) → released_part m n + n ≡ m + overage_part m n
split_lem m n = ground arith

freed_lem : (r : ℤ) (m : ℕ) → r -ℤ pos m +ℤ pos m ≡ r +ℤ pos 0
unfolding ◌+ℤ◌ ◌-ℤ◌
freed_lem r m = ground arith

released_lem : (m n : ℕ) → released_part m n ≡ m - n
released_lem m n = ground arith

overage_lem : (m n : ℕ) → overage_part m n ≡ n - m
overage_lem m n = ground arith

settle_operation-IsCharged :
    (o : Operation) (r : SettlementRequest) (s after : Store) (charge : Charge) (consumed : ℕ)
    (cash promotions : List Allocation) (debits : List Debit)
    → settlement_charge o r s.shadow_amount ≡ ok charge
    → after.wallet ≡ settle_wallet s.wallet o.maximum_amount charge.actual
    → after.shadow_amount ≡ s.shadow_amount + charge.shadow
    → IsCharged o r s (settle_operation o r charge consumed cash promotions debits) after
unfolding settle_operation settle_wallet
settle_operation-IsCharged o r s after charge consumed cash promotions debits priced wallet
      recorded =
    let actual = charge.actual in
    record {
      charge = charge;
      priced = priced;
      charged = refl;
      recorded = recorded;
      paid = rw wallet (
          balance_lem s.wallet.available_balance s.wallet.reserved_balance
            (released_part o.maximum_amount actual) (overage_part o.maximum_amount actual)
            o.maximum_amount actual (split_lem o.maximum_amount actual));
      freed = rw wallet (freed_lem s.wallet.reserved_balance o.maximum_amount);
      released = released_lem o.maximum_amount actual;
      exposed =
          rw wallet
            (ap (λ n. s.wallet.risk_exposure +ℤ pos n) (overage_lem o.maximum_amount actual));
    }

settle_open-IsCharged :
    (o : Operation) (r : SettlementRequest) (s : Store)
    → Succeeds (λ result. IsCharged o r s result.0 result.1) (settle_open o r s)
unfolding settle_open
settle_open-IsCharged o r s = search (Succeeds-bind, settle_operation-IsCharged) depth 20

-- A settlement of an operation that is still open, if it succeeds, records the charge that is
-- worked out for the usage, and adds its shadow amount to the month. The two balances of the wallet
-- together fall by this amount, the reserved one by the whole hold, what is not used of the hold is
-- released, and the exposure to risk grows by what the charge exceeds the hold.
pub settle_funding-IsCharged :
    (o : Operation) (r : SettlementRequest) (s : Store)
    → find_operation r.operation_id s.operations ≡ some o
    → is_funding_terminal o.status ≡ false
    → Succeeds (λ result. IsCharged o r s result.0 result.1) (settle_funding r s)
unfolding settle_funding
settle_funding-IsCharged o r s found open_status =
    rw (found, open_status)
      (Succeeds-fail_if (λ result. IsCharged o r s result.0 result.1) (invalid_settlement r)
        invalid_usage (settle_open o r s) (λ _. settle_open-IsCharged o r s))
