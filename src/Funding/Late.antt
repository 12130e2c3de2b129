-- ===== src/Funding/Late.antt =====
-- What a late adjustment of `AdjustLateFundingUsage` changes, and what it does to a reversal.
use model_dock.Base.{
  ℕ, ◌-◌, ◌<◌, ◌≤◌, ◌≡◌, refl, sym, ap, ◌∙◌, ◌⊎◌, inl, inr, true, false, Option, none, some, [],
  ◌∷◌, ◌++◌, arith, ltb, ◌==◌, if◌then◌else◌, if_lem,
}
use model_dock.Base.Int.{ℤ, pos, ◌+ℤ◌, ◌-ℤ◌}
use model_dock.Text.{Text}
use model_dock.Funding.{
  ok, debit, credit, available, settled, released, Operation, Store, find_operation, put_operation,
  Succeeds, Succeeds-bind, Succeeds-fail_if, Succeeds-map,
}
use model_dock.Funding.Bookkeeping.{Booked, append_nil, side_total, moved}
use model_dock.Funding.Reverse.{Orders, refund_lines}
use model_dock.Funding.Reversal.{
  open_debits, Succeeds-bind_of, Restored, restore_charge-Restored, post_journal-posted,
}
use model_dock.Funding.Adjust.{
  LateUsageRequest, invalid_late_usage, corrected_amount, late_lines, charge_wallet, relieve_wallet,
  adjust_operation, adjust_up, adjust_down, adjust_same, adjust_to, has_key, adjust_closed,
  is_in_progress, adjust_found, adjust_late,
}

-- The operation costs the corrected amount, the difference is paid and booked, and what can be
-- restored of the debits falls with the amount, but does not rise with it.
pub record Adjusted (o : Operation) (key : Text) (corrected : ℕ) (s : Store) (opened : ℕ)
    (o' : Operation) (after : Store) : Type 0 where
  pub same : o'.id ≡ o.id
  pub recorded : o'.settled_amount ≡ corrected
  pub keyed : o'.adjustments ≡ key ∷ o.adjustments
  pub status : o'.status ≡ (if corrected == 0 then released else settled)
  pub paid :
      after.wallet.available_balance +ℤ pos corrected
      ≡ s.wallet.available_balance +ℤ pos o.settled_amount
  pub booked : Booked s after
  pub left_open : open_debits o'.debits ≡ opened - (o.settled_amount - corrected)
  pub written : after.operations ≡ put_operation o' s.operations

pay_more : (z : ℤ) (m n : ℕ) → m ≤ n → z -ℤ pos (n - m) +ℤ pos n ≡ z +ℤ pos m
unfolding ◌+ℤ◌ ◌-ℤ◌
pay_more z m n h = ground arith

pay_less : (z : ℤ) (m n : ℕ) → n ≤ m → z +ℤ pos (m - n) +ℤ pos n ≡ z +ℤ pos m
unfolding ◌+ℤ◌
pay_less z m n h = ground arith

take_back : (z : ℤ) (m : ℕ) → z -ℤ pos m +ℤ pos m ≡ z +ℤ pos 0
unfolding ◌+ℤ◌ ◌-ℤ◌
take_back z m = ground arith

late_lines_lem :
    (n : ℕ)
    → (side_total debit (late_lines n) ≡ side_total credit (late_lines n))
      × (moved available debit (late_lines n) ≡ n)
      × (moved available credit (late_lines n) ≡ 0)
late_lines_lem n = (ground arith, ground arith, ground arith)

refund_lines_lem :
    (n : ℕ)
    → (side_total debit (refund_lines n) ≡ side_total credit (refund_lines n))
      × (moved available debit (refund_lines n) ≡ 0)
      × (moved available credit (refund_lines n) ≡ n)
refund_lines_lem n = (ground arith, ground arith, ground arith)

add_zero : (z : ℤ) → z +ℤ pos 0 ≡ z
unfolding ◌+ℤ◌
add_zero z = ground arith

up_Booked :
    (s after : Store) (n : ℕ)
    → after.ledger ≡ s.ledger ++ late_lines n
    → after.wallet ≡ charge_wallet s.wallet n
    → Booked s after
unfolding charge_wallet
up_Booked s after n posted wallet =
    let (balanced, debits, credits) = late_lines_lem n in
    record {
      lines = late_lines n;
      posted = posted;
      balanced = balanced;
      available_moved = rw (wallet, debits, credits) (take_back s.wallet.available_balance n);
      reserved_moved = rw wallet refl;
    }

down_Booked :
    (s after : Store) (n : ℕ)
    → after.ledger ≡ s.ledger ++ refund_lines n
    → after.wallet ≡ relieve_wallet s.wallet n
    → Booked s after
unfolding relieve_wallet
down_Booked s after n posted wallet =
    let (balanced, debits, credits) = refund_lines_lem n in
    record {
      lines = refund_lines n;
      posted = posted;
      balanced = balanced;
      available_moved =
          rw (wallet, debits, credits) (add_zero (s.wallet.available_balance +ℤ pos n));
      reserved_moved = rw wallet refl;
    }

abbrev pub AdjustedBy : Orders → Operation → Text → ℕ → Store → Operation × Store → Type 0
AdjustedBy orders o key corrected s (o', after) =
    Adjusted o key corrected s
      (if ltb corrected o.settled_amount
        then open_debits (orders.debits o.debits)
        else open_debits o.debits)
      o' after

adjust_up-Adjusted :
    (orders : Orders) (o : Operation) (key : Text) (corrected : ℕ) (s : Store)
    → o.settled_amount < corrected
    → Succeeds (AdjustedBy orders o key corrected s) (adjust_up o key corrected s)
unfolding adjust_up adjust_operation
adjust_up-Adjusted orders o key corrected s h =
    let d = corrected - o.settled_amount in
    Succeeds-bind_of _ (λ l. l ≡ s.ledger ++ late_lines d) _ _
      (post_journal-posted (late_lines d) s.ledger)
      (λ ledger posted. record {
        same = refl;
        recorded = refl;
        keyed = refl;
        status = refl;
        paid =
            unfold charge_wallet in
            pay_more s.wallet.available_balance o.settled_amount corrected (omega arith);
        booked = up_Booked s _ d posted refl;
        left_open = ground arith;
        written = refl;
      })

adjust_down-Adjusted :
    (orders : Orders) (o : Operation) (key : Text) (corrected : ℕ) (s : Store)
    → corrected < o.settled_amount
    → Succeeds (AdjustedBy orders o key corrected s) (adjust_down orders o key corrected s)
unfolding adjust_down adjust_operation
adjust_down-Adjusted orders o key corrected s h =
    let d = o.settled_amount - corrected in
    Succeeds-bind_of _ (λ l. l ≡ s.ledger ++ refund_lines d) _ _
      (post_journal-posted (refund_lines d) s.ledger)
      (λ ledger posted.
        Succeeds-bind_of _ (Restored d (orders.debits o.debits)) _ _
          (restore_charge-Restored d (orders.debits o.debits) s.lots)
          (λ cash restored. record {
            same = refl;
            recorded = refl;
            keyed = refl;
            status = refl;
            paid =
                unfold relieve_wallet in
                pay_less s.wallet.available_balance o.settled_amount corrected (omega arith);
            booked = down_Booked s _ d posted refl;
            left_open = ground arith;
            written = refl;
          }))

Booked-same : (s after : Store) → after.ledger ≡ s.ledger → after.wallet ≡ s.wallet → Booked s after
Booked-same s after posted wallet = record {
  lines = [];
  posted = posted ∙ sym (append_nil s.ledger);
  balanced = refl;
  available_moved = rw wallet refl;
  reserved_moved = rw wallet refl;
}

adjust_same-Adjusted :
    (orders : Orders) (o : Operation) (key : Text) (corrected : ℕ) (s : Store)
    → o.settled_amount ≡ corrected
    → Succeeds (AdjustedBy orders o key corrected s) (adjust_same o key corrected s)
unfolding adjust_operation
adjust_same-Adjusted orders o key corrected s h = record {
  same = refl;
  recorded = refl;
  keyed = refl;
  status = refl;
  paid = ap (λ n. s.wallet.available_balance +ℤ pos n) (sym h);
  booked = Booked-same s _ refl refl;
  left_open = ground arith;
  written = refl;
}

adjust_to-Adjusted :
    (orders : Orders) (o : Operation) (key : Text) (corrected : ℕ) (s : Store)
    → Succeeds (AdjustedBy orders o key corrected s) (adjust_to orders o key corrected s)
unfolding adjust_to
adjust_to-Adjusted orders o key corrected s =
    if_lem (Succeeds (AdjustedBy orders o key corrected s)) (ltb o.settled_amount corrected) _ _
      (λ e. adjust_up-Adjusted orders o key corrected s (ground arith))
      (λ e.
        if_lem (Succeeds (AdjustedBy orders o key corrected s)) (ltb corrected o.settled_amount) _ _
          (λ e'. adjust_down-Adjusted orders o key corrected s (ground arith))
          (λ e'. adjust_same-Adjusted orders o key corrected s (ground arith)))

-- The operation is closed. The adjustment was made before and nothing changes, or it is made now.
abbrev pub AdjustedOnce :
    Orders → LateUsageRequest → Option Operation → Store → Operation × Store → Type 0
AdjustedOnce orders r none s result = ⊥
AdjustedOnce orders r (some o) s (o', after) =
    (is_in_progress o.status ≡ false)
    × (((has_key r.idempotency_key o.adjustments ≡ true) × (o' ≡ o) × (after ≡ s))
        ⊎ (has_key r.idempotency_key o.adjustments ≡ false)
          × (corrected : ℕ) × (corrected_amount o r ≡ ok corrected)
          × AdjustedBy orders o r.idempotency_key corrected s (o', after))

adjust_closed-AdjustedOnce :
    (orders : Orders) (o : Operation) (r : LateUsageRequest) (s : Store)
    → is_in_progress o.status ≡ false
    → Succeeds (AdjustedOnce orders r (some o) s) (adjust_closed orders o r s)
unfolding adjust_closed
adjust_closed-AdjustedOnce orders o r s closed =
    if_lem (Succeeds (AdjustedOnce orders r (some o) s)) (has_key r.idempotency_key o.adjustments) _
      _ (λ e. (closed, inl (e, refl, refl)))
      (λ e. Succeeds-bind _ (corrected_amount o r) _ (λ corrected priced.
        Succeeds-map (AdjustedBy orders o r.idempotency_key corrected s) _ _
          (λ result h. (closed, inr (e, corrected, priced, h)))
          (adjust_to-Adjusted orders o r.idempotency_key corrected s)))

adjust_found-AdjustedOnce :
    (orders : Orders) (r : LateUsageRequest) (found : Option Operation) (s : Store)
    → Succeeds (AdjustedOnce orders r found s) (adjust_found orders found r s)
adjust_found-AdjustedOnce orders r none s = tt
adjust_found-AdjustedOnce orders r (some o) s =
    Succeeds-fail_if _ (is_in_progress o.status) _ _ (adjust_closed-AdjustedOnce orders o r s)

-- A late adjustment that succeeds has found an operation that is no longer open. Either it was made
-- before under its key and nothing changes; or its key is new and is recorded with the operation,
-- which then costs the corrected amount, the wallet pays the difference to what it cost, or gets it
-- back, under balanced journal lines that both balances follow, and what can be restored of the
-- debits of the operation falls by what is given back, and does not rise by what is charged.
pub adjust_late-AdjustedOnce :
    (orders : Orders) (r : LateUsageRequest) (s : Store)
    → Succeeds
        (AdjustedOnce orders r (find_operation r.operation_id s.operations) s)
        (adjust_late orders r s)
unfolding adjust_late
adjust_late-AdjustedOnce orders r s =
    Succeeds-fail_if _ (invalid_late_usage r) _ _
      (λ _. adjust_found-AdjustedOnce orders r (find_operation r.operation_id s.operations) s)
