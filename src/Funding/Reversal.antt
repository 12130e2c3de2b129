-- ===== src/Funding/Reversal.antt =====
-- What a reversal of `ReverseFunding` gives back, and when it goes through.
use model_dock.Base.{
  ℕ, ◌+◌, ◌-◌, ◌<◌, ◌≤◌, ◌≡◌, ◌≢◌, refl, ◌⊎◌, inl, inr, false, Option, none, some, List, [], ◌∷◌,
  ◌++◌, ◌||◌, arith, ltb, ◌==◌,
}
use model_dock.Base.Int.{pos, ◌+ℤ◌}
use model_dock.Text.{Text, text_eq}
use model_dock.Pricing.{is_blank}
use model_dock.Funding.{
  Funded, ok, err, ◌>>=◌, JournalLine, post_journal, FundingStatus, pending, held, settled,
  partially_settled, released, failed, reversed, Lot, Allocation, Debit, Operation, Store,
  find_operation, put_operation, Succeeds, Succeeds-fail_if, Succeeds-map, finance_state,
}
use model_dock.Funding.Lots.{lesser, give_back_credit}
use model_dock.Funding.Restore.{
  restore_lot, restore_debits, restore_cash, restore_charge, reverse_allocations, reverse_promotion,
}
use model_dock.Funding.Reverse.{
  Orders, refund_lines, refund_wallet, reverse_operation, reverse_open, reverse_by, reverse_found,
  reverse_funding,
}

-- What can still be restored of debits, and reversed of promotions.
abbrev pub open_debits : List Debit → ℕ
open_debits [] = 0
open_debits (d ∷ rest) = (d.amount - d.restored) + open_debits rest

abbrev pub open_promotions : List Allocation → ℕ
open_promotions [] = 0
open_promotions (a ∷ rest) = (a.consumed - a.reversed) + open_promotions rest

-- Restoring takes the amount off what is open, and leaves what is not open.
pub restore_debits_lem :
    (amount : ℕ) (debits : List Debit) (lots : List Lot)
    → let (left, debits', lots') = restore_debits amount debits lots in
      (left ≡ amount - open_debits debits) × (open_debits debits' ≡ open_debits debits - amount)
unfolding restore_debits
restore_debits_lem amount [] lots = (omega arith, omega arith)
restore_debits_lem amount (d ∷ rest) lots =
    let take = lesser (d.amount - d.restored) amount in
    let (left, opened) = restore_debits_lem (amount - take) rest (restore_lot d.lot_id take lots) in
    (ground arith, ground arith)

pub reverse_allocations_lem :
    (amount : ℕ) (allocations : List Allocation) (credits : List Lot)
    → let (left, allocations', credits') = reverse_allocations amount allocations credits in
      (left ≡ amount - open_promotions allocations)
      × (open_promotions allocations' ≡ open_promotions allocations - amount)
unfolding reverse_allocations
reverse_allocations_lem amount [] credits = (omega arith, omega arith)
reverse_allocations_lem amount (a ∷ rest) credits =
    let take = lesser (a.consumed - a.reversed) amount in
    let (left, opened) =
      reverse_allocations_lem (amount - take) rest (give_back_credit a.lot_id take credits) in
    (ground arith, ground arith)

-- An amount was restored in full.
abbrev pub Restored : ℕ → List Debit → List Debit × List Lot → Type 0
Restored amount debits (debits', lots') =
    (amount ≤ open_debits debits) × (open_debits debits' + amount ≡ open_debits debits)

restore_cash-Restored :
    (amount : ℕ) (debits : List Debit) (lots : List Lot)
    → Succeeds (Restored amount debits) (restore_cash amount debits lots)
unfolding restore_cash
restore_cash-Restored amount debits lots =
    let r = restore_debits amount debits lots in
    let (left, opened) = restore_debits_lem amount debits lots in
    Succeeds-fail_if (Restored amount debits) (ltb 0 r.0) finance_state (ok (r.1, r.2))
      (λ e. (ground arith, ground arith))

pub restore_charge-Restored :
    (amount : ℕ) (debits : List Debit) (lots : List Lot)
    → Succeeds (Restored amount debits) (restore_charge amount debits lots)
restore_charge-Restored amount [] lots = tt
restore_charge-Restored amount (d ∷ debits) lots = restore_cash-Restored amount (d ∷ debits) lots

abbrev Reversed : ℕ → List Allocation → ℕ × List Allocation × List Lot → Type 0
Reversed requested allocations (amount, allocations', credits') =
    (amount ≡ requested) × (open_promotions allocations' + requested ≡ open_promotions allocations)

reverse_promotion-Reversed :
    (requested : ℕ) (allocations : List Allocation) (credits : List Lot)
    → Succeeds (Reversed requested allocations) (reverse_promotion requested allocations credits)
unfolding reverse_promotion
reverse_promotion-Reversed requested allocations credits =
    let r = reverse_allocations requested allocations credits in
    let (left, opened) = reverse_allocations_lem requested allocations credits in
    Succeeds-fail_if (Reversed requested allocations) (ltb 0 r.0) finance_state
      (ok (requested - r.0, r.1, r.2)) (λ e. (ground arith, ground arith))

-- The settled amount of an operation went back to the wallet, to what was debited and to the
-- promotions.
pub record IsReversal (orders : Orders) (o : Operation) (s : Store) (o' : Operation) (after : Store)
    : Type 0 where
  pub not_before : o.status ≢ reversed
  pub charged : 0 < o.settled_amount
  pub refunded : after.wallet.available_balance ≡ s.wallet.available_balance +ℤ pos o.settled_amount
  pub unheld : after.wallet.reserved_balance ≡ s.wallet.reserved_balance
  pub posted : after.ledger ≡ s.ledger ++ refund_lines o.settled_amount
  pub over : o'.status ≡ reversed
  pub restored : open_debits o'.debits + o.settled_amount ≡ open_debits (orders.debits o.debits)
  pub promotions :
      open_promotions o'.promotions + o.consumed_promotion
      ≡ open_promotions (orders.allocations o.promotions)
  pub unconsumed : o'.consumed_promotion ≡ 0
  pub written : after.operations ≡ put_operation o' s.operations

pub post_journal-posted :
    (lines ledger : List JournalLine)
    → Succeeds (λ after. after ≡ ledger ++ lines) (post_journal lines ledger)
unfolding post_journal
post_journal-posted lines ledger = ground arith

reversal_lem :
    (orders : Orders) (o : Operation) (s : Store) (ledger : List JournalLine)
    (cash : List Debit × List Lot) (promotion : ℕ × List Allocation × List Lot)
    → o.status ≢ reversed
    → (o.settled_amount == 0) ≡ false
    → ledger ≡ s.ledger ++ refund_lines o.settled_amount
    → Restored o.settled_amount (orders.debits o.debits) cash
    → Reversed o.consumed_promotion (orders.allocations o.promotions) promotion
    → let o' = reverse_operation o promotion.0 promotion.1 cash.0 in
      IsReversal orders o s o' (record s {
        wallet = refund_wallet s.wallet o.settled_amount;
        lots = cash.1;
        credits = promotion.2;
        ledger = ledger;
        operations = put_operation o' s.operations;
      })
unfolding reverse_operation refund_wallet
reversal_lem orders o s ledger cash promotion fresh e posted (covered, restored) (all, back) =
    record {
      not_before = fresh;
      charged = ground arith;
      refunded = refl;
      unheld = refl;
      posted = posted;
      over = refl;
      restored = restored;
      promotions = back;
      unconsumed = omega (arith, all);
      written = refl;
    }

pub Succeeds-bind_of {ℓ κ τ} :
    {A : Type ℓ} {B : Type κ} (P : B → Type τ) (Q : A → Type 0) (m : Funded A) (f : A → Funded B)
    → Succeeds Q m
    → ((a : A) → Q a → Succeeds P (f a))
    → Succeeds P (m >>= f)
Succeeds-bind_of P Q (ok a) f q h = h a q
Succeeds-bind_of P Q (err e) f q h = tt

reverse_open-IsReversal :
    (orders : Orders) (o : Operation) (s : Store)
    → o.status ≢ reversed
    → Succeeds (λ r. IsReversal orders o s r.0 r.1) (reverse_open orders o s)
unfolding reverse_open
reverse_open-IsReversal orders o s fresh = Succeeds-fail_if _ (o.settled_amount == 0) _ _ (λ e.
    Succeeds-bind_of _ (λ l. l ≡ s.ledger ++ refund_lines o.settled_amount) _ _
      (post_journal-posted (refund_lines o.settled_amount) s.ledger)
      (λ ledger posted.
        Succeeds-bind_of _ (Restored o.settled_amount (orders.debits o.debits)) _ _
          (restore_charge-Restored o.settled_amount (orders.debits o.debits) s.lots)
          (λ cash restored.
            Succeeds-bind_of _ (Reversed o.consumed_promotion (orders.allocations o.promotions)) _ _
              (reverse_promotion-Reversed o.consumed_promotion (orders.allocations o.promotions)
                s.credits)
              (λ promotion back.
                reversal_lem orders o s ledger cash promotion fresh e posted restored back))))

-- The operation was reversed before and nothing changes, or it is reversed now.
abbrev pub ReversedOnce : Orders → Option Operation → Store → Operation × Store → Type 0
ReversedOnce orders none s r = ⊥
ReversedOnce orders (some o) s (o', after) =
    ((o.status ≡ reversed) × (o' ≡ o) × (after ≡ s)) ⊎ IsReversal orders o s o' after

reverse_by-ReversedOnce :
    (t : FundingStatus) (orders : Orders) (o : Operation) (s : Store)
    → o.status ≡ t
    → Succeeds (ReversedOnce orders (some o) s) (reverse_by t orders o s)
reverse_by-ReversedOnce reversed orders o s e = inl (e, refl, refl)
reverse_by-ReversedOnce pending orders o s e =
    Succeeds-map _ _ _ (λ r h. inr h) (reverse_open-IsReversal orders o s (λ x. cc))
reverse_by-ReversedOnce held orders o s e =
    Succeeds-map _ _ _ (λ r h. inr h) (reverse_open-IsReversal orders o s (λ x. cc))
reverse_by-ReversedOnce settled orders o s e =
    Succeeds-map _ _ _ (λ r h. inr h) (reverse_open-IsReversal orders o s (λ x. cc))
reverse_by-ReversedOnce partially_settled orders o s e =
    Succeeds-map _ _ _ (λ r h. inr h) (reverse_open-IsReversal orders o s (λ x. cc))
reverse_by-ReversedOnce released orders o s e =
    Succeeds-map _ _ _ (λ r h. inr h) (reverse_open-IsReversal orders o s (λ x. cc))
reverse_by-ReversedOnce failed orders o s e =
    Succeeds-map _ _ _ (λ r h. inr h) (reverse_open-IsReversal orders o s (λ x. cc))

reverse_found-ReversedOnce :
    (orders : Orders) (found : Option Operation) (s : Store)
    → Succeeds (ReversedOnce orders found s) (reverse_found orders found s)
reverse_found-ReversedOnce orders none s = tt
reverse_found-ReversedOnce orders (some o) s = reverse_by-ReversedOnce o.status orders o s refl

-- A reversal that succeeds has found the operation. Either that was reversed before and nothing
-- changes; or it was not, and its settled amount, which is positive, goes back to the available
-- balance under journal lines of that amount, is restored of its debits and not of more, its consumed
-- promotion goes back likewise, and it is marked as reversed, in whatever order the rows are read.
pub reverse_funding-ReversedOnce :
    (orders : Orders) (id key reason : Text) (s : Store)
    → Succeeds
        (ReversedOnce orders (find_operation id s.operations) s)
        (reverse_funding orders id key reason s)
unfolding reverse_funding
reverse_funding-ReversedOnce orders id key reason s =
    Succeeds-fail_if _ (text_eq key [] || is_blank reason) _ _
      (λ _. reverse_found-ReversedOnce orders (find_operation id s.operations) s)
