-- ===== src/Funding/LateReversal.antt =====
-- A late adjustment and a reversal of one operation.
use model_dock.Base.{
  ℕ, ◌<◌, ◌≤◌, ◌≡◌, ◌≢◌, refl, sym, ap, subst, inl, inr, false, some, arith, ltb, ◌==◌,
  if◌then◌else◌,
}
use model_dock.Text.{Text}
use model_dock.Funding.{
  ok, settled, released, reversed, Operation, Store, find_operation, put_operation, Succeeds-ok,
}
use model_dock.Funding.Repeat.{find_operation-id, find_operation-put_operation}
use model_dock.Funding.Reverse.{Orders, reverse_funding}
use model_dock.Funding.Reversal.{open_debits, ReversedOnce, reverse_funding-ReversedOnce}
use model_dock.Funding.Undo.{KeepsOpen}
use model_dock.Funding.Adjust.{
  LateUsageRequest, invalid_late_usage, corrected_amount, adjust_late, adjust_closed, adjust_to,
  adjust_operation, has_key, is_in_progress,
}
use model_dock.Funding.Late.{AdjustedOnce, AdjustedBy, adjust_late-AdjustedOnce}

-- The operation was adjusted to more, and can give back no more than it cost before.
record Raised (o o' : Operation) (s after : Store) : Type 0 where
  raised : o.settled_amount < o'.settled_amount
  covered : open_debits o'.debits ≤ o.settled_amount
  standing : o'.status ≢ reversed
  there : find_operation o.id after.operations ≡ some o'

status-ne-reversed :
    (n : ℕ) (o : Operation)
    → o.status ≡ (if n == 0 then released else settled)
    → o.status ≢ reversed
status-ne-reversed n o h e = ground arith

find-written :
    (o o' : Operation) (s after : Store)
    → find_operation o.id s.operations ≡ some o
    → o'.id ≡ o.id
    → after.operations ≡ put_operation o' s.operations
    → find_operation o.id after.operations ≡ some o'
find-written o o' s after found same written = rw written (
    subst (λ i. find_operation i (put_operation o' s.operations) ≡ some o') same
      (find_operation-put_operation o' s.operations
        (subst (λ i. find_operation i s.operations ≡ some o) (sym same) found)))

Adjusted-Raised :
    (orders : Orders) (o : Operation) (key : Text) (corrected : ℕ) (s : Store) (o' : Operation)
    (after : Store)
    → find_operation o.id s.operations ≡ some o
    → open_debits o.debits ≤ o.settled_amount
    → o.settled_amount < o'.settled_amount
    → AdjustedBy orders o key corrected s (o', after)
    → Raised o o' s after
Adjusted-Raised orders o key corrected s o' after found covered raised a = record {
  raised = raised;
  covered = ground (arith, a.left_open, a.recorded);
  standing = status-ne-reversed corrected o' a.status;
  there = find-written o o' s after found a.same a.written;
}

AdjustedOnce-Raised :
    (orders : Orders) (r : LateUsageRequest) (o : Operation) (s : Store) (o' : Operation)
    (after : Store)
    → find_operation o.id s.operations ≡ some o
    → open_debits o.debits ≤ o.settled_amount
    → o.settled_amount < o'.settled_amount
    → AdjustedOnce orders r (some o) s (o', after)
    → Raised o o' s after
AdjustedOnce-Raised orders r o s o' after found covered raised (closed, inl (e, same, _)) =
    absurd (omega (arith, ap (λ (x : Operation). x.settled_amount) same))
AdjustedOnce-Raised orders r o s o' after found covered raised (closed, inr (_, corrected, _, a)) =
    Adjusted-Raised orders o r.idempotency_key corrected s o' after found covered raised a

Raised-blocked :
    (orders : Orders) (o o' : Operation) (s after : Store) (result : Operation × Store)
    → KeepsOpen orders
    → Raised o o' s after
    → ReversedOnce orders (some o') after result
    → ⊥
Raised-blocked orders o o' s after result keeps h (inl (e, _, _)) = h.standing e
Raised-blocked orders o o' s after (o'', final) keeps h (inr a) =
    absurd (omega (arith, keeps.of_debits o'.debits, a.restored, h.covered, h.raised))

-- An operation that a late adjustment has made dearer than it was can no longer be reversed: whatever
-- the key, the reason and the order of the rows, `ReverseFunding` does not succeed, if the debits of
-- its settlement were of no more than what it cost. It restores only those debits, and a late
-- adjustment books its own under a transaction that it does not link to the operation.
pub adjust_late-blocks_reversal :
    (orders : Orders) (r : LateUsageRequest) (o o' : Operation) (s after : Store)
    (key reason : Text) (result : Operation × Store)
    → KeepsOpen orders
    → find_operation r.operation_id s.operations ≡ some o
    → open_debits o.debits ≤ o.settled_amount
    → adjust_late orders r s ≡ ok (o', after)
    → o.settled_amount < o'.settled_amount
    → reverse_funding orders r.operation_id key reason after ≢ ok result
adjust_late-blocks_reversal orders r o o' s after key reason result keeps found covered e raised
      e' =
    let id : o.id ≡ r.operation_id = find_operation-id r.operation_id s.operations found in
    let found' : find_operation o.id s.operations ≡ some o =
      subst (λ i. find_operation i s.operations ≡ some o) (sym id) found in
    let once : AdjustedOnce orders r (some o) s (o', after) = rw found at (
      Succeeds-ok (AdjustedOnce orders r (find_operation r.operation_id s.operations) s)
        (adjust_late orders r s) e (adjust_late-AdjustedOnce orders r s)) in
    let up = AdjustedOnce-Raised orders r o s o' after found' covered raised once in
    let there : find_operation r.operation_id after.operations ≡ some o' =
      subst (λ i. find_operation i after.operations ≡ some o') id up.there in
    Raised-blocked orders o o' s after result keeps up (
      rw there at (
        Succeeds-ok (ReversedOnce orders (find_operation r.operation_id after.operations) after)
          (reverse_funding orders r.operation_id key reason after) e'
          (reverse_funding-ReversedOnce orders r.operation_id key reason after)))

-- A late adjustment accepts an operation that was reversed: if its corrected amount is what it cost
-- before the reversal, and that is positive, then it is marked as settled again, and the wallet, which
-- the reversal has paid back, is charged nothing.
pub adjust_late-reopens :
    (orders : Orders) (r : LateUsageRequest) (o : Operation) (s : Store)
    → invalid_late_usage r ≡ false
    → find_operation r.operation_id s.operations ≡ some o
    → o.status ≡ reversed
    → has_key r.idempotency_key o.adjustments ≡ false
    → corrected_amount o r ≡ ok o.settled_amount
    → 0 < o.settled_amount
    → (o' : Operation) × (after : Store) × (adjust_late orders r s ≡ ok (o', after))
      × (o'.status ≡ settled)
      × (after.wallet ≡ s.wallet)
      × (after.ledger ≡ s.ledger)
unfolding adjust_late adjust_closed adjust_to adjust_operation
adjust_late-reopens orders r o s valid found over new priced charged =
    let positive : (o.settled_amount == 0) ≡ false = ground arith in
    let closed : is_in_progress o.status ≡ false = ap is_in_progress over in
    let same : ltb o.settled_amount o.settled_amount ≡ false = ground arith in
    let o' : Operation = adjust_operation o r.idempotency_key o.settled_amount o.debits in
    (
      o',
      record s { operations = put_operation o' s.operations },
      rw (valid, found, closed, new, priced, same) refl,
      rw positive refl,
      refl,
      refl,
    )
