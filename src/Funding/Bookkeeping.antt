-- ===== src/Funding/Bookkeeping.antt =====
-- What an operation posts to the ledger, and how the balances of the wallet follow it.
use model_dock.Base.{
  ℕ, ◌+◌, ◌≡◌, refl, sym, ap, ◌∙◌, inl, inr, Bool, true, false, ◌&&◌, Option, none, some, List, [],
  ◌∷◌, ◌++◌, arith, ltb, if◌then◌else◌, if_lem, Bool-cases,
}
use model_dock.Base.Int.{ℤ, pos, ◌+ℤ◌, ◌-ℤ◌}
use model_dock.Text.{Text}
use model_dock.Funding.{
  Funded, ok, err, ◌>>=◌, Side, debit, credit, Account, available, reserved, revenue, JournalLine,
  idempotency_conflict, is_funding_terminal, Operation, Store, post_journal, Succeeds,
  Succeeds-bind, Succeeds-fail_if, Succeeds-ok,
}
use model_dock.Funding.Reserve.{
  ReservationRequest, hold_wallet, reservation_lines, post_if_any, write_reservation, reserve_fresh,
  reserve_known, reserve_funding, conflicts,
}
use model_dock.Funding.Amounts.{SettlementRequest}
use model_dock.Funding.Settle.{
  released_part, overage_part, settlement_lines, release_lines, settle_wallet, settle_open,
  settle_found, settle_funding,
}

abbrev same_side : Side → Side → Bool
same_side debit debit = true
same_side credit credit = true
same_side debit credit = false
same_side credit debit = false

abbrev same_account : Account → Account → Bool
same_account available available = true
same_account reserved reserved = true
same_account revenue revenue = true
same_account available reserved = false
same_account available revenue = false
same_account reserved available = false
same_account reserved revenue = false
same_account revenue available = false
same_account revenue reserved = false

-- The sum of one side, over all accounts and of one account.
abbrev pub side_total : Side → List JournalLine → ℕ
side_total side [] = 0
side_total side (l ∷ ls) = (if same_side side l.side then l.amount else 0) + side_total side ls

abbrev pub moved : Account → Side → List JournalLine → ℕ
moved account side [] = 0
moved account side (l ∷ ls) =
    (if same_account account l.account && same_side side l.side then l.amount else 0)
    + moved account side ls

-- The step from one store to the next is booked: the lines that are posted balance, and both balances
-- of the wallet change as the lines say.
pub record Booked (s after : Store) : Type 0 where
  pub lines : List JournalLine
  pub posted : after.ledger ≡ s.ledger ++ lines
  pub balanced : side_total debit lines ≡ side_total credit lines
  pub available_moved :
      after.wallet.available_balance +ℤ pos (moved available debit lines)
      ≡ s.wallet.available_balance +ℤ pos (moved available credit lines)
  pub reserved_moved :
      after.wallet.reserved_balance +ℤ pos (moved reserved debit lines)
      ≡ s.wallet.reserved_balance +ℤ pos (moved reserved credit lines)

pub append_nil : (ls : List JournalLine) → ls ++ [] ≡ ls
append_nil [] = refl
append_nil (l ∷ ls) = ap (λ t. l ∷ t) (append_nil ls)

append_assoc : (xs ys zs : List JournalLine) → (xs ++ ys) ++ zs ≡ xs ++ (ys ++ zs)
append_assoc [] ys zs = refl
append_assoc (x ∷ xs) ys zs = ap (λ t. x ∷ t) (append_assoc xs ys zs)

-- Lines that are posted if their amount is positive.
abbrev posted_lines : ℕ → List JournalLine → List JournalLine
posted_lines amount lines = if ltb 0 amount then lines else []

post_journal-Succeeds :
    (lines ledger : List JournalLine)
    → Succeeds (λ after. after ≡ ledger ++ lines) (post_journal lines ledger)
unfolding post_journal
post_journal-Succeeds lines ledger = ground arith

post_if_any-Succeeds :
    (amount : ℕ) (lines ledger : List JournalLine)
    → Succeeds
        (λ after. after ≡ ledger ++ posted_lines amount lines)
        (post_if_any amount lines ledger)
unfolding post_if_any
post_if_any-Succeeds amount lines ledger = elim (Bool-cases (ltb 0 amount)) [
  | inl e ↦ rw e (post_journal-Succeeds lines ledger)
  | inr e ↦ rw e (sym (append_nil ledger))
]

abbrev held_lines : ℕ → List JournalLine
held_lines m = posted_lines m (reservation_lines m)

held_lines_lem :
    (m : ℕ)
    → (side_total debit (held_lines m) ≡ side_total credit (held_lines m))
      × (moved available debit (held_lines m) ≡ m)
      × (moved available credit (held_lines m) ≡ 0)
      × (moved reserved debit (held_lines m) ≡ 0)
      × (moved reserved credit (held_lines m) ≡ m)
held_lines_lem m = (ground arith, ground arith, ground arith, ground arith, ground arith)

add_back : (z : ℤ) (m : ℕ) → z -ℤ pos m +ℤ pos m ≡ z +ℤ pos 0
unfolding ◌+ℤ◌ ◌-ℤ◌
add_back z m = ground arith

add_same : (z : ℤ) (m : ℕ) → z +ℤ pos m +ℤ pos 0 ≡ z +ℤ pos m
unfolding ◌+ℤ◌
add_same z m = ground arith

-- What the settlement of `actual` out of `m` posts.
abbrev settled_lines : ℕ → ℕ → List JournalLine
settled_lines m actual =
    posted_lines actual (settlement_lines m actual)
    ++ posted_lines (released_part m actual) (release_lines (released_part m actual))

settled_lines_lem :
    (m actual : ℕ)
    → (side_total debit (settled_lines m actual) ≡ side_total credit (settled_lines m actual))
      × (moved available debit (settled_lines m actual) ≡ overage_part m actual)
      × (moved available credit (settled_lines m actual) ≡ released_part m actual)
      × (moved reserved debit (settled_lines m actual) ≡ m)
      × (moved reserved credit (settled_lines m actual) ≡ 0)
      × (moved revenue credit (settled_lines m actual) ≡ actual)
settled_lines_lem m actual =
    (ground arith, ground arith, ground arith, ground arith, ground arith, ground arith)

settle_back : (z : ℤ) (r o : ℕ) → z +ℤ pos r -ℤ pos o +ℤ pos o ≡ z +ℤ pos r
unfolding ◌+ℤ◌ ◌-ℤ◌
settle_back z r o = ground arith

Booked-refl : (s : Store) → Booked s s
Booked-refl s = record {
  lines = [];
  posted = sym (append_nil s.ledger);
  balanced = refl;
  available_moved = refl;
  reserved_moved = refl;
}

post_if_any-bind {κ τ} :
    {B : Type κ} (P : B → Type τ) (amount : ℕ) (lines ledger : List JournalLine)
    (f : List JournalLine → Funded B)
    → ((after : List JournalLine)
        → after ≡ ledger ++ posted_lines amount lines
        → Succeeds P (f after))
    → Succeeds P (post_if_any amount lines ledger >>= f)
post_if_any-bind P amount lines ledger f h =
    Succeeds-bind P (post_if_any amount lines ledger) f (λ after e. h after (
      Succeeds-ok (λ l. l ≡ ledger ++ posted_lines amount lines) (post_if_any amount lines ledger) e
        (post_if_any-Succeeds amount lines ledger)))

held-Booked :
    (s after : Store) (maximum : ℕ)
    → after.ledger ≡ s.ledger ++ held_lines maximum
    → after.wallet ≡ hold_wallet s.wallet maximum
    → Booked s after
unfolding hold_wallet
held-Booked s after maximum posted wallet =
    let (balanced, ad, ac, rd, rc) = held_lines_lem maximum in
    record {
      lines = held_lines maximum;
      posted = posted;
      balanced = balanced;
      available_moved = rw (wallet, ad, ac) (add_back s.wallet.available_balance maximum);
      reserved_moved = rw (wallet, rd, rc) (add_same s.wallet.reserved_balance maximum);
    }

settled-Booked :
    (s after : Store) (maximum actual : ℕ) (mid : List JournalLine)
    → mid ≡ s.ledger ++ posted_lines actual (settlement_lines maximum actual)
    → after.ledger
      ≡ mid
        ++ posted_lines
            (released_part maximum actual)
            (release_lines (released_part maximum actual))
    → after.wallet ≡ settle_wallet s.wallet maximum actual
    → Booked s after
unfolding settle_wallet
settled-Booked s after maximum actual mid first second wallet =
    let (balanced, ad, ac, rd, rc, _) = settled_lines_lem maximum actual in
    let tail =
      posted_lines (released_part maximum actual) (release_lines (released_part maximum actual)) in
    record {
      lines = settled_lines maximum actual;
      posted =
          second
          ∙ ap (λ l. l ++ tail) first
          ∙ append_assoc s.ledger (posted_lines actual (settlement_lines maximum actual)) tail;
      balanced = balanced;
      available_moved =
          rw (wallet, ad, ac)
            (settle_back s.wallet.available_balance (released_part maximum actual)
              (overage_part maximum actual));
      reserved_moved = rw (wallet, rd, rc) (add_back s.wallet.reserved_balance maximum);
    }

write_reservation-Booked :
    (id : Text) (r : ReservationRequest) (maximum : ℕ) (s : Store)
    → Succeeds (λ result. Booked s result.1) (write_reservation id r maximum s)
unfolding write_reservation
write_reservation-Booked id r maximum s =
    search (Succeeds-bind, Succeeds-fail_if, post_if_any-bind, held-Booked) depth 8

reserve_fresh-Booked :
    (id : Text) (r : ReservationRequest) (maximum : ℕ) (s : Store)
    → Succeeds (λ result. Booked s result.1) (reserve_fresh id r maximum s)
unfolding reserve_fresh
reserve_fresh-Booked id r maximum s = search (Succeeds-fail_if, write_reservation-Booked) depth 8

reserve_known-Booked :
    (known : Option Operation) (id : Text) (r : ReservationRequest) (maximum : ℕ) (s : Store)
    → Succeeds (λ result. Booked s result.2) (reserve_known known id r maximum s)
reserve_known-Booked (some o) id r maximum s =
    if_lem (Succeeds (λ result. Booked s result.2)) (conflicts o r) (err idempotency_conflict)
      (ok (o, true, s)) (λ _. tt) (λ _. Booked-refl s)
reserve_known-Booked none id r maximum s =
    Succeeds-bind (λ result. Booked s result.2) (reserve_fresh id r maximum s)
      (λ a. ok (a.0, false, a.1))
      (λ a e.
        Succeeds-ok (λ result. Booked s result.1) (reserve_fresh id r maximum s) e
          (reserve_fresh-Booked id r maximum s))

-- Every reservation that succeeds is booked: its journal lines balance, and the available and the
-- reserved balance of the wallet change by exactly what the lines say. A repeated request posts
-- nothing.
pub reserve_funding-Booked :
    (id : Text) (r : ReservationRequest) (s : Store)
    → Succeeds (λ result. Booked s result.2) (reserve_funding id r s)
unfolding reserve_funding
reserve_funding-Booked id r s =
    search (Succeeds-bind, Succeeds-fail_if, reserve_known-Booked) depth 8

settle_open-Booked :
    (o : Operation) (r : SettlementRequest) (s : Store)
    → Succeeds (λ result. Booked s result.1) (settle_open o r s)
unfolding settle_open
settle_open-Booked o r s = search (Succeeds-bind, post_if_any-bind, settled-Booked) depth 16

settle_found-Booked :
    (found : Option Operation) (r : SettlementRequest) (s : Store)
    → Succeeds (λ result. Booked s result.1) (settle_found found r s)
settle_found-Booked none r s = tt
settle_found-Booked (some o) r s =
    if_lem (Succeeds (λ result. Booked s result.1)) (is_funding_terminal o.status) (ok (o, s))
      (settle_open o r s) (λ _. Booked-refl s) (λ _. settle_open-Booked o r s)

-- Every settlement that succeeds is booked: its journal lines, of the charge and of what is released,
-- balance together, and the available and the reserved balance change by exactly what the lines say. A
-- repeated settlement posts nothing.
pub settle_funding-Booked :
    (r : SettlementRequest) (s : Store)
    → Succeeds (λ result. Booked s result.1) (settle_funding r s)
unfolding settle_funding
settle_funding-Booked r s = search (Succeeds-fail_if, settle_found-Booked) depth 8
