-- ===== src/Funding/Attribution.antt =====
-- What the lots of a wallet hold, before and after an operation.
use model_dock.Base.{
  ℕ, ◌+◌, ◌-◌, ◌≡◌, refl, ap, subst, ◌++◌, ◌⊎◌, inl, inr, Bool, true, false, Option, none, some,
  List, [], ◌∷◌, arith, leb, ◌==◌, if◌then◌else◌, if_lem,
}
use model_dock.Text.{Text, text_eq}
use model_dock.Funding.{
  Lot, Allocation, Funded, ok, err, finance_state, repeated_debit, ◌>>◌, fail_if,
}
use model_dock.Funding.Lots.{
  lesser, held_of, take_lots, settle_allocations, after_lot, give_back, give_back_if_any, then_lots,
  give_back_all, settle_cash_lots, total_remaining, total_reserved, total_consumed, total_released,
  repeats, charge_debits, consumed_debits, overage_debits,
}

held_of-total :
    (id : Text) (take : ℕ) (rest : List Allocation)
    → total_reserved (held_of id take rest) ≡ take + total_reserved rest
unfolding total_reserved
held_of-total id take rest = ground arith

-- Holding an amount takes of the lots what it allocates, which is the amount or, if they have less,
-- everything they have.
pub take_lots_lem :
    (amount : ℕ) (lots : List Lot)
    → let (rest, held) = take_lots amount lots in
      (total_remaining rest + total_reserved held ≡ total_remaining lots)
      × (total_reserved held ≡ lesser (total_remaining lots) amount)
unfolding take_lots total_remaining total_reserved
take_lots_lem amount [] = (refl, ground arith)
take_lots_lem amount (lot ∷ lots) =
    let take = lesser lot.remaining amount in
    let (kept, reached) = take_lots_lem (amount - take) lots in
    let here = held_of-total lot.id take (take_lots (amount - take) lots).1 in
    (ground arith, ground arith)

-- Settling consumes of the allocations what was charged or, if they hold less, everything they hold,
-- releases the rest of each, and leaves what they do not cover.
pub settle_allocations_lem :
    (amount : ℕ) (held : List Allocation)
    → let (left, settled) = settle_allocations amount held in
      (total_consumed settled ≡ lesser (total_reserved held) amount)
      × (total_consumed settled + total_released settled ≡ total_reserved held)
      × (left + total_consumed settled ≡ amount)
unfolding settle_allocations total_consumed total_released total_reserved
settle_allocations_lem amount [] = (ground arith, refl, omega arith)
settle_allocations_lem amount (a ∷ rest) =
    let spent = lesser a.reserved amount in
    let (consumed, split, left) = settle_allocations_lem (amount - spent) rest in
    (ground arith, ground arith, ground arith)

-- What is given back is what the lots have more.
abbrev Grows : ℕ → List Lot → Option (List Lot) → Type 0
Grows n lots none = Unit
Grows n lots (some after) = total_remaining after ≡ total_remaining lots + n

after_lot-Grows :
    (n : ℕ) (lot : Lot) (lots : List Lot) (o : Option (List Lot))
    → Grows n lots o
    → Grows n (lot ∷ lots) (after_lot lot o)
unfolding total_remaining
after_lot-Grows n lot lots none h = tt
after_lot-Grows n lot lots (some after) h = omega (arith, h)

give_back-Grows : (id : Text) (n : ℕ) (lots : List Lot) → Grows n lots (give_back id n lots)
unfolding give_back total_remaining
give_back-Grows id n [] = tt
give_back-Grows id n (lot ∷ lots) =
    let grown = record lot { remaining = lot.remaining + n } ∷ lots in
    if_lem (Grows n (lot ∷ lots)) (text_eq lot.id id)
      (if leb (lot.remaining + n) lot.original then some grown else none)
      (after_lot lot (give_back id n lots))
      (λ _.
        if_lem (Grows n (lot ∷ lots)) (leb (lot.remaining + n) lot.original) (some grown) none
          (λ _. omega arith) (λ _. tt))
      (λ _. after_lot-Grows n lot lots (give_back id n lots) (give_back-Grows id n lots))

Grows-trans :
    (n m : ℕ) (lots after : List Lot) (o : Option (List Lot))
    → total_remaining after ≡ total_remaining lots + n
    → Grows m after o
    → Grows (n + m) lots o
Grows-trans n m lots after none h k = tt
Grows-trans n m lots after (some final) h k = omega (arith, h, k)

then_lots-Grows :
    (n m : ℕ) (lots : List Lot) (o : Option (List Lot)) (f : List Lot → Option (List Lot))
    → Grows n lots o
    → ((after : List Lot) → Grows m after (f after))
    → Grows (n + m) lots (then_lots o f)
then_lots-Grows n m lots none f h k = tt
then_lots-Grows n m lots (some after) f h k = Grows-trans n m lots after (f after) h (k after)

give_back_all-Grows :
    (settled : List Allocation) (lots : List Lot)
    → Grows (total_released settled) lots (give_back_all settled lots)
unfolding give_back_all total_released
give_back_all-Grows [] lots = omega arith
give_back_all-Grows (a ∷ rest) lots =
    then_lots-Grows a.released (total_released rest) lots (give_back_if_any a lots)
      (give_back_all rest)
      (if_lem (Grows a.released lots) (a.released == 0) (some lots)
        (give_back a.lot_id a.released lots) (λ empty. ground arith)
        (λ _. give_back-Grows a.lot_id a.released lots))
      (give_back_all-Grows rest)

-- Of an operation that holds amounts of the lots and is charged, the lots keep what they had and held,
-- less the charge, and less everything if the charge is more.
abbrev pub Charged : ℕ → List Allocation → List Lot → Funded (List Lot × List Allocation) → Type 0
Charged actual held lots (err e) =
    (e ≡ finance_state) ⊎ ((e ≡ repeated_debit) × (repeats (charge_debits actual held lots) ≡ true))
Charged actual held lots (ok (after, settled)) =
    (total_remaining after ≡ total_remaining lots + total_reserved held - actual)
    × (total_consumed settled + total_released settled ≡ total_reserved held)

-- The debits, once what is released is given back.
pub charge_debits-some :
    (actual : ℕ) (held : List Allocation) (lots mid : List Lot)
    → give_back_all (settle_allocations actual held).1 lots ≡ some mid
    → charge_debits actual held lots
      ≡ consumed_debits (settle_allocations actual held).1
        ++ overage_debits (settle_allocations actual held).0 mid
unfolding charge_debits
charge_debits-some actual held lots mid e = rw e refl

Charged-of_lots :
    (actual : ℕ) (held : List Allocation) (lots mid : List Lot)
    → Grows (total_released (settle_allocations actual held).1) lots (some mid)
    → (repeated : Bool) → repeats (charge_debits actual held lots) ≡ repeated
    → Charged actual held lots (
        fail_if repeated repeated_debit
        >> ok (
          (take_lots (settle_allocations actual held).0 mid).0,
          (settle_allocations actual held).1,
        ))
Charged-of_lots actual held lots mid h true e = inr (refl, e)
Charged-of_lots actual held lots mid h false e =
    let (consumed, split, left) = settle_allocations_lem actual held in
    let (kept, reached) = take_lots_lem (settle_allocations actual held).0 mid in
    (ground arith, split)

-- If the settlement of the cash lots succeeds, the lots have what they had together with what was held
-- of them, less what is charged, or nothing if the charge is more than that; and every held amount is
-- consumed or released. It fails with `ErrFinanceState`, or because it inserts two debits of one lot,
-- which the table refuses.
pub settle_cash_lots_lem :
    (actual : ℕ) (held : List Allocation) (lots : List Lot)
    → Charged actual held lots (settle_cash_lots actual held lots)
unfolding settle_cash_lots
settle_cash_lots_lem actual held lots =
    let settled = (settle_allocations actual held).1 in by_lots (give_back_all settled lots) refl
  where
    by_lots :
        (o : Option (List Lot))
        → give_back_all (settle_allocations actual held).1 lots ≡ o
        → Charged actual held lots (settle_cash_lots actual held lots)
    by_lots none e = rw e (inl refl)
    by_lots (some mid) e =
        let grown =
          subst (Grows (total_released (settle_allocations actual held).1) lots) e
            (give_back_all-Grows (settle_allocations actual held).1 lots) in
        rw e (
          Charged-of_lots actual held lots mid grown _
            (ap repeats (charge_debits-some actual held lots mid e)))
