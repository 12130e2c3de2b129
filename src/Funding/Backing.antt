-- ===== src/Funding/Backing.antt =====
-- When the lots have room for what is given back to them.
use model_dock.Base.{
  ℕ, ◌+◌, ◌-◌, ◌≤◌, ◌≡◌, refl, ap, ◌⊎◌, inl, inr, true, false, Option, none, some, List, [], ◌∷◌,
  arith, leb, ◌==◌, if◌then◌else◌, if_lem, All,
}
use model_dock.Text.{Text, text_eq}
use model_dock.Funding.{Lot, Allocation}
use model_dock.Funding.Lots.{
  lesser, settle_allocations, after_lot, give_back, give_back_if_any, then_lots, give_back_all,
}

-- What is held of a lot.
abbrev pub held_in : Text → List Allocation → ℕ
held_in id [] = 0
held_in id (a ∷ rest) = (if text_eq id a.lot_id then a.reserved else 0) + held_in id rest

-- The lot has room for everything that is held of it.
abbrev pub HasPlace : List Allocation → Lot → Type 0
HasPlace held l = l.remaining + held_in l.id held ≤ l.original

abbrev pub Present : Text → List Lot → Type 0
Present id [] = ⊥
Present id (l ∷ lots) = (text_eq l.id id ≡ true) ⊎ Present id lots

-- Every lot has room for what is held of it, and what is held is of a lot that is there.
pub record IsBacked (lots : List Lot) (held : List Allocation) : Type 0 where
  pub place : All (HasPlace held) lots
  pub present : All (λ a. Present a.lot_id lots) held

HasPlace-tail :
    (a : Allocation) (rest : List Allocation) (lots : List Lot)
    → All (HasPlace (a ∷ rest)) lots
    → All (HasPlace rest) lots
HasPlace-tail a rest [] h = tt
HasPlace-tail a rest (l ∷ lots) (p, ps) = (omega (arith, p), HasPlace-tail a rest lots ps)

-- The lots that result have room for what is still held, and are the same ones.
abbrev GivenBack : List Allocation → List Lot → Option (List Lot) → Type 0
GivenBack rest lots none = ⊥
GivenBack rest lots (some after) =
    All (HasPlace rest) after × ((k : Text) → Present k lots → Present k after)

after_lot-GivenBack :
    (rest : List Allocation) (l : Lot) (lots : List Lot) (o : Option (List Lot))
    → HasPlace rest l
    → GivenBack rest lots o
    → GivenBack rest (l ∷ lots) (after_lot l o)
after_lot-GivenBack rest l lots none p h = h
after_lot-GivenBack rest l lots (some after) p (ps, keeps) = ((p, ps), keep)
  where
    keep : (k : Text) → Present k (l ∷ lots) → Present k (l ∷ after)
    keep k (inl e) = inl e
    keep k (inr i) = inr (keeps k i)

give_back-GivenBack :
    (a : Allocation) (rest : List Allocation) (n : ℕ) (lots : List Lot)
    → n ≤ a.reserved
    → Present a.lot_id lots
    → All (HasPlace (a ∷ rest)) lots
    → GivenBack rest lots (give_back a.lot_id n lots)
unfolding give_back
give_back-GivenBack a rest n [] fits there h = there
give_back-GivenBack a rest n (l ∷ lots) fits there (p, ps) =
    let grown = record l { remaining = l.remaining + n } in
    if_lem (GivenBack rest (l ∷ lots)) (text_eq l.id a.lot_id)
      (if leb (l.remaining + n) l.original then some (grown ∷ lots) else none)
      (after_lot l (give_back a.lot_id n lots))
      (λ e.
        if_lem (GivenBack rest (l ∷ lots)) (leb (l.remaining + n) l.original) (some (grown ∷ lots))
          none (λ room. ((ground arith, HasPlace-tail a rest lots ps), λ k i. i))
          (λ full. ground arith))
      (λ e.
        after_lot-GivenBack rest l lots (give_back a.lot_id n lots) (omega (arith, p))
          (give_back-GivenBack a rest n lots fits (elsewhere e there) ps))
  where
    elsewhere : text_eq l.id a.lot_id ≡ false → Present a.lot_id (l ∷ lots) → Present a.lot_id lots
    elsewhere e (inl same) = absurd (ground arith)
    elsewhere e (inr i) = i

-- What each allocation releases is a part of what it reserves.
abbrev Partial : Allocation → Type 0
Partial a = a.released ≤ a.reserved

Present-kept :
    (lots after : List Lot) (held : List Allocation)
    → ((k : Text) → Present k lots → Present k after)
    → All (λ a. Present a.lot_id lots) held
    → All (λ a. Present a.lot_id after) held
Present-kept lots after [] keeps h = tt
Present-kept lots after (a ∷ held) keeps (p, ps) =
    (keeps a.lot_id p, Present-kept lots after held keeps ps)

give_back_if_any-GivenBack :
    (a : Allocation) (rest : List Allocation) (lots : List Lot)
    → Partial a
    → Present a.lot_id lots
    → All (HasPlace (a ∷ rest)) lots
    → GivenBack rest lots (give_back_if_any a lots)
give_back_if_any-GivenBack a rest lots part there h =
    if_lem (GivenBack rest lots) (a.released == 0) (some lots) (give_back a.lot_id a.released lots)
      (λ _. (HasPlace-tail a rest lots h, λ k i. i))
      (λ _. give_back-GivenBack a rest a.released lots part there h)

-- The giving back succeeds.
abbrev IsGiven : Option (List Lot) → Type 0
IsGiven none = ⊥
IsGiven (some after) = Unit

then_lots-IsGiven :
    (rest : List Allocation) (lots : List Lot) (o : Option (List Lot))
    (f : List Lot → Option (List Lot))
    → GivenBack rest lots o
    → ((after : List Lot)
        → All (HasPlace rest) after
        → ((k : Text) → Present k lots → Present k after)
        → IsGiven (f after))
    → IsGiven (then_lots o f)
then_lots-IsGiven rest lots none f h k = h
then_lots-IsGiven rest lots (some after) f (ps, keeps) k = k after ps keeps

give_back_all-IsGiven :
    (settled : List Allocation) (lots : List Lot)
    → All Partial settled
    → All (λ a. Present a.lot_id lots) settled
    → All (HasPlace settled) lots
    → IsGiven (give_back_all settled lots)
unfolding give_back_all
give_back_all-IsGiven [] lots part there h = tt
give_back_all-IsGiven (a ∷ rest) lots (part, parts) (there, theres) h =
    then_lots-IsGiven rest lots (give_back_if_any a lots) (give_back_all rest)
      (give_back_if_any-GivenBack a rest lots part there h)
      (λ after ps keeps.
        give_back_all-IsGiven rest after parts (Present-kept lots after rest keeps theres) ps)

settle_allocations-Partial :
    (amount : ℕ) (held : List Allocation) → All Partial (settle_allocations amount held).1
unfolding settle_allocations
settle_allocations-Partial amount [] = tt
settle_allocations-Partial amount (a ∷ rest) =
    (omega arith, settle_allocations-Partial (amount - lesser a.reserved amount) rest)

settle_allocations-Present :
    (amount : ℕ) (held : List Allocation) (lots : List Lot)
    → All (λ a. Present a.lot_id lots) held
    → All (λ a. Present a.lot_id lots) (settle_allocations amount held).1
unfolding settle_allocations
settle_allocations-Present amount [] lots h = tt
settle_allocations-Present amount (a ∷ rest) lots (p, ps) =
    (p, settle_allocations-Present (amount - lesser a.reserved amount) rest lots ps)

held_in-settle_allocations :
    (id : Text) (amount : ℕ) (held : List Allocation)
    → held_in id (settle_allocations amount held).1 ≡ held_in id held
unfolding settle_allocations
held_in-settle_allocations id amount [] = refl
held_in-settle_allocations id amount (a ∷ rest) =
    ap (λ n. (if text_eq id a.lot_id then a.reserved else 0) + n)
      (held_in-settle_allocations id (amount - lesser a.reserved amount) rest)

settle_allocations-HasPlace :
    (amount : ℕ) (held : List Allocation) (lots : List Lot)
    → All (HasPlace held) lots
    → All (HasPlace (settle_allocations amount held).1) lots
settle_allocations-HasPlace amount held [] h = tt
settle_allocations-HasPlace amount held (l ∷ lots) (p, ps) = (
  omega (arith, p, held_in-settle_allocations l.id amount held),
  settle_allocations-HasPlace amount held lots ps,
)

given-some : (o : Option (List Lot)) → IsGiven o → (after : List Lot) × (o ≡ some after)
given-some none h = absurd h
given-some (some after) h = (after, refl)

-- What a settlement does not consume can be given back to lots that back it.
pub give_back_all-settle_allocations :
    (amount : ℕ) (held : List Allocation) (lots : List Lot)
    → IsBacked lots held
    → (after : List Lot) × (give_back_all (settle_allocations amount held).1 lots ≡ some after)
give_back_all-settle_allocations amount held lots b =
    let settled = (settle_allocations amount held).1 in
    given-some (give_back_all settled lots) (
      give_back_all-IsGiven settled lots (settle_allocations-Partial amount held)
        (settle_allocations-Present amount held lots b.present)
        (settle_allocations-HasPlace amount held lots b.place))
