-- ===== src/Scheduler/Rearrange.antt =====
-- The sort and the exchange of two elements of internal/scheduler/scheduler.go keep the elements.
use model_dock.Base.{Bool, Option, none, some, List, [], ◌∷◌, All, if_lem}
use model_dock.Text.{Text, text_eq}
use model_dock.Scheduler.Select.{
  Ranked, insert_sorted, stable_sort, after_swap, swap_into, or_unchanged, bring_to_front,
}

-- A property of every element survives the sort and the exchange of two elements.
module _ (P : Ranked → Type 0) where
  pub insert_sorted-All :
      (less : Ranked → Ranked → Bool) (x : Ranked) (xs : List Ranked)
      → P x
      → All P xs
      → All P (insert_sorted less x xs)
  unfolding insert_sorted
  insert_sorted-All less x [] p ps = (p, tt)
  insert_sorted-All less x (y ∷ ys) p (q, qs) =
      if_lem (All P) (less y x) (y ∷ insert_sorted less x ys) (x ∷ y ∷ ys)
        (λ _. (q, insert_sorted-All less x ys p qs)) (λ _. (p, (q, qs)))

  pub stable_sort-All :
      (less : Ranked → Ranked → Bool) (xs : List Ranked) → All P xs → All P (stable_sort less xs)
  unfolding stable_sort
  stable_sort-All less [] ps = tt
  stable_sort-All less (x ∷ xs) (p, ps) =
      insert_sorted-All less x (stable_sort less xs) p (stable_sort-All less xs ps)

  -- What `swap_into` returns.
  abbrev Swapped : Option (Ranked × List Ranked) → Type 0
  Swapped none = Unit
  Swapped (some (y, rest)) = P y × All P rest

  after_swap-All :
      (y : Ranked) (o : Option (Ranked × List Ranked)) → P y → Swapped o → Swapped (after_swap y o)
  after_swap-All y none p h = tt
  after_swap-All y (some (z, rest)) p (q, qs) = (q, (p, qs))

  swap_into-All :
      (x : Ranked) (chosen : Text) (xs : List Ranked)
      → P x
      → All P xs
      → Swapped (swap_into x chosen xs)
  unfolding swap_into
  swap_into-All x chosen [] p ps = tt
  swap_into-All x chosen (y ∷ ys) p (q, qs) =
      if_lem Swapped (text_eq y.credential.id chosen) (some (y, x ∷ ys))
        (after_swap y (swap_into x chosen ys)) (λ _. (q, (p, qs)))
        (λ _. after_swap-All y (swap_into x chosen ys) q (swap_into-All x chosen ys p qs))

  or_unchanged-All :
      (x : Ranked) (xs : List Ranked) (o : Option (Ranked × List Ranked))
      → P x
      → All P xs
      → Swapped o
      → All P (or_unchanged x xs o)
  or_unchanged-All x xs none p ps h = (p, ps)
  or_unchanged-All x xs (some (y, rest)) p ps h = h

  pub bring_to_front-All :
      (chosen : Text) (xs : List Ranked) → All P xs → All P (bring_to_front chosen xs)
  unfolding bring_to_front
  bring_to_front-All chosen [] ps = tt
  bring_to_front-All chosen (x ∷ xs) (p, ps) =
      if_lem (All P) (text_eq x.credential.id chosen) (x ∷ xs)
        (or_unchanged x xs (swap_into x chosen xs)) (λ _. (p, ps))
        (λ _. or_unchanged-All x xs (swap_into x chosen xs) p ps (swap_into-All x chosen xs p ps))
