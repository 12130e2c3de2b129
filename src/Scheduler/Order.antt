-- ===== src/Scheduler/Order.antt =====
-- Which of the usable credentials is selected.
use model_dock.Base.{
  ℕ, ◌≤◌, ◌≡◌, ◌≢◌, refl, sym, subst, Bool, true, false, Option, none, some, List, [], ◌∷◌, arith,
  All, if_lem,
}
use model_dock.Base.Int.{pos, leb_ℤ}
use model_dock.Text.{Text}
use model_dock.Scheduler.{Credential, CredentialConstraints, block_shared, is_eligible}
use model_dock.Scheduler.Counters.{Redis, redis_counter}
use model_dock.Scheduler.Select.{
  RoutingPolicy, priority_weighted, least_loaded, weighted_round_robin, parse_policy, Ranked,
  SelectResult, selected, failed, rank, tier_of, tier_above, decide_by, less_loaded, less_weighted,
  less_under, insert_sorted, stable_sort, add_ranked, read_active, rank_candidates, take_turn,
  acquire_answer, acquire_first, select_ranked, select_from, select_constrained,
}
use model_dock.Scheduler.Rearrange.{insert_sorted-All, stable_sort-All}
use model_dock.Scheduler.Acquire.{Free, acquire_script-granted}

-- The head of a list is of the highest tier in it.
abbrev TopFirst : List Ranked → Type 0
TopFirst [] = Unit
TopFirst (x ∷ xs) = All (λ r. r.tier ≤ x.tier) xs

-- An order that decides by the tier first.
abbrev RespectsTier : (Ranked → Ranked → Bool) → Type 0
RespectsTier less =
    (i j : Ranked) → (less i j ≡ true → j.tier ≤ i.tier) × (less i j ≡ false → i.tier ≤ j.tier)

decide_by-RespectsTier : (next : Ranked → Ranked → Bool) → RespectsTier (decide_by tier_above next)
decide_by-RespectsTier next i j = (λ h. ground arith, λ h. ground arith)

less_under-RespectsTier : (policy : RoutingPolicy) → RespectsTier (less_under policy)
unfolding less_under less_loaded less_weighted
less_under-RespectsTier least_loaded = decide_by-RespectsTier _
less_under-RespectsTier priority_weighted = decide_by-RespectsTier _
less_under-RespectsTier weighted_round_robin = decide_by-RespectsTier _

All-le : (a b : ℕ) (xs : List Ranked) → a ≤ b → All (λ r. r.tier ≤ a) xs → All (λ r. r.tier ≤ b) xs
All-le a b [] h ps = tt
All-le a b (x ∷ xs) h (p, ps) = (omega (arith, h, p), All-le a b xs h ps)

insert_sorted-All-le :
    (less : Ranked → Ranked → Bool) (x : Ranked) (xs : List Ranked) (t : ℕ)
    → x.tier ≤ t
    → All (λ r. r.tier ≤ t) xs
    → All (λ r. r.tier ≤ t) (insert_sorted less x xs)
insert_sorted-All-le less x xs t p ps = insert_sorted-All (λ r. r.tier ≤ t) less x xs p ps

insert_sorted-TopFirst :
    (less : Ranked → Ranked → Bool) (respects : RespectsTier less) (x : Ranked) (xs : List Ranked)
    → TopFirst xs
    → TopFirst (insert_sorted less x xs)
unfolding insert_sorted
insert_sorted-TopFirst less respects x [] h = tt
insert_sorted-TopFirst less respects x (y ∷ ys) h =
    if_lem TopFirst (less y x) (y ∷ insert_sorted less x ys) (x ∷ y ∷ ys)
      (λ e. insert_sorted-All-le less x ys y.tier ((respects y x).0 e) h)
      (λ e. ((respects y x).1 e, All-le y.tier x.tier ys ((respects y x).1 e) h))

stable_sort-TopFirst :
    (less : Ranked → Ranked → Bool) (respects : RespectsTier less) (xs : List Ranked)
    → TopFirst (stable_sort less xs)
unfolding stable_sort
stable_sort-TopFirst less respects [] = tt
stable_sort-TopFirst less respects (x ∷ xs) =
    insert_sorted-TopFirst less respects x (stable_sort less xs)
      (stable_sort-TopFirst less respects xs)

-- What holds of every element of the sorted list holds of every element that was sorted.
module _ (P : Ranked → Type 0) where
  All-insert_sorted :
      (less : Ranked → Ranked → Bool) (x : Ranked) (xs : List Ranked)
      → All P (insert_sorted less x xs)
      → P x × All P xs
  unfolding insert_sorted
  All-insert_sorted less x [] h = h
  All-insert_sorted less x (y ∷ ys) h =
      if_lem (λ l. All P l → P x × (P y × All P ys)) (less y x) (y ∷ insert_sorted less x ys)
        (x ∷ y ∷ ys) (λ _ k. let (px, ps) = All-insert_sorted less x ys k.1 in (px, (k.0, ps)))
        (λ _ k. k) h

  All-stable_sort :
      (less : Ranked → Ranked → Bool) (xs : List Ranked) → All P (stable_sort less xs) → All P xs
  unfolding stable_sort
  All-stable_sort less [] h = tt
  All-stable_sort less (x ∷ xs) h =
      let (p, ps) = All-insert_sorted less x (stable_sort less xs) h in
      (p, All-stable_sort less xs ps)

-- A candidate that is usable has at most this tier.
abbrev pub IsBelow : Redis → CredentialConstraints → Text → Bool → ℕ → Credential → Type 0
IsBelow redis constraints organization blocked t c =
    is_eligible constraints organization blocked c ≡ true
    → leb_ℤ c.max_concurrency (pos (redis.active c.id)) ≡ false
    → tier_of c ≤ t

abbrev Good : Redis → Ranked → Type 0
Good redis r = Free redis.active r × (r.tier ≡ tier_of r.credential)

module _ (redis : Redis) (constraints : CredentialConstraints) (organization : Text)
    (blocked : Bool) where
  -- The ranked candidates have room, and a bound of their tiers bounds every usable candidate.
  abbrev Covers : List Credential → Option (List Ranked) → Type 0
  Covers cs none = Unit
  Covers cs (some list) =
      All (Good redis) list
      × ((t : ℕ)
          → All (λ r. r.tier ≤ t) list
          → All (IsBelow redis constraints organization blocked t) cs)

  Covers-skipped :
      (c : Credential) (cs : List Credential) (o : Option (List Ranked))
      → ((t : ℕ) → IsBelow redis constraints organization blocked t c)
      → Covers cs o
      → Covers (c ∷ cs) o
  Covers-skipped c cs none u h = tt
  Covers-skipped c cs (some list) u (good, f) = (good, λ t ps. (u t, f t ps))

  Covers-added :
      (c : Credential) (cs : List Credential) (o : Option (List Ranked))
      → Covers cs o
      → Covers (c ∷ cs) (add_ranked redis_counter c (pos (redis.active c.id)) o)
  unfolding rank
  Covers-added c cs none h = tt
  Covers-added c cs (some list) (good, f) =
      if_lem (Covers (c ∷ cs)) (leb_ℤ c.max_concurrency (pos (redis.active c.id))) (some list)
        (some (rank c (pos (redis.active c.id)) ∷ list))
        (λ full. Covers-skipped c cs (some list) (λ t _ free. absurd (ground arith)) (good, f))
        (λ free. (((free, refl), good), λ t h. (λ _ _. h.0, f t h.1)))

  rank_candidates-Covers :
      (cs : List Credential)
      → Covers cs (rank_candidates redis_counter redis constraints organization blocked cs)
  unfolding rank_candidates
  rank_candidates-Covers [] = (tt, λ t _. tt)
  rank_candidates-Covers (c ∷ cs) =
      let others = rank_candidates redis_counter redis constraints organization blocked cs in
      let ih = rank_candidates-Covers cs in
      if_lem (Covers (c ∷ cs)) (is_eligible constraints organization blocked c)
        (read_active redis_counter (some (pos (redis.active c.id))) c others) others
        (λ _. Covers-added c cs others ih)
        (λ no_e. Covers-skipped c cs others (λ t e _. absurd (ground arith)) ih)

-- No usable candidate has a higher tier than the one that is selected.
abbrev pub IsTop : Redis → CredentialConstraints → Text → List Credential → SelectResult → Type 0
IsTop redis constraints organization candidates (failed e) = Unit
IsTop redis constraints organization candidates (selected sel) =
    All
      (IsBelow redis constraints organization (block_shared constraints organization candidates)
        (tier_of sel.credential))
      candidates

module _ (redis : Redis) (constraints : CredentialConstraints) (organization : Text)
    (candidates : List Credential) where
  acquire_first-IsTop :
      (policy : RoutingPolicy) (blocked : Bool) (list : List Ranked)
      → All (Good redis) list
      → TopFirst list
      → ((t : ℕ)
          → All (λ r. r.tier ≤ t) list
          → All
              (IsBelow redis constraints organization
                (block_shared constraints organization candidates)
                t)
              candidates)
      → IsTop redis constraints organization candidates
          (acquire_first redis_counter policy blocked redis list).0
  unfolding acquire_first
  acquire_first-IsTop policy blocked [] good top f = tt
  acquire_first-IsTop policy blocked (r ∷ rest) ((free, tier), good) top f =
      subst
        (λ a.
          IsTop redis constraints organization candidates
            (acquire_answer redis_counter policy blocked r (some a.0) a.1
              (acquire_first redis_counter policy blocked a.1 rest)).0)
        (sym (acquire_script-granted redis r.credential.id r.credential.max_concurrency free))
        (subst
          (λ t.
            All
              (IsBelow redis constraints organization
                (block_shared constraints organization candidates) t)
              candidates)
          tier (f r.tier (omega arith, top)))

  select_ranked-IsTop :
      (policy : RoutingPolicy) (group : Text) (ranked : Option (List Ranked))
      → policy ≢ weighted_round_robin
      → Covers redis constraints organization
          (block_shared constraints organization candidates)
          candidates
          ranked
      → IsTop redis constraints organization candidates
          (select_ranked redis_counter policy
            (block_shared constraints organization candidates)
            redis
            group
            ranked).0
  unfolding take_turn
  select_ranked-IsTop policy group none ne h = tt
  select_ranked-IsTop weighted_round_robin group (some list) ne h = absurd (ne refl)
  select_ranked-IsTop least_loaded group (some list) ne (good, f) =
      acquire_first-IsTop least_loaded (block_shared constraints organization candidates)
        (stable_sort (less_under least_loaded) list)
        (stable_sort-All (Good redis) (less_under least_loaded) list good)
        (stable_sort-TopFirst (less_under least_loaded) (less_under-RespectsTier least_loaded) list)
        (λ t h. f t (All-stable_sort (λ r. r.tier ≤ t) (less_under least_loaded) list h))
  select_ranked-IsTop priority_weighted group (some list) ne (good, f) =
      acquire_first-IsTop priority_weighted (block_shared constraints organization candidates)
        (stable_sort (less_under priority_weighted) list)
        (stable_sort-All (Good redis) (less_under priority_weighted) list good)
        (stable_sort-TopFirst (less_under priority_weighted)
          (less_under-RespectsTier priority_weighted) list)
        (λ t h. f t (All-stable_sort (λ r. r.tier ≤ t) (less_under priority_weighted) list h))

-- On the counters of Redis, and under every policy but the weighted round robin, no usable candidate
-- has a higher tier than the credential that is selected: an organization's own credential comes first,
-- then the platform's, then what is kept as a fallback.
pub select_constrained-IsTop :
    (redis : Redis) (constraints : CredentialConstraints) (organization group requested : Text)
    (candidates : List Credential)
    → parse_policy requested ≢ weighted_round_robin
    → IsTop redis constraints organization candidates
        (select_constrained redis_counter redis group requested constraints organization
          (some candidates)).0
unfolding select_constrained select_from
select_constrained-IsTop redis constraints organization group requested [] ne = tt
select_constrained-IsTop redis constraints organization group requested (c ∷ rest) ne =
    let candidates = c ∷ rest in
    select_ranked-IsTop redis constraints organization candidates (parse_policy requested) group _
      ne
      (rank_candidates-Covers redis constraints organization
        (block_shared constraints organization candidates) candidates)
