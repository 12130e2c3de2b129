-- ===== src/Scheduler/Acquire.antt =====
-- `SelectConstrainedForOrganization` on the counters of Redis: a selection takes exactly one slot, and
-- a request is turned away only if no candidate has one.
use model_dock.Base.{
  ℕ, ◌+◌, ◌-◌, ◌≡◌, refl, sym, ap, subst, Bool, true, false, Option, none, some, List, [], ◌∷◌,
  arith, if◌then◌else◌, All, if_lem,
}
use model_dock.Base.Int.{ℤ, pos, ltb_ℤ, leb_ℤ}
use model_dock.Text.{Text, text_eq}
use model_dock.Scheduler.{Credential, CredentialConstraints, block_shared, is_eligible}
use model_dock.Scheduler.Counters.{
  Redis, update, acquire_script, choose_weighted_redis, redis_counter,
}
use model_dock.Scheduler.Select.{
  RoutingPolicy, priority_weighted, least_loaded, weighted_round_robin, parse_policy, Ranked,
  no_credential, SelectResult, selected, failed, rank, less_under, insert_sorted, stable_sort,
  top_candidates, swap_into, or_unchanged, bring_to_front, add_ranked, read_active, rank_candidates,
  take_turn, acquire_answer, acquire_first, acquire_turn, select_ranked, select_from,
  select_constrained,
}
use model_dock.Scheduler.Rearrange.{stable_sort-All, bring_to_front-All}

-- A list that is not empty.
abbrev IsCons : List Ranked → Type 0
IsCons [] = ⊥
IsCons (x ∷ xs) = Unit

insert_sorted-IsCons :
    (less : Ranked → Ranked → Bool) (x : Ranked) (xs : List Ranked)
    → IsCons (insert_sorted less x xs)
unfolding insert_sorted
insert_sorted-IsCons less x [] = tt
insert_sorted-IsCons less x (y ∷ ys) =
    if_lem IsCons (less y x) (y ∷ insert_sorted less x ys) (x ∷ y ∷ ys) (λ _. tt) (λ _. tt)

bring_to_front-IsCons :
    (chosen : Text) (x : Ranked) (xs : List Ranked) → IsCons (bring_to_front chosen (x ∷ xs))
unfolding bring_to_front
bring_to_front-IsCons chosen x xs =
    if_lem IsCons (text_eq x.credential.id chosen) (x ∷ xs)
      (or_unchanged x xs (swap_into x chosen xs)) (λ _. tt) (λ _. unchanged (swap_into x chosen xs))
  where
    unchanged : (o : Option (Ranked × List Ranked)) → IsCons (or_unchanged x xs o)
    unchanged none = tt
    unchanged (some (y, rest)) = tt

-- A count that leaves room under the limit.
abbrev pub HasRoom : (Text → ℕ) → Text → ℤ → Type 0
HasRoom active id limit = leb_ℤ limit (pos (active id)) ≡ false

abbrev pub Free : (Text → ℕ) → Ranked → Type 0
Free active r = HasRoom active r.credential.id r.credential.max_concurrency

-- A candidate that a request cannot use.
abbrev pub IsUnusable : Redis → CredentialConstraints → Text → Bool → Credential → Type 0
IsUnusable redis constraints organization blocked c =
    is_eligible constraints organization blocked c ≡ true
    → leb_ℤ c.max_concurrency (pos (redis.active c.id)) ≡ true

module _ (redis : Redis) (constraints : CredentialConstraints) (organization : Text)
    (blocked : Bool) where
  abbrev Unusable : Credential → Type 0
  Unusable = IsUnusable redis constraints organization blocked

  -- The ranked candidates have room, and are none only if no candidate is usable.
  abbrev Complete : List Credential → Option (List Ranked) → Type 0
  Complete cs none = ⊥
  Complete cs (some []) = All Unusable cs
  Complete cs (some (r ∷ rest)) = All (Free redis.active) (r ∷ rest)

  skipped :
      (c : Credential) (cs : List Credential) (o : Option (List Ranked))
      → Unusable c
      → Complete cs o
      → Complete (c ∷ cs) o
  skipped c cs (some []) u h = (u, h)
  skipped c cs (some (r ∷ rest)) u h = h
  skipped c cs none u h = h

  added :
      (c : Credential) (cs : List Credential) (o : Option (List Ranked))
      → Complete cs o
      → Complete (c ∷ cs) (add_ranked redis_counter c (pos (redis.active c.id)) o)
  unfolding rank
  added c cs none h = h
  added c cs (some list) h =
      if_lem (Complete (c ∷ cs)) (leb_ℤ c.max_concurrency (pos (redis.active c.id))) (some list)
        (some (rank c (pos (redis.active c.id)) ∷ list))
        (λ full. skipped c cs (some list) (λ _. full) h) (λ free. put list free h)
    where
      put :
          (xs : List Ranked)
          → HasRoom redis.active c.id c.max_concurrency
          → Complete cs (some xs)
          → Complete (c ∷ cs) (some (rank c (pos (redis.active c.id)) ∷ xs))
      put [] free k = (free, tt)
      put (x ∷ xs) free k = (free, k)

  rank_candidates-Complete :
      (cs : List Credential)
      → Complete cs (rank_candidates redis_counter redis constraints organization blocked cs)
  unfolding rank_candidates
  rank_candidates-Complete [] = tt
  rank_candidates-Complete (c ∷ cs) =
      let others = rank_candidates redis_counter redis constraints organization blocked cs in
      let ih = rank_candidates-Complete cs in
      if_lem (Complete (c ∷ cs)) (is_eligible constraints organization blocked c)
        (read_active redis_counter (some (pos (redis.active c.id))) c others) others
        (λ _. added c cs others ih) (λ no. skipped c cs others (λ yes. absurd (ground arith)) ih)

-- What taking a turn leaves: the counts, and a list of candidates with room.
abbrev TurnKeeps : Redis → Option (List Ranked) × Redis → Type 0
TurnKeeps redis (none, after) = ⊥
TurnKeeps redis (some list, after) =
    (after.active ≡ redis.active) × IsCons list × All (Free redis.active) list

take_turn-Keeps :
    (policy : RoutingPolicy) (redis : Redis) (group : Text) (list : List Ranked)
    → IsCons list
    → All (Free redis.active) list
    → TurnKeeps redis (take_turn redis_counter policy redis group list)
unfolding take_turn choose_weighted_redis
take_turn-Keeps weighted_round_robin redis group (first ∷ second ∷ rest) c h =
    let (chosen, after) =
      choose_weighted_redis redis group
        (top_candidates first.tier first.credential.effective_priority (first ∷ second ∷ rest)) in
    (
      refl,
      bring_to_front-IsCons chosen first (second ∷ rest),
      bring_to_front-All (Free redis.active) chosen (first ∷ second ∷ rest) h,
    )
take_turn-Keeps weighted_round_robin redis group (first ∷ []) c h = (refl, c, h)
take_turn-Keeps weighted_round_robin redis group [] c h = (refl, c, h)
take_turn-Keeps least_loaded redis group list c h = (refl, c, h)
take_turn-Keeps priority_weighted redis group list c h = (refl, c, h)

-- A slot that was free is granted, and counted.
pub acquire_script-granted :
    (redis : Redis) (id : Text) (limit : ℤ)
    → HasRoom redis.active id limit
    → acquire_script redis id limit ≡ (
      (true, pos (redis.active id + 1)),
      record redis { active = update redis.active id (redis.active id + 1) },
    )
unfolding acquire_script
acquire_script-granted redis id limit room =
    let fits : ltb_ℤ limit (pos (redis.active id + 1)) ≡ false = ground arith in
    ap
      (λ b. if b then ((false, pos (redis.active id + 1 - 1)), redis) else (
        (true, pos (redis.active id + 1)),
        record redis { active = update redis.active id (redis.active id + 1) },
      ))
      fits

-- How a request changes the counts: a selection takes one slot of the credential, which was below its
-- capacity, and a request is turned away only when no candidate is usable.
abbrev pub TakesSlot :
    Redis → CredentialConstraints → Text → List Credential → SelectResult × Redis → Type 0
TakesSlot redis constraints organization candidates (selected sel, after) =
    let id = sel.credential.id in
    let n = redis.active id in
    (after.active ≡ update redis.active id (n + 1))
    × (sel.credential.active_requests ≡ pos (n + 1))
    × (leb_ℤ sel.credential.max_concurrency (pos n) ≡ false)
TakesSlot redis constraints organization candidates (failed e, after) =
    (e ≡ no_credential)
    × (after.active ≡ redis.active)
    × All
        (IsUnusable redis constraints organization
          (block_shared constraints organization candidates))
        candidates

module _ (redis : Redis) (constraints : CredentialConstraints) (organization : Text)
    (candidates : List Credential) where
  acquire_turn-TakesSlot :
      (policy : RoutingPolicy) (blocked : Bool) (turn : Option (List Ranked) × Redis)
      → TurnKeeps redis turn
      → TakesSlot redis constraints organization candidates
          (acquire_turn redis_counter policy blocked turn)
  unfolding acquire_first
  acquire_turn-TakesSlot policy blocked (some (r ∷ rest), after) (same, c, (free, _)) =
      let id = r.credential.id in
      let room = subst (λ f. HasRoom f id r.credential.max_concurrency) (sym same) free in
      subst
        (λ a. TakesSlot redis constraints organization candidates (
          acquire_answer redis_counter policy blocked r (some a.0) a.1
            (acquire_first redis_counter policy blocked a.1 rest)))
        (sym (acquire_script-granted after id r.credential.max_concurrency room))
        (ap (λ f. update f id (f id + 1)) same, ap (λ f. pos (f id + 1)) same, free)
  acquire_turn-TakesSlot policy blocked (some [], after) (same, c, h) = absurd c
  acquire_turn-TakesSlot policy blocked (none, after) h = absurd h

  select_ranked-TakesSlot :
      (policy : RoutingPolicy) (group : Text) (ranked : Option (List Ranked))
      → Complete redis constraints organization
          (block_shared constraints organization candidates)
          candidates
          ranked
      → TakesSlot redis constraints organization candidates (
          select_ranked redis_counter policy
            (block_shared constraints organization candidates)
            redis
            group
            ranked)
  unfolding take_turn stable_sort acquire_first
  select_ranked-TakesSlot policy group none h = absurd h
  select_ranked-TakesSlot weighted_round_robin group (some []) h = (refl, refl, h)
  select_ranked-TakesSlot least_loaded group (some []) h = (refl, refl, h)
  select_ranked-TakesSlot priority_weighted group (some []) h = (refl, refl, h)
  select_ranked-TakesSlot policy group (some (r ∷ rest)) h = acquire_turn-TakesSlot policy _ _ (
      take_turn-Keeps policy redis group (stable_sort (less_under policy) (r ∷ rest))
        (insert_sorted-IsCons (less_under policy) r (stable_sort (less_under policy) rest))
        (stable_sort-All (Free redis.active) (less_under policy) (r ∷ rest) h))

-- On the counters of Redis, a selection takes exactly one slot: the count of the credential, which
-- was below its capacity, grows by one and is what the selection reports. A request is turned away
-- only with `no_credential`, which changes no count, and only if every candidate is refused by a
-- filter or has reached its capacity.
pub select_constrained-TakesSlot :
    (redis : Redis) (constraints : CredentialConstraints) (organization group requested : Text)
    (candidates : List Credential)
    → TakesSlot redis constraints organization candidates (
        select_constrained redis_counter redis group requested constraints organization
          (some candidates))
unfolding select_constrained select_from
select_constrained-TakesSlot redis constraints organization group requested [] = (refl, refl, tt)
select_constrained-TakesSlot redis constraints organization group requested (c ∷ rest) =
    let candidates = c ∷ rest in
    select_ranked-TakesSlot redis constraints organization candidates (parse_policy requested) group
      _
      (rank_candidates-Complete redis constraints organization
        (block_shared constraints organization candidates) candidates)
