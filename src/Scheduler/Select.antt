-- ===== src/Scheduler/Select.antt =====
-- `SelectConstrainedForOrganization` of internal/scheduler/scheduler.go. A score is the fraction
-- weight / (active + 1) and a load the fraction active / capacity, which are compared exactly; the
-- source's float64 quotients order them alike for weights, counts and capacities below 2^26.
use model_dock.Base.{
  ℕ, ◌==◌, ltb, Bool, true, false, not, ◌||◌, Option, none, some, List, [], ◌∷◌, if◌then◌else◌,
}
use model_dock.Base.Int.{ℤ, pos, ◌+ℤ◌, ◌*ℤ◌, ltb_ℤ, leb_ℤ, eqb_ℤ}
use model_dock.Text.{Text, codes, text_eq}
use model_dock.Scheduler.{Credential, CredentialConstraints, is_customer, is_eligible, block_shared}
use model_dock.Scheduler.Counters.{Counter, WeightedCandidate, at_least_one, text_ltb}

pub data RoutingPolicy : Type 0 where
  priority_weighted least_loaded weighted_round_robin : RoutingPolicy

unfoldable pub parse_policy : Text → RoutingPolicy
parse_policy requested =
    if text_eq requested (codes "least_loaded")
    then least_loaded
    else if text_eq requested (codes "weighted_round_robin")
    then weighted_round_robin
    else priority_weighted

pub record Ranked : Type 0 where
  pub credential : Credential
  pub active : ℤ
  pub tier : ℕ

pub data SelectError : Type 0 where
  source_failed no_credential state_unavailable : SelectError

pub record Selection : Type 0 where
  pub credential : Credential
  pub policy : RoutingPolicy
  pub shared_capacity_blocked : Bool

pub data SelectResult : Type 0 where
  selected : Selection → SelectResult
  failed : SelectError → SelectResult

abbrev pub effective_weight_of : Credential → ℤ
effective_weight_of c = if leb_ℤ c.effective_weight (pos 0) then c.weight else c.effective_weight

abbrev pub effective_priority_of : Credential → ℤ
effective_priority_of c =
    if eqb_ℤ c.effective_priority (pos 0) then c.priority else c.effective_priority

-- A customer's own credential comes before the platform's, unless it is meant as a fallback.
abbrev pub tier_of : Credential → ℕ
tier_of c =
    if is_customer c then if text_eq c.byok_priority_section (codes "FALLBACK") then 1 else 3 else 2

unfoldable pub rank : Credential → ℤ → Ranked
rank c active = record {
  credential = record c {
    active_requests = active;
    effective_weight = effective_weight_of c;
    effective_priority = effective_priority_of c;
  };
  active = active;
  tier = tier_of c;
}

-- `i.score > j.score`
abbrev pub score_above : Ranked → Ranked → Bool
score_above i j =
    ltb_ℤ (j.credential.effective_weight *ℤ (i.active +ℤ pos 1))
      (i.credential.effective_weight *ℤ (j.active +ℤ pos 1))

-- `iLoad < jLoad`
abbrev pub load_below : Ranked → Ranked → Bool
load_below i j =
    ltb_ℤ (i.active *ℤ at_least_one j.credential.max_concurrency)
      (j.active *ℤ at_least_one i.credential.max_concurrency)

abbrev pub priority_above : Ranked → Ranked → Bool
priority_above i j = ltb_ℤ j.credential.effective_priority i.credential.effective_priority

abbrev pub id_below : Ranked → Ranked → Bool
id_below i j = text_ltb i.credential.id j.credential.id

-- A criterion that decides unless the two are equal under it.
abbrev pub decide_by : (Ranked → Ranked → Bool) → (Ranked → Ranked → Bool) → Ranked → Ranked → Bool
decide_by above next i j = if above i j then true else if above j i then false else next i j

abbrev pub tier_above : Ranked → Ranked → Bool
tier_above i j = ltb j.tier i.tier

unfoldable pub less_loaded : Ranked → Ranked → Bool
less_loaded = decide_by tier_above (decide_by load_below (decide_by priority_above id_below))

unfoldable pub less_weighted : Ranked → Ranked → Bool
less_weighted = decide_by tier_above (decide_by priority_above (decide_by score_above id_below))

unfoldable pub less_under : RoutingPolicy → Ranked → Ranked → Bool
unfolding less_loaded less_weighted
less_under least_loaded = less_loaded
less_under priority_weighted = less_weighted
less_under weighted_round_robin = less_weighted

-- `sort.SliceStable`: an element goes before the first one that is not less than it.
unfoldable pub insert_sorted : (Ranked → Ranked → Bool) → Ranked → List Ranked → List Ranked
insert_sorted less x [] = x ∷ []
insert_sorted less x (y ∷ ys) = if less y x then y ∷ insert_sorted less x ys else x ∷ y ∷ ys

unfoldable pub stable_sort : (Ranked → Ranked → Bool) → List Ranked → List Ranked
unfolding insert_sorted
stable_sort less [] = []
stable_sort less (x ∷ xs) = insert_sorted less x (stable_sort less xs)

-- The candidates of the first tier and priority, as far as they stand at the head of the list.
unfoldable pub top_candidates : ℕ → ℤ → List Ranked → List WeightedCandidate
top_candidates tier priority [] = []
top_candidates tier priority (r ∷ rest) =
    if not (r.tier == tier) || not (eqb_ℤ r.credential.effective_priority priority)
    then []
    else record { id = r.credential.id; weight = r.credential.effective_weight }
      ∷ top_candidates tier priority rest

abbrev pub after_swap : Ranked → Option (Ranked × List Ranked) → Option (Ranked × List Ranked)
after_swap y none = none
after_swap y (some (z, rest)) = some (z, y ∷ rest)

-- The first element with the identifier, and the rest with `x` in its place.
unfoldable pub swap_into : Ranked → Text → List Ranked → Option (Ranked × List Ranked)
swap_into x chosen [] = none
swap_into x chosen (y ∷ ys) =
    if text_eq y.credential.id chosen
    then some (y, x ∷ ys)
    else after_swap y (swap_into x chosen ys)

abbrev pub or_unchanged : Ranked → List Ranked → Option (Ranked × List Ranked) → List Ranked
or_unchanged x xs none = x ∷ xs
or_unchanged x xs (some (y, rest)) = y ∷ rest

unfoldable pub bring_to_front : Text → List Ranked → List Ranked
unfolding swap_into
bring_to_front chosen [] = []
bring_to_front chosen (x ∷ xs) =
    if text_eq x.credential.id chosen then x ∷ xs else or_unchanged x xs (swap_into x chosen xs)

module _ {S : Type 0} (counter : Counter S) where
  abbrev pub add_ranked : Credential → ℤ → Option (List Ranked) → Option (List Ranked)
  add_ranked c active none = none
  add_ranked c active (some rest) =
      if leb_ℤ c.max_concurrency active then some rest else some (rank c active ∷ rest)

  abbrev pub read_active : Option ℤ → Credential → Option (List Ranked) → Option (List Ranked)
  read_active none c rest = none
  read_active (some active) c rest = add_ranked c active rest

  -- The eligible candidates with free capacity. `none` is an error of the service; as the counters are
  -- only read, it does not matter which of them fails first.
  unfoldable pub rank_candidates :
      S → CredentialConstraints → Text → Bool → List Credential → Option (List Ranked)
  unfolding rank
  rank_candidates s constraints organization blocked [] = some []
  rank_candidates s constraints organization blocked (c ∷ rest) =
      let others = rank_candidates s constraints organization blocked rest in
      if is_eligible constraints organization blocked c
      then read_active (counter.active s c.id) c others
      else others

  abbrev pub chosen_first : List Ranked → Option Text × S → Option (List Ranked) × S
  chosen_first list (none, s) = (none, s)
  chosen_first list (some chosen, s) = (some (bring_to_front chosen list), s)

  abbrev pub choose_with :
      Option (S → Text → List WeightedCandidate → Option Text × S)
      → S
      → Text
      → List WeightedCandidate
      → List Ranked
      → Option (List Ranked) × S
  choose_with none s group weighted list = (some list, s)
  choose_with (some choose) s group weighted list = chosen_first list (choose s group weighted)

  -- The turn of the weighted round robin.
  unfoldable pub take_turn : RoutingPolicy → S → Text → List Ranked → Option (List Ranked) × S
  take_turn weighted_round_robin s group (first ∷ second ∷ rest) =
      let list = first ∷ second ∷ rest in
      choose_with counter.choose_weighted s group
        (top_candidates first.tier first.credential.effective_priority list) list
  take_turn policy s group list = (some list, s)

  -- What the answer of `TryAcquire` makes of the loop; a slot that is not granted leads to the rest's
  -- result.
  abbrev pub acquire_answer :
      RoutingPolicy → Bool → Ranked → Option (Bool × ℤ) → S → SelectResult × S → SelectResult × S
  acquire_answer policy blocked r none s rest = (failed state_unavailable, s)
  acquire_answer policy blocked r (some (true, active)) s rest = (
    selected (record {
      credential = record r.credential { active_requests = active };
      policy = policy;
      shared_capacity_blocked = blocked;
    }),
    s,
  )
  acquire_answer policy blocked r (some (false, active)) s rest = rest

  -- The loop that acquires a slot of the first credential that has one.
  unfoldable pub acquire_first : RoutingPolicy → Bool → S → List Ranked → SelectResult × S
  acquire_first policy blocked s [] = (failed no_credential, s)
  acquire_first policy blocked s (r ∷ rest) =
      let (answer, s') = counter.try_acquire s r.credential.id r.credential.max_concurrency in
      acquire_answer policy blocked r answer s' (acquire_first policy blocked s' rest)

  abbrev pub acquire_turn : RoutingPolicy → Bool → Option (List Ranked) × S → SelectResult × S
  acquire_turn policy blocked (none, s) = (failed state_unavailable, s)
  acquire_turn policy blocked (some list, s) = acquire_first policy blocked s list

  abbrev pub select_ranked :
      RoutingPolicy → Bool → S → Text → Option (List Ranked) → SelectResult × S
  select_ranked policy blocked s group none = (failed state_unavailable, s)
  select_ranked policy blocked s group (some list) =
      acquire_turn policy blocked (take_turn policy s group (stable_sort (less_under policy) list))

  unfoldable pub select_from :
      RoutingPolicy → S → Text → CredentialConstraints → Text → List Credential → SelectResult × S
  select_from policy s group constraints organization [] = (failed no_credential, s)
  select_from policy s group constraints organization (c ∷ rest) =
      let candidates = c ∷ rest in
      let blocked = block_shared constraints organization candidates in
      select_ranked policy blocked s group
        (rank_candidates s constraints organization blocked candidates)

  -- `none` for the candidates is an error of their source.
  unfoldable pub select_constrained :
      S → Text → Text → CredentialConstraints → Text → Option (List Credential) → SelectResult × S
  select_constrained s group requested constraints organization none = (failed source_failed, s)
  select_constrained s group requested constraints organization (some candidates) =
      select_from (parse_policy requested) s group constraints organization candidates
