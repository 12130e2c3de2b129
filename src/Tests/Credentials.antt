-- ===== src/Tests/Credentials.antt =====
-- Runs of internal/scheduler/scheduler.go.
use model_dock.Base.{◌≡◌, ◌≢◌, arith, refl, inl, true, none, some, List, [], ◌∷◌, false}
use model_dock.Base.Int.{ℤ, pos}
use model_dock.Text.{Text, codes, is_space, trim_left, trim_right, trim_space, to_lower}
use model_dock.Scheduler.{
  Credential, CredentialConstraints, credential_owner_platform, credential_owner_customer, contains,
  any_filter_matches, string_filter_matches, credential_actor_filters_match,
  credential_filters_match, has_all, has_any, matches_credential_tags, blocks_shared,
  any_blocks_shared, block_shared, is_eligible,
}
use model_dock.Scheduler.Counters.{Redis, redis_counter, acquire_script}
use model_dock.Scheduler.Select.{
  priority_weighted, weighted_round_robin, parse_policy, Selection, selected, rank, less_under,
  less_weighted, less_loaded, insert_sorted, stable_sort, rank_candidates, take_turn, acquire_first,
  select_from, select_constrained,
}
use model_dock.Scheduler.Isolation.{MayServe, select_constrained-MayServe}
use model_dock.Scheduler.Selected.{LegitimateResult, select_constrained-Legitimate}
use model_dock.Scheduler.Acquire.{TakesSlot, select_constrained-TakesSlot}
use model_dock.Scheduler.Order.{IsTop, select_constrained-IsTop}
use model_dock.Scheduler.Slots.{
  Slots, granted, Reaches, stay, then_step, IsCounted, Reaches-IsCounted,
}

abbrev organization : Text
organization = codes "org-1"

-- A credential of the platform.
abbrev shared_key : Credential
shared_key = record {
  id = codes "shared";
  credential_owner = credential_owner_platform;
  organization_id = none;
  owner_organization_id = none;
  api_key_filters = [];
  member_filters = [];
  model_filters = [];
  tags = codes "eu" ∷ [];
  shared_capacity_fallback = [];
  byok_priority_section = [];
  max_concurrency = pos 4;
  active_requests = pos 0;
  weight = pos 10;
  effective_weight = pos 0;
  priority = pos 1;
  effective_priority = pos 0;
}

-- The organization's own credential, which keeps its requests off the shared capacity.
abbrev own_key : Credential
own_key = record shared_key {
  id = codes "own";
  credential_owner = credential_owner_customer;
  owner_organization_id = some organization;
  shared_capacity_fallback = codes "NEVER";
  max_concurrency = pos 2;
}

abbrev foreign_key : Credential
foreign_key = record own_key { id = codes "foreign"; owner_organization_id = some (codes "org-2") }

abbrev candidates : List Credential
candidates = shared_key ∷ foreign_key ∷ own_key ∷ []

abbrev constraints : CredentialConstraints
constraints = record {
  required_tags = codes "eu" ∷ [];
  excluded_tags = [];
  model = codes "gpt";
  api_key_id = codes "key";
  member_id = [];
  use_shared_capacity = none;
}

abbrev idle : Redis
idle = record { active = λ id. 0; scores = λ group id. pos 0 }

abbrev choice : Selection
choice = record {
  credential = record own_key {
    active_requests = pos 1;
    effective_weight = pos 10;
    effective_priority = pos 1;
  };
  policy = priority_weighted;
  shared_capacity_blocked = true;
}

-- The organization's own credential is selected.
own_selected :
    (select_constrained redis_counter idle
      (codes "pool")
      (codes "priority")
      constraints
      organization
      (some candidates)).0
    ≡ selected choice
unfolding select_constrained select_from rank_candidates rank stable_sort insert_sorted less_under
    less_weighted less_loaded take_turn acquire_first acquire_script is_eligible block_shared
    any_blocks_shared blocks_shared matches_credential_tags has_any has_all contains
    credential_filters_match credential_actor_filters_match string_filter_matches any_filter_matches
    trim_space trim_left trim_right is_space to_lower parse_policy
own_selected = refl

own_blocks : blocks_shared constraints organization own_key ≡ true
unfolding blocks_shared credential_actor_filters_match string_filter_matches
own_blocks = refl

select_constrained-Legitimate_example :
    LegitimateResult redis_counter idle constraints organization candidates
      (select_constrained redis_counter idle
        (codes "pool")
        (codes "priority")
        constraints
        organization
        (some candidates)).0
select_constrained-Legitimate_example =
    select_constrained-Legitimate redis_counter idle constraints organization (codes "pool")
      (codes "priority") candidates

select_constrained-MayServe_example : MayServe organization choice.credential
select_constrained-MayServe_example =
    select_constrained-MayServe redis_counter idle constraints organization (codes "pool")
      (codes "priority") candidates choice own_selected

select_constrained-TakesSlot_example : TakesSlot idle constraints organization candidates (
    select_constrained redis_counter idle
      (codes "pool")
      (codes "priority")
      constraints
      organization
      (some candidates))
select_constrained-TakesSlot_example =
    select_constrained-TakesSlot idle constraints organization (codes "pool") (codes "priority")
      candidates

abbrev limits : Text → ℤ
limits id = pos 2

abbrev start : Slots
start = record { redis = idle; holders = [] }

start-IsCounted : IsCounted limits false start
start-IsCounted = record {
  counted = λ x id. refl;
  within = λ id. omega arith;
  bounded = λ id. inl refl;
}

abbrev taken : Slots
unfolding acquire_script
taken = record { redis = (acquire_script idle (codes "own") (pos 2)).1; holders = codes "own" ∷ [] }

takes : Reaches limits false start taken
unfolding acquire_script
takes =
    then_step start start taken (stay start)
      (granted idle taken.redis [] (codes "own") (pos 1) refl)

Reaches-IsCounted_example : IsCounted limits false taken
Reaches-IsCounted_example = Reaches-IsCounted limits false start taken takes start-IsCounted

by_priority : parse_policy (codes "priority") ≢ weighted_round_robin
unfolding parse_policy
by_priority e = absurd (ground arith)

select_constrained-IsTop_example :
    IsTop idle constraints organization candidates
      (select_constrained redis_counter idle
        (codes "pool")
        (codes "priority")
        constraints
        organization
        (some candidates)).0
select_constrained-IsTop_example =
    select_constrained-IsTop idle constraints organization (codes "pool") (codes "priority")
      candidates by_priority
