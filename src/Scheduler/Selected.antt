-- ===== src/Scheduler/Selected.antt =====
-- What `SelectConstrainedForOrganization` selects, whatever the counters answer.
use model_dock.Base.{
  ◌≡◌, refl, ap, Bool, true, false, Option, none, some, List, [], ◌∷◌, All, In, All-In, if_lem,
}
use model_dock.Base.Int.{ℤ, leb_ℤ}
use model_dock.Text.{Text}
use model_dock.Scheduler.{Credential, CredentialConstraints, block_shared, is_eligible}
use model_dock.Scheduler.Counters.{Counter, WeightedCandidate}
use model_dock.Scheduler.Select.{
  RoutingPolicy, priority_weighted, least_loaded, weighted_round_robin, parse_policy, Ranked,
  Selection, SelectResult, selected, failed, rank, less_under, stable_sort, add_ranked, read_active,
  rank_candidates, chosen_first, choose_with, take_turn, acquire_answer, acquire_first,
  acquire_turn, select_ranked, select_from, select_constrained,
}
use model_dock.Scheduler.Rearrange.{stable_sort-All, bring_to_front-All}

-- The element stands for a candidate that is eligible, with the count of requests that the service
-- reported of it, which is below its capacity.
pub record IsRanked {S : Type 0} (counter : Counter S) (s : S) (constraints : CredentialConstraints)
    (organization : Text) (blocked : Bool) (candidates : List Credential) (r : Ranked)
    : Type 0 where
  pub candidate : Credential
  pub active : ℤ
  pub listed : In candidate candidates
  pub eligible : is_eligible constraints organization blocked candidate ≡ true
  pub reported : counter.active s candidate.id ≡ some active
  pub has_capacity : leb_ℤ candidate.max_concurrency active ≡ false
  pub ranked : r ≡ rank candidate active

-- What an optional list promises.
abbrev pub AllOf : (Ranked → Type 0) → Option (List Ranked) → Type 0
AllOf P none = Unit
AllOf P (some list) = All P list

module _ {S : Type 0} (counter : Counter S) (s : S) (constraints : CredentialConstraints)
    (organization : Text) (blocked : Bool) (candidates : List Credential) where
  abbrev Fits : Ranked → Type 0
  Fits = IsRanked counter s constraints organization blocked candidates

  add_ranked-All :
      (c : Credential) (active : ℤ) (rest : Option (List Ranked))
      → In c candidates
      → is_eligible constraints organization blocked c ≡ true
      → counter.active s c.id ≡ some active
      → AllOf Fits rest
      → AllOf Fits (add_ranked counter c active rest)
  add_ranked-All c active none i e a h = tt
  add_ranked-All c active (some rest) i e a h =
      if_lem (AllOf Fits) (leb_ℤ c.max_concurrency active) (some rest) (some (rank c active ∷ rest))
        (λ _. h)
        (λ free. (
          record {
            candidate = c;
            active = active;
            listed = i;
            eligible = e;
            reported = a;
            has_capacity = free;
            ranked = refl;
          },
          h,
        ))

  read_active-All :
      (answer : Option ℤ) (c : Credential) (rest : Option (List Ranked))
      → counter.active s c.id ≡ answer
      → In c candidates
      → is_eligible constraints organization blocked c ≡ true
      → AllOf Fits rest
      → AllOf Fits (read_active counter answer c rest)
  read_active-All none c rest a i e h = tt
  read_active-All (some active) c rest a i e h = add_ranked-All c active rest i e a h

  rank_candidates-All :
      (cs : List Credential)
      → All (λ c. In c candidates) cs
      → AllOf Fits (rank_candidates counter s constraints organization blocked cs)
  unfolding rank_candidates
  rank_candidates-All [] h = tt
  rank_candidates-All (c ∷ cs) (i, h) =
      let others = rank_candidates counter s constraints organization blocked cs in
      let ih = rank_candidates-All cs h in
      if_lem (AllOf Fits) (is_eligible constraints organization blocked c)
        (read_active counter (counter.active s c.id) c others) others
        (λ e. read_active-All (counter.active s c.id) c others refl i e ih) (λ _. ih)

module _ {S : Type 0} (counter : Counter S) (P : Ranked → Type 0) where
  chosen_first-All :
      (list : List Ranked) (answer : Option Text × S)
      → All P list
      → AllOf P (chosen_first counter list answer).0
  chosen_first-All list (none, s) h = tt
  chosen_first-All list (some chosen, s) h = bring_to_front-All P chosen list h

  choose_with-All :
      (choose : Option (S → Text → List WeightedCandidate → Option Text × S)) (s : S) (group : Text)
      (weighted : List WeightedCandidate) (list : List Ranked)
      → All P list
      → AllOf P (choose_with counter choose s group weighted list).0
  choose_with-All none s group weighted list h = h
  choose_with-All (some choose) s group weighted list h =
      chosen_first-All list (choose s group weighted) h

  take_turn-All :
      (policy : RoutingPolicy) (s : S) (group : Text) (list : List Ranked)
      → All P list
      → AllOf P (take_turn counter policy s group list).0
  unfolding take_turn
  take_turn-All weighted_round_robin s group (first ∷ second ∷ rest) h =
      choose_with-All counter.choose_weighted s group _ (first ∷ second ∷ rest) h
  take_turn-All weighted_round_robin s group [] h = h
  take_turn-All weighted_round_robin s group (first ∷ []) h = h
  take_turn-All least_loaded s group list h = h
  take_turn-All priority_weighted s group list h = h

  -- A selection is one of the elements, up to its count of requests.
  abbrev IsChosen : RoutingPolicy → Bool → SelectResult → Type 0
  IsChosen policy blocked (failed e) = Unit
  IsChosen policy blocked (selected sel) =
      (r : Ranked) × (active : ℤ) × P r
      × (sel ≡ record {
        credential = record r.credential { active_requests = active };
        policy = policy;
        shared_capacity_blocked = blocked;
      })

  acquire_answer-IsChosen :
      (policy : RoutingPolicy) (blocked : Bool) (r : Ranked) (answer : Option (Bool × ℤ)) (s : S)
      (rest : SelectResult × S)
      → P r
      → IsChosen policy blocked rest.0
      → IsChosen policy blocked (acquire_answer counter policy blocked r answer s rest).0
  acquire_answer-IsChosen policy blocked r none s rest p h = tt
  acquire_answer-IsChosen policy blocked r (some (true, active)) s rest p h = (r, active, p, refl)
  acquire_answer-IsChosen policy blocked r (some (false, active)) s rest p h = h

  acquire_first-IsChosen :
      (policy : RoutingPolicy) (blocked : Bool) (s : S) (list : List Ranked)
      → All P list
      → IsChosen policy blocked (acquire_first counter policy blocked s list).0
  unfolding acquire_first
  acquire_first-IsChosen policy blocked s [] h = tt
  acquire_first-IsChosen policy blocked s (r ∷ rest) (p, ps) =
      let (answer, s') = counter.try_acquire s r.credential.id r.credential.max_concurrency in
      acquire_answer-IsChosen policy blocked r answer s' _ p
        (acquire_first-IsChosen policy blocked s' rest ps)

  acquire_turn-IsChosen :
      (policy : RoutingPolicy) (blocked : Bool) (turn : Option (List Ranked) × S)
      → AllOf P turn.0
      → IsChosen policy blocked (acquire_turn counter policy blocked turn).0
  acquire_turn-IsChosen policy blocked (none, s) h = tt
  acquire_turn-IsChosen policy blocked (some list, s) h =
      acquire_first-IsChosen policy blocked s list h

  select_ranked-IsChosen :
      (policy : RoutingPolicy) (blocked : Bool) (s : S) (group : Text)
      (ranked : Option (List Ranked))
      → AllOf P ranked
      → IsChosen policy blocked (select_ranked counter policy blocked s group ranked).0
  select_ranked-IsChosen policy blocked s group none h = tt
  select_ranked-IsChosen policy blocked s group (some list) h =
      acquire_turn-IsChosen policy blocked
        (take_turn counter policy s group (stable_sort (less_under policy) list))
        (take_turn-All policy s group (stable_sort (less_under policy) list)
          (stable_sort-All P (less_under policy) list h))

-- What a selection promises, whatever the counters answer: a listed candidate that passes every
-- filter and had capacity, with nothing but its computed fields changed.
pub record Legitimate {S : Type 0} (counter : Counter S) (s : S)
    (constraints : CredentialConstraints) (organization : Text) (candidates : List Credential)
    (sel : Selection) : Type 0 where
  pub origin : Ranked
  pub active : ℤ
  pub fits :
      IsRanked counter s constraints organization
        (block_shared constraints organization candidates)
        candidates
        origin
  pub made : sel.credential ≡ record origin.credential { active_requests = active }
  pub reported : sel.shared_capacity_blocked ≡ block_shared constraints organization candidates

module _ {S : Type 0} (counter : Counter S) (s : S) (constraints : CredentialConstraints)
    (organization : Text) where
  abbrev pub LegitimateResult : List Credential → SelectResult → Type 0
  LegitimateResult candidates (failed e) = Unit
  LegitimateResult candidates (selected sel) =
      Legitimate counter s constraints organization candidates sel

  IsChosen-Legitimate :
      (policy : RoutingPolicy) (candidates : List Credential) (result : SelectResult)
      → IsChosen counter
          (IsRanked counter s constraints organization
            (block_shared constraints organization candidates)
            candidates)
          policy
          (block_shared constraints organization candidates)
          result
      → LegitimateResult candidates result
  IsChosen-Legitimate policy candidates (failed e) h = tt
  IsChosen-Legitimate policy candidates (selected sel) (r, active, fits, made) = record {
    origin = r;
    active = active;
    fits = fits;
    made = ap (λ x. x.credential) made;
    reported = ap (λ x. x.shared_capacity_blocked) made;
  }

  select_from-Legitimate :
      (policy : RoutingPolicy) (group : Text) (candidates : List Credential)
      → LegitimateResult candidates
          (select_from counter policy s group constraints organization candidates).0
  unfolding select_from
  select_from-Legitimate policy group [] = tt
  select_from-Legitimate policy group (c ∷ rest) =
      let candidates = c ∷ rest in
      let blocked = block_shared constraints organization candidates in
      IsChosen-Legitimate policy candidates _ (
        select_ranked-IsChosen counter _ policy blocked s group
          (rank_candidates counter s constraints organization blocked candidates)
          (rank_candidates-All counter s constraints organization blocked candidates candidates
            (All-In candidates)))

  -- Whatever the counters answer, a selection is a listed candidate that passes every filter and has
  -- capacity left by the count that was read, with only its computed fields changed, and it reports
  -- whether the platform's credentials were blocked.
  pub select_constrained-Legitimate :
      (group requested : Text) (candidates : List Credential)
      → LegitimateResult candidates
          (select_constrained counter s group requested constraints organization
            (some candidates)).0
  unfolding select_constrained
  select_constrained-Legitimate group requested candidates =
      select_from-Legitimate (parse_policy requested) group candidates
