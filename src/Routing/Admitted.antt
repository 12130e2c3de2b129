-- ===== src/Routing/Admitted.antt =====
-- Which routes of a project a request may take, and which of them the traffic ramp holds back.
use model_dock.Base.{
  ℕ, ◌%◌, ◌≡◌, refl, sym, subst, Bool, true, false, not, ◌&&◌, ◌||◌, List, [], ◌∷◌, ◌++◌, arith,
  if◌then◌else◌, if_lem, Bool-cases, inl, inr, All,
}
use model_dock.Base.Int.{pos, ltb_ℤ}
use model_dock.Text.{Text, text_eq}
use model_dock.Routing.{RequestProviderPolicy, PrivacyPolicy, RouteConfig, RouteCandidate}
use model_dock.Routing.Policy.{merge_provider_policies, apply_provider_policy_config}
use model_dock.Routing.Match.{candidate_matches}
use model_dock.Routing.Ramp.{quality_traffic_admitted, routing_candidates}
use model_dock.Routing.Named.{Compatible}
use model_dock.Routing.Obeyed.{Obeys, candidate_matches-Obeys}

unfoldable pub filter : (RouteCandidate → Bool) → List RouteCandidate → List RouteCandidate
filter p [] = []
filter p (c ∷ rows) = if p c then c ∷ filter p rows else filter p rows

unfoldable pub any : (RouteCandidate → Bool) → List RouteCandidate → Bool
any p [] = false
any p (c ∷ rows) = p c || any p rows

filter-All :
    (p : RouteCandidate → Bool) (P : RouteCandidate → Type 0)
    → ((c : RouteCandidate) → p c ≡ true → P c)
    → (rows : List RouteCandidate) → All P (filter p rows)
unfolding filter
filter-All p P h [] = tt
filter-All p P h (c ∷ rows) =
    if_lem (All P) (p c) (c ∷ filter p rows) (filter p rows) (λ e. (h c e, filter-All p P h rows))
      (λ _. filter-All p P h rows)

module _ (digest : Text → ℕ) where
  -- The bucket of a request at a route, below 10000.
  abbrev pub bucket_of : Text → RouteCandidate → ℕ
  bucket_of request_id c = digest (request_id ++ 0 ∷ c.provider_id ++ 0 ∷ c.route_id) % 10_000

  -- A request without an identifier passes, and another one just if its bucket is below the cap.
  abbrev pub passes_ramp : Text → RouteCandidate → Bool
  passes_ramp request_id c =
      text_eq request_id [] || ltb_ℤ (pos (bucket_of request_id c)) c.traffic_cap_bps

  pub quality_traffic_admitted_lem :
      (request_id : Text) (c : RouteCandidate)
      → quality_traffic_admitted digest request_id c.provider_id c.route_id c.traffic_cap_bps
        ≡ passes_ramp request_id c
  unfolding quality_traffic_admitted
  quality_traffic_admitted_lem request_id c = ground arith

  module _ (is_admissible : RouteCandidate → Bool) (config : RouteConfig) (request_id : Text) where
    abbrev pub is_candidate : RouteCandidate → Bool
    is_candidate c = is_admissible c && candidate_matches c config

    filter-candidates :
        (rows : List RouteCandidate)
        → ((routing_candidates digest is_admissible config request_id rows).0
            ≡ filter (λ c. is_candidate c && passes_ramp request_id c) rows)
          × ((routing_candidates digest is_admissible config request_id rows).1
              ≡ any (λ c. is_candidate c && not (passes_ramp request_id c)) rows)
    unfolding routing_candidates filter any
    filter-candidates [] = (refl, refl)
    filter-candidates (c ∷ rows) =
        let (kept, held) = filter-candidates rows in
        let ramp = quality_traffic_admitted_lem request_id c in
        elim (Bool-cases (is_candidate c)) [
          | inr e ↦ rw e (kept, held)
          | inl e ↦ elim (Bool-cases (passes_ramp request_id c)) [
            | inl r ↦ rw (e, ramp, r) (rw kept refl, held)
            | inr r ↦ rw (e, ramp, r) (kept, refl)
          ]
        ]

  module _ (is_admissible : RouteCandidate → Bool) (config : RouteConfig)
      (workspace request : RequestProviderPolicy) (regions : List Text) (privacy : PrivacyPolicy)
      (request_id : Text) where
    -- The configuration with the merged policies, and what it leaves of a project's routes.
    abbrev pub config_of : RouteConfig
    config_of =
        apply_provider_policy_config config
          (merge_provider_policies workspace request regions privacy)

    abbrev pub IsServed : RouteCandidate → Type 0
    IsServed c =
        (is_admissible c ≡ true)
        × (passes_ramp request_id c ≡ true)
        × Obeys workspace c
        × Obeys request c

    served :
        Compatible workspace.only request.only
        → (c : RouteCandidate)
        → (is_candidate is_admissible config_of request_id c && passes_ramp request_id c) ≡ true
        → IsServed c
    served compatible c h =
        let obeyed =
          candidate_matches-Obeys config workspace request regions privacy c (ground (arith, h))
            compatible in
        (ground (arith, h), ground (arith, h), obeyed.0, obeyed.1)

    -- The candidates are the routes, in their order, that are admissible, match the configuration with
    -- the merged policies and pass the ramp: the request has no identifier, or its bucket at the route,
    -- of ten thousand, is below the route's cap. The flag says whether there is a route that is
    -- admissible and matches, and that the ramp holds back. If the lists of admitted providers are
    -- compatible, every candidate obeys both policies.
    pub routing_candidates-IsServed :
        (rows : List RouteCandidate)
        → let result = routing_candidates digest is_admissible config_of request_id rows in
          (result.0
            ≡ filter
                (λ c.
                  (is_admissible c && candidate_matches c config_of) && passes_ramp request_id c)
                rows)
          × (result.1
              ≡ any
                  (λ c.
                    (is_admissible c && candidate_matches c config_of)
                    && not (passes_ramp request_id c))
                  rows)
          × (Compatible workspace.only request.only → All IsServed result.0)
    routing_candidates-IsServed rows =
        let (kept, held) = filter-candidates is_admissible config_of request_id rows in
        (
          kept,
          held,
          λ compatible. subst (All IsServed) (sym kept) (
              filter-All
                (λ c. is_candidate is_admissible config_of request_id c && passes_ramp request_id c)
                IsServed (served compatible) rows),
        )
