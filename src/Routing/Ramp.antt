-- ===== src/Routing/Ramp.antt =====
-- internal/store/intelligent_router.go: qualityTrafficAdmitted and routingCandidates. `digest` is the
-- number in the first eight bytes of SHA-256, of the standard library.
use model_dock.Base.{ℕ, ◌%◌, Bool, true, false, not, ◌&&◌, ◌||◌, List, [], ◌∷◌, ◌++◌, if◌then◌else◌}
use model_dock.Base.Int.{ℤ, pos, ltb_ℤ}
use model_dock.Text.{Text, text_eq}
use model_dock.Routing.{RouteConfig, RouteCandidate}
use model_dock.Routing.Match.{candidate_matches}

module _ (digest : Text → ℕ) where
  unfoldable pub quality_traffic_admitted : Text → Text → Text → ℤ → Bool
  quality_traffic_admitted request_id provider_id route_id cap_bps =
      if not (ltb_ℤ cap_bps (pos 10_000)) || text_eq request_id []
      then true
      else if not (ltb_ℤ (pos 0) cap_bps)
      then false
      else let bucket = digest (request_id ++ 0 ∷ provider_id ++ 0 ∷ route_id) % 10_000 in
        ltb_ℤ (pos bucket) cap_bps

  -- The loop over the routes of a project; `is_admissible` is CheckProviderAdmission. The second
  -- component says whether a route was left out by the ramp.
  unfoldable pub routing_candidates :
      (RouteCandidate → Bool)
      → RouteConfig
      → Text
      → List RouteCandidate
      → List RouteCandidate × Bool
  routing_candidates is_admissible config request_id [] = ([], false)
  routing_candidates is_admissible config request_id (c ∷ rows) =
      let later = routing_candidates is_admissible config request_id rows in
      if is_admissible c && candidate_matches c config
      then if quality_traffic_admitted request_id c.provider_id c.route_id c.traffic_cap_bps
        then (c ∷ later.0, later.1)
        else (later.0, true)
      else later
