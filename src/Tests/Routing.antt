-- ===== src/Tests/Routing.antt =====
-- Runs of the merging of routing policies and of the choice of routes.
use model_dock.Base.{
  All, ℕ, ◌≡◌, refl, inl, inr, Bool, true, false, not, ◌&&◌, none, some, subst, Bool-cases, ◌||◌,
  List, [], ◌∷◌, arith, length,
}
use model_dock.Base.Int.{pos}
use model_dock.Text.{
  Text, codes, text_eq, text_eq→eq, to_lower, trim_space, trim_left, trim_right, is_space,
  equal_fold,
}
use model_dock.Decimal.{
  decimal_rat, compare, parse_decimal, decimal_pattern, set_string, span_digits,
}
use model_dock.Scheduler.{CredentialConstraints, contains}
use model_dock.Routing.{
  RequestProviderPolicy, PrivacyPolicy, RouteConfig, RouteCandidate, contains_fold,
}
use model_dock.Routing.Policy.{
  unique_from, restrictive_strings, common, copies, lower_decimal, merge_provider_policies,
  apply_provider_policy_config,
}
use model_dock.Routing.Match.{offers_all, provider_may_retain, candidate_matches}
use model_dock.Routing.Ramp.{routing_candidates}
use model_dock.Routing.Lists.{names, restricts}
use model_dock.Routing.Lifted.{lifted, candidate_matches-IsLifted}
use model_dock.Routing.Constraints.{
  text_ltb, insert_tag, add_tags, collect, last_text, last_shared, merge_credential_constraints,
}
use model_dock.Routing.Merged.{IsMerged, merge_credential_constraints-IsMerged}
use model_dock.Routing.Admitted.{filter, any, passes_ramp, IsServed, routing_candidates-IsServed}
use model_dock.Routing.Named.{Compatible}

abbrev open_policy : RequestProviderPolicy
open_policy = record {
  order = [];
  only = [];
  ignore = [];
  allow_fallbacks = none;
  require_parameters = false;
  data_collection = [];
  zdr = false;
  quantizations = [];
  sort = [];
  preferred_min_throughput = none;
  preferred_max_latency_ms = none;
  max_input_price = none;
  max_output_price = none;
  required_capabilities = [];
  processing_regions = [];
  use_shared_capacity = none;
}

-- A workspace that admits two providers and denies the collection of data, and its requests.
abbrev workspace : RequestProviderPolicy
workspace = record open_policy {
  only = codes "OpenAI" ∷ codes " anthropic" ∷ [];
  ignore = codes "acme" ∷ [];
  data_collection = codes "deny";
  max_input_price = some (codes "5");
}

abbrev narrow : RequestProviderPolicy
narrow = record open_policy {
  only = codes "anthropic" ∷ codes "google" ∷ [];
  required_capabilities = codes "Tool_Calling" ∷ [];
  max_input_price = some (codes "9");
}

abbrev foreign : RequestProviderPolicy
foreign = record open_policy { only = codes "google" ∷ [] }

abbrev no_privacy : PrivacyPolicy
no_privacy = record { zdr = false; data_collection = [] }

abbrev empty_config : RouteConfig
empty_config = record {
  model_type = [];
  ignore_providers = [];
  providers = [];
  provider_order = [];
  required_capabilities = [];
  max_input_price = none;
  max_output_price = none;
  zdr = false;
  data_collection = [];
  quantizations = [];
  processing_regions = [];
  preferred_min_throughput = none;
  preferred_max_latency_ms = none;
  free_only = false;
}

abbrev route : RouteCandidate
route = record {
  route_id = codes "r1";
  provider_id = codes "p1";
  provider_type = codes "native";
  provider_slug = codes "Anthropic";
  model_type = codes "text";
  capabilities = codes "tool_calling" ∷ [];
  has_price = true;
  input_price = pos 3_000_000_000_000;
  output_price = pos 15_000_000_000_000;
  zdr = true;
  quantization = [];
  data_retention = codes "30d";
  processing_regions = codes "de" ∷ [];
  throughput = pos 0;
  p95_latency_ms = none;
  traffic_cap_bps = pos 2_500;
}

abbrev other_route : RouteCandidate
other_route = record route { provider_slug = codes "mistral"; provider_id = codes "p2" }

abbrev merged_of : RequestProviderPolicy → RouteConfig
merged_of request =
    apply_provider_policy_config empty_config
      (merge_provider_policies workspace request [] no_privacy)

merged_only : (merge_provider_policies workspace narrow [] no_privacy).only ≡ codes "anthropic" ∷ []
unfolding merge_provider_policies restrictive_strings unique_from to_lower trim_space contains
    common copies
merged_only = refl

merged_price :
    (merge_provider_policies workspace narrow [] no_privacy).max_input_price ≡ some (codes "5")
unfolding merge_provider_policies lower_decimal compare decimal_rat parse_decimal decimal_pattern
    trim_space set_string
merged_price = refl

other_not_matches : candidate_matches other_route (merged_of narrow) ≡ false
unfolding candidate_matches apply_provider_policy_config merge_provider_policies contains_fold
    unique_from to_lower trim_space contains equal_fold restrictive_strings common copies offers_all
    lower_decimal compare decimal_rat parse_decimal decimal_pattern set_string provider_may_retain
    is_space trim_left trim_right span_digits
other_not_matches = refl

-- The workspace admits no such provider, but the request lifts that.
other_matches_lifted : candidate_matches other_route (merged_of foreign) ≡ true
unfolding candidate_matches apply_provider_policy_config merge_provider_policies contains_fold
    unique_from to_lower trim_space contains equal_fold restrictive_strings common copies offers_all
    lower_decimal compare decimal_rat parse_decimal decimal_pattern set_string provider_may_retain
    is_space trim_left trim_right span_digits
other_matches_lifted = refl

-- Of three different texts a text equals no two.
one_of_three :
    (n : Text)
    → ((text_eq (codes "openai") n || text_eq (codes "anthropic") n) && text_eq (codes "google") n)
      ≡ false
one_of_three n = elim (Bool-cases (text_eq (codes "google") n)) [
  | inl e ↦
      subst
        (λ x.
          ((text_eq (codes "openai") x || text_eq (codes "anthropic") x)
            && text_eq (codes "google") x)
          ≡ false)
        (text_eq→eq (codes "google") n e) refl
  | inr e ↦ ground (arith, e)
]

disjoint : (t : Text) → (names workspace.only t && names foreign.only t) ≡ false
unfolding names equal_fold to_lower trim_space trim_left trim_right is_space
disjoint t = let h = one_of_three (to_lower t) in ground (arith, h)

restricts_both : (restricts workspace.only ≡ true) × (restricts foreign.only ≡ true)
unfolding restricts trim_space
restricts_both = (refl, refl)

candidate_matches-IsLifted_example :
    candidate_matches other_route (merged_of foreign)
    ≡ candidate_matches other_route (
        apply_provider_policy_config empty_config
          (merge_provider_policies (lifted workspace) (lifted foreign) [] no_privacy))
candidate_matches-IsLifted_example =
    candidate_matches-IsLifted empty_config workspace foreign [] no_privacy other_route
      restricts_both.0 restricts_both.1 disjoint

-- In place of the digest the length of the text.
abbrev text_length : Text → ℕ
text_length t = length t

abbrev all_admissible : RouteCandidate → Bool
all_admissible c = true

abbrev rows : List RouteCandidate
rows = route ∷ other_route ∷ []

routing_candidates-IsServed_example :
    let result =
      routing_candidates text_length all_admissible (merged_of narrow) (codes "q1") rows in
    (result.0
      ≡ filter
          (λ c.
            (all_admissible c && candidate_matches c (merged_of narrow))
            && passes_ramp text_length (codes "q1") c)
          rows)
    × (result.1
        ≡ any
            (λ c.
              (all_admissible c && candidate_matches c (merged_of narrow))
              && not (passes_ramp text_length (codes "q1") c))
            rows)
    × (Compatible workspace.only narrow.only
        → All
            (IsServed text_length all_admissible empty_config workspace narrow [] no_privacy
              (codes "q1"))
            result.0)
routing_candidates-IsServed_example =
    routing_candidates-IsServed text_length all_admissible empty_config workspace narrow []
      no_privacy (codes "q1") rows

abbrev no_constraints : CredentialConstraints
no_constraints = record {
  required_tags = [];
  excluded_tags = [];
  model = [];
  api_key_id = [];
  member_id = [];
  use_shared_capacity = none;
}

abbrev constraints_of_route : CredentialConstraints
constraints_of_route = record no_constraints {
  required_tags = codes "gold" ∷ codes " EU" ∷ codes "gold" ∷ [];
  model = codes "m1";
}

abbrev constraints_of_request : CredentialConstraints
constraints_of_request = record no_constraints {
  required_tags = codes "" ∷ [];
  excluded_tags = codes "trial" ∷ [];
  use_shared_capacity = some false;
}

merged_constraints :
    merge_credential_constraints (constraints_of_route ∷ constraints_of_request ∷ []) ≡ record {
      required_tags = codes "eu" ∷ codes "gold" ∷ [];
      excluded_tags = codes "trial" ∷ [];
      model = codes "m1";
      api_key_id = [];
      member_id = [];
      use_shared_capacity = some false;
    }
unfolding merge_credential_constraints collect add_tags insert_tag to_lower trim_space trim_left
    trim_right is_space text_ltb last_text last_shared
merged_constraints = refl

merge_credential_constraints-IsMerged_example :
    IsMerged
      (constraints_of_route ∷ constraints_of_request ∷ [])
      (merge_credential_constraints (constraints_of_route ∷ constraints_of_request ∷ []))
merge_credential_constraints-IsMerged_example =
    merge_credential_constraints-IsMerged (constraints_of_route ∷ constraints_of_request ∷ [])
