-- ===== src/Routing/Policy.antt =====
-- internal/server/routing_policy.go: uniqueLower, restrictiveStrings, restrictiveBool, lowerDecimal and
-- mergeProviderPolicies; applyProviderPolicyConfig of internal/store/intelligent_router.go.
use model_dock.Base.{
  Bool, true, false, not, ◌||◌, Option, none, some, List, [], ◌∷◌, ◌++◌, if◌then◌else◌,
}
use model_dock.Base.Int.{ℤ, pos, ltb_ℤ}
use model_dock.Text.{Text, codes, text_eq, trim_space, to_lower, equal_fold}
use model_dock.Decimal.{Decimal, decimal_rat, compare}
use model_dock.Scheduler.{contains}
use model_dock.Routing.{RequestProviderPolicy, PrivacyPolicy, RouteConfig, is_empty}

-- The loop of `uniqueLower` with the values seen before.
unfoldable pub unique_from : List Text → List Text → List Text
unique_from seen [] = []
unique_from seen (v ∷ rest) =
    let value = to_lower (trim_space v) in
    elim (text_eq value [] || contains seen value) [
      | true ↦ unique_from seen rest
      | false ↦ value ∷ unique_from (value ∷ seen) rest
    ]

abbrev pub unique_lower : List Text → List Text
unique_lower values = unique_from [] values

-- The inner loop of `restrictiveStrings`: the value for every equal candidate.
unfoldable pub copies : Text → List Text → List Text
copies value [] = []
copies value (candidate ∷ rest) =
    if text_eq value candidate then value ∷ copies value rest else copies value rest

unfoldable pub common : List Text → List Text → List Text
common [] right = []
common (value ∷ rest) right = copies value right ++ common rest right

-- `restrictiveStrings` of lists that are unique already.
abbrev pub restrict : List Text → List Text → List Text
restrict [] right = right
restrict (l ∷ left) [] = l ∷ left
restrict (l ∷ left) (r ∷ right) = common (l ∷ left) (r ∷ right)

unfoldable pub restrictive_strings : List Text → List Text → List Text
restrictive_strings left right = restrict (unique_lower left) (unique_lower right)

abbrev pub restrictive_bool : Option Bool → Option Bool → Bool → Option Bool
restrictive_bool left (some false) default_value = some false
restrictive_bool (some l) (some true) default_value = some l
restrictive_bool none (some true) default_value = some true
restrictive_bool (some l) none default_value = some l
restrictive_bool none none default_value = some default_value

-- The right decimal, too, if the comparison fails.
abbrev pub is_at_most_zero : Option ℤ → Bool
is_at_most_zero none = false
is_at_most_zero (some n) = not (ltb_ℤ (pos 0) n)

unfoldable pub lower_decimal : Option Decimal → Option Decimal → Option Decimal
lower_decimal none right = right
lower_decimal (some l) none = some l
lower_decimal (some l) (some r) = if is_at_most_zero (compare l r) then some l else some r

abbrev deny : Text
deny = codes "deny"

abbrev pub is_deny : Text → Bool
is_deny t = equal_fold t deny

-- The request's value, if it has one.
abbrev pub prefer {ℓ} : {A : Type ℓ} → Option A → Option A → Option A
prefer none default_value = default_value
prefer (some a) default_value = some a

unfoldable pub merge_provider_policies :
    RequestProviderPolicy
    → RequestProviderPolicy
    → List Text
    → PrivacyPolicy
    → RequestProviderPolicy
merge_provider_policies workspace request allowed_regions privacy = record {
  order = if is_empty request.order then workspace.order else request.order;
  only = restrictive_strings workspace.only request.only;
  ignore = unique_lower (workspace.ignore ++ request.ignore);
  allow_fallbacks = restrictive_bool workspace.allow_fallbacks request.allow_fallbacks true;
  require_parameters = workspace.require_parameters || request.require_parameters;
  data_collection =
      if is_deny workspace.data_collection
        || is_deny request.data_collection
        || is_deny privacy.data_collection
      then deny
      else if text_eq request.data_collection []
      then workspace.data_collection
      else request.data_collection;
  zdr = workspace.zdr || request.zdr || privacy.zdr;
  quantizations =
      if is_empty request.quantizations
      then workspace.quantizations
      else restrictive_strings workspace.quantizations request.quantizations;
  sort = if text_eq request.sort [] then workspace.sort else request.sort;
  preferred_min_throughput =
      prefer request.preferred_min_throughput workspace.preferred_min_throughput;
  preferred_max_latency_ms =
      prefer request.preferred_max_latency_ms workspace.preferred_max_latency_ms;
  max_input_price = lower_decimal workspace.max_input_price request.max_input_price;
  max_output_price = lower_decimal workspace.max_output_price request.max_output_price;
  required_capabilities =
      unique_lower (workspace.required_capabilities ++ request.required_capabilities);
  processing_regions =
      restrictive_strings (restrictive_strings workspace.processing_regions allowed_regions)
        request.processing_regions;
  use_shared_capacity =
      restrictive_bool workspace.use_shared_capacity request.use_shared_capacity true;
}

-- A list of the policy that is not empty replaces the one of the configuration.
abbrev pub replace_by : List Text → List Text → List Text
replace_by list old = if is_empty list then old else list

-- A decimal that is written to the configuration and read again.
abbrev pub limit_of : Option Decimal → Option ℤ → Option ℤ
limit_of none old = old
limit_of (some d) old = decimal_rat d

unfoldable pub apply_provider_policy_config : RouteConfig → RequestProviderPolicy → RouteConfig
apply_provider_policy_config config policy = record config {
  providers = replace_by policy.only config.providers;
  ignore_providers = replace_by policy.ignore config.ignore_providers;
  provider_order = replace_by policy.order config.provider_order;
  required_capabilities = config.required_capabilities ++ policy.required_capabilities;
  max_input_price = limit_of policy.max_input_price config.max_input_price;
  max_output_price = limit_of policy.max_output_price config.max_output_price;
  zdr = policy.zdr || config.zdr;
  data_collection =
      if text_eq policy.data_collection [] then config.data_collection else policy.data_collection;
  quantizations = replace_by policy.quantizations config.quantizations;
  processing_regions = replace_by policy.processing_regions config.processing_regions;
  preferred_min_throughput =
      limit_of policy.preferred_min_throughput config.preferred_min_throughput;
  preferred_max_latency_ms = prefer policy.preferred_max_latency_ms config.preferred_max_latency_ms;
}
