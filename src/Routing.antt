-- ===== src/Routing.antt =====
-- internal/server/routing_policy.go and internal/store/intelligent_router.go: the restrictions that a
-- workspace and a request put on the providers of the request, how they are merged, and which routes
-- meet them.
pub mod Policy
pub mod Match
pub mod Ramp
pub mod Lists
pub mod Common
pub mod Named
pub mod Matched
pub mod Obeyed
pub mod Lifted
pub mod Admitted
pub mod Constraints
pub mod Merged
use model_dock.Base.{ℕ, Bool, true, false, ◌||◌, Option, List, [], ◌∷◌}
use model_dock.Base.Int.{ℤ}
use model_dock.Text.{Text, equal_fold}
use model_dock.Decimal.{Decimal}

-- `domain.RequestProviderPolicy`
pub record RequestProviderPolicy : Type 0 where
  pub order : List Text
  pub only : List Text
  pub ignore : List Text
  pub allow_fallbacks : Option Bool
  pub require_parameters : Bool
  pub data_collection : Text
  pub zdr : Bool
  pub quantizations : List Text
  pub sort : Text
  pub preferred_min_throughput : Option Decimal
  pub preferred_max_latency_ms : Option ℤ
  pub max_input_price : Option Decimal
  pub max_output_price : Option Decimal
  pub required_capabilities : List Text
  pub processing_regions : List Text
  pub use_shared_capacity : Option Bool

-- The entries of a workspace's privacy policy that are read.
pub record PrivacyPolicy : Type 0 where
  pub zdr : Bool
  pub data_collection : Text

-- The entries of a routing rule's configuration that decide which routes match, as `candidateMatches`
-- reads them: what is missing or of another type is empty. Decimals are in units of 10^-12.
pub record RouteConfig : Type 0 where
  pub model_type : Text
  pub ignore_providers : List Text
  pub providers : List Text
  pub provider_order : List Text
  pub required_capabilities : List Text
  pub max_input_price : Option ℤ
  pub max_output_price : Option ℤ
  pub zdr : Bool
  pub data_collection : Text
  pub quantizations : List Text
  pub processing_regions : List Text
  pub preferred_min_throughput : Option ℤ
  pub preferred_max_latency_ms : Option ℤ
  pub free_only : Bool

-- What of `routeCandidate` is matched: prices and throughput in units of 10^-12, `zdr` and
-- `quantization` from the provider's configuration.
pub record RouteCandidate : Type 0 where
  pub route_id : Text
  pub provider_id : Text
  pub provider_type : Text
  pub provider_slug : Text
  pub model_type : Text
  pub capabilities : List Text
  pub has_price : Bool
  pub input_price : ℤ
  pub output_price : ℤ
  pub zdr : Bool
  pub quantization : Text
  pub data_retention : Text
  pub processing_regions : List Text
  pub throughput : ℤ
  pub p95_latency_ms : Option ℤ
  pub traffic_cap_bps : ℤ

unfoldable pub contains_fold : List Text → Text → Bool
contains_fold [] expected = false
contains_fold (value ∷ rest) expected = equal_fold value expected || contains_fold rest expected

abbrev pub is_empty : List Text → Bool
is_empty [] = true
is_empty (t ∷ rest) = false
