-- ===== src/Routing/Matched.antt =====
-- What a route that matches a configuration meets.
use model_dock.Base.{◌≡◌, refl, Bool, true, false, not, ◌&&◌, ◌||◌, [], arith}
use model_dock.Text.{text_eq, equal_fold}
use model_dock.Routing.{RouteConfig, RouteCandidate, contains_fold, is_empty}
use model_dock.Routing.Policy.{is_deny}
use model_dock.Routing.Match.{
  names_provider, offers_all, within_price, provider_may_retain, intersects_fold, is_fast_enough,
  is_quick_enough, is_free, candidate_matches,
}

-- The second to fourth, and the seventh and eighth of thirteen tests.
five_of :
    (a b d e f g h i j k l m n : Bool)
    → (a && b && d && e && f && g && h && i && j && k && l && m && n) ≡ true
    → (b ≡ true) × (d ≡ true) × (e ≡ true) × (h ≡ true) × (i ≡ true)
five_of true true true true true true true true j k l m n x = (refl, refl, refl, refl, refl)
five_of false b d e f g h i j k l m n x = absurd (ground (arith, x))
five_of true false d e f g h i j k l m n x = absurd (ground (arith, x))
five_of true true false e f g h i j k l m n x = absurd (ground (arith, x))
five_of true true true false f g h i j k l m n x = absurd (ground (arith, x))
five_of true true true true false g h i j k l m n x = absurd (ground (arith, x))
five_of true true true true true false h i j k l m n x = absurd (ground (arith, x))
five_of true true true true true true false i j k l m n x = absurd (ground (arith, x))
five_of true true true true true true true false j k l m n x = absurd (ground (arith, x))

-- The tests of `candidate_matches` on providers, capabilities and privacy.
pub record Matched (c : RouteCandidate) (config : RouteConfig) : Type 0 where
  pub ignore : names_provider config.ignore_providers c ≡ false
  pub only : (is_empty config.providers || names_provider config.providers c) ≡ true
  pub capability : offers_all c.capabilities config.required_capabilities ≡ true
  pub retention : (not config.zdr || c.zdr) ≡ true
  pub collection : not (is_deny config.data_collection && provider_may_retain c) ≡ true

pub candidate_matches-Matched :
    (c : RouteCandidate) (config : RouteConfig)
    → candidate_matches c config ≡ true
    → Matched c config
unfolding candidate_matches
candidate_matches-Matched c config h =
    let (ignore, only, capability, retention, collection) =
      five_of (text_eq config.model_type [] || equal_fold config.model_type c.model_type)
        (not (names_provider config.ignore_providers c))
        (is_empty config.providers || names_provider config.providers c)
        (offers_all c.capabilities config.required_capabilities)
        (within_price config.max_input_price c.has_price c.input_price)
        (within_price config.max_output_price c.has_price c.output_price) (not config.zdr || c.zdr)
        (not (is_deny config.data_collection && provider_may_retain c))
        (is_empty config.quantizations || contains_fold config.quantizations c.quantization)
        (is_empty config.processing_regions
          || intersects_fold config.processing_regions c.processing_regions)
        (is_fast_enough config.preferred_min_throughput c.throughput)
        (is_quick_enough config.preferred_max_latency_ms c.p95_latency_ms)
        (not config.free_only || is_free c) h in
    record {
      ignore = not_true (names_provider config.ignore_providers c) ignore;
      only = only;
      capability = capability;
      retention = retention;
      collection = collection;
    }
  where
    not_true : (b : Bool) → not b ≡ true → b ≡ false
    not_true b e = ground (arith, e)
