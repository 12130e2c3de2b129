-- ===== src/Routing/Match.antt =====
-- internal/store/intelligent_router.go: candidateMatches with its helpers.
use model_dock.Base.{Bool, true, false, not, ◌&&◌, ◌||◌, Option, none, some, List, [], ◌∷◌}
use model_dock.Base.Int.{ℤ, pos, ltb_ℤ, eqb_ℤ}
use model_dock.Text.{Text, codes, text_eq, trim_space, to_lower, equal_fold}
use model_dock.Routing.{RouteConfig, RouteCandidate, contains_fold, is_empty}
use model_dock.Routing.Policy.{is_deny}

-- Whether one of the texts is the candidate's provider: its slug, identifier or type.
abbrev pub names_provider : List Text → RouteCandidate → Bool
names_provider list c =
    contains_fold list c.provider_slug
    || contains_fold list c.provider_id
    || contains_fold list c.provider_type

unfoldable pub offers_all : List Text → List Text → Bool
offers_all capabilities [] = true
offers_all capabilities (required ∷ rest) =
    contains_fold capabilities required && offers_all capabilities rest

abbrev pub within_price : Option ℤ → Bool → ℤ → Bool
within_price none has_price price = true
within_price (some maximum) has_price price = has_price && not (ltb_ℤ maximum price)

unfoldable pub provider_may_retain : RouteCandidate → Bool
provider_may_retain c =
    let retention = to_lower (trim_space c.data_retention) in
    not c.zdr
    && not (text_eq retention (codes "zero"))
    && not (text_eq retention (codes "zdr"))
    && not (text_eq retention (codes "none"))
    && not (text_eq retention (codes "0"))

unfoldable pub meets_fold : Text → List Text → Bool
meets_fold a [] = false
meets_fold a (b ∷ rest) = equal_fold (trim_space a) (trim_space b) || meets_fold a rest

unfoldable pub intersects_fold : List Text → List Text → Bool
intersects_fold [] right = false
intersects_fold (a ∷ rest) right = meets_fold a right || intersects_fold rest right

abbrev pub is_fast_enough : Option ℤ → ℤ → Bool
is_fast_enough none throughput = true
is_fast_enough (some minimum) throughput = not (ltb_ℤ throughput minimum)

abbrev pub is_quick_enough : Option ℤ → Option ℤ → Bool
is_quick_enough none latency = true
is_quick_enough (some maximum) none = false
is_quick_enough (some maximum) (some latency) = not (ltb_ℤ maximum latency)

abbrev pub is_free : RouteCandidate → Bool
is_free c = c.has_price && eqb_ℤ c.input_price (pos 0) && eqb_ℤ c.output_price (pos 0)

unfoldable pub candidate_matches : RouteCandidate → RouteConfig → Bool
candidate_matches c config =
    (text_eq config.model_type [] || equal_fold config.model_type c.model_type)
    && not (names_provider config.ignore_providers c)
    && (is_empty config.providers || names_provider config.providers c)
    && offers_all c.capabilities config.required_capabilities
    && within_price config.max_input_price c.has_price c.input_price
    && within_price config.max_output_price c.has_price c.output_price
    && (not config.zdr || c.zdr)
    && not (is_deny config.data_collection && provider_may_retain c)
    && (is_empty config.quantizations || contains_fold config.quantizations c.quantization)
    && (is_empty config.processing_regions
        || intersects_fold config.processing_regions c.processing_regions)
    && is_fast_enough config.preferred_min_throughput c.throughput
    && is_quick_enough config.preferred_max_latency_ms c.p95_latency_ms
    && (not config.free_only || is_free c)
