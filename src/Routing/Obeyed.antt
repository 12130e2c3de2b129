-- ===== src/Routing/Obeyed.antt =====
-- Which routes a request may take: those that meet both the workspace's policy and the request's.
use model_dock.Base.{
  ◌≡◌, refl, Bool, true, false, not, ◌&&◌, ◌||◌, List, [], ◌++◌, arith, if◌then◌else◌,
}
use model_dock.Text.{Text, codes, text_eq, to_lower, equal_fold}
use model_dock.Routing.{
  RequestProviderPolicy, PrivacyPolicy, RouteConfig, RouteCandidate, contains_fold,
}
use model_dock.Routing.Policy.{
  unique_lower, restrictive_strings, is_deny, merge_provider_policies, replace_by,
  apply_provider_policy_config,
}
use model_dock.Routing.Match.{names_provider, offers_all, provider_may_retain, candidate_matches}
use model_dock.Routing.Lists.{names, restricts}
use model_dock.Routing.Named.{
  is_named, Compatible, Passes, capable_lem, names_provider-not_ignored, among-Compatible,
}
use model_dock.Routing.Matched.{Matched, candidate_matches-Matched}

pub record Obeys (p : RequestProviderPolicy) (c : RouteCandidate) : Type 0 where
  pub not_ignored : is_named p.ignore c ≡ false
  pub among : restricts p.only ≡ true → is_named p.only c ≡ true
  pub capable :
      (t : Text) → names p.required_capabilities t ≡ true → contains_fold c.capabilities t ≡ true
  pub without_retention : p.zdr ≡ true → c.zdr ≡ true
  pub without_collection : is_deny p.data_collection ≡ true → provider_may_retain c ≡ false

abbrev deny_text : Text
deny_text = codes "deny"

is_deny-deny : is_deny deny_text ≡ true
unfolding equal_fold to_lower
is_deny-deny = refl

-- What a configuration that denies collection says of a candidate that matches it.
collection_lem :
    (any : Bool) (old new : Text) (c : RouteCandidate)
    → not (
        is_deny (
          if text_eq (if any then deny_text else new) []
          then old
          else if any
          then deny_text
          else new)
        && provider_may_retain c)
      ≡ true
    → any ≡ true
    → provider_may_retain c ≡ false
collection_lem true old new c h e = ground (arith, h, is_deny-deny)
collection_lem false old new c h e = absurd (ground (arith, e))

without_old : (a b z : Bool) → (not (a || b) || z) ≡ true → (not a || z) ≡ true
without_old a b z h = ground (arith, h)

module _ (config : RouteConfig) (workspace request : RequestProviderPolicy) (regions : List Text)
    (privacy : PrivacyPolicy) (c : RouteCandidate) where
  abbrev merged_config : RouteConfig
  merged_config =
      apply_provider_policy_config config
        (merge_provider_policies workspace request regions privacy)

  -- The tests of `candidate_matches` that the merged policies decide.
  record Tests : Type 0 where
    ignore :
        names_provider
          (replace_by (unique_lower (workspace.ignore ++ request.ignore)) config.ignore_providers)
          c
        ≡ false
    only : Passes (restrictive_strings workspace.only request.only) config.providers c
    capability :
        offers_all c.capabilities (
          config.required_capabilities
          ++ unique_lower (workspace.required_capabilities ++ request.required_capabilities))
        ≡ true
    retention : (not (workspace.zdr || request.zdr || privacy.zdr) || c.zdr) ≡ true
    collection :
        is_deny workspace.data_collection
            || is_deny request.data_collection
            || is_deny privacy.data_collection
          ≡ true
        → provider_may_retain c ≡ false

  Matched-Tests : Matched c merged_config → Tests
  unfolding apply_provider_policy_config merge_provider_policies
  Matched-Tests m = record {
    ignore = m.ignore;
    only = m.only;
    capability = m.capability;
    retention =
        without_old (workspace.zdr || request.zdr || privacy.zdr) config.zdr c.zdr m.retention;
    collection =
        collection_lem
          (is_deny workspace.data_collection
            || is_deny request.data_collection
            || is_deny privacy.data_collection)
          config.data_collection
          (if text_eq request.data_collection []
            then workspace.data_collection
            else request.data_collection)
          c m.collection;
  }

  Tests-Obeys : Tests → Compatible workspace.only request.only → Obeys workspace c × Obeys request c
  Tests-Obeys t compatible =
      let ignored =
        names_provider-not_ignored workspace.ignore request.ignore config.ignore_providers c
          t.ignore in
      let among =
        among-Compatible workspace.only request.only config.providers c compatible t.only in
      let capable =
        capable_lem c.capabilities config.required_capabilities workspace.required_capabilities
          request.required_capabilities in
      let retention = t.retention in
      (
        record {
          not_ignored = ignored.0;
          among = among.0;
          capable = λ x n. capable x t.capability (ground (arith, n));
          without_retention = λ z. ground (arith, retention, z);
          without_collection = λ d. t.collection (ground (arith, d));
        },
        record {
          not_ignored = ignored.1;
          among = among.1;
          capable = λ x n. capable x t.capability (ground (arith, n));
          without_retention = λ z. ground (arith, retention, z);
          without_collection = λ d. t.collection (ground (arith, d));
        },
      )

  pub candidate_matches-Obeys :
      candidate_matches c merged_config ≡ true
      → Compatible workspace.only request.only
      → Obeys workspace c
        × Obeys request c
        × (privacy.zdr ≡ true → c.zdr ≡ true)
        × (is_deny privacy.data_collection ≡ true → provider_may_retain c ≡ false)
  candidate_matches-Obeys h compatible =
      let t = Matched-Tests (candidate_matches-Matched c merged_config h) in
      let (first, second) = Tests-Obeys t compatible in
      let retention = t.retention in
      (first, second, λ z. ground (arith, retention, z), λ d. t.collection (ground (arith, d)))
