-- ===== src/Routing/Lifted.antt =====
-- What a request gains by a list of providers that has none of those which its workspace admits.
use model_dock.Base.{◌≡◌, refl, sym, ap, ◌∙◌, true, false, ◌&&◌, List, [], ◌∷◌, arith}
use model_dock.Text.{Text, text_eq_refl, to_lower, equal_fold}
use model_dock.Routing.{
  RequestProviderPolicy, PrivacyPolicy, RouteConfig, RouteCandidate, contains_fold,
}
use model_dock.Routing.Policy.{
  unique_from, restrictive_strings, merge_provider_policies, apply_provider_policy_config,
}
use model_dock.Routing.Match.{candidate_matches}
use model_dock.Routing.Lists.{names, restricts}
use model_dock.Routing.Common.{restrictive_strings-names}

equal_fold_refl : (s : Text) → equal_fold s s ≡ true
unfolding equal_fold
equal_fold_refl s = text_eq_refl (to_lower s)

-- A list that has nothing is empty.
eq_nil_of_contains_fold : (xs : List Text) → ((t : Text) → contains_fold xs t ≡ false) → xs ≡ []
unfolding contains_fold
eq_nil_of_contains_fold [] h = refl
eq_nil_of_contains_fold (x ∷ xs) h =
    let none = h x in absurd (ground (arith, none, equal_fold_refl x))

restrictive_strings-disjoint :
    (left right : List Text)
    → restricts left ≡ true
    → restricts right ≡ true
    → ((t : Text) → (names left t && names right t) ≡ false)
    → restrictive_strings left right ≡ []
restrictive_strings-disjoint left right l r h =
    eq_nil_of_contains_fold (restrictive_strings left right)
      (λ t. restrictive_strings-names left right t l r ∙ h t)

restrictive_strings-nil : restrictive_strings [] [] ≡ []
unfolding restrictive_strings unique_from
restrictive_strings-nil = refl

-- The policy without its list of admitted providers.
abbrev pub lifted : RequestProviderPolicy → RequestProviderPolicy
lifted p = record p { only = [] }

module _ (config : RouteConfig) (workspace request : RequestProviderPolicy) (regions : List Text)
    (privacy : PrivacyPolicy) where
  merge-same_only :
      restrictive_strings workspace.only request.only ≡ restrictive_strings [] []
      → apply_provider_policy_config config
          (merge_provider_policies workspace request regions privacy)
        ≡ apply_provider_policy_config config
            (merge_provider_policies (lifted workspace) (lifted request) regions privacy)
  unfolding merge_provider_policies apply_provider_policy_config
  merge-same_only e =
      ap
        (λ only.
          apply_provider_policy_config config
            (record (merge_provider_policies workspace request regions privacy) { only = only }))
        e

  -- If the workspace and the request both list the providers that they admit, and no name is in both
  -- lists, then exactly those routes match which would match without either list, also those to
  -- providers that neither list has.
  pub candidate_matches-IsLifted :
      (c : RouteCandidate)
      → restricts workspace.only ≡ true
      → restricts request.only ≡ true
      → ((t : Text) → (names workspace.only t && names request.only t) ≡ false)
      → candidate_matches c (
          apply_provider_policy_config config
            (merge_provider_policies workspace request regions privacy))
        ≡ candidate_matches c (
            apply_provider_policy_config config
              (merge_provider_policies (lifted workspace) (lifted request) regions privacy))
  candidate_matches-IsLifted c w r h = ap (candidate_matches c) (
      merge-same_only (
        restrictive_strings-disjoint workspace.only request.only w r h
        ∙ sym restrictive_strings-nil))
