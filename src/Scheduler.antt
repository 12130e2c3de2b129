-- ===== src/Scheduler.antt =====
-- internal/scheduler/scheduler.go: credentials, constraints, and the filters that decide which
-- credential a request may use.
pub mod Counters
pub mod Select
pub mod Rearrange
pub mod Selected
pub mod Isolation
pub mod Acquire
pub mod Slots
pub mod Order
pub mod Fairness
use model_dock.Base.{
  Bool, true, false, not, ◌&&◌, ◌||◌, Option, none, some, List, [], ◌∷◌, if◌then◌else◌,
}
use model_dock.Base.Int.{ℤ, pos}
use model_dock.Text.{Text, codes, text_eq, trim_space, to_lower}

-- The fields of `domain.Credential` that the scheduler reads or sets.
pub record Credential : Type 0 where
  pub id : Text
  pub credential_owner : Text
  pub organization_id : Option Text
  pub owner_organization_id : Option Text
  pub api_key_filters : List Text
  pub member_filters : List Text
  pub model_filters : List Text
  pub tags : List Text
  pub shared_capacity_fallback : Text
  pub byok_priority_section : Text
  pub max_concurrency : ℤ
  pub active_requests : ℤ
  pub weight : ℤ
  pub effective_weight : ℤ
  pub priority : ℤ
  pub effective_priority : ℤ

pub record CredentialConstraints : Type 0 where
  pub required_tags : List Text
  pub excluded_tags : List Text
  pub model : Text
  pub api_key_id : Text
  pub member_id : Text
  pub use_shared_capacity : Option Bool

abbrev pub credential_owner_platform : Text
credential_owner_platform = codes "PLATFORM"

abbrev pub credential_owner_customer : Text
credential_owner_customer = codes "CUSTOMER"

-- Whether the text is among the texts.
unfoldable pub contains : List Text → Text → Bool
contains [] value = false
contains (t ∷ rest) value = text_eq t value || contains rest value

-- The loop of `stringFilterMatches`; the value is in lower case already.
unfoldable pub any_filter_matches : List Text → Text → Bool
any_filter_matches [] value = false
any_filter_matches (filter ∷ rest) value =
    text_eq (to_lower (trim_space filter)) value || any_filter_matches rest value

-- No filter admits everything.
unfoldable pub string_filter_matches : List Text → Text → Bool
string_filter_matches [] value = true
string_filter_matches (filter ∷ rest) value =
    any_filter_matches (filter ∷ rest) (to_lower (trim_space value))

unfoldable pub credential_actor_filters_match : Credential → CredentialConstraints → Bool
credential_actor_filters_match credential constraints =
    string_filter_matches credential.api_key_filters constraints.api_key_id
    && string_filter_matches credential.member_filters constraints.member_id

unfoldable pub credential_filters_match : Credential → CredentialConstraints → Bool
credential_filters_match credential constraints =
    credential_actor_filters_match credential constraints
    && string_filter_matches credential.model_filters constraints.model

unfoldable pub has_all : List Text → List Text → Bool
has_all available [] = true
has_all available (required ∷ rest) = contains available required && has_all available rest

unfoldable pub has_any : List Text → List Text → Bool
has_any available [] = false
has_any available (excluded ∷ rest) = contains available excluded || has_any available rest

unfoldable pub matches_credential_tags : List Text → CredentialConstraints → Bool
matches_credential_tags tags constraints =
    has_all tags constraints.required_tags && not (has_any tags constraints.excluded_tags)

-- `x != nil && *x == text`
abbrev pub points_to : Option Text → Text → Bool
points_to none value = false
points_to (some t) value = text_eq t value

-- `x != nil && *x != text`
abbrev pub points_elsewhere : Option Text → Text → Bool
points_elsewhere none value = false
points_elsewhere (some t) value = not (text_eq t value)

abbrev pub is_customer : Credential → Bool
is_customer c = text_eq c.credential_owner credential_owner_customer

abbrev pub is_platform : Credential → Bool
is_platform c = text_eq c.credential_owner credential_owner_platform

-- Whether this credential of the customer keeps the request off the shared capacity.
unfoldable pub blocks_shared : CredentialConstraints → Text → Credential → Bool
blocks_shared constraints organization c =
    is_customer c
    && points_to c.owner_organization_id organization
    && credential_actor_filters_match c constraints
    && (text_eq c.shared_capacity_fallback (codes "NEVER")
        || (text_eq c.shared_capacity_fallback (codes "OUTSIDE_FILTERS")
            && string_filter_matches c.model_filters constraints.model))

unfoldable pub any_blocks_shared : CredentialConstraints → Text → List Credential → Bool
any_blocks_shared constraints organization [] = false
any_blocks_shared constraints organization (c ∷ rest) =
    blocks_shared constraints organization c || any_blocks_shared constraints organization rest

abbrev pub is_false : Option Bool → Bool
is_false none = false
is_false (some b) = not b

unfoldable pub block_shared : CredentialConstraints → Text → List Credential → Bool
block_shared constraints organization candidates =
    is_false constraints.use_shared_capacity
    || any_blocks_shared constraints organization candidates

-- The `continue`s of the loop over the candidates, before the counters are read.
unfoldable pub is_eligible : CredentialConstraints → Text → Bool → Credential → Bool
is_eligible constraints organization blocked c =
    not (points_elsewhere c.organization_id organization)
    && not (is_customer c && not (points_to c.owner_organization_id organization))
    && not (is_platform c && blocked)
    && credential_filters_match c constraints
    && matches_credential_tags c.tags constraints
