-- ===== src/Routing/Constraints.antt =====
-- internal/server/budget.go: mergeCredentialConstraints, by which the settings of a route, its fallback
-- and the request decide together which credentials a request may use.
use model_dock.Base.{
  Bool, true, false, ◌&&◌, ◌||◌, Option, none, some, List, [], ◌∷◌, ltb, ◌==◌, if◌then◌else◌,
}
use model_dock.Text.{Text, text_eq, trim_space, to_lower}
use model_dock.Scheduler.{CredentialConstraints}

-- The order of Go's strings.
unfoldable pub text_ltb : Text → Text → Bool
text_ltb [] [] = false
text_ltb [] (b ∷ t) = true
text_ltb (a ∷ s) [] = false
text_ltb (a ∷ s) (b ∷ t) = ltb a b || (a == b && text_ltb s t)

-- The set of the tags, as its elements in order.
unfoldable pub insert_tag : Text → List Text → List Text
insert_tag tag [] = tag ∷ []
insert_tag tag (x ∷ rest) =
    if text_eq tag x
    then x ∷ rest
    else if text_ltb tag x
    then tag ∷ x ∷ rest
    else x ∷ insert_tag tag rest

unfoldable pub add_tags : List Text → List Text → List Text
add_tags target [] = target
add_tags target (tag ∷ tags) =
    let key = to_lower (trim_space tag) in
    if text_eq key [] then add_tags target tags else insert_tag key (add_tags target tags)

unfoldable pub collect :
    (CredentialConstraints → List Text) → List CredentialConstraints → List Text
collect tags [] = []
collect tags (value ∷ values) = add_tags (collect tags values) (tags value)

-- The last value that is set.
unfoldable pub last_text : (CredentialConstraints → Text) → Text → List CredentialConstraints → Text
last_text field found [] = found
last_text field found (value ∷ values) =
    last_text field (if text_eq (field value) [] then found else field value) values

abbrev pub newer : Option Bool → Option Bool → Option Bool
newer found none = found
newer found (some b) = some b

unfoldable pub last_shared : Option Bool → List CredentialConstraints → Option Bool
last_shared found [] = found
last_shared found (value ∷ values) = last_shared (newer found value.use_shared_capacity) values

unfoldable pub merge_credential_constraints : List CredentialConstraints → CredentialConstraints
merge_credential_constraints values = record {
  required_tags = collect (λ v. v.required_tags) values;
  excluded_tags = collect (λ v. v.excluded_tags) values;
  model = last_text (λ v. v.model) [] values;
  api_key_id = last_text (λ v. v.api_key_id) [] values;
  member_id = last_text (λ v. v.member_id) [] values;
  use_shared_capacity = last_shared none values;
}
