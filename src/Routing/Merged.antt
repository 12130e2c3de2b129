-- ===== src/Routing/Merged.antt =====
-- Merged constraints ask for the tags of all their parts, and for the rest of the last part that
-- sets it.
use model_dock.Base.{
  ◌≡◌, refl, sym, ap, ◌∙◌, Bool, true, false, not, ◌&&◌, ◌||◌, List, [], ◌∷◌, arith, if◌then◌else◌,
  Bool-cases, inl, inr, ◌⊎◌, ◌≢◌, subst, Option, none, some, Option-cases, ◌++◌, All,
}
use model_dock.Text.{Text, text_eq, text_eq→eq, trim_space, to_lower}
use model_dock.Scheduler.{
  CredentialConstraints, contains, has_all, has_any, matches_credential_tags,
}
use model_dock.Routing.Constraints.{
  text_ltb, insert_tag, add_tags, collect, last_text, newer, last_shared,
  merge_credential_constraints,
}

-- Every tag that is not blank, in lower case, is among those that are there.
unfoldable pub has_each : List Text → List Text → Bool
has_each available [] = true
has_each available (tag ∷ tags) =
    (text_eq (to_lower (trim_space tag)) [] || contains available (to_lower (trim_space tag)))
    && has_each available tags

-- Some tag that is not blank, in lower case, is among those that are there.
unfoldable pub has_some : List Text → List Text → Bool
has_some available [] = false
has_some available (tag ∷ tags) =
    (not (text_eq (to_lower (trim_space tag)) []) && contains available (to_lower (trim_space tag)))
    || has_some available tags

-- The tags meet every one of the constraints.
unfoldable pub matches_each : List Text → List CredentialConstraints → Bool
matches_each tags [] = true
matches_each tags (v ∷ values) =
    has_each tags v.required_tags && not (has_some tags v.excluded_tags) && matches_each tags values

module _ (tags : List Text) where
  insert_tag-has_all :
      (key : Text) (xs : List Text)
      → has_all tags (insert_tag key xs) ≡ (contains tags key && has_all tags xs)
  unfolding insert_tag has_all
  insert_tag-has_all key [] = refl
  insert_tag-has_all key (x ∷ xs) = elim (Bool-cases (text_eq key x)) [
    | inl e ↦
        let same : contains tags key ≡ contains tags x = ap (contains tags) (text_eq→eq key x e) in
        rw (e, has_all) (ground (arith, same))
    | inr e ↦ elim (Bool-cases (text_ltb key x)) [
      | inl l ↦ rw (e, has_all) (rw (l, has_all) refl)
      | inr l ↦
          let ih = insert_tag-has_all key xs in
          rw (e, has_all) (rw (l, has_all) (ground (arith, ih)))
    ]
  ]

  insert_tag-has_any :
      (key : Text) (xs : List Text)
      → has_any tags (insert_tag key xs) ≡ (contains tags key || has_any tags xs)
  unfolding insert_tag has_any
  insert_tag-has_any key [] = refl
  insert_tag-has_any key (x ∷ xs) = elim (Bool-cases (text_eq key x)) [
    | inl e ↦
        let same : contains tags key ≡ contains tags x = ap (contains tags) (text_eq→eq key x e) in
        rw (e, has_any) (ground (arith, same))
    | inr e ↦ elim (Bool-cases (text_ltb key x)) [
      | inl l ↦ rw (e, has_any) (rw (l, has_any) refl)
      | inr l ↦
          let ih = insert_tag-has_any key xs in
          rw (e, has_any) (rw (l, has_any) (ground (arith, ih)))
    ]
  ]

  add_tags-has_all :
      (xs new : List Text) → has_all tags (add_tags xs new) ≡ (has_each tags new && has_all tags xs)
  unfolding add_tags has_each
  add_tags-has_all xs [] = refl
  add_tags-has_all xs (t ∷ new) =
      let key = to_lower (trim_space t) in
      let ih = add_tags-has_all xs new in
      let put = insert_tag-has_all key (add_tags xs new) in
      elim (Bool-cases (text_eq key [])) [
        | inl e ↦
            ap (λ b. has_all tags (if b then add_tags xs new else insert_tag key (add_tags xs new)))
              e
            ∙ ground (arith, ih, e)
        | inr e ↦
            ap (λ b. has_all tags (if b then add_tags xs new else insert_tag key (add_tags xs new)))
              e
            ∙ ground (arith, ih, put, e)
      ]

  add_tags-has_any :
      (xs new : List Text) → has_any tags (add_tags xs new) ≡ (has_some tags new || has_any tags xs)
  unfolding add_tags has_some
  add_tags-has_any xs [] = refl
  add_tags-has_any xs (t ∷ new) =
      let key = to_lower (trim_space t) in
      let ih = add_tags-has_any xs new in
      let put = insert_tag-has_any key (add_tags xs new) in
      elim (Bool-cases (text_eq key [])) [
        | inl e ↦
            ap (λ b. has_any tags (if b then add_tags xs new else insert_tag key (add_tags xs new)))
              e
            ∙ ground (arith, ih, e)
        | inr e ↦
            ap (λ b. has_any tags (if b then add_tags xs new else insert_tag key (add_tags xs new)))
              e
            ∙ ground (arith, ih, put, e)
      ]

  collect_lem :
      (values : List CredentialConstraints)
      → (has_all tags (collect (λ v. v.required_tags) values)
          && not (has_any tags (collect (λ v. v.excluded_tags) values)))
        ≡ matches_each tags values
  unfolding collect matches_each has_all has_any
  collect_lem [] = refl
  collect_lem (v ∷ values) =
      let all = add_tags-has_all (collect (λ v. v.required_tags) values) v.required_tags in
      let excluded = add_tags-has_any (collect (λ v. v.excluded_tags) values) v.excluded_tags in
      ground (arith, all, excluded, collect_lem values)

  matches_merged :
      (values : List CredentialConstraints)
      → matches_credential_tags tags (merge_credential_constraints values)
        ≡ matches_each tags values
  unfolding matches_credential_tags merge_credential_constraints
  matches_merged values = collect_lem values

-- The value of the last part that sets the field, if one does.
abbrev pub IsLast : (CredentialConstraints → Text) → List CredentialConstraints → Text → Type 0
IsLast field values t =
    ((t ≡ []) × All (λ v. field v ≡ []) values)
    ⊎ (earlier : List CredentialConstraints) × (v : CredentialConstraints) × (later : List
        CredentialConstraints)
      × (values ≡ earlier ++ v ∷ later)
      × (t ≡ field v)
      × (t ≢ [])
      × All (λ w. field w ≡ []) later

abbrev pub IsLastShared : List CredentialConstraints → Option Bool → Type 0
IsLastShared values o =
    ((o ≡ none) × All (λ v. v.use_shared_capacity ≡ none) values)
    ⊎ (earlier : List CredentialConstraints) × (v : CredentialConstraints) × (later : List
        CredentialConstraints)
      × (values ≡ earlier ++ v ∷ later)
      × (o ≡ v.use_shared_capacity)
      × (o ≢ none)
      × All (λ w. w.use_shared_capacity ≡ none) later

-- Either a later part sets the field, or none does and the value found so far stays.
last_text_lem :
    (field : CredentialConstraints → Text) (found : Text) (values : List CredentialConstraints)
    → ((last_text field found values ≡ found) × All (λ v. field v ≡ []) values)
      ⊎ (earlier : List CredentialConstraints) × (v : CredentialConstraints) × (later : List
          CredentialConstraints)
        × (values ≡ earlier ++ v ∷ later)
        × (last_text field found values ≡ field v)
        × (field v ≢ [])
        × All (λ w. field w ≡ []) later
unfolding last_text
last_text_lem field found [] = inl (refl, tt)
last_text_lem field found (v ∷ values) = elim (Bool-cases (text_eq (field v) [])) [
  | inl e ↦
      let unset = text_eq→eq (field v) [] e in
      rw e (elim (last_text_lem field found values) [
        | inl (same, none_set) ↦ inl (same, (unset, none_set))
        | inr (earlier, w, later, split, same, set, none_set) ↦
            inr (v ∷ earlier, w, later, ap (λ xs. v ∷ xs) split, same, set, none_set)
      ])
  | inr e ↦
      let set : field v ≢ [] =
        λ x. absurd (ground (arith, e, subst (λ t. text_eq t [] ≡ true) (sym x) refl)) in
      rw e (elim (last_text_lem field (field v) values) [
        | inl (same, none_set) ↦ inr ([], v, values, refl, same, set, none_set)
        | inr (earlier, w, later, split, same, set', none_set) ↦
            inr (v ∷ earlier, w, later, ap (λ xs. v ∷ xs) split, same, set', none_set)
      ])
]

last_text-IsLast :
    (field : CredentialConstraints → Text) (values : List CredentialConstraints)
    → IsLast field values (last_text field [] values)
last_text-IsLast field values = elim (last_text_lem field [] values) [
  | inl h ↦ inl h
  | inr (earlier, v, later, split, same, set, none_set) ↦
      inr (earlier, v, later, split, same, (λ x. set (sym same ∙ x)), none_set)
]

last_shared_lem :
    (found : Option Bool) (values : List CredentialConstraints)
    → ((last_shared found values ≡ found) × All (λ v. v.use_shared_capacity ≡ none) values)
      ⊎ (earlier : List CredentialConstraints) × (v : CredentialConstraints) × (later : List
          CredentialConstraints)
        × (values ≡ earlier ++ v ∷ later)
        × (last_shared found values ≡ v.use_shared_capacity)
        × (v.use_shared_capacity ≢ none)
        × All (λ w. w.use_shared_capacity ≡ none) later
unfolding last_shared
last_shared_lem found [] = inl (refl, tt)
last_shared_lem found (v ∷ values) = elim (Option-cases v.use_shared_capacity) [
  | inl e ↦
      let step : last_shared found (v ∷ values) ≡ last_shared found values =
        ap (λ o. last_shared (newer found o) values) e in
      elim (last_shared_lem found values) [
        | inl (same, none_set) ↦ inl (step ∙ same, (e, none_set))
        | inr (earlier, w, later, split, same, set, none_set) ↦
            inr (v ∷ earlier, w, later, ap (λ xs. v ∷ xs) split, step ∙ same, set, none_set)
      ]
  | inr (b, e) ↦
      let step : last_shared found (v ∷ values) ≡ last_shared (some b) values =
        ap (λ o. last_shared (newer found o) values) e in
      elim (last_shared_lem (some b) values) [
        | inl (same, none_set) ↦ inr (
          [],
          v,
          values,
          refl,
          step ∙ same ∙ sym e,
          (λ x. absurd (ground (arith, sym e ∙ x))),
          none_set,
        )
        | inr (earlier, w, later, split, same, set, none_set) ↦
            inr (v ∷ earlier, w, later, ap (λ xs. v ∷ xs) split, step ∙ same, set, none_set)
      ]
]

last_shared-IsLastShared :
    (values : List CredentialConstraints) → IsLastShared values (last_shared none values)
last_shared-IsLastShared values = elim (last_shared_lem none values) [
  | inl h ↦ inl h
  | inr (earlier, v, later, split, same, set, none_set) ↦
      inr (earlier, v, later, split, same, (λ x. set (sym same ∙ x)), none_set)
]

-- What the merged constraints are of their parts.
pub record IsMerged (values : List CredentialConstraints) (merged : CredentialConstraints)
    : Type 0 where
  pub tags :
      (available : List Text)
      → matches_credential_tags available merged ≡ matches_each available values
  pub model : IsLast (λ v. v.model) values merged.model
  pub api_key : IsLast (λ v. v.api_key_id) values merged.api_key_id
  pub member : IsLast (λ v. v.member_id) values merged.member_id
  pub shared : IsLastShared values merged.use_shared_capacity

-- The tags of a credential match the merged constraints just if they have every required tag of each
-- part and no excluded tag of any; blank tags count for nothing, and the others in lower case. The
-- model, the key, the member and the use of the shared capacity are those of the last part that sets
-- them, whatever the earlier parts say.
pub merge_credential_constraints-IsMerged :
    (values : List CredentialConstraints) → IsMerged values (merge_credential_constraints values)
merge_credential_constraints-IsMerged values = record {
  tags = λ available. matches_merged available values;
  model = unfold merge_credential_constraints in last_text-IsLast (λ v. v.model) values;
  api_key = unfold merge_credential_constraints in last_text-IsLast (λ v. v.api_key_id) values;
  member = unfold merge_credential_constraints in last_text-IsLast (λ v. v.member_id) values;
  shared = unfold merge_credential_constraints in last_shared-IsLastShared values;
}
