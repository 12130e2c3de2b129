-- ===== src/Routing/Named.antt =====
-- Which providers lists of texts name, and what of it is left when lists are merged.
use model_dock.Base.{
  ◌≡◌, refl, sym, ◌∙◌, subst, ◌⊎◌, inl, inr, Bool, true, false, ◌||◌, List, [], ◌∷◌, ◌++◌, arith,
  if◌then◌else◌, Bool-cases,
}
use model_dock.Text.{Text, text_eq, text_eq→eq, to_lower, equal_fold}
use model_dock.Routing.{RouteCandidate, contains_fold, is_empty}
use model_dock.Routing.Policy.{unique_lower, restrictive_strings, replace_by}
use model_dock.Routing.Match.{names_provider, offers_all}
use model_dock.Routing.Lists.{
  names, restricts, unique_lower-names, unique_lower-empty, names-append,
}
use model_dock.Routing.Common.{
  restrictive_strings-names, restrictive_strings-left, restrictive_strings-right,
}

-- Whether the list has the slug, the identifier or the type of the candidate's provider.
abbrev pub is_named : List Text → RouteCandidate → Bool
is_named list c =
    names list c.provider_slug || names list c.provider_id || names list c.provider_type

-- Two lists of admitted providers that leave one, or of which one admits all.
abbrev pub Compatible : List Text → List Text → Type 0
Compatible left right =
    (restricts left ≡ false)
    ⊎ ((restricts right ≡ false) ⊎ ((t : Text) × (names left t ≡ true) × (names right t ≡ true)))

equal_fold_trans :
    (s t u : Text) → equal_fold s t ≡ true → equal_fold t u ≡ true → equal_fold s u ≡ true
unfolding equal_fold
equal_fold_trans s t u h h' =
    subst (λ x. text_eq x (to_lower u) ≡ true) (sym (text_eq→eq (to_lower s) (to_lower t) h)) h'

contains_fold-equal_fold :
    (xs : List Text) (k t : Text)
    → contains_fold xs k ≡ true
    → equal_fold k t ≡ true
    → contains_fold xs t ≡ true
unfolding contains_fold
contains_fold-equal_fold [] k t h e = absurd (ground (arith, h))
contains_fold-equal_fold (x ∷ xs) k t h e = elim (Bool-cases (equal_fold x k)) [
  | inl a ↦ let this = equal_fold_trans x k t a e in ground (arith, this)
  | inr a ↦
      let later = contains_fold-equal_fold xs k t (ground (arith, h, a)) e in ground (arith, later)
]

offers_all-contains_fold :
    (offered required : List Text) (t : Text)
    → offers_all offered required ≡ true
    → contains_fold required t ≡ true
    → contains_fold offered t ≡ true
unfolding offers_all contains_fold
offers_all-contains_fold offered [] t h n = absurd (ground (arith, n))
offers_all-contains_fold offered (k ∷ rest) t h n = elim (Bool-cases (equal_fold k t)) [
  | inl e ↦ contains_fold-equal_fold offered k t (ground (arith, h)) e
  | inr e ↦ offers_all-contains_fold offered rest t (ground (arith, h)) (ground (arith, n, e))
]

contains_fold-append :
    (xs ys : List Text) (t : Text)
    → contains_fold (xs ++ ys) t ≡ (contains_fold xs t || contains_fold ys t)
unfolding contains_fold
contains_fold-append [] ys t = refl
contains_fold-append (x ∷ xs) ys t = ground (arith, contains_fold-append xs ys t)

contains_fold-empty : (xs : List Text) (t : Text) → is_empty xs ≡ true → contains_fold xs t ≡ false
unfolding contains_fold
contains_fold-empty [] t h = refl
contains_fold-empty (x ∷ xs) t h = absurd (ground (arith, h))

-- A list of which something is contained replaces the old one.
replace_by-contains_fold :
    (list old : List Text) (t : Text)
    → contains_fold list t ≡ true
    → contains_fold (replace_by list old) t ≡ true
replace_by-contains_fold list old t h = elim (Bool-cases (is_empty list)) [
  | inl e ↦ absurd (ground (arith, h, contains_fold-empty list t e))
  | inr e ↦ subst (λ b. contains_fold (if b then old else list) t ≡ true) (sym e) h
]

not_ignored_lem :
    (list old : List Text) (t : Text)
    → contains_fold (replace_by (unique_lower list) old) t ≡ false
    → names list t ≡ false
not_ignored_lem list old t h = elim (Bool-cases (names list t)) [
  | inl n ↦
      let found =
        replace_by-contains_fold (unique_lower list) old t (unique_lower-names list t ∙ n) in
      absurd (ground (arith, h, found))
  | inr n ↦ n
]

pub names_provider-not_ignored :
    (left right old : List Text) (c : RouteCandidate)
    → names_provider (replace_by (unique_lower (left ++ right)) old) c ≡ false
    → (is_named left c ≡ false) × (is_named right c ≡ false)
names_provider-not_ignored left right old c h =
    let list = replace_by (unique_lower (left ++ right)) old in
    let slug = not_ignored_lem (left ++ right) old c.provider_slug (ground (arith, h)) in
    let id = not_ignored_lem (left ++ right) old c.provider_id (ground (arith, h)) in
    let kind = not_ignored_lem (left ++ right) old c.provider_type (ground (arith, h)) in
    let a = names-append left right c.provider_slug in
    let b = names-append left right c.provider_id in
    let d = names-append left right c.provider_type in
    (ground (arith, slug, id, kind, a, b, d), ground (arith, slug, id, kind, a, b, d))

pub capable_lem :
    (offered old left right : List Text) (t : Text)
    → offers_all offered (old ++ unique_lower (left ++ right)) ≡ true
    → (names left t || names right t) ≡ true
    → contains_fold offered t ≡ true
capable_lem offered old left right t h n =
    let a = names-append left right t in
    let b = unique_lower-names (left ++ right) t in
    let d = contains_fold-append old (unique_lower (left ++ right)) t in
    offers_all-contains_fold offered (old ++ unique_lower (left ++ right)) t h
      (ground (arith, n, a, b, d))

-- What a list that is not empty admits is in it.
among_lem :
    (list old : List Text) (c : RouteCandidate)
    → is_empty list ≡ false
    → (is_empty (replace_by list old) || names_provider (replace_by list old) c) ≡ true
    → names_provider list c ≡ true
among_lem list old c e h =
    let kept : (is_empty list || names_provider list c) ≡ true =
      subst
        (λ b.
          (is_empty (if b then old else list) || names_provider (if b then old else list) c) ≡ true)
        e h in
    ground (arith, kept, e)

names_provider-unique_lower :
    (list : List Text) (c : RouteCandidate) → names_provider (unique_lower list) c ≡ is_named list c
names_provider-unique_lower list c =
    let a = unique_lower-names list c.provider_slug in
    let b = unique_lower-names list c.provider_id in
    let d = unique_lower-names list c.provider_type in ground (arith, a, b, d)

-- What the configuration admits after the list replaced its own.
abbrev pub Passes : List Text → List Text → RouteCandidate → Type 0
Passes list old c =
    (is_empty (replace_by list old) || names_provider (replace_by list old) c) ≡ true

among-unique_lower :
    (values list old : List Text) (c : RouteCandidate)
    → list ≡ unique_lower values
    → Passes list old c
    → restricts values ≡ true
    → is_named values c ≡ true
among-unique_lower values list old c same h r =
    let e = unique_lower-empty values in
    let kept = subst (λ xs. Passes xs old c) same h in
    sym (names_provider-unique_lower values c)
    ∙ among_lem (unique_lower values) old c (ground (arith, e, r)) kept

among-both :
    (left right old : List Text) (c : RouteCandidate) (t : Text)
    → names left t ≡ true
    → names right t ≡ true
    → restricts left ≡ true
    → restricts right ≡ true
    → Passes (restrictive_strings left right) old c
    → (is_named left c ≡ true) × (is_named right c ≡ true)
among-both left right old c t n n' l r h =
    let list = restrictive_strings left right in
    let shared = restrictive_strings-names left right t l r in
    let full : is_empty list ≡ false = elim (Bool-cases (is_empty list)) [
      | inl e ↦ absurd (ground (arith, shared, n, n', contains_fold-empty list t e))
      | inr e ↦ e
    ] in
    let kept = among_lem list old c full h in
    let a = restrictive_strings-names left right c.provider_slug l r in
    let b = restrictive_strings-names left right c.provider_id l r in
    let d = restrictive_strings-names left right c.provider_type l r in
    (ground (arith, kept, a, b, d), ground (arith, kept, a, b, d))

-- Two lists, and what they ask of a provider.
abbrev pub Admits : List Text → List Text → RouteCandidate → Type 0
Admits left right c =
    (restricts left ≡ true → is_named left c ≡ true)
    × (restricts right ≡ true → is_named right c ≡ true)

among-right :
    (left right old : List Text) (c : RouteCandidate)
    → restricts left ≡ false
    → Passes (restrictive_strings left right) old c
    → Admits left right c
among-right left right old c l h = (
  λ l'. absurd (ground (arith, l, l')),
  λ r.
      among-unique_lower right (restrictive_strings left right) old c
        (restrictive_strings-right left right l) h r,
)

among-left :
    (left right old : List Text) (c : RouteCandidate)
    → restricts right ≡ false
    → Passes (restrictive_strings left right) old c
    → Admits left right c
among-left left right old c r h = (
  λ l.
      among-unique_lower left (restrictive_strings left right) old c
        (restrictive_strings-left left right r) h l,
  λ r'. absurd (ground (arith, r, r')),
)

-- A provider that the merged list admits is admitted by both lists, if these are compatible.
pub among-Compatible :
    (left right old : List Text) (c : RouteCandidate)
    → Compatible left right
    → Passes (restrictive_strings left right) old c
    → Admits left right c
among-Compatible left right old c (inl l) h = among-right left right old c l h
among-Compatible left right old c (inr (inl r)) h = among-left left right old c r h
among-Compatible left right old c (inr (inr (t, n, n'))) h = elim (Bool-cases (restricts left)) [
  | inr l ↦ among-right left right old c l h
  | inl l ↦ elim (Bool-cases (restricts right)) [
    | inr r ↦ among-left left right old c r h
    | inl r ↦ let both = among-both left right old c t n n' l r h in (λ _. both.0, λ _. both.1)
  ]
]
