-- ===== src/Routing/Lists.antt =====
-- What a list of texts names once it is brought to lower case without repetitions, and what two such
-- lists have in common.
use model_dock.Base.{
  ◌≡◌, refl, sym, ap, subst, ◌⊎◌, inl, inr, Bool, true, false, not, ◌&&◌, ◌||◌, List, [], ◌∷◌, ◌++◌,
  arith, Bool-cases,
}
use model_dock.Text.{Text, text_eq, text_eq→eq, trim_space, lower, to_lower, equal_fold}
use model_dock.Scheduler.{contains}
use model_dock.Routing.{contains_fold, is_empty}
use model_dock.Routing.Policy.{unique_from, unique_lower}

-- Whether the list has the text, up to case and to space around its entries; a blank entry has none.
unfoldable pub names : List Text → Text → Bool
names [] t = false
names (v ∷ rest) t =
    (not (text_eq (trim_space v) []) && equal_fold (trim_space v) t) || names rest t

-- Whether an entry of the list is not blank.
unfoldable pub restricts : List Text → Bool
restricts [] = false
restricts (v ∷ rest) = not (text_eq (trim_space v) []) || restricts rest

pub to_lower_idem : (s : Text) → to_lower (to_lower s) ≡ to_lower s
unfolding to_lower
to_lower_idem [] = refl
to_lower_idem (c ∷ s) =
    let head : lower (lower c) ≡ lower c = ground arith in rw head (rw (to_lower_idem s))

equal_fold-to_lower : (s t : Text) → equal_fold (to_lower s) t ≡ equal_fold s t
unfolding equal_fold
equal_fold-to_lower s t = rw (to_lower_idem s)

to_lower-blank : (s : Text) → text_eq (to_lower s) [] ≡ text_eq s []
unfolding to_lower
to_lower-blank [] = refl
to_lower-blank (c ∷ s) = refl

-- A text that is among the others counts for each that it equals.
contains-contains_fold :
    (xs : List Text) (k t : Text)
    → contains xs k ≡ true
    → equal_fold k t ≡ true
    → contains_fold xs t ≡ true
unfolding contains contains_fold
contains-contains_fold [] k t h e = absurd (ground (arith, h))
contains-contains_fold (x ∷ xs) k t h e = elim (Bool-cases (text_eq x k)) [
  | inl same ↦
      let this : equal_fold x t ≡ true =
        subst (λ y. equal_fold y t ≡ true) (sym (text_eq→eq x k same)) e in
      ground (arith, this)
  | inr other ↦
      let later = contains-contains_fold xs k t (ground (arith, h, other)) e in
      ground (arith, later)
]

abbrev pub is_skipped : List Text → Text → Bool
is_skipped seen v = text_eq (to_lower (trim_space v)) [] || contains seen (to_lower (trim_space v))

pub unique_from-nil : (seen : List Text) → unique_from seen [] ≡ []
unfolding unique_from
unique_from-nil seen = refl

pub unique_from-skip :
    (seen rest : List Text) (v : Text)
    → is_skipped seen v ≡ true
    → unique_from seen (v ∷ rest) ≡ unique_from seen rest
unfolding unique_from
unique_from-skip seen rest v h =
    ap
      (λ (b : Bool). elim b [
        | true ↦ unique_from seen rest
        | false ↦ to_lower (trim_space v) ∷ unique_from (to_lower (trim_space v) ∷ seen) rest
      ])
      h

pub unique_from-keep :
    (seen rest : List Text) (v : Text)
    → is_skipped seen v ≡ false
    → unique_from seen (v ∷ rest)
      ≡ to_lower (trim_space v) ∷ unique_from (to_lower (trim_space v) ∷ seen) rest
unfolding unique_from
unique_from-keep seen rest v h =
    ap
      (λ (b : Bool). elim b [
        | true ↦ unique_from seen rest
        | false ↦ to_lower (trim_space v) ∷ unique_from (to_lower (trim_space v) ∷ seen) rest
      ])
      h

-- Bringing a list to lower case without repetitions changes nothing of what it has.
unique_from-names :
    (seen values : List Text) (t : Text)
    → (contains_fold seen t || contains_fold (unique_from seen values) t)
      ≡ (contains_fold seen t || names values t)
unfolding names contains_fold
unique_from-names seen [] t =
    ap (λ xs. contains_fold seen t || contains_fold xs t) (unique_from-nil seen)
unique_from-names seen (v ∷ rest) t =
    let k = to_lower (trim_space v) in
    let fold : equal_fold k t ≡ equal_fold (trim_space v) t =
      equal_fold-to_lower (trim_space v) t in
    let blank : text_eq k [] ≡ text_eq (trim_space v) [] = to_lower-blank (trim_space v) in
    let old = unique_from-names seen rest t in
    let new = unique_from-names (k ∷ seen) rest t in
    elim (Bool-cases (is_skipped seen v)) [
      | inl s ↦
          let known : equal_fold k t ≡ true
              → (text_eq k [] ≡ true) ⊎ (contains_fold seen t ≡ true) =
            λ e. elim (Bool-cases (contains seen k)) [
              | inl h ↦ inr (contains-contains_fold seen k t h e)
              | inr h ↦ inl (ground (arith, s, h))
            ] in
          rw (unique_from-skip seen rest v s) (ground (arith, old, known, blank, fold))
      | inr s ↦ rw (unique_from-keep seen rest v s) (ground (arith, new, s, blank, fold))
    ]

pub unique_lower-names :
    (values : List Text) (t : Text) → contains_fold (unique_lower values) t ≡ names values t
unfolding contains_fold
unique_lower-names values t = unique_from-names [] values t

pub unique_lower-empty :
    (values : List Text) → is_empty (unique_lower values) ≡ not (restricts values)
unfolding unique_from restricts contains
unique_lower-empty [] = refl
unique_lower-empty (v ∷ rest) =
    let blank = to_lower-blank (trim_space v) in
    elim (Bool-cases (text_eq (to_lower (trim_space v)) [])) [
      | inl b ↦
          let skip = ap is_empty (unique_from-skip [] rest v (ground (arith, b))) in
          ground (arith, unique_lower-empty rest, b, blank, skip)
      | inr b ↦
          let keep = ap is_empty (unique_from-keep [] rest v (ground (arith, b))) in
          ground (arith, b, blank, keep)
    ]

pub names-append : (xs ys : List Text) (t : Text) → names (xs ++ ys) t ≡ (names xs t || names ys t)
unfolding names
names-append [] ys t = refl
names-append (x ∷ xs) ys t = ground (arith, names-append xs ys t)
