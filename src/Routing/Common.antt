-- ===== src/Routing/Common.antt =====
-- What two lists of texts have in common, and what is left of them when each restricts the other.
use model_dock.Base.{
  ◌≡◌, refl, sym, ap, ◌∙◌, subst, inl, inr, true, false, ◌&&◌, ◌||◌, List, [], ◌∷◌, ◌++◌, arith,
  Bool-cases, if_lem, All, All-append,
}
use model_dock.Text.{Text, text_eq, text_eq→eq, trim_space, to_lower, equal_fold}
use model_dock.Scheduler.{contains}
use model_dock.Routing.{contains_fold, is_empty}
use model_dock.Routing.Policy.{
  unique_from, unique_lower, copies, common, restrict, restrictive_strings,
}
use model_dock.Routing.Lists.{
  names, restricts, to_lower_idem, is_skipped, unique_from-nil, unique_from-skip, unique_from-keep,
  unique_lower-names, unique_lower-empty,
}

text_eq_sym : (s t : Text) → text_eq s t ≡ text_eq t s
text_eq_sym [] [] = refl
text_eq_sym [] (b ∷ t) = refl
text_eq_sym (a ∷ s) [] = refl
text_eq_sym (a ∷ s) (b ∷ t) = ground (arith, text_eq_sym s t)

abbrev IsLowered : Text → Type 0
IsLowered s = to_lower s ≡ s

lowered-contains_fold :
    (xs : List Text) (t : Text) → All IsLowered xs → contains_fold xs t ≡ contains xs (to_lower t)
unfolding contains_fold contains equal_fold
lowered-contains_fold [] t h = refl
lowered-contains_fold (x ∷ xs) t (h, hs) = rw h (rw (lowered-contains_fold xs t hs))

unique_from-IsLowered : (seen values : List Text) → All IsLowered (unique_from seen values)
unique_from-IsLowered seen [] = subst (All IsLowered) (sym (unique_from-nil seen)) tt
unique_from-IsLowered seen (v ∷ rest) = elim (Bool-cases (is_skipped seen v)) [
  | inl s ↦
      subst (All IsLowered) (sym (unique_from-skip seen rest v s)) (unique_from-IsLowered seen rest)
  | inr s ↦
      subst (All IsLowered) (sym (unique_from-keep seen rest v s))
        (to_lower_idem (trim_space v), unique_from-IsLowered (to_lower (trim_space v) ∷ seen) rest)
]

contains-append :
    (xs ys : List Text) (k : Text) → contains (xs ++ ys) k ≡ (contains xs k || contains ys k)
unfolding contains
contains-append [] ys k = refl
contains-append (x ∷ xs) ys k = ground (arith, contains-append xs ys k)

copies-contains :
    (v : Text) (xs : List Text) (k : Text)
    → contains (copies v xs) k ≡ (contains xs v && text_eq v k)
unfolding copies contains
copies-contains v [] k = refl
copies-contains v (x ∷ xs) k =
    let ih = copies-contains v xs k in
    let turned = text_eq_sym v x in
    elim (Bool-cases (text_eq v x)) [
      | inl e ↦ rw (e, contains) (ground (arith, ih, turned, e))
      | inr e ↦ rw (e, contains) (ground (arith, ih, turned, e))
    ]

common-contains :
    (xs ys : List Text) (k : Text) → contains (common xs ys) k ≡ (contains xs k && contains ys k)
unfolding common contains
common-contains [] ys k = refl
common-contains (x ∷ xs) ys k =
    let ih = common-contains xs ys k in
    let copied = copies-contains x ys k in
    let both = contains-append (copies x ys) (common xs ys) k in
    elim (Bool-cases (text_eq x k)) [
      | inl e ↦
          let same : contains ys x ≡ contains ys k = ap (contains ys) (text_eq→eq x k e) in
          ground (arith, ih, copied, both, same, e)
      | inr e ↦ ground (arith, ih, copied, both, e)
    ]

copies-IsLowered : (v : Text) (xs : List Text) → IsLowered v → All IsLowered (copies v xs)
unfolding copies
copies-IsLowered v [] h = tt
copies-IsLowered v (x ∷ xs) h =
    if_lem (All IsLowered) (text_eq v x) (v ∷ copies v xs) (copies v xs)
      (λ _. (h, copies-IsLowered v xs h)) (λ _. copies-IsLowered v xs h)

common-IsLowered : (xs ys : List Text) → All IsLowered xs → All IsLowered (common xs ys)
unfolding common
common-IsLowered [] ys h = tt
common-IsLowered (x ∷ xs) ys (h, hs) =
    All-append IsLowered (copies x ys) (common xs ys) (copies-IsLowered x ys h)
      (common-IsLowered xs ys hs)

common-contains_fold :
    (xs ys : List Text) (t : Text)
    → All IsLowered xs
    → All IsLowered ys
    → contains_fold (common xs ys) t ≡ (contains_fold xs t && contains_fold ys t)
common-contains_fold xs ys t h h' =
    let a = lowered-contains_fold xs t h in
    let b = lowered-contains_fold ys t h' in
    let c = lowered-contains_fold (common xs ys) t (common-IsLowered xs ys h) in
    let d = common-contains xs ys (to_lower t) in ground (arith, a, b, c, d)

-- What two lists have in common; a list that is empty does not restrict the other.
restrict-contains_fold :
    (xs ys : List Text) (t : Text)
    → All IsLowered xs
    → All IsLowered ys
    → is_empty xs ≡ false
    → is_empty ys ≡ false
    → contains_fold (restrict xs ys) t ≡ (contains_fold xs t && contains_fold ys t)
restrict-contains_fold [] ys t h h' e e' = absurd (ground (arith, e))
restrict-contains_fold (x ∷ xs) [] t h h' e e' = absurd (ground (arith, e'))
restrict-contains_fold (x ∷ xs) (y ∷ ys) t h h' e e' = common-contains_fold (x ∷ xs) (y ∷ ys) t h h'

-- Two lists that both restrict leave what both have.
pub restrictive_strings-names :
    (left right : List Text) (t : Text)
    → restricts left ≡ true
    → restricts right ≡ true
    → contains_fold (restrictive_strings left right) t ≡ (names left t && names right t)
unfolding restrictive_strings
restrictive_strings-names left right t h h' =
    let a = unique_lower-names left t in
    let b = unique_lower-names right t in
    let e = unique_lower-empty left in
    let e' = unique_lower-empty right in
    let c =
      restrict-contains_fold (unique_lower left) (unique_lower right) t
        (unique_from-IsLowered [] left) (unique_from-IsLowered [] right) (ground (arith, e, h))
        (ground (arith, e', h')) in
    ground (arith, a, b, c)

restrict-left : (xs : List Text) → restrict xs [] ≡ xs
restrict-left [] = refl
restrict-left (x ∷ xs) = refl

is_empty_lem : (xs : List Text) → is_empty xs ≡ true → xs ≡ []
is_empty_lem [] h = refl
is_empty_lem (x ∷ xs) h = absurd (ground (arith, h))

unique_lower-nil : (values : List Text) → restricts values ≡ false → unique_lower values ≡ []
unique_lower-nil values h =
    let e = unique_lower-empty values in is_empty_lem (unique_lower values) (ground (arith, e, h))

-- A list that does not restrict leaves the other one.
pub restrictive_strings-left :
    (left right : List Text)
    → restricts right ≡ false
    → restrictive_strings left right ≡ unique_lower left
unfolding restrictive_strings
restrictive_strings-left left right h =
    ap (restrict (unique_lower left)) (unique_lower-nil right h) ∙ restrict-left (unique_lower left)

pub restrictive_strings-right :
    (left right : List Text)
    → restricts left ≡ false
    → restrictive_strings left right ≡ unique_lower right
unfolding restrictive_strings
restrictive_strings-right left right h =
    ap (λ xs. restrict xs (unique_lower right)) (unique_lower-nil left h)
