-- ===== src/Pricing/Format.antt =====
-- `format` of internal/pricing/pricing.go: what `Calculate` prints can be stored, as the same number.
use mathlib.Core.List.{append_assoc, append-nil}
use model_dock.Base.{
  ℕ, zero, suc, ◌+◌, ◌-◌, ◌*◌, ◌/◌, ◌%◌, ◌^◌, ◌≤◌, ◌<◌, ◌≡◌, refl, ap, true, false, ◌||◌, some, [],
  ◌∷◌, ◌++◌, arith, le→leb, lt→ltb, ◌==◌, length, All, All-append, Bool-cases, inl, inr,
}
use model_dock.Text.{Text, codes, text_eq, is_space, IsPlain, trim_space-eq_of_plain}
use model_dock.Decimal.{
  one_units, span_digits, all_digits, integer_matches, digits_value, fraction_value, natural_digits,
  fixed_digits, float_string,
}
use model_dock.Decimal.Digits.{
  all_digits-natural_digits, digits_value-natural_digits, Leading, lone, longer,
  Leading-natural_digits, span_digits-append, length-fixed_digits, all_digits-fixed_digits,
  fraction_value-fixed_digits, all_digits-IsPlain,
}
use model_dock.Decimal.RoundTrip.{max_units, integer_matches-natural_digits}
use model_dock.Pricing.{
  stored_decimal_matches, validate_stored_decimal, stored_units, must_rat, non_negative, before_cut,
  trim_right_char, format,
}

-- A character other than the one that is cut stops the cut.
cut-append :
    (x : ℕ) (s : Text) (c : ℕ) (t : Text)
    → (c == x) ≡ false
    → trim_right_char x (s ++ c ∷ t) ≡ s ++ c ∷ trim_right_char x t
unfolding trim_right_char
cut-append x [] c t h = stop (trim_right_char x t)
  where
    stop : (r : Text) → before_cut x c r ≡ c ∷ r
    stop [] = rw h
    stop (d ∷ r) = refl
cut-append x (a ∷ []) c t h = rw (cut-append x [] c t h)
cut-append x (a ∷ b ∷ s) c t h = rw (cut-append x (b ∷ s) c t h)

-- No digit is cut by the point.
cut_digits : (s : Text) → all_digits s ≡ true → trim_right_char b'.' s ≡ s
unfolding trim_right_char
cut_digits [] h = refl
cut_digits (c ∷ []) h = ground arith
cut_digits (c ∷ d ∷ s) h = rw (cut_digits (d ∷ s) (ground arith))

all_digits-cut : (s : Text) → all_digits s ≡ true → all_digits (trim_right_char b'0' s) ≡ true
unfolding trim_right_char
all_digits-cut [] h = refl
all_digits-cut (c ∷ s) h = ground (arith, all_digits-cut s)

length-cut : (x : ℕ) (s : Text) → length (trim_right_char x s) ≤ length s
unfolding trim_right_char
length-cut x [] = omega arith
length-cut x (c ∷ s) = ground (arith, length-cut x s)

fraction_value-nil : (w : ℕ) → fraction_value w [] ≡ 0
unfolding fraction_value
fraction_value-nil zero = refl
fraction_value-nil (suc w) = refl

-- The zeros that are cut count nothing.
fraction_value-cut :
    (w : ℕ) (s : Text) → fraction_value w (trim_right_char b'0' s) ≡ fraction_value w s
unfolding fraction_value trim_right_char
fraction_value-cut zero s = refl
fraction_value-cut (suc w) [] = refl
fraction_value-cut (suc w) (c ∷ s) = after (trim_right_char b'0' s) (fraction_value-cut w s)
  where
    after :
        (t : Text)
        → fraction_value w t ≡ fraction_value w s
        → fraction_value (suc w) (before_cut b'0' c t) ≡ (c - b'0') * 10 ^ w + fraction_value w s
    after [] e = elim (Bool-cases (c == b'0')) [
      | inl cut ↦
          let none_left : c - b'0' ≡ 0 = ground arith in
          rw (cut, none_left) (omega (arith, e, fraction_value-nil w))
      | inr kept ↦ rw kept (ap (λ v. (c - b'0') * 10 ^ w + v) e)
    ]
    after (d ∷ t) e = rw e

-- A point before digits stays, and one before nothing goes.
abbrev with_fraction : Text → Text → Text
with_fraction ds [] = ds
with_fraction ds (c ∷ fs) = ds ++ b'.' ∷ c ∷ fs

cut_point-digits :
    (ds : Text) (c : ℕ) (fs : Text)
    → all_digits (c ∷ fs) ≡ true
    → trim_right_char b'.' (ds ++ c ∷ fs) ≡ ds ++ c ∷ fs
cut_point-digits ds c fs h =
    rw (cut-append b'.' ds c fs (ground arith)) (rw (cut_digits fs (ground arith)))

cut_point-last : (ds : Text) → all_digits ds ≡ true → trim_right_char b'.' (ds ++ b'.' ∷ []) ≡ ds
unfolding trim_right_char
cut_point-last [] h = refl
cut_point-last (c ∷ ds) h = rw (cut_point-last ds (ground arith)) (ground arith)

cut_point :
    (ds fs : Text)
    → all_digits ds ≡ true
    → all_digits fs ≡ true
    → trim_right_char b'.' (ds ++ b'.' ∷ fs) ≡ with_fraction ds fs
cut_point ds [] d f = cut_point-last ds d
cut_point ds (c ∷ fs) d f = rw append_assoc at (cut_point-digits (ds ++ b'.' ∷ []) c fs f)

not_zero_text :
    (s t : Text) → Leading s → text_eq (s ++ t) (codes "-0") || text_eq (s ++ t) [] ≡ false
not_zero_text _ t (lone d h) = ground arith
not_zero_text _ t (longer c s h) = ground arith

abbrev whole_digits : ℕ → Text
whole_digits u = natural_digits (suc (u / one_units)) (u / one_units)

abbrev part_digits : ℕ → Text
part_digits u = trim_right_char b'0' (fixed_digits 12 (u % one_units))

whole-Leading : (u : ℕ) → Leading (whole_digits u)
whole-Leading u = Leading-natural_digits (suc (u / one_units)) (u / one_units) (omega arith)

whole-all_digits : (u : ℕ) → all_digits (whole_digits u) ≡ true
whole-all_digits u = all_digits-natural_digits (suc (u / one_units)) (u / one_units)

part-all_digits : (u : ℕ) → all_digits (part_digits u) ≡ true
part-all_digits u =
    all_digits-cut (fixed_digits 12 (u % one_units))
      (all_digits-fixed_digits 12 (u % one_units) (omega arith))

with_fraction-not_zero :
    (ds fs : Text)
    → Leading ds
    → text_eq (with_fraction ds fs) (codes "-0") || text_eq (with_fraction ds fs) [] ≡ false
with_fraction-not_zero ds [] h = rw append-nil at (not_zero_text ds [] h)
with_fraction-not_zero ds (c ∷ fs) h = not_zero_text ds (b'.' ∷ c ∷ fs) h

format_lem :
    (u : ℕ) → format (float_string false u) ≡ with_fraction (whole_digits u) (part_digits u)
unfolding format float_string
format_lem u = rw (cut-append b'0' (whole_digits u) b'.' (fixed_digits 12 (u % one_units)) refl) (
    rw (cut_point (whole_digits u) (part_digits u) (whole-all_digits u) (part-all_digits u))
      (rw (with_fraction-not_zero (whole_digits u) (part_digits u) (whole-Leading u))))

span_digits-all : (s : Text) → all_digits s ≡ true → span_digits s ≡ (s, [])
unfolding span_digits
span_digits-all [] h = refl
span_digits-all (c ∷ s) h = ground (arith, span_digits-all s)

-- A whole part and a fraction of at most 12 digits are read back.
with_fraction_lem :
    (ds fs : Text)
    → all_digits ds ≡ true
    → all_digits fs ≡ true
    → integer_matches ds ≡ true
    → length fs ≤ 12
    → (stored_decimal_matches (with_fraction ds fs) ≡ true)
      × (stored_units (with_fraction ds fs) ≡ digits_value 0 ds * one_units + fraction_value 12 fs)
unfolding stored_decimal_matches stored_units
with_fraction_lem ds [] d f i n = (rw (span_digits-all ds d, i), rw (span_digits-all ds d))
with_fraction_lem ds (c ∷ fs) d f i n = (
  rw (
    span_digits-append ds (c ∷ fs) d,
    i,
    f,
    lt→ltb 0 (length (c ∷ fs)) (omega arith),
    le→leb (length (c ∷ fs)) 12 n,
  ),
  rw (span_digits-append ds (c ∷ fs) d),
)

with_fraction-IsPlain :
    (ds fs : Text) → all_digits ds ≡ true → all_digits fs ≡ true → All IsPlain (with_fraction ds fs)
unfolding is_space
with_fraction-IsPlain ds [] d f = all_digits-IsPlain ds d
with_fraction-IsPlain ds (c ∷ fs) d f =
    All-append IsPlain ds (b'.' ∷ c ∷ fs) (all_digits-IsPlain ds d)
      (refl, all_digits-IsPlain (c ∷ fs) f)

-- An amount of u units in the range, printed with 12 digits and cut short, is accepted as a stored
-- decimal and is read as u units again.
pub non_negative-format :
    (u : ℕ) → u < max_units → non_negative (format (float_string false u)) ≡ some u
unfolding non_negative validate_stored_decimal must_rat
non_negative-format u h =
    let ds = whole_digits u in
    let fs = part_digits u in
    let d = whole-all_digits u in
    let f = part-all_digits u in
    let short : length fs ≤ 12 = omega (
      arith,
      length-cut b'0' (fixed_digits 12 (u % one_units)),
      length-fixed_digits 12 (u % one_units),
    ) in
    let (fits, value) =
      with_fraction_lem ds fs d f (integer_matches-natural_digits (u / one_units) (omega arith))
        short in
    let plain = trim_space-eq_of_plain (with_fraction ds fs) (with_fraction-IsPlain ds fs d f) in
    rw (format_lem u) (
      rw plain (
        rw (plain, fits, value)
          (ap some (
            rw
              (
                digits_value-natural_digits (suc (u / one_units)) (u / one_units) (omega arith),
                fraction_value-cut 12 (fixed_digits 12 (u % one_units)),
                fraction_value-fixed_digits 12 (u % one_units) (omega arith),
              )
              (omega arith)))))
