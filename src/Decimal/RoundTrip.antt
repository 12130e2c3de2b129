-- ===== src/Decimal/RoundTrip.antt =====
-- `FloatString(12)` and `ParseDecimal` together: what is printed is read back as the same number.
use model_dock.Base.{
  [], none, length, ◌≤◌, ℕ, zero, suc, ◌/◌, ◌%◌, ◌<◌, ◌≡◌, refl, ap, Bool, true, false, some, ◌∷◌,
  ◌++◌, arith, All, All-append,
}
use model_dock.Base.Int.{ℤ, pos, negsuc, abs}
use model_dock.Text.{Text, is_space, IsPlain, trim_space-eq_of_plain}
use model_dock.Decimal.{
  one_units, span_digits, integer_matches, fraction_matches, split_sign, decimal_pattern,
  parse_decimal, signed, set_string, decimal_rat, natural_digits, fixed_digits, float_string,
  units_string,
}
use model_dock.Decimal.Digits.{
  all_digits-natural_digits, digits_value-natural_digits, length-natural_digits,
  length-natural_digits-lower, Leading, lone, longer, Leading-natural_digits,
  integer_matches-Leading, span_digits-append, length-fixed_digits, all_digits-fixed_digits,
  fraction_value-fixed_digits, all_digits-IsPlain,
}

-- One more than the largest number of units that a Decimal holds.
abbrev pub max_units : ℕ
max_units = 1_000_000_000_000_000_000_000_000_000_000

abbrev magnitude_string : ℕ → Text
magnitude_string units =
    natural_digits (suc (units / one_units)) (units / one_units)
    ++ b'.' ∷ fixed_digits 12 (units % one_units)

span_digits-magnitude :
    (u : ℕ)
    → span_digits (magnitude_string u) ≡ (
      natural_digits (suc (u / one_units)) (u / one_units),
      b'.' ∷ fixed_digits 12 (u % one_units),
    )
span_digits-magnitude u =
    span_digits-append (natural_digits (suc (u / one_units)) (u / one_units))
      (fixed_digits 12 (u % one_units))
      (all_digits-natural_digits (suc (u / one_units)) (u / one_units))

magnitude-IsPlain : (u : ℕ) → All IsPlain (magnitude_string u)
unfolding is_space
magnitude-IsPlain u =
    All-append IsPlain (natural_digits (suc (u / one_units)) (u / one_units))
      (b'.' ∷ fixed_digits 12 (u % one_units))
      (all_digits-IsPlain (natural_digits (suc (u / one_units)) (u / one_units))
        (all_digits-natural_digits (suc (u / one_units)) (u / one_units)))
      (
        refl,
        all_digits-IsPlain (fixed_digits 12 (u % one_units))
            (all_digits-fixed_digits 12 (u % one_units) (omega arith)),
      )

-- A text that begins with a digit has no sign.
split_sign-Leading : (s t : Text) → Leading s → split_sign (s ++ t) ≡ (false, s ++ t)
split_sign-Leading _ t (lone d h) = ground arith
split_sign-Leading _ t (longer c s h) = ground arith

split_sign-magnitude : (u : ℕ) → split_sign (magnitude_string u) ≡ (false, magnitude_string u)
split_sign-magnitude u =
    let q = u / one_units in
    split_sign-Leading (natural_digits (suc q) q) (b'.' ∷ fixed_digits 12 (u % one_units))
      (Leading-natural_digits (suc q) q (omega arith))

fraction_matches-fixed_digits :
    (r : ℕ) → r < one_units → fraction_matches (b'.' ∷ fixed_digits 12 r) ≡ true
fraction_matches-fixed_digits r h = rw (all_digits-fixed_digits 12 r h, length-fixed_digits 12 r)

pub integer_matches-natural_digits :
    (q : ℕ) → q < 1_000_000_000_000_000_000 → integer_matches (natural_digits (suc q) q) ≡ true
integer_matches-natural_digits q h =
    integer_matches-Leading (Leading-natural_digits (suc q) q (omega arith))
      (length-natural_digits 17 (suc q) q (omega arith) h)

module _ (v : Text) (negative : Bool) (u : ℕ)
    (sign : split_sign v ≡ (negative, magnitude_string u)) where
  decimal_pattern-magnitude : u < max_units → decimal_pattern v ≡ true
  unfolding decimal_pattern
  decimal_pattern-magnitude h =
      rw (sign, span_digits-magnitude u)
        (rw (
          integer_matches-natural_digits (u / one_units) (omega arith),
          fraction_matches-fixed_digits (u % one_units) (omega arith),
        ))

  set_string-magnitude : set_string v ≡ signed negative u
  unfolding set_string
  set_string-magnitude =
      rw (sign, span_digits-magnitude u)
        (rw
          (
            digits_value-natural_digits (suc (u / one_units)) (u / one_units) (omega arith),
            fraction_value-fixed_digits 12 (u % one_units) (omega arith),
          )
          (ap (signed negative) (omega arith)))

integer_matches_long : (s : Text) → 18 < length s → integer_matches s ≡ false
integer_matches_long [] h = absurd (omega arith)
integer_matches_long (c ∷ []) h = absurd (omega arith)
integer_matches_long (c ∷ d ∷ s) h = ground arith

split_sign-float_string :
    (negative : Bool) (u : ℕ)
    → split_sign (float_string negative u) ≡ (negative, magnitude_string u)
unfolding float_string
split_sign-float_string true u = refl
split_sign-float_string false u = split_sign-magnitude u

float_string-IsPlain : (negative : Bool) (u : ℕ) → All IsPlain (float_string negative u)
unfolding float_string is_space
float_string-IsPlain true u = (refl, magnitude-IsPlain u)
float_string-IsPlain false u = magnitude-IsPlain u

-- What `FloatString(12)` prints is accepted unchanged, if the value is in the range.
pub parse_decimal-float_string :
    (negative : Bool) (u : ℕ)
    → u < max_units
    → parse_decimal (float_string negative u) ≡ some (float_string negative u)
unfolding parse_decimal
parse_decimal-float_string negative u h =
    rw (trim_space-eq_of_plain (float_string negative u) (float_string-IsPlain negative u)) (
      rw (
        decimal_pattern-magnitude (float_string negative u) negative u
          (split_sign-float_string negative u) h))

pub decimal_rat-float_string :
    (negative : Bool) (u : ℕ)
    → u < max_units
    → decimal_rat (float_string negative u) ≡ some (signed negative u)
unfolding decimal_rat
decimal_rat-float_string negative u h =
    rw (parse_decimal-float_string negative u h, decimal_rat)
      (ap some (
        set_string-magnitude (float_string negative u) negative u
          (split_sign-float_string negative u)))

-- A printed number in the range is a valid Decimal, and reading it gives the number back.
pub decimal_rat-units_string : (z : ℤ) → abs z < max_units → decimal_rat (units_string z) ≡ some z
decimal_rat-units_string (pos zero) h = decimal_rat-float_string false 0 h
decimal_rat-units_string (pos (suc n)) h = decimal_rat-float_string false (suc n) h
decimal_rat-units_string (negsuc n) h = decimal_rat-float_string true (suc n) h

-- Outside the range the printed number has too many digits, and is refused.
pub parse_decimal-out_of_range :
    (negative : Bool) (u : ℕ) → max_units ≤ u → parse_decimal (float_string negative u) ≡ none
unfolding parse_decimal decimal_pattern
parse_decimal-out_of_range negative u h =
    rw (trim_space-eq_of_plain (float_string negative u) (float_string-IsPlain negative u)) (
      rw (split_sign-float_string negative u, span_digits-magnitude u)
        (rw (
          integer_matches_long (natural_digits (suc (u / one_units)) (u / one_units)) (
            length-natural_digits-lower 18 (suc (u / one_units)) (u / one_units) (omega arith)
              (omega arith)))))
