-- ===== src/Decimal/Bounds.antt =====
-- A text that the pattern accepts stands for a number in the range of NUMERIC(30,12).
use native.Mathlib.Nat.{pow-suc, one-le-pow, mul-le-mul_right, pow-le-pow_right}
use model_dock.Base.{
  ℕ, zero, suc, ◌+◌, ◌-◌, ◌*◌, ◌^◌, ◌≤◌, ◌<◌, ◌≡◌, refl, Bool, true, false, some, [], ◌∷◌, arith,
  length, Option-cases, inl, inr,
}
use model_dock.Base.Int.{ℤ, abs}
use model_dock.Text.{Text, trim_space, trim_space_idem}
use model_dock.Decimal.{
  Decimal, span_digits, all_digits, integer_matches, fraction_matches, split_sign, decimal_pattern,
  parse_decimal, digits_value, fraction_value, behind_point, signed, set_string, decimal_rat,
}
use model_dock.Decimal.RoundTrip.{max_units}

all_digits-span_digits : (s : Text) → all_digits (span_digits s).0 ≡ true
unfolding span_digits
all_digits-span_digits [] = refl
all_digits-span_digits (c ∷ s) = ground (arith, all_digits-span_digits s)

next_digit : (acc d p v : ℕ) → d ≤ 9 → v < (acc * 10 + d + 1) * p → v < (acc + 1) * (p * 10)
next_digit acc d p v h lt =
    let grown : (acc * 10 + d + 1) * p ≤ ((acc + 1) * 10) * p = mul-le-mul_right p (omega arith) in
    omega arith

-- A run of n digits stands for a number below 10^n.
digits_value-lt :
    (acc : ℕ) (s : Text) → all_digits s ≡ true → digits_value acc s < (acc + 1) * 10 ^ length s
unfolding digits_value
digits_value-lt acc [] h = omega arith
digits_value-lt acc (c ∷ s) h =
    let digit : c - b'0' ≤ 9 = ground arith in
    let shorter = digits_value-lt (acc * 10 + (c - b'0')) s (ground arith) in
    let power = pow-suc 10 (length s) in
    rw power (next_digit acc (c - b'0') (10 ^ length s) _ digit shorter)

fraction_value-lt : (w : ℕ) (s : Text) → all_digits s ≡ true → fraction_value w s < 10 ^ w
unfolding fraction_value
fraction_value-lt zero s h = omega arith
fraction_value-lt (suc w) [] h = one-le-pow (suc w) 10 (omega arith)
fraction_value-lt (suc w) (c ∷ s) h =
    let digit : c - b'0' ≤ 9 = ground arith in
    let counted : (c - b'0') * 10 ^ w ≤ 9 * 10 ^ w = mul-le-mul_right (10 ^ w) digit in
    omega (arith, fraction_value-lt w s (ground arith), pow-suc 10 w)

integer_matches-length : (s : Text) → integer_matches s ≡ true → length s ≤ 18
integer_matches-length [] h = absurd (ground arith)
integer_matches-length (c ∷ []) h = omega arith
integer_matches-length (c ∷ d ∷ s) h = ground arith

fraction_matches-all_digits :
    (s : Text) → fraction_matches s ≡ true → all_digits (behind_point s) ≡ true
fraction_matches-all_digits [] h = refl
fraction_matches-all_digits (c ∷ s) h = ground arith

digits_value-lt_of_matches :
    (s : Text)
    → all_digits s ≡ true
    → integer_matches s ≡ true
    → digits_value 0 s < 1_000_000_000_000_000_000
digits_value-lt_of_matches s d h = omega (
  arith,
  digits_value-lt 0 s d,
  pow-le-pow_right {n = 10} (omega arith) {j = 18} (integer_matches-length s h),
)

pub abs-signed : (negative : Bool) (u : ℕ) → abs (signed negative u) ≡ u
abs-signed negative zero = refl
abs-signed true (suc u) = refl
abs-signed false (suc u) = refl

-- What the pattern accepts lies within the range.
abs-set_string-lt : (v : Text) → decimal_pattern v ≡ true → abs (set_string v) < max_units
unfolding decimal_pattern set_string
abs-set_string-lt v h =
    let spanned = span_digits (split_sign v).1 in
    let whole =
      digits_value-lt_of_matches spanned.0 (all_digits-span_digits (split_sign v).1)
        (ground arith) in
    let part =
      fraction_value-lt 12 (behind_point spanned.1)
        (fraction_matches-all_digits spanned.1 (ground arith)) in
    rw abs-signed (omega (arith, whole, part))

-- A text with a value is a number of less than 10^30 units of 10^-12, of either sign.
pub abs-decimal_rat-lt : (d : Decimal) {z : ℤ} → decimal_rat d ≡ some z → abs z < max_units
unfolding decimal_rat parse_decimal
abs-decimal_rat-lt d e = ground (arith, abs-set_string-lt (trim_space d))

-- What `ParseDecimal` returns is a Decimal that it returns unchanged.
pub parse_decimal_idem :
    (s : Text) {v : Decimal} → parse_decimal s ≡ some v → parse_decimal v ≡ some v
unfolding parse_decimal
parse_decimal_idem s e = ground (arith, trim_space_idem s)

-- A text with a value is the same number as its trimmed form, which `ParseDecimal` returns.
pub decimal_rat-eq-some :
    (d : Decimal) {z : ℤ}
    → decimal_rat d ≡ some z
    → (v : Decimal) × (parse_decimal d ≡ some v) × (set_string v ≡ z) × (decimal_rat v ≡ some z)
unfolding decimal_rat
decimal_rat-eq-some d e = elim (Option-cases (parse_decimal d)) [
  | inl missing ↦ absurd (ground arith)
  | inr (v, found) ↦ (v, found, ground arith, ground (arith, parse_decimal_idem d found))
]
