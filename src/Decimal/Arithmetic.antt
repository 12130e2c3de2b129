-- ===== src/Decimal/Arithmetic.antt =====
-- The methods of `Decimal`, on every pair of valid operands.
use native.Mathlib.Nat.{div-mul-le_self, lt-div-mul-add}
use model_dock.Base.{
  ℕ, zero, suc, ◌+◌, ◌*◌, ◌/◌, ◌≤◌, ◌<◌, ◌≡◌, refl, Bool, Option, none, some, arith, ltb, ◌&&◌,
  lt→ltb, ◌>>=◌, ◌↔◌,
}
use model_dock.Base.Int.{ℤ, pos, negsuc, abs, ◌+ℤ◌, ◌-ℤ◌, ◌<ℤ◌, eq_of_parts}
use model_dock.Decimal.{
  Decimal, one_units, parse_decimal, signed, decimal_rat, float_string, round_half_away,
  is_below_zero, units_string, differ, product_string, add, subtract, compare, compare_ℤ, multiply,
}
use model_dock.Decimal.Bounds.{abs-signed}
use model_dock.Decimal.RoundTrip.{
  parse_decimal-out_of_range, max_units, parse_decimal-float_string, decimal_rat-float_string,
  decimal_rat-units_string,
}

-- The result is a valid Decimal of this value.
abbrev pub Holds : Option Decimal → ℤ → Type 0
Holds result z = (d : Decimal) × (result ≡ some d) × (decimal_rat d ≡ some z)

-- The result of an operation whose exact value is z, printed with this sign: a valid Decimal of that
-- value if it is in the range of NUMERIC(30,12), and otherwise an error.
abbrev pub Rounded : Option Decimal → ℤ → Type 0
Rounded result z = (abs z < max_units → Holds result z) × (max_units ≤ abs z → result ≡ none)

-- What an operation with the exact result `f` promises, of the values of its two operands.
abbrev pub Meets : (ℤ → ℤ → ℤ) → Option ℤ → Option ℤ → Option Decimal → Type 0
Meets f (some a) (some b) result = Rounded result (f a b)
Meets f none y result = result ≡ none
Meets f (some a) none result = result ≡ none

units_string-Rounded : (z : ℤ) → Rounded (parse_decimal (units_string z)) z
units_string-Rounded z = (
  λ h. (
    units_string z,
    parse_decimal-float_string (is_below_zero z) (abs z) h,
    decimal_rat-units_string z h,
  ),
  parse_decimal-out_of_range (is_below_zero z) (abs z),
)

add_cases :
    (x y : Option ℤ) → Meets ◌+ℤ◌ x y (x >>= λ a. y >>= λ b. parse_decimal (units_string (a +ℤ b)))
add_cases none y = refl
add_cases (some a) none = refl
add_cases (some a) (some b) = units_string-Rounded (a +ℤ b)

subtract_cases :
    (x y : Option ℤ) → Meets ◌-ℤ◌ x y (x >>= λ a. y >>= λ b. parse_decimal (units_string (a -ℤ b)))
subtract_cases none y = refl
subtract_cases (some a) none = refl
subtract_cases (some a) (some b) = units_string-Rounded (a -ℤ b)

-- A sum of two texts is the exact sum of their values if both are valid Decimals and the sum is in
-- the range of NUMERIC(30,12), and an error in every other case.
pub add-Meets : (d other : Decimal) → Meets ◌+ℤ◌ (decimal_rat d) (decimal_rat other) (add d other)
unfolding add
add-Meets d other = add_cases (decimal_rat d) (decimal_rat other)

-- A difference of two texts is the exact difference of their values if both are valid Decimals and it
-- is in the range of NUMERIC(30,12), and an error in every other case.
pub subtract-Meets :
    (d other : Decimal) → Meets ◌-ℤ◌ (decimal_rat d) (decimal_rat other) (subtract d other)
unfolding subtract
subtract-Meets d other = subtract_cases (decimal_rat d) (decimal_rat other)

-- num / den rounded to a whole number is off by at most one half, and a half goes up.
pub round_half_away_nearest :
    (num den : ℕ)
    → 0 < den
    → (2 * (round_half_away num den * den) ≤ 2 * num + den)
      × (2 * num < 2 * (round_half_away num den * den) + den)
unfolding round_half_away
round_half_away_nearest num den h =
    let q = (2 * num + den) / (2 * den) in
    let below : q * (2 * den) ≤ 2 * num + den = div-mul-le_self (2 * num + den) (2 * den) in
    let above : 2 * num + den < q * (2 * den) + 2 * den = lt-div-mul-add (omega arith) in
    (omega arith, omega arith)

-- The product rounded to 12 digits.
pub rounded_product : ℤ → ℤ → ℤ
rounded_product a b =
    signed (differ (is_below_zero a) (is_below_zero b)) (round_half_away (abs a * abs b) one_units)

-- A product that rounds to more than zero is not zero, and then the sign is that of the operands.
signed_of_product :
    (magnitude units : ℕ) (minus : Bool)
    → 2 * (units * one_units) ≤ 2 * magnitude + one_units
    → signed (ltb 0 magnitude && minus) units ≡ signed minus units
signed_of_product magnitude zero minus h = refl
signed_of_product magnitude (suc u) minus h = rw (lt→ltb 0 magnitude (omega arith))

float_string-Rounded :
    (minus : Bool) (u : ℕ) → Rounded (parse_decimal (float_string minus u)) (signed minus u)
float_string-Rounded minus u = rw (abs-signed minus u) (
  λ h. (
    float_string minus u,
    parse_decimal-float_string minus u h,
    decimal_rat-float_string minus u h,
  ),
  parse_decimal-out_of_range minus u,
)

multiply_cases :
    (x y : Option ℤ)
    → Meets rounded_product x y (x >>= λ a. y >>= λ b. parse_decimal (product_string a b))
unfolding rounded_product product_string
multiply_cases none y = refl
multiply_cases (some a) none = refl
multiply_cases (some a) (some b) =
    let magnitude = abs a * abs b in
    let units = round_half_away magnitude one_units in
    let minus = ltb 0 magnitude && differ (is_below_zero a) (is_below_zero b) in
    rw
      (← signed_of_product magnitude units (differ (is_below_zero a) (is_below_zero b))
        (round_half_away_nearest magnitude one_units (omega arith)).0)
      (float_string-Rounded minus units)

-- A product of two texts is their exact product rounded to the nearest unit of 10^-12, a half away
-- from zero, if both are valid Decimals and the result is in the range of NUMERIC(30,12), and an
-- error in every other case.
pub multiply-Meets :
    (d other : Decimal)
    → Meets rounded_product (decimal_rat d) (decimal_rat other) (multiply d other)
unfolding multiply
multiply-Meets d other = multiply_cases (decimal_rat d) (decimal_rat other)

-- How a reported order stands to the two values, if they are there.
abbrev pub Ordered : Option ℤ → Option ℤ → Option ℤ → Type 0
Ordered (some a) (some b) result =
    ((result ≡ some (negsuc 0)) ↔ (a <ℤ b))
    × ((result ≡ some (pos 0)) ↔ (a ≡ b))
    × ((result ≡ some (pos 1)) ↔ (b <ℤ a))
Ordered none y result = result ≡ none
Ordered (some a) none result = result ≡ none

compare_cases : (x y : Option ℤ) → Ordered x y (x >>= λ a. y >>= λ b. some (compare_ℤ a b))
compare_cases none y = refl
compare_cases (some a) none = refl
compare_cases (some a) (some b) = (
  (λ h. ground arith, λ h. ground arith),
  (λ h. eq_of_parts a b (ground arith), λ h. ground arith),
  (λ h. ground arith, λ h. ground arith),
)

-- Of two valid Decimals, `Compare` returns -1, 0 or 1 exactly when the first is less than, equal to or
-- greater than the second; an invalid operand is an error.
pub compare-Ordered :
    (d other : Decimal) → Ordered (decimal_rat d) (decimal_rat other) (compare d other)
unfolding compare
compare-Ordered d other = compare_cases (decimal_rat d) (decimal_rat other)
