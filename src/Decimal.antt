-- ===== src/Decimal.antt =====
-- internal/domain/domain.go, the type `Decimal`: texts of the form NUMERIC(30,12) and the exact
-- arithmetic on them. A `big.Rat` that a valid Decimal stands for is a whole number of units of
-- 10^-12, a product of two a whole number of units of 10^-24.
pub mod Digits
pub mod RoundTrip
pub mod Bounds
pub mod Arithmetic
use model_dock.Base.{
  ℕ, zero, suc, ◌+◌, ◌-◌, ◌*◌, ◌/◌, ◌%◌, ◌^◌, Bool, true, false, ◌&&◌, Option, none, some, [], ◌∷◌,
  ◌++◌, leb, ltb, ◌==◌, if◌then◌else◌, length, ◌>>=◌,
}
use model_dock.Base.Int.{ℤ, pos, negsuc, abs, ◌+ℤ◌, ◌-ℤ◌, ltb_ℤ, eqb_ℤ}
use model_dock.Text.{Text, trim_space}

abbrev pub Decimal : Type 0
Decimal = Text

-- 10^12 units are one.
abbrev pub one_units : ℕ
one_units = 1_000_000_000_000

abbrev pub is_digit : ℕ → Bool
is_digit c = leb b'0' c && leb c b'9'

abbrev push : ℕ → Text × Text → Text × Text
push c (ds, rest) = (c ∷ ds, rest)

-- The longest run of digits, and what follows it.
unfoldable pub span_digits : Text → Text × Text
span_digits [] = ([], [])
span_digits (c ∷ s) = if is_digit c then push c (span_digits s) else ([], c ∷ s)

abbrev pub all_digits : Text → Bool
all_digits [] = true
all_digits (c ∷ s) = is_digit c && all_digits s

-- `0|[1-9][0-9]{0,17}`, of a run of digits
abbrev pub integer_matches : Text → Bool
integer_matches [] = false
integer_matches (c ∷ []) = true
integer_matches (c ∷ d ∷ s) = ltb b'0' c && leb (length (d ∷ s)) 17

-- `(?:\.[0-9]{1,12})?$`
abbrev pub fraction_matches : Text → Bool
fraction_matches [] = true
fraction_matches (c ∷ s) = c == b'.' && all_digits s && ltb 0 (length s) && leb (length s) 12

-- `[+-]?`: whether there is a minus sign, and the text behind the sign.
abbrev pub split_sign : Text → Bool × Text
split_sign [] = (false, [])
split_sign (c ∷ s) =
    if c == b'-' then (true, s) else if c == b'+' then (false, s) else (false, c ∷ s)

unfoldable pub decimal_pattern : Text → Bool
unfolding span_digits
decimal_pattern value =
    let (ds, rest) = span_digits (split_sign value).1 in integer_matches ds && fraction_matches rest

unfoldable pub parse_decimal : Text → Option Decimal
parse_decimal value =
    let trimmed = trim_space value in if decimal_pattern trimmed then some trimmed else none

unfoldable pub validate : Decimal → Bool
unfolding parse_decimal
validate d = elim (parse_decimal d) [ none ↦ false | some v ↦ true ]

-- The value of a run of digits.
unfoldable pub digits_value : ℕ → Text → ℕ
digits_value acc [] = acc
digits_value acc (c ∷ s) = digits_value (acc * 10 + (c - b'0')) s

-- The digits behind the point, the first of which counts 10^w units of `10 ^ suc w`.
unfoldable pub fraction_value : ℕ → Text → ℕ
fraction_value zero s = 0
fraction_value (suc w) [] = 0
fraction_value (suc w) (c ∷ s) = (c - b'0') * 10 ^ w + fraction_value w s

-- The text behind the decimal point.
abbrev pub behind_point : Text → Text
behind_point [] = []
behind_point (c ∷ s) = s

abbrev pub signed : Bool → ℕ → ℤ
signed negative zero = pos 0
signed false (suc n) = pos (suc n)
signed true (suc n) = negsuc n

-- `SetString` of a text that fits the pattern, in units.
unfoldable pub set_string : Text → ℤ
unfolding span_digits digits_value fraction_value
set_string value =
    let (negative, s) = split_sign value in
    let (ds, rest) = span_digits s in
    signed negative (digits_value 0 ds * one_units + fraction_value 12 (behind_point rest))

unfoldable pub decimal_rat : Decimal → Option ℤ
decimal_rat value = elim (parse_decimal value) [ none ↦ none | some v ↦ some (set_string v) ]

unfoldable pub is_zero : Decimal → Option Bool
is_zero d = elim (decimal_rat d) [ none ↦ none | some r ↦ some (eqb_ℤ r (pos 0)) ]

unfoldable pub is_negative : Decimal → Option Bool
is_negative d = elim (decimal_rat d) [ none ↦ none | some r ↦ some (ltb_ℤ r (pos 0)) ]

unfoldable pub is_positive : Decimal → Option Bool
is_positive d = elim (decimal_rat d) [ none ↦ none | some r ↦ some (ltb_ℤ (pos 0) r) ]

-- The digits of a number with no zero in front. What the `let` binds waits, and the fuel is one
-- more than the number.
unfoldable pub natural_digits : ℕ → ℕ → Text
natural_digits zero n = []
natural_digits (suc fuel) n =
    let front = natural_digits fuel (n / 10) ++ (b'0' + n % 10) ∷ [] in
    if ltb n 10 then (b'0' + n) ∷ [] else front

-- `w` digits, with the zeros in front.
unfoldable pub fixed_digits : ℕ → ℕ → Text
fixed_digits zero n = []
fixed_digits (suc w) n = (b'0' + n / 10 ^ w) ∷ fixed_digits w (n % 10 ^ w)

-- `FloatString(12)` of a number of whole units, with its sign.
unfoldable pub float_string : Bool → ℕ → Text
unfolding natural_digits fixed_digits
float_string negative units =
    let digits =
      natural_digits (suc (units / one_units)) (units / one_units)
      ++ b'.' ∷ fixed_digits 12 (units % one_units) in
    if negative then b'-' ∷ digits else digits

-- num / den in units, to the nearest, and a half away from zero.
unfoldable pub round_half_away : ℕ → ℕ → ℕ
round_half_away num den = (2 * num + den) / (2 * den)

abbrev pub is_below_zero : ℤ → Bool
is_below_zero (pos n) = false
is_below_zero (negsuc n) = true

abbrev pub units_string : ℤ → Text
units_string z = float_string (is_below_zero z) (abs z)

unfoldable pub add : Decimal → Decimal → Option Decimal
add d other = do a ← decimal_rat d; b ← decimal_rat other; parse_decimal (units_string (a +ℤ b))

unfoldable pub subtract : Decimal → Decimal → Option Decimal
subtract d other = do
  a ← decimal_rat d
  b ← decimal_rat other
  parse_decimal (units_string (a -ℤ b))

-- `Cmp`, -1, 0 or 1.
abbrev pub compare_ℤ : ℤ → ℤ → ℤ
compare_ℤ a b = if ltb_ℤ a b then negsuc 0 else if eqb_ℤ a b then pos 0 else pos 1

unfoldable pub compare : Decimal → Decimal → Option ℤ
compare d other = do a ← decimal_rat d; b ← decimal_rat other; some (compare_ℤ a b)

-- The sign of a product that is not zero.
abbrev pub differ : Bool → Bool → Bool
differ true b = if b then false else true
differ false b = b

-- The product in units: |a * b| counts units of 10^-24.
unfoldable pub product_string : ℤ → ℤ → Text
product_string a b =
    let magnitude = abs a * abs b in
    float_string (ltb 0 magnitude && differ (is_below_zero a) (is_below_zero b))
      (round_half_away magnitude one_units)

unfoldable pub multiply : Decimal → Decimal → Option Decimal
multiply d other = do a ← decimal_rat d; b ← decimal_rat other; parse_decimal (product_string a b)
