-- ===== src/Pricing.antt =====
-- internal/pricing/pricing.go: what a request costs the platform and what the customer pays for it.
-- The rates are texts; a text that the check accepts is a whole number of units of 10^-12.
pub mod Calculate
pub mod Margin
pub mod Identities
pub mod MarginBound
pub mod Format
use model_dock.Base.{
  ℕ, zero, ◌+◌, ◌-◌, ◌*◌, Bool, true, false, not, ◌&&◌, ◌||◌, Option, none, some, List, [], ◌∷◌,
  ◌++◌, length, leb, ltb, ◌==◌, if◌then◌else◌,
}
use model_dock.Base.Int.{ℤ, pos, negsuc, abs, ◌-ℤ◌, ◌≤ℤ◌, ltb_ℤ, leb_ℤ}
use model_dock.Text.{Text, codes, text_eq, trim_space, to_upper}
use model_dock.Decimal.{
  one_units, span_digits, integer_matches, fraction_matches, digits_value, fraction_value,
  behind_point, float_string,
}
use model_dock.Rat.{
  Frac, of_units, frac_add, frac_sub, frac_mul, frac_ltb, Rat, rat_difference, rat_ltb, frac_string,
  rat_string,
}

-- `^(0|[1-9][0-9]{0,17})(\.[0-9]{1,12})?$`
unfoldable pub stored_decimal_matches : Text → Bool
unfolding span_digits
stored_decimal_matches value =
    let (ds, rest) = span_digits value in integer_matches ds && fraction_matches rest

-- Whether `ValidateStoredDecimal` accepts the text.
unfoldable pub validate_stored_decimal : Text → Bool
validate_stored_decimal value = stored_decimal_matches (trim_space value)

abbrev is_capital : ℕ → Bool
is_capital c = leb b'A' c && leb c b'Z'

abbrev all_capitals : Text → Bool
all_capitals [] = true
all_capitals (c ∷ s) = is_capital c && all_capitals s

-- `^[A-Z]{3}$`
unfoldable pub currency_matches : Text → Bool
currency_matches s = length s == 3 && all_capitals s

pub record Rate : Type 0 where
  pub input : Text
  pub cached : Text
  pub output : Text
  pub fixed : Text
  pub unit : ℤ
  pub currency : Text

pub record Tokens : Type 0 where
  pub input : ℤ
  pub cached : ℤ
  pub output : ℤ

pub record Result : Type 0 where
  pub provider_cost : Text
  pub retail_amount : Text
  pub exchange_rate : Text
  pub gross_margin : Text
  pub promotion_amount : Text
  pub pre_tax_amount : Text
  pub tax_rate : Text
  pub tax_amount : Text
  pub final_amount : Text

pub data PricingError : Type 0 where
  invalid_tokens invalid_unit invalid_currency exchange_rate_required cost_rate retail_rate
        promotion tax_rate exchange_rate exchange_rate_zero minimum_amount minimum_bps :
      PricingError

pub data Checked {ℓ} (A : Type ℓ) : Type ℓ where
  ok : A → Checked A
  err : PricingError → Checked A

infixl 5 ◌>>=◌ ◌>>◌
abbrev pub ◌>>=◌ {ℓ κ} : {A : Type ℓ} {B : Type κ} → Checked A → (A → Checked B) → Checked B
ok a >>= f = f a
err e >>= f = err e

abbrev pub ◌>>◌ {ℓ} : {B : Type ℓ} → Checked (Unit {0}) → Checked B → Checked B
m >> k = m >>= λ _. k

-- `if b { return err }`
abbrev pub fail_if : Bool → PricingError → Checked (Unit {0})
fail_if true e = err e
fail_if false e = ok tt

abbrev pub or_fail {ℓ} : {A : Type ℓ} → Option A → PricingError → Checked A
or_fail none e = err e
or_fail (some a) e = ok a

-- `SetString` of a text that fits the pattern, in units.
unfoldable pub stored_units : Text → ℕ
unfolding span_digits digits_value fraction_value
stored_units value =
    let (ds, rest) = span_digits value in
    digits_value 0 ds * one_units + fraction_value 12 (behind_point rest)

unfoldable pub must_rat : Text → ℕ
unfolding stored_units
must_rat value = stored_units (trim_space value)

unfoldable pub non_negative : Text → Option ℕ
non_negative value =
    if validate_stored_decimal (trim_space value) then some (must_rat value) else none

-- Whether a text is blank.
abbrev pub is_blank : Text → Bool
is_blank s = text_eq (trim_space s) []

abbrev pub accepted : Text → Bool
accepted value = elim (non_negative value) [ none ↦ false | some u ↦ true ]

unfoldable pub validate_rate : Rate → Bool
validate_rate rate =
    accepted rate.input && accepted rate.cached && accepted rate.output && accepted rate.fixed

-- The amount of a request in which every rate is a number of units; the tokens are not negative and
-- the unit is positive.
unfoldable pub calculate_rate : Rate → Tokens → Frac
calculate_rate rate tokens =
    let non_cached = abs (tokens.input -ℤ tokens.cached) in
    record {
      num =
          must_rat rate.fixed * abs rate.unit
          + (non_cached * must_rat rate.input
              + abs tokens.cached * must_rat rate.cached
              + abs tokens.output * must_rat rate.output);
      den = one_units * abs rate.unit;
    }

-- A character before the cut rest: `x` stays only if something stands behind it.
abbrev pub before_cut : ℕ → ℕ → Text → Text
before_cut x c [] = if c == x then [] else c ∷ []
before_cut x c (d ∷ t) = c ∷ d ∷ t

-- `TrimRight` with one character.
unfoldable pub trim_right_char : ℕ → Text → Text
trim_right_char x [] = []
trim_right_char x (c ∷ s) = before_cut x c (trim_right_char x s)

-- Of a text that `FloatString(12)` printed.
unfoldable pub format : Text → Text
unfolding trim_right_char
format value =
    let short = trim_right_char b'.' (trim_right_char b'0' value) in
    if text_eq short (codes "-0") || text_eq short [] then codes "0" else short
