-- ===== src/Rat.antt =====
-- What the code uses of `math/big.Rat`. A fraction is not kept in lowest terms, since no operation of
-- the code tells two fractions of one value apart; its denominator is positive. `Frac` holds the
-- numbers that a check has found not to be negative, `Rat` those that may be.
use model_dock.Base.{ℕ, ◌+◌, ◌-◌, ◌*◌, ◌≤◌, Bool, false, ltb}
use model_dock.Base.Int.{ℤ, pos, abs, ◌-ℤ◌, ltb_ℤ, ◌*ℤ◌}
use model_dock.Text.{Text}
use model_dock.Decimal.{round_half_away, one_units, float_string, is_below_zero}

pub record Frac : Type 0 where
  pub num : ℕ
  pub den : ℕ

-- A number of units of 10^-12.
abbrev pub of_units : ℕ → Frac
of_units n = record { num = n; den = one_units }

unfoldable pub frac_add : Frac → Frac → Frac
frac_add a b = record { num = a.num * b.den + b.num * a.den; den = a.den * b.den }

-- The difference, and zero where it would be negative.
unfoldable pub frac_sub : Frac → Frac → Frac
frac_sub a b = record { num = a.num * b.den - b.num * a.den; den = a.den * b.den }

unfoldable pub frac_mul : Frac → Frac → Frac
frac_mul a b = record { num = a.num * b.num; den = a.den * b.den }

-- a < b
abbrev pub frac_ltb : Frac → Frac → Bool
frac_ltb a b = ltb (a.num * b.den) (b.num * a.den)

infix 50 ◌≤ₑ◌
abbrev pub ◌≤ₑ◌ : Frac → Frac → Type 0
a ≤ₑ b = a.num * b.den ≤ b.num * a.den

pub record Rat : Type 0 where
  pub num : ℤ
  pub den : ℕ

-- a - b
unfoldable pub rat_difference : Frac → Frac → Rat
rat_difference a b = record {
  num = pos (a.num * b.den) -ℤ pos (b.num * a.den);
  den = a.den * b.den;
}

abbrev pub rat_ltb : Rat → Rat → Bool
rat_ltb a b = ltb_ℤ (a.num *ℤ pos b.den) (b.num *ℤ pos a.den)

-- The fraction in units of 10^-12, rounded as `FloatString(12)` does.
abbrev pub rounded_units : ℕ → ℕ → ℕ
rounded_units num den = round_half_away (num * one_units) den

abbrev pub frac_string : Frac → Text
frac_string a = float_string false (rounded_units a.num a.den)

abbrev pub rat_string : Rat → Text
rat_string a = float_string (is_below_zero a.num) (rounded_units (abs a.num) a.den)
