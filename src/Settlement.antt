-- ===== src/Settlement.antt =====
-- internal/settlement/calculator.go: how a supplier's gross amount is split into commission, risk
-- reserve and payable amount. Amounts are in units of 10^-12, rates in basis points.
pub mod Balance
use model_dock.Base.{ℕ, ◌*◌, ◌≡◌, Bool, ◌||◌, Option, none, some, if◌then◌else◌}
use model_dock.Base.Int.{ℤ, pos, abs, ◌-ℤ◌, ltb_ℤ}
use model_dock.Decimal.{
  Decimal, parse_decimal, set_string, signed, round_half_away, is_below_zero, units_string,
}

pub record SplitResult : Type 0 where
  pub gross : Decimal
  pub commission : Decimal
  pub reserve : Decimal
  pub payable : Decimal

-- The error of the checks, and that of a part that does not fit a Decimal.
pub data SplitError : Type 0 where
  invalid_amount invalid_part : SplitError

pub data Outcome : Type 0 where
  ok : SplitResult → Outcome
  err : SplitError → Outcome

-- A fallible part of the split.
infixl 5 ◌>>=◌
abbrev pub ◌>>=◌ : Option Decimal → (Decimal → Outcome) → Outcome
none >>= f = err invalid_part
some d >>= f = f d

-- `Mul` by bps / 10000, then `FloatString(12)` and `SetString`.
unfoldable pub basis_points : ℤ → ℤ → ℤ
basis_points z bps = signed (is_below_zero z) (round_half_away (abs z * abs bps) 10_000)

abbrev pub max_bps : ℤ
max_bps = pos 10_000

abbrev out_of_bounds : ℤ → Bool
out_of_bounds bps = ltb_ℤ bps (pos 0) || ltb_ℤ max_bps bps

-- What follows the checks.
unfoldable pub split_amount : Decimal → ℤ → ℤ → ℤ → Outcome
split_amount validated amount commission_bps reserve_bps =
    let commission = basis_points amount commission_bps in
    let after_commission = amount -ℤ commission in
    let reserve = basis_points after_commission reserve_bps in
    let payable = after_commission -ℤ reserve in
    do
      commission_decimal ← parse_decimal (units_string commission)
      reserve_decimal ← parse_decimal (units_string reserve)
      payable_decimal ← parse_decimal (units_string payable)
      ok (record {
        gross = validated;
        commission = commission_decimal;
        reserve = reserve_decimal;
        payable = payable_decimal;
      })

-- What follows the parsing of the gross amount.
unfoldable pub split_checked : Decimal → ℤ → ℤ → Outcome
split_checked validated commission_bps reserve_bps =
    let amount = set_string validated in
    if ltb_ℤ amount (pos 0) || out_of_bounds commission_bps || out_of_bounds reserve_bps
    then err invalid_amount
    else split_amount validated amount commission_bps reserve_bps

unfoldable pub split : Decimal → ℤ → ℤ → Outcome
split gross commission_bps reserve_bps = elim (parse_decimal gross) [
  | none ↦ err invalid_amount
  | some validated ↦ split_checked validated commission_bps reserve_bps
]
