-- ===== src/Settlement/Balance.antt =====
-- A split balances to the last unit, and is refused exactly when its input is not valid.
use model_dock.Base.{
  ℕ, zero, suc, ◌+◌, ◌-◌, ◌*◌, ◌≤◌, ◌≡◌, refl, ap, ◌⊎◌, inl, inr, false, ◌||◌, some, arith,
  Bool-cases, Option-cases,
}
use model_dock.Base.Int.{ℤ, pos, negsuc, ◌-ℤ◌, ltb_ℤ}
use model_dock.Decimal.{
  Decimal, parse_decimal, set_string, decimal_rat, signed, round_half_away, units_string,
}
use model_dock.Decimal.RoundTrip.{parse_decimal-float_string, decimal_rat-units_string}
use model_dock.Decimal.Bounds.{abs-decimal_rat-lt, decimal_rat-eq-some}
use model_dock.Decimal.Arithmetic.{round_half_away_nearest}
use model_dock.Settlement.{
  SplitResult, ok, err, invalid_amount, basis_points, split_amount, split_checked, split,
  out_of_bounds,
}

-- A rate of at most 100% takes at most the amount.
pub share-le : (amount bps : ℕ) → bps ≤ 10_000 → round_half_away (amount * bps) 10_000 ≤ amount
share-le amount bps h =
    let near = (round_half_away_nearest (amount * bps) 10_000 (omega arith)).0 in
    let part : amount * bps ≤ amount * 10_000 = grind arith in omega (arith, near, part)

-- The parts of a gross amount of g units, and how they add up.
pub record IsSplit (g c r : ℕ) (result : SplitResult) : Type 0 where
  pub commission : ℕ
  pub reserve : ℕ
  pub payable : ℕ
  pub gross_value : decimal_rat result.gross ≡ some (pos g)
  pub commission_value : decimal_rat result.commission ≡ some (pos commission)
  pub reserve_value : decimal_rat result.reserve ≡ some (pos reserve)
  pub payable_value : decimal_rat result.payable ≡ some (pos payable)
  pub balanced : commission + reserve + payable ≡ g
  pub commission_rate : commission ≡ round_half_away (g * c) 10_000
  pub reserve_rate : reserve ≡ round_half_away ((g - commission) * r) 10_000

signed_nonneg : (n : ℕ) → signed false n ≡ pos n
signed_nonneg zero = refl
signed_nonneg (suc n) = refl

basis_points_nonneg :
    (z bps : ℕ) → basis_points (pos z) (pos bps) ≡ pos (round_half_away (z * bps) 10_000)
unfolding basis_points
basis_points_nonneg z bps = signed_nonneg (round_half_away (z * bps) 10_000)

difference_nonneg : (a b : ℕ) → b ≤ a → pos a -ℤ pos b ≡ pos (a - b)
unfolding ◌-ℤ◌
difference_nonneg a b h = ground arith

part_c : ℕ → ℕ → ℕ
part_c g c = round_half_away (g * c) 10_000

part_r : ℕ → ℕ → ℕ → ℕ
part_r g c r = round_half_away ((g - part_c g c) * r) 10_000

-- The parts of g units, as the code computes them from rates c and r.
abbrev parts : Decimal → ℕ → ℕ → ℕ → SplitResult
parts validated g c r = record {
  gross = validated;
  commission = units_string (pos (part_c g c));
  reserve = units_string (pos (part_r g c r));
  payable = units_string (pos (g - part_c g c - part_r g c r));
}

module _ (validated : Decimal) (g c r : ℕ) (value : decimal_rat validated ≡ some (pos g))
    (c_bound : c ≤ 10_000) (r_bound : r ≤ 10_000) where
  part_c-le : part_c g c ≤ g
  unfolding part_c
  part_c-le = share-le g c c_bound

  part_r-le : part_r g c r ≤ g - part_c g c
  unfolding part_r
  part_r-le = share-le (g - part_c g c) r r_bound

  split_amount_lem : split_amount validated (pos g) (pos c) (pos r) ≡ ok (parts validated g c r)
  unfolding split_amount part_c part_r
  split_amount_lem =
      let g_bound = abs-decimal_rat-lt validated value in
      rw
        (
          basis_points_nonneg g c,
          difference_nonneg g (part_c g c) part_c-le,
          basis_points_nonneg (g - part_c g c) r,
          difference_nonneg (g - part_c g c) (part_r g c r) part_r-le,
        )
        (rw (
          parse_decimal-float_string false (part_c g c) (omega (arith, part_c-le)),
          parse_decimal-float_string false (part_r g c r) (omega (arith, part_r-le)),
          parse_decimal-float_string false (g - part_c g c - part_r g c r) (omega arith),
        ))

  parts-IsSplit : IsSplit g c r (parts validated g c r)
  unfolding part_c part_r
  parts-IsSplit =
      let g_bound = abs-decimal_rat-lt validated value in
      record {
        commission = part_c g c;
        reserve = part_r g c r;
        payable = g - part_c g c - part_r g c r;
        gross_value = value;
        commission_value = decimal_rat-units_string (pos (part_c g c)) (omega (arith, part_c-le));
        reserve_value = decimal_rat-units_string (pos (part_r g c r)) (omega (arith, part_r-le));
        payable_value =
            decimal_rat-units_string (pos (g - part_c g c - part_r g c r)) (omega arith);
        balanced = omega (arith, part_c-le, part_r-le);
        commission_rate = refl;
        reserve_rate = refl;
      }

-- What the checks demand, and what the split then yields.
pub record Accepted (gross : Decimal) (commission_bps reserve_bps : ℤ) : Type 0 where
  pub g : ℕ
  pub c : ℕ
  pub r : ℕ
  pub value : decimal_rat gross ≡ some (pos g)
  pub commission_is : commission_bps ≡ pos c
  pub reserve_is : reserve_bps ≡ pos r
  pub commission_bound : c ≤ 10_000
  pub reserve_bound : r ≤ 10_000

split_checked_lem :
    (v : Decimal) (g c r : ℕ)
    → set_string v ≡ pos g
    → decimal_rat v ≡ some (pos g)
    → c ≤ 10_000
    → r ≤ 10_000
    → split_checked v (pos c) (pos r) ≡ ok (parts v g c r)
unfolding split_checked
split_checked_lem v g c r amount value c_bound r_bound =
    rw (amount, split_amount_lem v g c r value c_bound r_bound) (ground arith)

-- A valid amount that is not negative, at rates from 0 to 10000 basis points, is split into three
-- Decimals of exact values that are not negative and add up to the gross amount: the commission is
-- the rate of the gross, and the reserve the rate of what then remains, each to the nearest unit.
pub split_lem :
    (gross : Decimal) (commission_bps reserve_bps : ℤ)
    (a : Accepted gross commission_bps reserve_bps)
    → (result : SplitResult) × (split gross commission_bps reserve_bps ≡ ok result)
      × IsSplit a.g a.c a.r result
unfolding split
split_lem gross commission_bps reserve_bps a =
    let (v, found, amount, value) = decimal_rat-eq-some gross a.value in
    (
      parts v a.g a.c a.r,
      rw (found, split, a.commission_is, a.reserve_is)
          (split_checked_lem v a.g a.c a.r amount value a.commission_bound a.reserve_bound),
      parts-IsSplit v a.g a.c a.r value a.commission_bound a.reserve_bound,
    )

bps_in_bounds : (bps : ℤ) → out_of_bounds bps ≡ false → (n : ℕ) × (bps ≡ pos n) × (n ≤ 10_000)
bps_in_bounds (pos n) h = (n, refl, ground arith)
bps_in_bounds (negsuc n) h = absurd (ground arith)

amount_nonneg : (z : ℤ) → ltb_ℤ z (pos 0) ≡ false → (n : ℕ) × (z ≡ pos n)
amount_nonneg (pos n) h = (n, refl)
amount_nonneg (negsuc n) h = absurd (ground arith)

split_checked_cases :
    (v : Decimal) (c r : ℤ)
    → ((ltb_ℤ (set_string v) (pos 0) ≡ false)
        × (out_of_bounds c ≡ false)
        × (out_of_bounds r ≡ false))
      ⊎ (split_checked v c r ≡ err invalid_amount)
unfolding split_checked
split_checked_cases v c r =
    elim (Bool-cases (ltb_ℤ (set_string v) (pos 0) || out_of_bounds c || out_of_bounds r)) [
      | inl bad ↦ inr (rw bad)
      | inr good ↦ inl (ground arith)
    ]

-- Whatever the input, it is accepted or refused as an invalid amount: no part of an accepted amount
-- fails to fit a Decimal.
pub split_cases :
    (gross : Decimal) (commission_bps reserve_bps : ℤ)
    → Accepted gross commission_bps reserve_bps
      ⊎ (split gross commission_bps reserve_bps ≡ err invalid_amount)
unfolding split decimal_rat
split_cases gross commission_bps reserve_bps = elim (Option-cases (parse_decimal gross)) [
  | inl e ↦ inr (rw (e, split))
  | inr (v, e) ↦ elim (split_checked_cases v commission_bps reserve_bps) [
    | inr refused ↦ inr (rw (e, split) refused)
    | inl (sign, c_fits, r_fits) ↦
        let (g, amount) = amount_nonneg (set_string v) sign in
        let (c, c_is, c_bound) = bps_in_bounds commission_bps c_fits in
        let (r, r_is, r_bound) = bps_in_bounds reserve_bps r_fits in
        inl (record {
          g = g;
          c = c;
          r = r;
          value = rw (e, decimal_rat) (ap some amount);
          commission_is = c_is;
          reserve_is = r_is;
          commission_bound = c_bound;
          reserve_bound = r_bound;
        })
  ]
]
