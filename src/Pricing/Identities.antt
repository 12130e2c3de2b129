-- ===== src/Pricing/Identities.antt =====
-- How the amounts of a priced request hang together, as exact fractions.
use model_dock.Base.{ℕ, ◌+◌, ◌-◌, ◌*◌, ◌≡◌, ap, inl, inr, arith, if◌then◌else◌, Bool-cases}
use model_dock.Decimal.{one_units}
use model_dock.Rat.{Frac, of_units, frac_add, frac_sub, frac_mul, frac_ltb, ◌≤ₑ◌}
use model_dock.Pricing.{Rate, Tokens, calculate_rate}
use model_dock.Pricing.Calculate.{amounts}

infix 4 ◌≈◌
-- Two fractions of one value.
abbrev pub ◌≈◌ : Frac → Frac → Type 0
a ≈ b = a.num * b.den ≡ b.num * a.den

add_back :
    (rn rd pn pd rest : ℕ)
    → rn * pd ≡ rest + pn * rd
    → (rest * pd + pn * (rd * pd)) * rd ≡ rn * (rd * pd * pd)
add_back rn rd pn pd rest h = omega (arith, ap (λ (t : ℕ). t * (rd * pd)) h)

frac_sub_lem : (r p : Frac) → p ≤ₑ r → frac_add (frac_sub r p) p ≈ r
unfolding frac_add frac_sub
frac_sub_lem r p h = add_back r.num r.den p.num p.den (r.num * p.den - p.num * r.den) (omega arith)

-- The tax rate as a factor, 1 + tax.
abbrev pub tax_factor : ℕ → Frac
tax_factor tax = of_units (one_units + tax)

with_tax : (n d o t : ℕ) → (n * (d * o) + n * t * d) * (d * o) ≡ n * (o + t) * (d * (d * o))
with_tax n d o t = omega arith

final_lem :
    (p : Frac) (tax : ℕ) → frac_add p (frac_mul p (of_units tax)) ≈ frac_mul p (tax_factor tax)
unfolding frac_add frac_mul
final_lem p tax = with_tax p.num p.den one_units tax

applied_bounds :
    (r p : Frac) → let applied = if frac_ltb r p then r else p in (applied ≤ₑ r) × (applied ≤ₑ p)
applied_bounds r p = elim (Bool-cases (frac_ltb r p)) [
  | inl more ↦ rw more (omega arith, ground arith)
  | inr fits ↦ rw fits (ground arith, omega arith)
]

-- The promotion that is applied is no more than the retail amount and no more than was asked for;
-- with the amount before tax it makes up the retail amount; and the final amount is the amount
-- before tax times 1 + tax, so that no money is lost or made between the retail and the final amount.
pub amounts_lem :
    (cost retail : Rate) (tokens : Tokens) (promo tax rate : ℕ)
    → let a = amounts cost retail tokens promo tax rate in
      (a.promotion_amount ≤ₑ a.retail_amount)
      × (a.promotion_amount ≤ₑ of_units promo)
      × (frac_add a.pre_tax_amount a.promotion_amount ≈ a.retail_amount)
      × (a.final_amount ≈ frac_mul a.pre_tax_amount (tax_factor tax))
unfolding amounts
amounts_lem cost retail tokens promo tax rate =
    let r = calculate_rate retail tokens in
    let (fits, asked) = applied_bounds r (of_units promo) in
    let applied = if frac_ltb r (of_units promo) then r else of_units promo in
    (fits, asked, frac_sub_lem r applied fits, final_lem (frac_sub r applied) tax)
