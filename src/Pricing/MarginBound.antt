-- ===== src/Pricing/MarginBound.antt =====
-- What a positive answer of `MeetsMinimumMargin` guarantees for every request.
use native.Mathlib.Nat.{mul-le-mul_right}
use model_dock.Base.{
  ℕ, ◌+◌, ◌*◌, ◌≤◌, ◌≡◌, ◌≢◌, refl, Bool, true, false, Option, none, some, List, [], ◌∷◌, arith,
  All, inl, inr, Bool-cases,
}
use model_dock.Base.Int.{ℤ, pos, abs, ◌-ℤ◌, ltb_ℤ, leb_ℤ}
use model_dock.Text.{Text, codes, text_eq, trim_space, is_space}
use model_dock.Decimal.{one_units}
use model_dock.Rat.{Frac, of_units, frac_add, frac_mul, ◌≤ₑ◌, Rat, rat_difference}
use model_dock.Pricing.{
  Rate, Tokens, ok, err, must_rat, non_negative, is_blank, currency_matches, calculate_rate,
  exchange_rate_required,
}
use model_dock.Pricing.Calculate.{normalize_currency, default_if_blank, check_request, calculate}
use model_dock.Pricing.Margin.{required_price, margin_items, margin_loop, meets_minimum_margin}

-- The sum over the token kinds, of the retail price against the required price. `o` is the unit of
-- money, `u` and `v` the units of the cost and the retail rate, `k / m` the factor.
margin_sum :
    (o u v e k m min cf ci cc co rf ri rc ro ti tc to : ℕ)
    → ci * e * k * (o * v) ≤ ri * (o * u * o * m)
    → cc * e * k * (o * v) ≤ rc * (o * u * o * m)
    → co * e * k * (o * v) ≤ ro * (o * u * o * m)
    → (cf * e * k * o + min * (o * o * m)) * o ≤ rf * (o * o * m * o)
    → ((cf * u + (ti * ci + tc * cc + to * co)) * e * k * o + min * (o * u * o * m)) * (o * v)
      ≤ (rf * v + (ti * ri + tc * rc + to * ro)) * (o * u * o * m * o)
margin_sum o u v e k m min cf ci cc co rf ri rc ro ti tc to hi hc ho hf =
    let input = mul-le-mul_right (ti * o) hi in
    let cached = mul-le-mul_right (tc * o) hc in
    let output = mul-le-mul_right (to * o) ho in
    let fixed = mul-le-mul_right (u * v) hf in omega arith

abbrev Covered : Frac × Frac → Type 0
Covered (price, required) = required ≤ₑ price

covered_of_sign : (a b : ℕ) → ltb_ℤ (pos a -ℤ pos b) (pos 0) ≡ false → b ≤ a
unfolding ◌-ℤ◌
covered_of_sign a b h = ground arith

-- The loop ends with `true` only if it began with it and every price covers what is required.
margin_loop-true :
    (items : List (Frac × Frac)) (good : Bool) (lowest : Option Rat)
    → (margin_loop (good, lowest) items).0 ≡ true
    → (good ≡ true) × All Covered items
unfolding margin_loop rat_difference
margin_loop-true [] good lowest h = (h, tt)
margin_loop-true ((price, required) ∷ items) good lowest h =
    let (here, rest) = margin_loop-true items _ _ h in
    (
      ground arith,
      (covered_of_sign (price.num * required.den) (required.num * price.den) (ground arith), rest),
    )

-- What the customer has to pay at least: the cost in the currency of the retail price, times the
-- factor of the minimum margin, plus the minimum amount.
unfoldable pub required_amount : Rate → Tokens → ℕ → ℕ → ℕ → Frac
required_amount cost tokens exchange bps minimum =
    frac_add (required_price (calculate_rate cost tokens) exchange bps) (of_units minimum)

-- If every price covers what is required of it, the price of a whole request does too, for any
-- tokens.
pub margin_items-required_amount :
    (cost retail : Rate) (tokens : Tokens) (exchange bps minimum : ℕ)
    → All Covered (margin_items cost retail exchange bps minimum)
    → required_amount cost tokens exchange bps minimum ≤ₑ calculate_rate retail tokens
unfolding required_amount required_price margin_items calculate_rate frac_add frac_mul
margin_items-required_amount cost retail tokens exchange bps minimum (i, (c, (o, (f, _)))) =
    margin_sum one_units (abs cost.unit) (abs retail.unit) exchange (10_000 + bps) 10_000 minimum
      (must_rat cost.fixed) (must_rat cost.input) (must_rat cost.cached) (must_rat cost.output)
      (must_rat retail.fixed) (must_rat retail.input) (must_rat retail.cached)
      (must_rat retail.output) (abs (tokens.input -ℤ tokens.cached)) (abs tokens.cached)
      (abs tokens.output) i c o f

-- If the check says that the margin is met, then every request, with any counts of tokens, is sold
-- for at least its cost in the currency of the retail price times 1 + bps / 10000, plus the minimum
-- amount.
pub meets_minimum_margin-covers :
    (cost retail : Rate) (minimum_text : Text) (bps : ℤ) (exchange_text lowest : Text)
    (minimum exchange : ℕ)
    → non_negative minimum_text ≡ some minimum
    → non_negative (default_if_blank (codes "1") exchange_text) ≡ some exchange
    → meets_minimum_margin cost retail minimum_text bps exchange_text ≡ ok (true, lowest)
    → (tokens : Tokens)
    → required_amount cost tokens exchange (abs bps) minimum ≤ₑ calculate_rate retail tokens
unfolding meets_minimum_margin
meets_minimum_margin-covers cost retail minimum_text bps exchange_text lowest minimum exchange m e h
      tokens =
    margin_items-required_amount cost retail tokens exchange (abs bps) minimum
      (margin_loop-true (margin_items cost retail exchange (abs bps) minimum) true none
        (ground arith)).1

default_not_blank : (x : Text) → is_blank (default_if_blank (codes "1") x) ≡ false
unfolding default_if_blank trim_space is_space
default_not_blank x = elim (Bool-cases (is_blank x)) [
  | inl blank ↦ rw (blank, default_if_blank) refl
  | inr given ↦ rw (given, default_if_blank) given
]

never_requires_rate :
    (cost retail : Rate) (minimum_text : Text) (bps : ℤ) (exchange_text : Text)
    → meets_minimum_margin cost retail minimum_text bps exchange_text ≢ err exchange_rate_required
unfolding meets_minimum_margin
never_requires_rate cost retail minimum_text bps exchange_text =
    ground (arith, default_not_blank exchange_text)

-- A request whose tokens, units and currency codes pass the checks.
pub record WellFormed (cost retail : Rate) (tokens : Tokens) : Type 0 where
  pub input : ltb_ℤ tokens.input (pos 0) ≡ false
  pub cached : ltb_ℤ tokens.cached (pos 0) ≡ false
  pub output : ltb_ℤ tokens.output (pos 0) ≡ false
  pub cached_in_input : ltb_ℤ tokens.input tokens.cached ≡ false
  pub cost_unit : leb_ℤ cost.unit (pos 0) ≡ false
  pub retail_unit : leb_ℤ retail.unit (pos 0) ≡ false
  pub cost_currency : currency_matches (normalize_currency cost).currency ≡ true
  pub retail_currency : currency_matches (normalize_currency retail).currency ≡ true

-- Of two rates in different currencies and a blank exchange rate, `Calculate` refuses a well-formed
-- request because the rate is missing. `MeetsMinimumMargin` never answers with that error, whatever
-- its arguments.
pub blank_exchange_rate :
    (cost retail : Rate) (tokens : Tokens) (promotion_text tax_text minimum_text : Text) (bps : ℤ)
    (exchange_text : Text)
    → WellFormed cost retail tokens
    → text_eq (normalize_currency cost).currency (normalize_currency retail).currency ≡ false
    → is_blank exchange_text ≡ true
    → (calculate cost retail tokens promotion_text tax_text exchange_text
        ≡ err exchange_rate_required)
      × (meets_minimum_margin cost retail minimum_text bps exchange_text
          ≢ err exchange_rate_required)
unfolding calculate check_request
blank_exchange_rate cost retail tokens promotion_text tax_text minimum_text bps exchange_text w
      differ blank =
    (
      rw (w.input, w.cached, w.output, w.cached_in_input, w.cost_unit, w.retail_unit)
          (rw (w.cost_currency, w.retail_currency, differ, blank)),
      never_requires_rate cost retail minimum_text bps exchange_text,
    )
