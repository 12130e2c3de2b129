-- ===== src/Quality/Score.antt =====
-- The scores of internal/quality/evaluator.go. `read` is `SetString` of a `big.Rat`, a parameter: no
-- theorem depends on how it reads a text, and a text that it refuses counts as zero.
use model_dock.Base.{
  ℕ, suc, ◌*◌, ◌/◌, ◌%◌, Option, none, some, List, [], ◌∷◌, ◌++◌, leb, if◌then◌else◌, ◌||◌,
}
use model_dock.Base.Int.{ℤ, pos, abs, ◌-ℤ◌, ◌*ℤ◌, ltb_ℤ, leb_ℤ}
use model_dock.Text.{Text}
use model_dock.Decimal.{round_half_away, natural_digits, fixed_digits}
use model_dock.Rat.{Frac, frac_add, frac_mul, Rat}
use model_dock.Quality.{Policy, Metrics, Grade, grade_a, grade_b, grade_c, grade_d, grade_f}

abbrev pub Reader : Type 0
Reader = Text → Option Rat

abbrev zero_rat : Rat
zero_rat = record { num = pos 0; den = 1 }

unfoldable pub rat : Reader → Text → Rat
rat read value = elim (read value) [ none ↦ zero_rat | some r ↦ r ]

abbrev pub percent : ℕ → Frac
percent n = record { num = n; den = 1 }

-- `clamp` between 0 and 100.
unfoldable pub clamp : Rat → Frac
clamp value =
    if ltb_ℤ value.num (pos 0)
    then percent 0
    else if ltb_ℤ (pos (100 * value.den)) value.num
    then percent 100
    else record { num = abs value.num; den = value.den }

unfoldable pub direct_score : Reader → Text → Frac
direct_score read value = clamp (rat read value)

-- observed / target * 100, for a target above zero
unfoldable pub minimum_ratio_score : Reader → Text → Text → Frac
minimum_ratio_score read observed target =
    let o = rat read observed in
    let t = rat read target in
    if leb_ℤ t.num (pos 0)
    then percent 100
    else clamp (record { num = o.num *ℤ pos (t.den * 100); den = o.den * abs t.num })

-- 100 - (observed - maximum) / (100 - maximum) * 100, for an observed value above the maximum
unfoldable pub maximum_ratio_score : Reader → Text → Text → Frac
maximum_ratio_score read observed maximum =
    let o = rat read observed in
    let m = rat read maximum in
    let above = o.num *ℤ pos m.den -ℤ m.num *ℤ pos o.den in
    let room = pos (100 * m.den) -ℤ m.num in
    if leb_ℤ above (pos 0)
    then percent 100
    else if leb_ℤ room (pos 0)
    then percent 0
    else clamp (record {
      num = pos (100 * (o.den * abs room)) -ℤ above *ℤ pos 100;
      den = o.den * abs room;
    })

unfoldable pub latency_score : Option ℤ → ℤ → Frac
latency_score none maximum = percent 0
latency_score (some observed) maximum =
    if ltb_ℤ observed (pos 0) || leb_ℤ maximum (pos 0)
    then percent 0
    else if leb_ℤ observed maximum
    then percent 100
    else clamp (record { num = maximum *ℤ pos 100; den = abs observed })

unfoldable pub optional_minimum_score : Reader → Option Text → Text → Frac
optional_minimum_score read none minimum = percent 0
optional_minimum_score read (some observed) minimum = minimum_ratio_score read observed minimum

-- The scores with their weights, in percent.
unfoldable pub components : Reader → Policy → Metrics → List (Frac × ℕ)
components read policy metrics =
    (minimum_ratio_score read metrics.availability_pct policy.availability_target_pct, 25)
    ∷ (maximum_ratio_score read metrics.error_rate_pct policy.maximum_error_rate_pct, 15)
    ∷ (maximum_ratio_score read metrics.rate_limited_pct policy.maximum_429_rate_pct, 10)
    ∷ (latency_score metrics.p95_ttft_ms policy.maximum_ttft_ms, 10)
    ∷ (latency_score metrics.p95_full_latency_ms policy.maximum_full_latency_ms, 10)
    ∷ (optional_minimum_score read metrics.throughput_tps policy.minimum_throughput_tps, 10)
    ∷ (direct_score read metrics.output_quality_score, 10)
    ∷ (direct_score read metrics.price_truth_score, 5)
    ∷ (direct_score read metrics.region_coverage_pct, 5)
    ∷ []

unfoldable pub weighted_total : Frac → List (Frac × ℕ) → Frac
weighted_total total [] = total
weighted_total total ((score, weight) ∷ rest) =
    weighted_total (frac_add total (frac_mul score (record { num = weight; den = 100 }))) rest

unfoldable pub quality_total : Reader → Policy → Metrics → Frac
quality_total read policy metrics = weighted_total (percent 0) (components read policy metrics)

unfoldable pub grade_of : Frac → Grade
grade_of score =
    if leb (90 * score.den) score.num
    then grade_a
    else if leb (80 * score.den) score.num
    then grade_b
    else if leb (70 * score.den) score.num
    then grade_c
    else if leb (60 * score.den) score.num
    then grade_d
    else grade_f

-- `FloatString(4)`
unfoldable pub decimal4 : Frac → Text
decimal4 value =
    let units = round_half_away (value.num * 10_000) value.den in
    natural_digits (suc (units / 10_000)) (units / 10_000) ++ b'.' ∷ fixed_digits 4 (units % 10_000)
