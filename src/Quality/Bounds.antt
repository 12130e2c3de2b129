-- ===== src/Quality/Bounds.antt =====
-- The range of the scores of internal/quality/evaluator.go.
use native.Mathlib.Nat.{mul-le-mul_right}
use model_dock.Base.{
  ℕ, ◌+◌, ◌*◌, ◌≤◌, inl, inr, Option, none, some, List, [], ◌∷◌, arith, ◌||◌, All, Bool-cases,
}
use model_dock.Base.Int.{ℤ, pos, ltb_ℤ, leb_ℤ, ◌*ℤ◌, ◌-ℤ◌}
use model_dock.Text.{Text}
use model_dock.Rat.{Frac, frac_add, frac_mul, Rat}
use model_dock.Quality.{Policy, Metrics}
use model_dock.Quality.Score.{
  Reader, rat, percent, clamp, direct_score, minimum_ratio_score, maximum_ratio_score,
  latency_score, optional_minimum_score, components, weighted_total, quality_total,
}

-- A fraction of at most k.
abbrev pub AtMost : ℕ → Frac → Type 0
AtMost k f = f.num ≤ k * f.den

clamp-AtMost : (value : Rat) → AtMost 100 (clamp value)
unfolding clamp
clamp-AtMost value = ground arith

direct_score-AtMost : (read : Reader) (value : Text) → AtMost 100 (direct_score read value)
unfolding direct_score
direct_score-AtMost read value = clamp-AtMost (rat read value)

minimum_ratio_score-AtMost :
    (read : Reader) (observed target : Text) → AtMost 100 (minimum_ratio_score read observed target)
unfolding minimum_ratio_score
minimum_ratio_score-AtMost read observed target =
    elim (Bool-cases (leb_ℤ (rat read target).num (pos 0))) [
      | inl trivial ↦ rw trivial (omega arith)
      | inr ratio ↦ rw ratio (clamp-AtMost _)
    ]

maximum_ratio_score-AtMost :
    (read : Reader) (observed maximum : Text)
    → AtMost 100 (maximum_ratio_score read observed maximum)
unfolding maximum_ratio_score
maximum_ratio_score-AtMost read observed maximum =
    let o = rat read observed in
    let m = rat read maximum in
    elim (Bool-cases (leb_ℤ (o.num *ℤ pos m.den -ℤ m.num *ℤ pos o.den) (pos 0))) [
      | inl within ↦ rw within (omega arith)
      | inr above ↦ elim (Bool-cases (leb_ℤ (pos (100 * m.den) -ℤ m.num) (pos 0))) [
        | inl no_room ↦ rw (above, no_room) (omega arith)
        | inr room ↦ rw (above, room) (clamp-AtMost _)
      ]
    ]

latency_score-AtMost :
    (observed : Option ℤ) (maximum : ℤ) → AtMost 100 (latency_score observed maximum)
unfolding latency_score
latency_score-AtMost none maximum = omega arith
latency_score-AtMost (some observed) maximum =
    elim (Bool-cases (ltb_ℤ observed (pos 0) || leb_ℤ maximum (pos 0))) [
      | inl bad ↦ rw bad (omega arith)
      | inr good ↦ elim (Bool-cases (leb_ℤ observed maximum)) [
        | inl fast ↦ rw (good, fast) (omega arith)
        | inr slow ↦ rw (good, slow) (clamp-AtMost _)
      ]
    ]

optional_minimum_score-AtMost :
    (read : Reader) (observed : Option Text) (minimum : Text)
    → AtMost 100 (optional_minimum_score read observed minimum)
unfolding optional_minimum_score
optional_minimum_score-AtMost read none minimum = omega arith
optional_minimum_score-AtMost read (some observed) minimum =
    minimum_ratio_score-AtMost read observed minimum

weighted_step :
    (k w : ℕ) (total score : Frac)
    → AtMost k total
    → AtMost 100 score
    → AtMost (k + w) (frac_add total (frac_mul score (record { num = w; den = 100 })))
unfolding frac_add frac_mul
weighted_step k w total score ht hs =
    let part = mul-le-mul_right (w * total.den) hs in
    let rest = mul-le-mul_right (score.den * 100) ht in omega arith

-- The total is at most the sum of the weights.
abbrev weights : ℕ → List (Frac × ℕ) → ℕ
weights k [] = k
weights k ((score, w) ∷ rest) = weights (k + w) rest

weighted_total-AtMost :
    (k : ℕ) (total : Frac) (items : List (Frac × ℕ))
    → AtMost k total
    → All (λ item. AtMost 100 item.0) items
    → AtMost (weights k items) (weighted_total total items)
unfolding weighted_total
weighted_total-AtMost k total [] ht hs = ht
weighted_total-AtMost k total ((score, w) ∷ rest) ht (hs, hr) =
    weighted_total-AtMost (k + w) _ rest (weighted_step k w total score ht hs) hr

-- The score of any measurements under any policy lies between 0 and 100.
pub quality_total-AtMost :
    (read : Reader) (policy : Policy) (metrics : Metrics)
    → AtMost 100 (quality_total read policy metrics)
unfolding quality_total components
quality_total-AtMost read policy metrics =
    weighted_total-AtMost 0 (percent 0) (components read policy metrics) (omega arith) (
      search
        (
          minimum_ratio_score-AtMost, maximum_ratio_score-AtMost, latency_score-AtMost,
          optional_minimum_score-AtMost, direct_score-AtMost,
        )
        depth 15)
