-- ===== src/Tests/Turns.antt =====
-- A turn of the weighted round robin of internal/scheduler/scheduler.go.
use model_dock.Base.{refl, [], ◌∷◌}
use model_dock.Base.Int.{pos}
use model_dock.Text.{codes}
use model_dock.Scheduler.Counters.{WeightedCandidate, weighted_round_robin}
use model_dock.Scheduler.Fairness.{IsFairTurn, weighted_round_robin-IsFairTurn}

-- Two candidates with weights 5 and 1, as the script counts.
abbrev heavy : WeightedCandidate
heavy = record { id = codes "a"; weight = pos 5 }

abbrev light : WeightedCandidate
light = record { id = codes "b"; weight = pos 1 }

weighted_round_robin-IsFairTurn_example :
    IsFairTurn
      (heavy ∷ light ∷ [])
      (λ _. pos 0)
      (weighted_round_robin (heavy ∷ light ∷ []) (λ _. pos 0))
weighted_round_robin-IsFairTurn_example =
    weighted_round_robin-IsFairTurn heavy (light ∷ []) (λ _. pos 0)
      ((refl, tt), (refl, tt), (tt, tt, tt))
