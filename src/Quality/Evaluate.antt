-- ===== src/Quality/Evaluate.antt =====
-- `collectBreaches` and `Evaluate` of internal/quality/evaluator.go.
use model_dock.Base.{
  ℕ, ◌&&◌, ◌||◌, Bool, true, false, Option, none, some, List, [], ◌∷◌, ◌++◌, if◌then◌else◌,
}
use model_dock.Base.Int.{ℤ, leb_ℤ, ltb_ℤ}
use model_dock.Text.{Text, codes}
use model_dock.Rat.{rat_ltb}
use model_dock.Quality.{
  Policy, Metrics, State, CircuitState, closed, half_open, opened, BreachName, availability,
  error_rate, rate_limited_rate, ttft, full_latency, throughput, output_quality, price_truth,
  region_coverage, text, integer, Breach, unknown, Decision, normalized_circuit, normalized_cap,
  grade_multiplier,
}
use model_dock.Quality.Score.{Reader, rat, quality_total, grade_of, decimal4}
use model_dock.Quality.Circuit.{evaluate_circuit, evaluate_ramp}

-- `compare(left, right) < 0`
abbrev pub is_less : Reader → Text → Text → Bool
is_less read left right = rat_ltb (rat read left) (rat read right)

unfoldable pub below : Reader → BreachName → Text → Text → Bool → List Breach
below read name observed threshold critical =
    if is_less read observed threshold
    then record {
      name = name;
      observed = text observed;
      threshold = text threshold;
      critical = critical;
    }
      ∷ []
    else []

unfoldable pub above : Reader → BreachName → Text → Text → Bool → List Breach
above read name observed threshold critical =
    if is_less read threshold observed
    then record {
      name = name;
      observed = text observed;
      threshold = text threshold;
      critical = critical;
    }
      ∷ []
    else []

-- A latency above its maximum.
unfoldable pub too_slow : BreachName → Option ℤ → ℤ → List Breach
too_slow name none maximum = []
too_slow name (some observed) maximum =
    if ltb_ℤ maximum observed
    then record {
      name = name;
      observed = integer observed;
      threshold = integer maximum;
      critical = false;
    }
      ∷ []
    else []

unfoldable pub slow_throughput : Reader → Option Text → Text → List Breach
slow_throughput read none minimum = []
slow_throughput read (some observed) minimum = below read throughput observed minimum false

unfoldable pub collect_breaches : Reader → Policy → Metrics → List Breach
collect_breaches read policy metrics =
    below read availability metrics.availability_pct policy.availability_target_pct true
    ++ (above read error_rate metrics.error_rate_pct policy.maximum_error_rate_pct true
        ++ (above read rate_limited_rate metrics.rate_limited_pct policy.maximum_429_rate_pct true
            ++ (too_slow ttft metrics.p95_ttft_ms policy.maximum_ttft_ms
                ++ (too_slow full_latency metrics.p95_full_latency_ms policy.maximum_full_latency_ms
                    ++ (slow_throughput read metrics.throughput_tps policy.minimum_throughput_tps
                        ++ (below read output_quality metrics.output_quality_score
                              policy.minimum_output_quality false
                            ++ (below read price_truth metrics.price_truth_score (codes "100") false
                                ++ below read region_coverage metrics.region_coverage_pct
                                    (codes "100") false)))))))

unfoldable pub any_critical : List Breach → Bool
any_critical [] = false
any_critical (b ∷ rest) = b.critical || any_critical rest

-- The decision before anything is evaluated.
unfoldable pub initial_decision : State → Decision
initial_decision state = record {
  grade = unknown;
  quality_score = codes "50.0000";
  routing_multiplier = codes "1.000000";
  traffic_cap_bps = normalized_cap state.traffic_cap_bps;
  circuit_state = normalized_circuit state.circuit_state;
  circuit_open_until = state.circuit_open_until;
  consecutive_breaches = state.consecutive_breaches;
  consecutive_recoveries = state.consecutive_recoveries;
  ramp_started_at = state.ramp_started_at;
  last_ramp_step_at = state.last_ramp_step_at;
  breaches = [];
  sufficient_measurements = false;
}

-- The grade, the score, the breaches and the multiplier.
unfoldable pub measured : Reader → Policy → Metrics → Decision → Decision
measured read policy metrics d =
    let sufficient = leb_ℤ policy.minimum_samples metrics.measurement_count in
    let total = quality_total read policy metrics in
    let grade = if sufficient then grade_of total else d.grade in
    record d {
      sufficient_measurements = sufficient;
      quality_score = decimal4 total;
      grade = grade;
      breaches = if sufficient then collect_breaches read policy metrics else d.breaches;
      routing_multiplier =
          if policy.auto_downweight then grade_multiplier grade else d.routing_multiplier;
    }

-- The circuit breaker, where it applies.
unfoldable pub with_circuit : Policy → Bool → ℕ → Decision → Decision
with_circuit policy critical now d =
    if policy.auto_circuit_breaker && d.sufficient_measurements
    then evaluate_circuit d policy critical now
    else d

-- The last step: an open circuit takes no traffic, any other goes through the ramp.
unfoldable pub with_traffic : CircuitState → Policy → Bool → Bool → Bool → ℕ → Decision → Decision
with_traffic opened policy degraded linked critical now d = record d {
  routing_multiplier = codes "0.000000";
  traffic_cap_bps = 0;
}
with_traffic half_open policy degraded linked critical now d =
    evaluate_ramp d policy degraded linked critical now
with_traffic closed policy degraded linked critical now d =
    evaluate_ramp d policy degraded linked critical now

-- Up to the last step.
unfoldable pub before_traffic : Reader → Policy → Metrics → State → ℕ → Decision
before_traffic read policy metrics state now =
    let d = measured read policy metrics (initial_decision state) in
    with_circuit policy (any_critical d.breaches) now d

-- Whether the price or the regions fall short of 100.
abbrev pub degraded : Reader → Metrics → Bool
degraded read metrics =
    is_less read metrics.price_truth_score (codes "100")
    || is_less read metrics.region_coverage_pct (codes "100")

unfoldable pub evaluate_enabled : Reader → Policy → Metrics → State → ℕ → Decision
evaluate_enabled read policy metrics state now =
    let critical = any_critical (measured read policy metrics (initial_decision state)).breaches in
    let d = before_traffic read policy metrics state now in
    with_traffic d.circuit_state policy (degraded read metrics) state.supplier_linked critical now d

unfoldable pub evaluate : Reader → Policy → Metrics → State → ℕ → Decision
evaluate read policy metrics state now =
    if policy.enabled
    then evaluate_enabled read policy metrics state now
    else initial_decision state
