-- ===== src/Tests/Providers.antt =====
-- Runs of internal/quality/evaluator.go.
use model_dock.Base.{◌≡◌, ◌≢◌, refl, true, none, some, [], ◌∷◌, arith}
use model_dock.Rat.{frac_add, frac_mul}
use model_dock.Base.Int.{◌-ℤ◌, ◌*ℤ◌, pos}
use model_dock.Text.{codes}
use model_dock.Decimal.{
  round_half_away, natural_digits, fixed_digits, span_digits, digits_value, fraction_value,
  set_string, one_units,
}
use model_dock.Quality.{
  normalized_circuit, normalized_cap, grade_multiplier, Policy, Metrics, State, Decision, opened,
  half_open, closed,
}
use model_dock.Quality.Score.{
  rat, clamp, direct_score, minimum_ratio_score, maximum_ratio_score, latency_score,
  optional_minimum_score, components, weighted_total, grade_of, decimal4, Reader, quality_total,
}
use model_dock.Quality.Circuit.{
  record_recovery, count_evaluation, circuit_from, ramp_step, ramp_from, evaluate_ramp,
  evaluate_circuit, record_breach,
}
use model_dock.Quality.Evaluate.{
  below, above, too_slow, slow_throughput, collect_breaches, any_critical, initial_decision,
  measured, with_circuit, with_traffic, before_traffic, evaluate_enabled, evaluate,
}
use model_dock.Quality.Transitions.{Move, run_circuit, evaluate_circuit-Move, run_circuit-trips}

-- A reader of plain decimals.
abbrev reader : Reader
reader text = some (record { num = set_string text; den = one_units })

abbrev policy : Policy
policy = record {
  enabled = true;
  minimum_samples = pos 10;
  availability_target_pct = codes "99";
  maximum_error_rate_pct = codes "1";
  maximum_429_rate_pct = codes "2";
  maximum_ttft_ms = pos 2_000;
  maximum_full_latency_ms = pos 30_000;
  minimum_throughput_tps = codes "5";
  minimum_output_quality = codes "80";
  auto_downweight = true;
  auto_circuit_breaker = true;
  circuit_failure_threshold = 3;
  circuit_recovery_threshold = 2;
  circuit_open_duration = 600;
  ramp_enabled = true;
  ramp_initial_bps = 500;
  ramp_step_bps = 1_000;
  ramp_step_interval = 3_600;
}

abbrev metrics : Metrics
metrics = record {
  measurement_count = pos 40;
  availability_pct = codes "90";
  error_rate_pct = codes "10";
  rate_limited_pct = codes "0";
  p95_ttft_ms = some (pos 2_500);
  p95_full_latency_ms = none;
  throughput_tps = some (codes "7.5");
  output_quality_score = codes "88";
  price_truth_score = codes "100";
  region_coverage_pct = codes "50";
}

abbrev state : State
state = record {
  circuit_state = codes "CLOSED";
  circuit_open_until = none;
  consecutive_breaches = 2;
  consecutive_recoveries = 0;
  traffic_cap_bps = pos 4_000;
  ramp_started_at = some 100;
  last_ramp_step_at = none;
  supplier_linked = true;
}

-- The third evaluation with too many errors opens the circuit.
run-opened : (evaluate reader policy metrics state 5_000).circuit_state ≡ opened
unfolding evaluate evaluate_enabled before_traffic with_traffic with_circuit measured
    initial_decision any_critical collect_breaches slow_throughput too_slow above below
    normalized_circuit normalized_cap grade_multiplier record_breach record_recovery
    count_evaluation circuit_from evaluate_circuit rat clamp direct_score minimum_ratio_score
    maximum_ratio_score latency_score optional_minimum_score components weighted_total quality_total
    grade_of decimal4 set_string span_digits digits_value fraction_value frac_add frac_mul ◌-ℤ◌ ◌*ℤ◌
    natural_digits fixed_digits round_half_away ramp_step ramp_from evaluate_ramp
run-opened = refl

abbrev decision : Decision
decision = initial_decision state

evaluate_circuit-Move_example :
    Move decision policy true 5_000 (evaluate_circuit decision policy true 5_000)
evaluate_circuit-Move_example = evaluate_circuit-Move decision policy true 5_000

abbrev fresh : Decision
fresh = record decision {
  circuit_state = closed;
  consecutive_breaches = 0;
  consecutive_recoveries = 0;
}

fresh-not_opened : fresh.circuit_state ≢ opened
fresh-not_opened e = ground arith

run_circuit-trips_example :
    ((run_circuit policy fresh ((true, 1) ∷ (true, 2) ∷ [])).circuit_state ≢ opened)
    × ((evaluate_circuit
          (run_circuit policy fresh ((true, 1) ∷ (true, 2) ∷ []))
          policy
          true
          3).circuit_state
        ≡ opened)
run_circuit-trips_example =
    run_circuit-trips policy fresh ((true, 1) ∷ (true, 2) ∷ []) 3 fresh-not_opened
      (refl, (refl, tt)) refl

abbrev half : Decision
half = record fresh { circuit_state = half_open }
