-- ===== src/Quality.antt =====
-- internal/quality/evaluator.go: the types of a quality evaluation. Instants and durations are
-- nanoseconds; counts and limits that no path of the code makes negative are natural numbers, and a
-- traffic cap that comes from outside is an integer.
pub mod Score
pub mod Circuit
pub mod Evaluate
pub mod Bounds
pub mod Traffic
pub mod Transitions
use model_dock.Base.{ℕ, ◌&&◌, ◌||◌, Bool, Option, List, ltb, leb, if◌then◌else◌}
use model_dock.Base.Int.{ℤ, pos, abs, ltb_ℤ}
use model_dock.Text.{Text, codes, text_eq}

pub record Policy : Type 0 where
  pub enabled : Bool
  pub minimum_samples : ℤ
  pub availability_target_pct : Text
  pub maximum_error_rate_pct : Text
  pub maximum_429_rate_pct : Text
  pub maximum_ttft_ms : ℤ
  pub maximum_full_latency_ms : ℤ
  pub minimum_throughput_tps : Text
  pub minimum_output_quality : Text
  pub auto_downweight : Bool
  pub auto_circuit_breaker : Bool
  pub circuit_failure_threshold : ℕ
  pub circuit_recovery_threshold : ℕ
  pub circuit_open_duration : ℕ
  pub ramp_enabled : Bool
  pub ramp_initial_bps : ℕ
  pub ramp_step_bps : ℕ
  pub ramp_step_interval : ℕ

pub record Metrics : Type 0 where
  pub measurement_count : ℤ
  pub availability_pct : Text
  pub error_rate_pct : Text
  pub rate_limited_pct : Text
  pub p95_ttft_ms : Option ℤ
  pub p95_full_latency_ms : Option ℤ
  pub throughput_tps : Option Text
  pub output_quality_score : Text
  pub price_truth_score : Text
  pub region_coverage_pct : Text

-- The value of `CircuitState` after `normalizedCircuit`.
pub data CircuitState : Type 0 where
  closed half_open opened : CircuitState

pub record State : Type 0 where
  pub circuit_state : Text
  pub circuit_open_until : Option ℕ
  pub consecutive_breaches : ℕ
  pub consecutive_recoveries : ℕ
  pub traffic_cap_bps : ℤ
  pub ramp_started_at : Option ℕ
  pub last_ramp_step_at : Option ℕ
  pub supplier_linked : Bool

-- The keys of the map of breaches.
pub data BreachName : Type 0 where
  availability error_rate rate_limited_rate ttft full_latency throughput output_quality price_truth
        region_coverage :
      BreachName

-- `Observed` and `Threshold` are numbers where the source prints an integer, and texts elsewhere.
pub data Reading : Type 0 where
  text : Text → Reading
  integer : ℤ → Reading

pub record Breach : Type 0 where
  pub name : BreachName
  pub observed : Reading
  pub threshold : Reading
  pub critical : Bool

pub data Grade : Type 0 where
  grade_a grade_b grade_c grade_d grade_f unknown : Grade

pub record Decision : Type 0 where
  pub grade : Grade
  pub quality_score : Text
  pub routing_multiplier : Text
  pub traffic_cap_bps : ℕ
  pub circuit_state : CircuitState
  pub circuit_open_until : Option ℕ
  pub consecutive_breaches : ℕ
  pub consecutive_recoveries : ℕ
  pub ramp_started_at : Option ℕ
  pub last_ramp_step_at : Option ℕ
  pub breaches : List Breach
  pub sufficient_measurements : Bool

unfoldable pub normalized_circuit : Text → CircuitState
normalized_circuit value =
    if text_eq value (codes "OPEN")
    then opened
    else if text_eq value (codes "HALF_OPEN")
    then half_open
    else closed

unfoldable pub normalized_cap : ℤ → ℕ
normalized_cap value = if ltb_ℤ value (pos 0) || ltb_ℤ (pos 10_000) value then 10_000 else abs value

unfoldable pub grade_multiplier : Grade → Text
grade_multiplier grade_a = codes "1.000000"
grade_multiplier grade_b = codes "0.900000"
grade_multiplier grade_c = codes "0.700000"
grade_multiplier grade_d = codes "0.350000"
grade_multiplier grade_f = codes "0.100000"
grade_multiplier unknown = codes "0.250000"
