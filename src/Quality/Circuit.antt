-- ===== src/Quality/Circuit.antt =====
-- The circuit breaker and the traffic ramp of internal/quality/evaluator.go, on a decision.
use model_dock.Base.{
  ℕ, ◌+◌, Bool, true, false, not, ◌&&◌, ◌||◌, Option, none, some, leb, ltb, if◌then◌else◌, ◌==◌,
}
use model_dock.Quality.{
  Policy, CircuitState, closed, half_open, opened, Decision, Grade, grade_a, grade_b, grade_c,
  grade_d, grade_f, unknown,
}

-- `CircuitOpenUntil != nil && now.Before(*CircuitOpenUntil)`
abbrev pub still_open : Option ℕ → ℕ → Bool
still_open none now = false
still_open (some until) now = ltb now until

-- After a critical breach.
unfoldable pub record_breach : Decision → Policy → ℕ → Decision
record_breach d policy now =
    let breached = record d {
      consecutive_breaches = d.consecutive_breaches + 1;
      consecutive_recoveries = 0;
    } in
    if leb policy.circuit_failure_threshold breached.consecutive_breaches
    then record breached {
      circuit_state = opened;
      circuit_open_until = some (now + policy.circuit_open_duration);
    }
    else breached

abbrev pub is_half_open : CircuitState → Bool
is_half_open half_open = true
is_half_open closed = false
is_half_open opened = false

-- After an evaluation with no critical breach.
unfoldable pub record_recovery : Decision → Policy → Decision
record_recovery d policy =
    let recovered = record d {
      consecutive_breaches = 0;
      consecutive_recoveries = d.consecutive_recoveries + 1;
    } in
    if is_half_open recovered.circuit_state
      && leb policy.circuit_recovery_threshold recovered.consecutive_recoveries
    then record recovered {
      circuit_state = closed;
      circuit_open_until = none;
      consecutive_recoveries = 0;
    }
    else recovered

unfoldable pub count_evaluation : Decision → Policy → Bool → ℕ → Decision
unfolding record_breach record_recovery
count_evaluation d policy critical now =
    if critical then record_breach d policy now else record_recovery d policy

-- The `switch` on the circuit's state.
unfoldable pub circuit_from : CircuitState → Decision → Policy → Bool → ℕ → Decision
unfolding count_evaluation
circuit_from opened d policy critical now =
    if still_open d.circuit_open_until now
    then d
    else count_evaluation (record d { circuit_state = half_open; circuit_open_until = none }) policy
        critical now
circuit_from half_open d policy critical now = count_evaluation d policy critical now
circuit_from closed d policy critical now = count_evaluation d policy critical now

unfoldable pub evaluate_circuit : Decision → Policy → Bool → ℕ → Decision
unfolding circuit_from
evaluate_circuit d policy critical now = circuit_from d.circuit_state d policy critical now

abbrev pub is_healthy : Grade → Bool
is_healthy grade_a = true
is_healthy grade_b = true
is_healthy grade_c = true
is_healthy grade_d = false
is_healthy grade_f = false
is_healthy unknown = false

abbrev pub capped : ℕ → ℕ
capped bps = if ltb 10_000 bps then 10_000 else bps

-- The step of the ramp, if its interval has passed; `last` is the last step, or the start.
unfoldable pub ramp_step : Decision → Policy → ℕ → ℕ → Decision
ramp_step d policy last now =
    if leb (last + policy.ramp_step_interval) now
    then record d {
      traffic_cap_bps = capped (d.traffic_cap_bps + policy.ramp_step_bps);
      last_ramp_step_at = some now;
    }
    else d

abbrev or_else : Option ℕ → ℕ → ℕ
or_else none fallback = fallback
or_else (some t) fallback = t

-- A ramp that has started at `started`. `degraded` says that the price or the regions fall short.
unfoldable pub ramp_from : Option ℕ → Decision → Policy → Bool → Bool → ℕ → Decision
unfolding ramp_step
ramp_from none d policy degraded critical now = record d {
  ramp_started_at = some now;
  last_ramp_step_at = some now;
  traffic_cap_bps = policy.ramp_initial_bps;
}
ramp_from (some started) d policy degraded critical now =
    let restarted =
      if d.traffic_cap_bps == 0
      then record d { traffic_cap_bps = policy.ramp_initial_bps }
      else d in
    if critical || not (is_healthy d.grade) || degraded
    then restarted
    else ramp_step restarted policy (or_else d.last_ramp_step_at started) now

unfoldable pub evaluate_ramp : Decision → Policy → Bool → Bool → Bool → ℕ → Decision
unfolding ramp_from
evaluate_ramp d policy degraded supplier_linked critical now =
    if not supplier_linked || not policy.ramp_enabled
    then record d { traffic_cap_bps = 10_000 }
    else ramp_from d.ramp_started_at d policy degraded critical now
