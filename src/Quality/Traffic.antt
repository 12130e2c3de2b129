-- ===== src/Quality/Traffic.antt =====
-- The traffic that an evaluation of internal/quality/evaluator.go leaves to a provider.
use model_dock.Base.{ℕ, ◌≤◌, ◌≡◌, refl, Bool, true, Option, none, some, arith, if_lem}
use model_dock.Base.Int.{ℤ}
use model_dock.Text.{codes}
use model_dock.Quality.{
  Policy, Metrics, State, CircuitState, closed, half_open, opened, Decision, normalized_cap,
}
use model_dock.Quality.Score.{Reader}
use model_dock.Quality.Circuit.{circuit_from, ramp_step, ramp_from, evaluate_circuit, evaluate_ramp}
use model_dock.Quality.Evaluate.{
  any_critical, initial_decision, measured, with_circuit, with_traffic, before_traffic, degraded,
  evaluate_enabled, evaluate,
}

ramp_step-le :
    (d : Decision) (policy : Policy) (last now : ℕ)
    → d.traffic_cap_bps ≤ 10_000
    → (ramp_step d policy last now).traffic_cap_bps ≤ 10_000
unfolding ramp_step
ramp_step-le d policy last now h = ground arith

ramp_from-le :
    (start : Option ℕ) (d : Decision) (policy : Policy) (degraded critical : Bool) (now : ℕ)
    → policy.ramp_initial_bps ≤ 10_000
    → d.traffic_cap_bps ≤ 10_000
    → (ramp_from start d policy degraded critical now).traffic_cap_bps ≤ 10_000
unfolding ramp_from
ramp_from-le none d policy degraded critical now p h = p
ramp_from-le (some started) d policy degraded critical now p h = ground arith

evaluate_ramp-le :
    (d : Decision) (policy : Policy) (degraded linked critical : Bool) (now : ℕ)
    → policy.ramp_initial_bps ≤ 10_000
    → d.traffic_cap_bps ≤ 10_000
    → (evaluate_ramp d policy degraded linked critical now).traffic_cap_bps ≤ 10_000
unfolding evaluate_ramp
evaluate_ramp-le d policy degraded linked critical now p h =
    ground (arith, ramp_from-le d.ramp_started_at d policy degraded critical now)

ramp_from-circuit :
    (start : Option ℕ) (d : Decision) (policy : Policy) (degraded critical : Bool) (now : ℕ)
    → (ramp_from start d policy degraded critical now).circuit_state ≡ d.circuit_state
unfolding ramp_from
ramp_from-circuit none d policy degraded critical now = refl
ramp_from-circuit (some started) d policy degraded critical now = ground arith

-- The ramp does not touch the circuit.
evaluate_ramp-circuit :
    (d : Decision) (policy : Policy) (degraded linked critical : Bool) (now : ℕ)
    → (evaluate_ramp d policy degraded linked critical now).circuit_state ≡ d.circuit_state
unfolding evaluate_ramp
evaluate_ramp-circuit d policy degraded linked critical now =
    ground (arith, ramp_from-circuit d.ramp_started_at d policy degraded critical now)

circuit_from-cap :
    (s : CircuitState) (d : Decision) (policy : Policy) (critical : Bool) (now : ℕ)
    → (circuit_from s d policy critical now).traffic_cap_bps ≡ d.traffic_cap_bps
unfolding circuit_from
circuit_from-cap opened d policy critical now = ground arith
circuit_from-cap half_open d policy critical now = ground arith
circuit_from-cap closed d policy critical now = ground arith

evaluate_circuit-cap :
    (d : Decision) (policy : Policy) (critical : Bool) (now : ℕ)
    → (evaluate_circuit d policy critical now).traffic_cap_bps ≡ d.traffic_cap_bps
unfolding evaluate_circuit
evaluate_circuit-cap d policy critical now = circuit_from-cap d.circuit_state d policy critical now

with_circuit-cap :
    (policy : Policy) (critical : Bool) (now : ℕ) (d : Decision)
    → (with_circuit policy critical now d).traffic_cap_bps ≡ d.traffic_cap_bps
unfolding with_circuit
with_circuit-cap policy critical now d = ground (arith, evaluate_circuit-cap d policy critical now)

with_traffic-le :
    (s : CircuitState) (policy : Policy) (degraded linked critical : Bool) (now : ℕ) (d : Decision)
    → policy.ramp_initial_bps ≤ 10_000
    → d.traffic_cap_bps ≤ 10_000
    → (with_traffic s policy degraded linked critical now d).traffic_cap_bps ≤ 10_000
unfolding with_traffic
with_traffic-le opened policy degraded linked critical now d p h = omega arith
with_traffic-le half_open policy degraded linked critical now d p h =
    evaluate_ramp-le d policy degraded linked critical now p h
with_traffic-le closed policy degraded linked critical now d p h =
    evaluate_ramp-le d policy degraded linked critical now p h

normalized_cap-le : (value : ℤ) → normalized_cap value ≤ 10_000
unfolding normalized_cap
normalized_cap-le value = ground arith

initial-cap : (state : State) → (initial_decision state).traffic_cap_bps ≤ 10_000
unfolding initial_decision
initial-cap state = normalized_cap-le state.traffic_cap_bps

before_traffic-cap :
    (read : Reader) (policy : Policy) (metrics : Metrics) (state : State) (now : ℕ)
    → (before_traffic read policy metrics state now).traffic_cap_bps ≤ 10_000
unfolding before_traffic measured
before_traffic-cap read policy metrics state now =
    let d = measured read policy metrics (initial_decision state) in
    omega (arith, with_circuit-cap policy (any_critical d.breaches) now d, initial-cap state)

-- If the policy starts a ramp at no more than 10000 basis points, every evaluation leaves a cap of no
-- more than that, whatever the cap that it is given.
pub evaluate-traffic_cap-le :
    (read : Reader) (policy : Policy) (metrics : Metrics) (state : State) (now : ℕ)
    → policy.ramp_initial_bps ≤ 10_000
    → (evaluate read policy metrics state now).traffic_cap_bps ≤ 10_000
unfolding evaluate evaluate_enabled
evaluate-traffic_cap-le read policy metrics state now p =
    let d = before_traffic read policy metrics state now in
    let critical = any_critical (measured read policy metrics (initial_decision state)).breaches in
    if_lem (λ after. after.traffic_cap_bps ≤ 10_000) policy.enabled
      (evaluate_enabled read policy metrics state now) (initial_decision state)
      (λ on.
        with_traffic-le d.circuit_state policy (degraded read metrics) state.supplier_linked
          critical now d p (before_traffic-cap read policy metrics state now))
      (λ off. initial-cap state)

with_traffic-opened :
    (s : CircuitState) (policy : Policy) (degraded linked critical : Bool) (now : ℕ) (d : Decision)
    → d.circuit_state ≡ s
    → let after = with_traffic s policy degraded linked critical now d in
      after.circuit_state ≡ opened
      → (after.traffic_cap_bps ≡ 0) × (after.routing_multiplier ≡ codes "0.000000")
unfolding with_traffic
with_traffic-opened opened policy degraded linked critical now d same e = (refl, refl)
with_traffic-opened half_open policy degraded linked critical now d same e =
    cc (evaluate_ramp-circuit d policy degraded linked critical now)
with_traffic-opened closed policy degraded linked critical now d same e =
    cc (evaluate_ramp-circuit d policy degraded linked critical now)

-- With an evaluation that is enabled, a circuit that ends open has no traffic and no weight in the
-- routing.
pub evaluate-opened :
    (read : Reader) (policy : Policy) (metrics : Metrics) (state : State) (now : ℕ)
    → policy.enabled ≡ true
    → (evaluate read policy metrics state now).circuit_state ≡ opened
    → ((evaluate read policy metrics state now).traffic_cap_bps ≡ 0)
      × ((evaluate read policy metrics state now).routing_multiplier ≡ codes "0.000000")
unfolding evaluate evaluate_enabled
evaluate-opened read policy metrics state now on =
    let d = before_traffic read policy metrics state now in
    let critical = any_critical (measured read policy metrics (initial_decision state)).breaches in
    if_lem
      (λ after.
        after.circuit_state ≡ opened
        → (after.traffic_cap_bps ≡ 0) × (after.routing_multiplier ≡ codes "0.000000"))
      policy.enabled (evaluate_enabled read policy metrics state now) (initial_decision state)
      (λ _.
        with_traffic-opened d.circuit_state policy (degraded read metrics) state.supplier_linked
          critical now d refl)
      (λ off. absurd (ground arith))
