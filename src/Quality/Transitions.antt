-- ===== src/Quality/Transitions.antt =====
-- The moves of the circuit breaker, and the runs of evaluations that open and close it.
use mathlib.Core.Bool.{true≢false, false≢true}
use model_dock.Base.{
  ℕ, ◌+◌, ◌≤◌, ◌<◌, ◌≡◌, refl, ◌≢◌, inl, inr, Bool, true, false, none, some, List, [], ◌∷◌, arith,
  leb, ◌&&◌, length, Bool-cases,
}
use model_dock.Quality.{Policy, CircuitState, closed, half_open, opened, Decision}
use model_dock.Quality.Circuit.{
  still_open, is_half_open, record_breach, record_recovery, count_evaluation, circuit_from,
  evaluate_circuit,
}

-- The circuit is not held open at this time.
abbrev pub IsFree : Decision → ℕ → Type 0
IsFree d now = d.circuit_state ≡ opened → still_open d.circuit_open_until now ≡ false

-- One evaluation of the circuit, from the state before it to the state after it.
pub data Move (d : Decision) (policy : Policy) (critical : Bool) (now : ℕ) : Decision → Type 0 where
  -- An open circuit whose time has not passed stays as it is.
  held :
      d.circuit_state ≡ opened
      → still_open d.circuit_open_until now ≡ true
      → Move d policy critical now d
  -- A critical breach that reaches the threshold opens the circuit.
  trips :
      (after : Decision)
      → IsFree d now
      → critical ≡ true
      → policy.circuit_failure_threshold ≤ d.consecutive_breaches + 1
      → after.circuit_state ≡ opened
      → after.circuit_open_until ≡ some (now + policy.circuit_open_duration)
      → after.consecutive_breaches ≡ d.consecutive_breaches + 1
      → after.consecutive_recoveries ≡ 0
      → Move d policy critical now after
  -- A critical breach below the threshold is counted.
  counts :
      (after : Decision)
      → IsFree d now
      → critical ≡ true
      → d.consecutive_breaches + 1 < policy.circuit_failure_threshold
      → after.circuit_state ≢ opened
      → after.consecutive_breaches ≡ d.consecutive_breaches + 1
      → after.consecutive_recoveries ≡ 0
      → Move d policy critical now after
  -- Enough recoveries close a circuit that is not closed.
  closes :
      (after : Decision)
      → IsFree d now
      → critical ≡ false
      → d.circuit_state ≢ closed
      → policy.circuit_recovery_threshold ≤ d.consecutive_recoveries + 1
      → after.circuit_state ≡ closed
      → after.circuit_open_until ≡ none
      → after.consecutive_breaches ≡ 0
      → after.consecutive_recoveries ≡ 0
      → Move d policy critical now after
  -- Any other evaluation without a critical breach counts a recovery, and does not close the circuit.
  recovers :
      (after : Decision)
      → IsFree d now
      → critical ≡ false
      → (after.circuit_state ≡ closed → d.circuit_state ≡ closed)
      → (d.circuit_state ≢ closed
          → d.consecutive_recoveries + 1 < policy.circuit_recovery_threshold)
      → after.circuit_state ≢ opened
      → after.consecutive_breaches ≡ 0
      → after.consecutive_recoveries ≡ d.consecutive_recoveries + 1
      → Move d policy critical now after

-- What is left of an open circuit whose time has passed.
abbrev reopened : Decision → Decision
reopened d = record d { circuit_state = half_open; circuit_open_until = none }

record_breach-Move :
    (d e : Decision) (policy : Policy) (now : ℕ)
    → IsFree d now
    → e.circuit_state ≢ opened
    → e.consecutive_breaches ≡ d.consecutive_breaches
    → Move d policy true now (record_breach e policy now)
unfolding record_breach
record_breach-Move d e policy now free ne same =
    elim (Bool-cases (leb policy.circuit_failure_threshold (e.consecutive_breaches + 1))) [
      | inl reached ↦ rw reached (trips _ free refl (ground arith) refl refl (ground arith) refl)
      | inr short ↦ rw short (counts _ free refl (ground arith) ne (ground arith) refl)
    ]

record_recovery-Move :
    (d e : Decision) (policy : Policy) (now : ℕ)
    → IsFree d now
    → e.circuit_state ≢ opened
    → (e.circuit_state ≡ half_open → d.circuit_state ≢ closed)
    → (e.circuit_state ≡ closed → d.circuit_state ≡ closed)
    → (d.circuit_state ≢ closed → e.circuit_state ≡ half_open)
    → e.consecutive_recoveries ≡ d.consecutive_recoveries
    → Move d policy false now (record_recovery e policy)
unfolding record_recovery
record_recovery-Move d e policy now free ne half shut wide same =
    let test =
      is_half_open e.circuit_state
      && leb policy.circuit_recovery_threshold (e.consecutive_recoveries + 1) in
    elim (Bool-cases test) [
      | inl enough ↦
          rw enough (closes _ free refl (half (ground arith)) (ground arith) refl refl refl refl)
      | inr not_yet ↦
          rw not_yet
            (recovers _ free refl shut (λ x. ground (arith, wide x)) ne refl (ground arith))
    ]

count_evaluation-Move :
    (critical : Bool) (d e : Decision) (policy : Policy) (now : ℕ)
    → IsFree d now
    → e.circuit_state ≢ opened
    → (e.circuit_state ≡ half_open → d.circuit_state ≢ closed)
    → (e.circuit_state ≡ closed → d.circuit_state ≡ closed)
    → (d.circuit_state ≢ closed → e.circuit_state ≡ half_open)
    → e.consecutive_breaches ≡ d.consecutive_breaches
    → e.consecutive_recoveries ≡ d.consecutive_recoveries
    → Move d policy critical now (count_evaluation e policy critical now)
unfolding count_evaluation
count_evaluation-Move true d e policy now free ne half shut wide b r =
    record_breach-Move d e policy now free ne b
count_evaluation-Move false d e policy now free ne half shut wide b r =
    record_recovery-Move d e policy now free ne half shut wide r

circuit_from-Move :
    (s : CircuitState) (d : Decision) (policy : Policy) (critical : Bool) (now : ℕ)
    → d.circuit_state ≡ s
    → Move d policy critical now (circuit_from s d policy critical now)
unfolding circuit_from
circuit_from-Move opened d policy critical now e =
    elim (Bool-cases (still_open d.circuit_open_until now)) [
      | inl waits ↦ rw waits (held e waits)
      | inr over ↦ rw over (
          count_evaluation-Move critical d (reopened d) policy now (λ _. over) (λ x. cc) (λ x y. cc)
            (λ x. cc) (λ x. refl) refl refl)
    ]
circuit_from-Move half_open d policy critical now e =
    count_evaluation-Move critical d d policy now (λ x. absurd (cc)) (λ x. cc) (λ x y. cc) (λ x. x)
      (λ x. e) refl refl
circuit_from-Move closed d policy critical now e =
    count_evaluation-Move critical d d policy now (λ x. absurd (cc)) (λ x. cc) (λ x y. cc) (λ x. x)
      (λ x. absurd (x e)) refl refl

-- Every evaluation of the circuit is one of the five moves: an open circuit is held until its time,
-- and makes no other move before; otherwise it trips at the threshold of breaches, counts a breach,
-- closes at the threshold of recoveries or counts a recovery; and each move changes state, time and
-- counters as it says.
pub evaluate_circuit-Move :
    (d : Decision) (policy : Policy) (critical : Bool) (now : ℕ)
    → Move d policy critical now (evaluate_circuit d policy critical now)
unfolding evaluate_circuit
evaluate_circuit-Move d policy critical now =
    circuit_from-Move d.circuit_state d policy critical now refl

-- One evaluation after another, each with its time and whether it found a critical breach.
unfoldable pub run_circuit : Policy → Decision → List (Bool × ℕ) → Decision
run_circuit policy d [] = d
run_circuit policy d ((critical, now) ∷ rest) =
    run_circuit policy (evaluate_circuit d policy critical now) rest

-- Every evaluation of the run has this outcome.
abbrev pub AllOutcomes : Bool → List (Bool × ℕ) → Type 0
AllOutcomes critical [] = Unit
AllOutcomes critical ((c, now) ∷ rest) = (c ≡ critical) × AllOutcomes critical rest

breach_step :
    (policy : Policy) (d : Decision) (now : ℕ)
    → d.circuit_state ≢ opened
    → let after = evaluate_circuit d policy true now in
      ((d.consecutive_breaches + 1 < policy.circuit_failure_threshold)
        → (after.circuit_state ≢ opened)
          × (after.consecutive_breaches ≡ d.consecutive_breaches + 1))
      × ((policy.circuit_failure_threshold ≤ d.consecutive_breaches + 1)
          → after.circuit_state ≡ opened)
breach_step policy d now ne = from_move (evaluate_circuit-Move d policy true now)
  where
    from_move :
        {after : Decision}
        → Move d policy true now after
        → ((d.consecutive_breaches + 1 < policy.circuit_failure_threshold)
            → (after.circuit_state ≢ opened)
              × (after.consecutive_breaches ≡ d.consecutive_breaches + 1))
          × ((policy.circuit_failure_threshold ≤ d.consecutive_breaches + 1)
              → after.circuit_state ≡ opened)
    from_move (held e w) = absurd (ne e)
    from_move (trips after f c b s u n r) = (λ short. absurd (omega arith), λ _. s)
    from_move (counts after f c b s n r) = ((λ _. (s, n)), λ reached. absurd (omega arith))
    from_move (closes after f c s b a u n r) = absurd (true≢false c)
    from_move (recovers after f c s w a n r) = absurd (true≢false c)

-- From a circuit that is not open, a run of critical evaluations opens it at the very evaluation at
-- which the breaches reach the threshold, and not before.
pub run_circuit-trips :
    (policy : Policy) (d : Decision) (run : List (Bool × ℕ)) (now : ℕ)
    → d.circuit_state ≢ opened
    → AllOutcomes true run
    → d.consecutive_breaches + length run + 1 ≡ policy.circuit_failure_threshold
    → ((run_circuit policy d run).circuit_state ≢ opened)
      × ((evaluate_circuit (run_circuit policy d run) policy true now).circuit_state ≡ opened)
unfolding run_circuit
run_circuit-trips policy d [] now ne all reach = (ne, (breach_step policy d now ne).1 (omega arith))
run_circuit-trips policy d ((c, at) ∷ run) now ne (e, all) reach =
    let (state, count) = (breach_step policy d at ne).0 (omega arith) in
    rw e (
      run_circuit-trips policy (evaluate_circuit d policy true at) run now state all
        (omega (arith, count)))

recovery_step :
    (policy : Policy) (d : Decision) (now : ℕ)
    → d.circuit_state ≡ half_open
    → let after = evaluate_circuit d policy false now in
      ((d.consecutive_recoveries + 1 < policy.circuit_recovery_threshold)
        → (after.circuit_state ≡ half_open)
          × (after.consecutive_recoveries ≡ d.consecutive_recoveries + 1))
      × ((policy.circuit_recovery_threshold ≤ d.consecutive_recoveries + 1)
          → after.circuit_state ≡ closed)
recovery_step policy d now half = from_move (evaluate_circuit-Move d policy false now)
  where
    stays :
        (s : CircuitState) → s ≢ opened → (s ≡ closed → d.circuit_state ≡ closed) → s ≡ half_open
    stays half_open ne shut = refl
    stays opened ne shut = absurd (ne refl)
    stays closed ne shut = let e = shut refl in absurd (ground arith)

    from_move :
        {after : Decision}
        → Move d policy false now after
        → ((d.consecutive_recoveries + 1 < policy.circuit_recovery_threshold)
            → (after.circuit_state ≡ half_open)
              × (after.consecutive_recoveries ≡ d.consecutive_recoveries + 1))
          × ((policy.circuit_recovery_threshold ≤ d.consecutive_recoveries + 1)
              → after.circuit_state ≡ closed)
    from_move (held e w) = absurd (ground arith)
    from_move (trips after f c b s u n r) = absurd (false≢true c)
    from_move (counts after f c b s n r) = absurd (false≢true c)
    from_move (closes after f c s b a u n r) = (λ short. absurd (omega arith), λ _. a)
    from_move (recovers after f c s w a n r) =
        let not_closed : d.circuit_state ≢ closed = λ e. ground arith in
        (λ _. (stays after.circuit_state a s, r), λ reached. absurd (omega (arith, w not_closed)))

-- From a half-open circuit, a run of evaluations without a critical breach closes it at the very
-- evaluation at which the recoveries reach the threshold; until then it stays half-open.
pub run_circuit-closes :
    (policy : Policy) (d : Decision) (run : List (Bool × ℕ)) (now : ℕ)
    → d.circuit_state ≡ half_open
    → AllOutcomes false run
    → d.consecutive_recoveries + length run + 1 ≡ policy.circuit_recovery_threshold
    → ((run_circuit policy d run).circuit_state ≡ half_open)
      × ((evaluate_circuit (run_circuit policy d run) policy false now).circuit_state ≡ closed)
unfolding run_circuit
run_circuit-closes policy d [] now half all reach =
    (half, (recovery_step policy d now half).1 (omega arith))
run_circuit-closes policy d ((c, at) ∷ run) now half (e, all) reach =
    let (state, count) = (recovery_step policy d at half).0 (omega arith) in
    rw e (
      run_circuit-closes policy (evaluate_circuit d policy false at) run now state all
        (omega (arith, count)))
