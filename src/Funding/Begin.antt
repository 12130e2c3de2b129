-- ===== src/Funding/Begin.antt =====
-- The monthly budgets of providers, and what an attempt admits of them.
use model_dock.Base.{
  ℕ, ◌+◌, ◌<◌, ◌≤◌, ◌≡◌, ◌≢◌, refl, sym, ap, ◌∙◌, subst, inl, inr, ◌⊎◌, true, false, not, ◌&&◌,
  Option, none, some, List, [], ◌∷◌, arith, ltb, if◌then◌else◌, Bool-cases, All,
}
use model_dock.Text.{Text, text_eq}
use model_dock.Funding.{
  ok, Operation, Budget, BudgetReservation, Store, find_budget, update_budget, find_operation,
  put_operation, Succeeds, Succeeds-bind, Succeeds-fail_if, Succeeds-map,
}
use model_dock.Funding.Fees.{is_row}
use model_dock.Funding.Reversal.{Succeeds-bind_of}
use model_dock.Funding.Adjust.{is_in_progress}
use model_dock.Funding.Attempt.{
  started, Attempt, AttemptRequest, AttemptStore, CredentialOwner, platform, customer,
  own_credential, with_fees, ensure_row, maximum_cost_of, exceeds, reserve_row, reserve_in,
  reserve_budget, prepare_by, last_attempt, begin_open, begin_found, begin_attempt,
}

-- The row keeps within the limit, if there is one.
abbrev pub KeepsLimit : ℕ → Option Budget → Type 0
KeepsLimit limit none = Unit
KeepsLimit limit (some b) = (limit ≡ 0) ⊎ (b.provider_cost + b.reserved_cost ≤ limit)

abbrev reserved_of : ℕ → Option Budget → Option Budget
reserved_of cost none = none
reserved_of cost (some b) = some (reserve_row cost b)

find-reserve_row :
    (cost : ℕ) (provider : Text) (month : ℕ) (budgets : List Budget)
    → find_budget provider month (update_budget (reserve_row cost) provider month budgets)
      ≡ reserved_of cost (find_budget provider month budgets)
unfolding find_budget update_budget reserve_row
find-reserve_row cost provider month [] = refl
find-reserve_row cost provider month (x ∷ rest) = elim (Bool-cases (is_row provider month x)) [
  | inl here ↦ rw (here, here) refl
  | inr there ↦ rw (there, there) (find-reserve_row cost provider month rest)
]

-- What an attempt on a platform's credential has admitted: the operation had a reservation, or it has
-- one now, and the provider's row keeps within the limit.
abbrev pub Admitted : AttemptRequest → Operation → ℕ → Operation × List Budget → Type 0
Admitted r o month (o', budgets) =
    (o'.budget ≢ none)
    × ((o.budget ≢ none) ⊎ KeepsLimit r.cost_limit (find_budget r.provider_id month budgets))

within_limit :
    (limit cost : ℕ) (b : Budget)
    → exceeds limit b cost ≡ false
    → KeepsLimit limit (some (reserve_row cost b))
unfolding reserve_row
within_limit limit cost b h = elim (Bool-cases (ltb 0 limit)) [
  | inl e ↦ inr (ground arith)
  | inr e ↦ inl (ground arith)
]

reserve_in-Admitted :
    (found : Option Budget) (r : AttemptRequest) (o : Operation) (month : ℕ) (budgets : List Budget)
    → find_budget r.provider_id month budgets ≡ found
    → Succeeds (Admitted r o month) (reserve_in found r o month budgets)
reserve_in-Admitted none r o month budgets e = tt
reserve_in-Admitted (some b) r o month budgets e =
    Succeeds-bind _ (maximum_cost_of o.price_version r.settlement_currency o) _ (λ cost _.
      Succeeds-fail_if _ (exceeds r.cost_limit b cost) _ _ (λ h. (
        (λ k. cc),
        inr (
            subst (KeepsLimit r.cost_limit)
              (sym (find-reserve_row cost r.provider_id month budgets ∙ ap (reserved_of cost) e))
              (within_limit r.cost_limit cost b h)),
      )))

reserve_budget-Admitted :
    (known : Option BudgetReservation) (r : AttemptRequest) (o : Operation) (month : ℕ)
    (budgets : List Budget)
    → o.budget ≡ known
    → Succeeds (Admitted r o month) (reserve_budget known r o month budgets)
reserve_budget-Admitted (some v) r o month budgets e = ((λ k. cc), inl (λ k. cc))
reserve_budget-Admitted none r o month budgets e =
    reserve_in-Admitted (find_budget r.provider_id month budgets) r o month budgets refl

-- Every attempt of the operation so far has a smaller number.
abbrev pub NumberedBelow : ℕ → Text → List Attempt → Type 0
NumberedBelow n id attempts =
    All (λ a. (text_eq a.operation_id id ≡ false) ⊎ (a.attempt_no < n)) attempts

NumberedBelow-mono :
    (m n : ℕ) (id : Text) (attempts : List Attempt)
    → m ≤ n
    → NumberedBelow m id attempts
    → NumberedBelow n id attempts
NumberedBelow-mono m n id [] h t = tt
NumberedBelow-mono m n id (a ∷ rest) h (inl e, ts) = (inl e, NumberedBelow-mono m n id rest h ts)
NumberedBelow-mono m n id (a ∷ rest) h (inr l, ts) =
    (inr (omega arith), NumberedBelow-mono m n id rest h ts)

last_attempt-NumberedBelow :
    (id : Text) (attempts : List Attempt) → NumberedBelow (last_attempt id attempts + 1) id attempts
unfolding last_attempt
last_attempt-NumberedBelow id [] = tt
last_attempt-NumberedBelow id (a ∷ rest) =
    let last = last_attempt id rest in
    let ih = last_attempt-NumberedBelow id rest in
    let now = if text_eq a.operation_id id && ltb last a.attempt_no then a.attempt_no else last in
    let grows : last ≤ now = ground arith in
    (
      elim (Bool-cases (text_eq a.operation_id id)) [
        | inl e ↦ inr (rw e (ground arith))
        | inr e ↦ inl e
      ],
      NumberedBelow-mono (last + 1) (now + 1) id rest (omega (arith, grows)) ih,
    )

-- An attempt of the operation that is called for.
pub record IsBegun (r : AttemptRequest) (o : Operation) (s : AttemptStore) (a : Attempt)
    (after : AttemptStore) : Type 0 where
  pub open_still : is_in_progress o.status ≡ true
  pub dispatched : r.dispatch ≡ ok tt
  pub recorded : after.attempts ≡ a ∷ s.attempts
  pub running : a.status ≡ started
  pub numbered : NumberedBelow a.attempt_no r.operation_id s.attempts
  pub paid_nothing : after.store.wallet ≡ s.store.wallet
  pub prepared : Operation
  pub written : after.store.operations ≡ put_operation prepared s.store.operations
  pub admitted : r.owner ≡ platform → Admitted r o s.store.month (prepared, after.store.budgets)

prepare_by-Admitted :
    (owner : CredentialOwner) (r : AttemptRequest) (o : Operation) (s : Store)
    → Succeeds
        (λ p. owner ≡ platform → Admitted r o s.month p)
        (prepare_by owner r (own_credential owner o) s)
prepare_by-Admitted customer r o s =
    Succeeds-bind _ (with_fees r.policy r.operation_currency (own_credential customer o)) _
      (λ o' _. λ e. cc)
prepare_by-Admitted platform r o s =
    Succeeds-map (Admitted r (own_credential platform o) s.month) _ _
      (λ p h. λ _. unfold own_credential in h)
      (reserve_budget-Admitted (own_credential platform o).budget r (own_credential platform o)
        s.month (ensure_row r.provider_id s.month s.budgets) refl)

begin_open-IsBegun :
    (id : Text) (r : AttemptRequest) (o : Operation) (s : AttemptStore)
    → Succeeds (λ result. IsBegun r o s result.0 result.1) (begin_open id r o s)
unfolding begin_open
begin_open-IsBegun id r o s = Succeeds-fail_if _ (not (is_in_progress o.status)) _ _ (λ still.
    Succeeds-bind _ r.dispatch _ (λ u dispatched.
      Succeeds-bind_of _ (λ p. r.owner ≡ platform → Admitted r o s.store.month p) _ _
        (prepare_by-Admitted r.owner r o s.store)
        (λ p admitted. record {
          open_still = ground arith;
          dispatched = dispatched;
          recorded = refl;
          running = refl;
          numbered = last_attempt-NumberedBelow r.operation_id s.attempts;
          paid_nothing = refl;
          prepared = p.0;
          written = refl;
          admitted = admitted;
        })))

abbrev pub IsBegunOf :
    AttemptRequest → Option Operation → AttemptStore → Attempt × AttemptStore → Type 0
IsBegunOf r none s result = ⊥
IsBegunOf r (some o) s result = IsBegun r o s result.0 result.1

begin_found-IsBegun :
    (found : Option Operation) (id : Text) (r : AttemptRequest) (s : AttemptStore)
    → Succeeds (IsBegunOf r found s) (begin_found found id r s)
begin_found-IsBegun none id r s = tt
begin_found-IsBegun (some o) id r s = begin_open-IsBegun id r o s

-- An attempt that begins is of an operation that is still open and of a provider that may be dispatched
-- to; it is recorded as started, with a number above those of all earlier attempts of the operation,
-- and costs the wallet nothing. On a platform's credential the operation then has a budget reservation,
-- and unless it had one before, the provider's costs and reservations of the month are together within
-- its limit, if it has one.
pub begin_attempt-IsBegun :
    (id : Text) (r : AttemptRequest) (s : AttemptStore)
    → Succeeds
        (IsBegunOf r (find_operation r.operation_id s.store.operations) s)
        (begin_attempt id r s)
unfolding begin_attempt
begin_attempt-IsBegun id r s =
    begin_found-IsBegun (find_operation r.operation_id s.store.operations) id r s
