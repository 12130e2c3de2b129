-- ===== src/Funding/Recovered.antt =====
-- What the recovery of stale operations leaves.
use model_dock.Base.{
  ℕ, ◌+◌, ◌≡◌, ◌≢◌, refl, sym, ap, ◌∙◌, inl, inr, Bool, true, false, Option, none, some, List, [],
  ◌∷◌, arith, length, if◌then◌else◌, Bool-cases, All,
}
use model_dock.Base.Int.{ℤ}
use model_dock.Text.{Text, text_eq, text_eq→eq}
use model_dock.Funding.{
  Funded, ok, err, terminal, is_funding_terminal, Operation, Store, Allocation, Debit,
  find_operation, put_operation, Succeeds, Succeeds-bind, Succeeds-fail_if, Succeeds-map,
}
use model_dock.Funding.Repeat.{find_operation-id, Closed, settle_funding-Closed}
use model_dock.Funding.Amounts.{SettlementRequest, Charge, invalid_settlement}
use model_dock.Funding.Settle.{settle_operation, settle_open, settle_found, settle_funding}
use model_dock.Funding.Never.{settle_funding-ne-terminal}
use model_dock.Funding.Recover.{
  Recovery, recovery_request, stale_operations, is_terminal_error, after_error, after_settlement,
  recover_each, recover_stale, clamp,
}

-- The operation is settled or given up.
pub record IsOver (id : Text) (s : Store) : Type 0 where
  pub operation : Operation
  pub there : find_operation id s.operations ≡ some operation
  pub over : is_funding_terminal operation.status ≡ true

find-put_operation_ne :
    (id : Text) (new : Operation) (ops : List Operation)
    → text_eq new.id id ≡ false
    → find_operation id (put_operation new ops) ≡ find_operation id ops
unfolding find_operation put_operation
find-put_operation_ne id new [] h = refl
find-put_operation_ne id new (o ∷ ops) h =
    let ih = find-put_operation_ne id new ops h in
    elim (Bool-cases (text_eq o.id new.id)) [
      | inl e ↦
          rw (e, h)
            (ap (λ b. if b then some o else find_operation id ops)
              (sym (ap (λ t. text_eq t id) (text_eq→eq o.id new.id e) ∙ h)))
      | inr e ↦ rw e (ap (λ x. if text_eq o.id id then some o else x) ih)
    ]

abbrev Written : Operation → Store → Operation × Store → Type 0
Written o s (o', after) = (o'.id ≡ o.id) × (after.operations ≡ put_operation o' s.operations)

settle_operation-Written :
    (o : Operation) (r : SettlementRequest) (s after : Store) (charge : Charge) (consumed : ℕ)
    (cash promotions : List Allocation) (debits : List Debit)
    → after.operations
      ≡ put_operation (settle_operation o r charge consumed cash promotions debits) s.operations
    → Written o s (settle_operation o r charge consumed cash promotions debits, after)
unfolding settle_operation
settle_operation-Written o r s after charge consumed cash promotions debits e = (refl, e)

settle_open-Written :
    (o : Operation) (r : SettlementRequest) (s : Store) → Succeeds (Written o s) (settle_open o r s)
unfolding settle_open
settle_open-Written o r s = search (Succeeds-bind, settle_operation-Written) depth 20

Written-IsOver :
    (id : Text) (o : Operation) (s : Store) (result : Operation × Store)
    → IsOver id s
    → text_eq o.id id ≡ false
    → Written o s result
    → IsOver id result.1
Written-IsOver id o s (o', after) over other (same, e) = record {
  operation = over.operation;
  there =
      ap (find_operation id) e
      ∙ find-put_operation_ne id o' s.operations (ap (λ t. text_eq t id) same ∙ other)
      ∙ over.there;
  over = over.over;
}

settle_open-IsOver :
    (id : Text) (o : Operation) (r : SettlementRequest) (s : Store)
    → IsOver id s
    → text_eq o.id id ≡ false
    → Succeeds (λ result. IsOver id result.1) (settle_open o r s)
settle_open-IsOver id o r s over other =
    Succeeds-map (Written o s) _ _ (λ result w. Written-IsOver id o s result over other w)
      (settle_open-Written o r s)

-- An operation that is open is another than one that is over.
open_other :
    (id key : Text) (o : Operation) (s : Store)
    → find_operation key s.operations ≡ some o
    → is_funding_terminal o.status ≡ false
    → IsOver id s
    → text_eq o.id id ≡ false
open_other id key o s found still over = elim (Bool-cases (text_eq o.id id)) [
  | inr e ↦ e
  | inl e ↦
      let same : key ≡ id = sym (find_operation-id key s.operations found) ∙ text_eq→eq o.id id e in
      let both : some o ≡ some over.operation =
        sym found ∙ ap (λ k. find_operation k s.operations) same ∙ over.there in
      absurd (ground (arith, over.over, both))
]

settle_found-IsOver :
    (id key : Text) (found : Option Operation) (r : SettlementRequest) (s : Store)
    → find_operation key s.operations ≡ found
    → IsOver id s
    → Succeeds (λ result. IsOver id result.1) (settle_found found r s)
settle_found-IsOver id key none r s e over = tt
settle_found-IsOver id key (some o) r s e over = elim (Bool-cases (is_funding_terminal o.status)) [
  | inl t ↦ rw t over
  | inr t ↦ rw t (settle_open-IsOver id o r s over (open_other id key o s e t over))
]

-- A settlement leaves what is over.
settle_funding-IsOver :
    (id : Text) (r : SettlementRequest) (s : Store)
    → IsOver id s
    → Succeeds (λ result. IsOver id result.1) (settle_funding r s)
unfolding settle_funding
settle_funding-IsOver id r s over = Succeeds-fail_if _ (invalid_settlement r) _ _ (λ _.
    settle_found-IsOver id r.operation_id (find_operation r.operation_id s.operations) r s refl
      over)

after_settlement-IsOver :
    (id : Text) (m : Funded (Operation × Store)) (continue : Store → Recovery) (s : Store)
    → ((s' : Store) → IsOver id s' → IsOver id (continue s').store)
    → Succeeds (λ result. IsOver id result.1) m
    → IsOver id s
    → IsOver id (after_settlement m continue s).store
after_settlement-IsOver id (ok (o, s')) continue s keeps h over = keeps s' h
after_settlement-IsOver id (err e) continue s keeps h over =
    elim (is_terminal_error e) as (λ b. IsOver id (after_error b e continue s).store) [
      | true ↦ keeps s over
      | false ↦ over
    ]

recover_each-IsOver :
    (ops : List Operation) (id : Text) (s : Store)
    → IsOver id s
    → IsOver id (recover_each ops s).store
unfolding recover_each
recover_each-IsOver [] id s over = over
recover_each-IsOver (o ∷ rest) id s over =
    after_settlement-IsOver id (settle_funding (recovery_request o) s) (recover_each rest) s
      (recover_each-IsOver rest id) (settle_funding-IsOver id (recovery_request o) s over) over

after_settlement-first :
    (id : Text) (m : Funded (Operation × Store)) (continue : Store → Recovery) (s : Store)
    → ((s' : Store) → IsOver id s' → IsOver id (continue s').store)
    → Succeeds (λ result. IsOver id result.1) m
    → m ≢ err terminal
    → (after_settlement m continue s).failure ≡ none
    → IsOver id (after_settlement m continue s).store
after_settlement-first id (ok (o, s')) continue s keeps h never e = keeps s' h
after_settlement-first id (err terminal) continue s keeps h never e = absurd (never refl)
after_settlement-first id (err other) continue s keeps h never e = ground arith

settled-IsOver :
    (r : SettlementRequest) (s : Store)
    → Succeeds (λ result. IsOver r.operation_id result.1) (settle_funding r s)
settled-IsOver r s =
    Succeeds-map (λ result. Closed r.operation_id result.0 result.1) _ (settle_funding r s)
      (λ result c. record { operation = result.0; there = c.0; over = c.1 })
      (settle_funding-Closed r s)

recover_each-first :
    (o : Operation) (rest : List Operation) (s : Store)
    → (recover_each (o ∷ rest) s).failure ≡ none
    → IsOver o.id (recover_each (o ∷ rest) s).store
unfolding recover_each
recover_each-first o rest s e =
    after_settlement-first o.id (settle_funding (recovery_request o) s) (recover_each rest) s
      (recover_each-IsOver rest o.id)
      (unfold recovery_request in settled-IsOver (recovery_request o) s)
      (settle_funding-ne-terminal (recovery_request o) s) e

-- No error, and the number of operations; and each is over.
abbrev pub AllRecovered : List Operation → Recovery → Type 0
AllRecovered ops r = (r.recovered ≡ length ops) × All (λ o. IsOver o.id r.store) ops

after_settlement-rest :
    (ops : List Operation) (m : Funded (Operation × Store)) (continue : Store → Recovery)
    (s : Store)
    → ((s' : Store) → (continue s').failure ≡ none → AllRecovered ops (continue s'))
    → m ≢ err terminal
    → (after_settlement m continue s).failure ≡ none
    → ((after_settlement m continue s).recovered ≡ length ops + 1)
      × All (λ o. IsOver o.id (after_settlement m continue s).store) ops
after_settlement-rest ops (ok (o, s')) continue s all never e =
    (omega (arith, (all s' e).0), (all s' e).1)
after_settlement-rest ops (err terminal) continue s all never e = absurd (never refl)
after_settlement-rest ops (err other) continue s all never e = absurd (ground arith)

recover_each-rest :
    (o : Operation) (rest : List Operation) (s : Store)
    → ((s' : Store)
        → (recover_each rest s').failure ≡ none
        → AllRecovered rest (recover_each rest s'))
    → (recover_each (o ∷ rest) s).failure ≡ none
    → ((recover_each (o ∷ rest) s).recovered ≡ length rest + 1)
      × All (λ x. IsOver x.id (recover_each (o ∷ rest) s).store) rest
unfolding recover_each
recover_each-rest o rest s all e =
    after_settlement-rest rest (settle_funding (recovery_request o) s) (recover_each rest) s all
      (settle_funding-ne-terminal (recovery_request o) s) e

recover_each-AllRecovered :
    (ops : List Operation) (s : Store)
    → (recover_each ops s).failure ≡ none
    → AllRecovered ops (recover_each ops s)
recover_each-AllRecovered [] s e = unfold recover_each in (refl, tt)
recover_each-AllRecovered (o ∷ rest) s e =
    let others = recover_each-rest o rest s (recover_each-AllRecovered rest) e in
    (omega (arith, others.0), (recover_each-first o rest s e, others.1))

-- A recovery that meets no error counts every stale operation that it has read, and afterwards each of
-- them is over: settled, released, failed or whatever it was before, but no longer pending or held.
pub recover_stale-AllRecovered :
    (stale : Operation → Bool) (limit : ℤ) (s : Store)
    → (recover_stale stale limit s).failure ≡ none
    → AllRecovered (stale_operations stale (clamp limit) s.operations) (recover_stale stale limit s)
unfolding recover_stale
recover_stale-AllRecovered stale limit s e =
    recover_each-AllRecovered (stale_operations stale (clamp limit) s.operations) s e
