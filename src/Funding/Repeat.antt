-- ===== src/Funding/Repeat.antt =====
-- A repeated reservation or settlement: it returns the operation of the first, and changes nothing.
use model_dock.Base.{
  ℕ, ◌≡◌, refl, sym, ap, ◌∙◌, subst, Bool, true, false, Option, none, some, List, [], ◌∷◌, arith,
  inl, inr, if◌then◌else◌, if_lem, Bool-cases,
}
use model_dock.Text.{Text, text_eq, text_eq→eq, text_eq_refl}
use model_dock.Funding.{
  ok, err, ◌>>=◌, ◌>>◌, fail_if, or_fail, invalid_reservation, invalid_amount, invalid_usage,
  idempotency_conflict, is_funding_terminal, Allocation, Debit, Operation, Store, find_operation,
  put_operation, Succeeds, Succeeds-bind, Succeeds-fail_if, Succeeds-ok, Succeeds-map,
}
use model_dock.Funding.Reserve.{
  ReservationRequest, is_invalid, amount_of, find_idempotent, conflicts, new_operation,
  write_reservation, reserve_fresh, reserve_known, reserve_funding,
}
use model_dock.Funding.Amounts.{SettlementRequest, Charge, invalid_settlement}
use model_dock.Funding.Settle.{
  settled_status, settle_operation, settle_open, settle_found, settle_funding,
}

-- What a repetition finds: the operation of the request's key, which fits the request.
abbrev Found : ReservationRequest → Operation → Store → Type 0
Found r o s = (find_idempotent r.idempotency_key s.operations ≡ some o) × (conflicts o r ≡ false)

new_operation-Found :
    (id : Text) (r : ReservationRequest) (maximum promotion : ℕ) (cash promotions : List Allocation)
    (after : Store) (rest : List Operation)
    → after.operations ≡ new_operation id r maximum promotion cash promotions ∷ rest
    → Found r (new_operation id r maximum promotion cash promotions) after
unfolding new_operation find_idempotent conflicts
new_operation-Found id r maximum promotion cash promotions after rest e = (
  rw (e, find_idempotent, text_eq_refl r.idempotency_key) refl,
  rw (text_eq_refl r.request_fingerprint, text_eq_refl r.project_id, text_eq_refl r.api_key_id)
      refl,
)

write_reservation-Found :
    (id : Text) (r : ReservationRequest) (maximum : ℕ) (s : Store)
    → Succeeds (λ result. Found r result.0 result.1) (write_reservation id r maximum s)
unfolding write_reservation
write_reservation-Found id r maximum s =
    search (Succeeds-bind, Succeeds-fail_if, new_operation-Found) depth 8

reserve_fresh-Found :
    (id : Text) (r : ReservationRequest) (maximum : ℕ) (s : Store)
    → Succeeds (λ result. Found r result.0 result.1) (reserve_fresh id r maximum s)
unfolding reserve_fresh
reserve_fresh-Found id r maximum s = search (Succeeds-fail_if, write_reservation-Found) depth 8

reserve_known-Found :
    (known : Option Operation) (id : Text) (r : ReservationRequest) (maximum : ℕ) (s : Store)
    → find_idempotent r.idempotency_key s.operations ≡ known
    → Succeeds (λ result. Found r result.0 result.2) (reserve_known known id r maximum s)
reserve_known-Found (some o) id r maximum s e =
    if_lem (Succeeds (λ result. Found r result.0 result.2)) (conflicts o r)
      (err idempotency_conflict) (ok (o, true, s)) (λ _. tt) (λ fits. (e, fits))
reserve_known-Found none id r maximum s e =
    Succeeds-bind (λ result. Found r result.0 result.2) (reserve_fresh id r maximum s)
      (λ a. ok (a.0, false, a.1))
      (λ a h.
        Succeeds-ok (λ result. Found r result.0 result.1) (reserve_fresh id r maximum s) h
          (reserve_fresh-Found id r maximum s))

known_again :
    (id : Text) (r : ReservationRequest) (maximum : ℕ) (o : Operation) (s : Store)
    → Found r o s
    → reserve_known (find_idempotent r.idempotency_key s.operations) id r maximum s
      ≡ ok (o, true, s)
known_again id r maximum o s (found, fits) = rw (found, fits) refl

-- A reservation that has succeeded and is repeated, under whatever new identifier, returns the same
-- operation, marked as known, and leaves the store as it is: the funds are held once.
pub reserve_funding_idem :
    (id again : Text) (r : ReservationRequest) (s : Store)
    → Succeeds
        (λ result. reserve_funding again r result.2 ≡ ok (result.0, true, result.2))
        (reserve_funding id r s)
unfolding reserve_funding
reserve_funding_idem id again r s = from (is_invalid r) (amount_of r.maximum_amount)
  where
    from :
        (b : Bool) (m : Option ℕ)
        → Succeeds
            (λ result.
              (fail_if b invalid_reservation
                >> (or_fail m invalid_amount >>= λ maximum.
                    reserve_known
                      (find_idempotent r.idempotency_key result.2.operations)
                      again
                      r
                      maximum
                      result.2))
              ≡ ok (result.0, true, result.2))
            (fail_if b invalid_reservation
              >> (or_fail m invalid_amount >>= λ maximum.
                  reserve_known (find_idempotent r.idempotency_key s.operations) id r maximum s))
    from true m = tt
    from false none = tt
    from false (some maximum) =
        Succeeds-map (λ result. Found r result.0 result.2)
          (λ result.
            reserve_known (find_idempotent r.idempotency_key result.2.operations) again r maximum
              result.2
            ≡ ok (result.0, true, result.2))
          (reserve_known (find_idempotent r.idempotency_key s.operations) id r maximum s)
          (λ result f. known_again again r maximum result.0 result.2 f)
          (reserve_known-Found (find_idempotent r.idempotency_key s.operations) id r maximum s refl)

abbrev id_of : Option Operation → Text
id_of none = []
id_of (some o) = o.id

pub find_operation-id :
    (id : Text) (ops : List Operation) {o : Operation} → find_operation id ops ≡ some o → o.id ≡ id
unfolding find_operation
find_operation-id id [] h = absurd (ground arith)
find_operation-id id (x ∷ ops) {o} h = elim (Bool-cases (text_eq x.id id)) [
  | inl e ↦
      let same : some x ≡ some o =
        subst (λ b. (if b then some x else find_operation id ops) ≡ some o) e h in
      sym (ap id_of same) ∙ text_eq→eq x.id id e
  | inr e ↦
      find_operation-id id ops
        (subst (λ b. (if b then some x else find_operation id ops) ≡ some o) e h)
]

pub find_operation-put_operation :
    (new : Operation) (ops : List Operation) {o : Operation}
    → find_operation new.id ops ≡ some o
    → find_operation new.id (put_operation new ops) ≡ some new
unfolding find_operation put_operation
find_operation-put_operation new [] h = absurd (ground arith)
find_operation-put_operation new (x ∷ ops) {o} h = elim (Bool-cases (text_eq x.id new.id)) [
  | inl e ↦ rw (e, find_operation, text_eq_refl new.id) refl
  | inr e ↦
      rw (e, find_operation, e)
        (find_operation-put_operation new ops
          (subst (λ b. (if b then some x else find_operation new.id ops) ≡ some o) e h))
]

settled_status-terminal :
    (actual : ℕ) (r : SettlementRequest) → is_funding_terminal (settled_status actual r) ≡ true
unfolding settled_status
settled_status-terminal actual r = ground arith

-- What a repetition finds: the settled operation.
abbrev pub Closed : Text → Operation → Store → Type 0
Closed id o s = (find_operation id s.operations ≡ some o) × (is_funding_terminal o.status ≡ true)

settle_operation-Closed :
    (id : Text) (o : Operation) (r : SettlementRequest) (charge : Charge) (consumed : ℕ)
    (cash promotions : List Allocation) (debits : List Debit) (s after : Store)
    → find_operation id s.operations ≡ some o
    → after.operations
      ≡ put_operation (settle_operation o r charge consumed cash promotions debits) s.operations
    → Closed id (settle_operation o r charge consumed cash promotions debits) after
unfolding settle_operation
settle_operation-Closed id o r charge consumed cash promotions debits s after found e =
    let same = find_operation-id id s.operations found in
    let new = settle_operation o r charge consumed cash promotions debits in
    let put =
      find_operation-put_operation new s.operations
        (subst (λ i. find_operation i s.operations ≡ some o) (sym same) found) in
    (
      rw e (subst (λ i. find_operation i (put_operation new s.operations) ≡ some new) same put),
      settled_status-terminal charge.actual r,
    )

settle_open-Closed :
    (id : Text) (o : Operation) (r : SettlementRequest) (s : Store)
    → find_operation id s.operations ≡ some o
    → Succeeds (λ result. Closed id result.0 result.1) (settle_open o r s)
unfolding settle_open
settle_open-Closed id o r s found = search (Succeeds-bind, settle_operation-Closed) depth 16

settle_found-Closed :
    (found : Option Operation) (id : Text) (r : SettlementRequest) (s : Store)
    → find_operation id s.operations ≡ found
    → Succeeds (λ result. Closed id result.0 result.1) (settle_found found r s)
settle_found-Closed none id r s e = tt
settle_found-Closed (some o) id r s e =
    if_lem (Succeeds (λ result. Closed id result.0 result.1)) (is_funding_terminal o.status)
      (ok (o, s)) (settle_open o r s) (λ over. (e, over)) (λ _. settle_open-Closed id o r s e)

settled_again :
    (again : SettlementRequest) (o : Operation) (s : Store)
    → invalid_settlement again ≡ false
    → Closed again.operation_id o s
    → settle_funding again s ≡ ok (o, s)
unfolding settle_funding
settled_again again o s valid (found, over) = rw (valid, found, over) refl

pub settle_funding-Closed :
    (r : SettlementRequest) (s : Store)
    → Succeeds (λ result. Closed r.operation_id result.0 result.1) (settle_funding r s)
unfolding settle_funding
settle_funding-Closed r s =
    Succeeds-fail_if (λ result. Closed r.operation_id result.0 result.1) (invalid_settlement r)
      invalid_usage (settle_found (find_operation r.operation_id s.operations) r s)
      (λ _.
        settle_found-Closed (find_operation r.operation_id s.operations) r.operation_id r s refl)

-- A settlement that has succeeded and is followed by another valid one of the same operation, with
-- whatever usage, returns the settled operation and leaves the store as it is: no operation is charged
-- twice.
pub settle_funding_idem :
    (r again : SettlementRequest) (s : Store)
    → again.operation_id ≡ r.operation_id
    → invalid_settlement again ≡ false
    → Succeeds
        (λ result. settle_funding again result.1 ≡ ok (result.0, result.1))
        (settle_funding r s)
settle_funding_idem r again s same valid =
    Succeeds-map (λ result. Closed r.operation_id result.0 result.1)
      (λ result. settle_funding again result.1 ≡ ok (result.0, result.1)) (settle_funding r s)
      (λ result f.
        settled_again again result.0 result.1 valid
          (subst (λ id. Closed id result.0 result.1) (sym same) f))
      (settle_funding-Closed r s)
