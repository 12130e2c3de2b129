-- ===== src/Funding/Admission.antt =====
-- Which reservations are admitted, and what an admitted one leaves of the wallet.
use model_dock.Base.{
  ℕ, ◌≤◌, ◌≡◌, refl, Bool, true, false, not, Option, none, some, List, ◌∷◌, ◌++◌, arith, ltb, ◌==◌,
  if_lem, Bool-cases, inl, inr,
}
use model_dock.Base.Int.{pos, ◌+ℤ◌, ◌-ℤ◌, ◌≤ℤ◌}
use model_dock.Text.{Text, text_eq, to_upper}
use model_dock.Funding.{
  ok, err, idempotency_conflict, BillingMode, prepaid, postpaid, JournalLine, Wallet, Lot,
  Operation, Store, post_journal, Succeeds, Succeeds-bind, Succeeds-fail_if, Succeeds-ok,
}
use model_dock.Funding.Lots.{take_lots, total_remaining, total_reserved}
use model_dock.Funding.Attribution.{take_lots_lem}
use model_dock.Funding.Reserve.{
  ReservationRequest, is_invalid, has_request, fits_numeric, wallet_fits, amount_of, currency_of,
  find_idempotent, conflicts, is_active, is_allowed, allowed_by, hold_wallet, reservation_lines,
  post_if_any, new_operation, write_reservation, reserve_fresh, reserve_known, reserve_funding,
}

-- What the mode of billing demands of a balance: a prepaid wallet is not overdrawn, one with an
-- enforced limit of credit stays within it, and neither is exposed to more than its limit of risk.
abbrev pub CoveredBy : BillingMode → Wallet → Type 0
CoveredBy prepaid w = (pos 0 ≤ℤ w.available_balance) × (w.risk_exposure ≤ℤ w.risk_limit)
CoveredBy postpaid w =
    w.credit_enforced ≡ true
    → (pos 0 ≤ℤ w.available_balance +ℤ w.credit_limit) × (w.risk_exposure ≤ℤ w.risk_limit)

abbrev pub IsCovered : Wallet → Type 0
IsCovered w = CoveredBy w.billing_mode w

allowed_by-CoveredBy :
    (mode : BillingMode) (w : Wallet) (maximum : ℕ)
    → allowed_by mode w (w.available_balance -ℤ pos maximum) ≡ true
    → CoveredBy mode (hold_wallet w maximum)
unfolding hold_wallet
allowed_by-CoveredBy prepaid w maximum h = (ground arith, ground arith)
allowed_by-CoveredBy postpaid w maximum h = λ enforced. (ground arith, ground arith)

is_allowed-IsCovered :
    (w : Wallet) (maximum : ℕ) → is_allowed w maximum ≡ true → IsCovered (hold_wallet w maximum)
unfolding is_allowed hold_wallet
is_allowed-IsCovered w maximum h = allowed_by-CoveredBy w.billing_mode w maximum h

write_reservation-IsCovered :
    (id : Text) (r : ReservationRequest) (maximum : ℕ) (s : Store)
    → is_allowed s.wallet maximum ≡ true
    → Succeeds (λ result. IsCovered result.1.wallet) (write_reservation id r maximum s)
unfolding write_reservation
write_reservation-IsCovered id r maximum s h =
    let covered = is_allowed-IsCovered s.wallet maximum h in
    search (Succeeds-bind, Succeeds-fail_if, covered) depth 8

not-false : (b : Bool) → not b ≡ false → b ≡ true
not-false true h = refl
not-false false h = absurd (ground arith)

reserve_fresh-IsCovered :
    (id : Text) (r : ReservationRequest) (maximum : ℕ) (s : Store)
    → Succeeds (λ result. IsCovered result.1.wallet) (reserve_fresh id r maximum s)
unfolding reserve_fresh
reserve_fresh-IsCovered id r maximum s =
    search (Succeeds-fail_if, write_reservation-IsCovered, not-false) depth 10

reserve_known-IsCovered :
    (known : Option Operation) (id : Text) (r : ReservationRequest) (maximum : ℕ) (s : Store)
    → Succeeds
        (λ result. result.1 ≡ false → IsCovered result.2.wallet)
        (reserve_known known id r maximum s)
reserve_known-IsCovered (some o) id r maximum s =
    if_lem (Succeeds (λ result. result.1 ≡ false → IsCovered result.2.wallet)) (conflicts o r)
      (err idempotency_conflict) (ok (o, true, s)) (λ _. tt) (λ _ e. absurd (ground arith))
reserve_known-IsCovered none id r maximum s =
    Succeeds-bind (λ result. result.1 ≡ false → IsCovered result.2.wallet)
      (reserve_fresh id r maximum s) (λ a. ok (a.0, false, a.1))
      (λ a h _.
        Succeeds-ok (λ result. IsCovered result.1.wallet) (reserve_fresh id r maximum s) h
          (reserve_fresh-IsCovered id r maximum s))

-- A new reservation leaves the wallet covered: a prepaid wallet is not overdrawn, one with an enforced
-- limit of credit stays within it, and neither is exposed to more than its limit of risk.
pub reserve_funding-IsCovered :
    (id : Text) (r : ReservationRequest) (s : Store)
    → Succeeds (λ result. result.1 ≡ false → IsCovered result.2.wallet) (reserve_funding id r s)
unfolding reserve_funding
reserve_funding-IsCovered id r s =
    search (Succeeds-bind, Succeeds-fail_if, reserve_known-IsCovered) depth 8

-- A request that nothing speaks against: it is well formed, its key and its identifier are new, its
-- amounts and texts fit their columns, the wallet is active, in the currency and covered, and the
-- promotion is there.
pub record IsAdmissible (r : ReservationRequest) (s : Store) : Type 0 where
  pub maximum : ℕ
  pub promotion : ℕ
  pub valid : is_invalid r ≡ false
  pub maximum_read : amount_of r.maximum_amount ≡ some maximum
  pub promotion_read : amount_of r.promotion_amount ≡ some promotion
  pub unknown : find_idempotent r.idempotency_key s.operations ≡ none
  pub wallet_active : is_active s.wallet.status ≡ true
  pub same_currency : text_eq s.wallet.currency (to_upper (currency_of r)) ≡ true
  pub allowed : is_allowed s.wallet maximum ≡ true
  pub not_taken : r.taken_elsewhere ≡ false
  pub request_unknown : has_request r.request_id s.operations ≡ false
  pub texts_fit : r.texts_fit ≡ true
  pub maximum_fits : fits_numeric maximum ≡ true
  pub promotion_fits : fits_numeric promotion ≡ true
  pub wallet_fits_after : wallet_fits (hold_wallet s.wallet maximum) ≡ true
  pub promotion_covered : promotion ≤ total_remaining s.credits

reservation_posts :
    (maximum : ℕ) (ledger : List JournalLine)
    → (after : List JournalLine) × (post_if_any maximum (reservation_lines maximum) ledger
        ≡ ok after)
unfolding post_if_any post_journal
reservation_posts maximum ledger = elim (Bool-cases (ltb 0 maximum)) [
  | inl e ↦ (ledger ++ reservation_lines maximum, ground arith)
  | inr e ↦ (ledger, ground arith)
]

promotion_reserved :
    (promotion : ℕ) (credits : List Lot)
    → promotion ≤ total_remaining credits
    → (total_reserved (take_lots promotion credits).1 == promotion) ≡ true
promotion_reserved promotion credits h =
    let (kept, reached) = take_lots_lem promotion credits in ground arith

-- Every admissible request is granted, with a new operation.
pub reserve_funding-grants :
    (id : Text) (r : ReservationRequest) (s : Store)
    → IsAdmissible r s
    → (o : Operation) × (after : Store) × (reserve_funding id r s ≡ ok (o, false, after))
unfolding reserve_funding reserve_fresh write_reservation
reserve_funding-grants id r s a =
    let (ledger, posted) = reservation_posts a.maximum s.ledger in
    let enough = promotion_reserved a.promotion s.credits a.promotion_covered in
    let held = take_lots a.maximum s.lots in
    let promised = take_lots a.promotion s.credits in
    let o = new_operation id r a.maximum a.promotion held.1 promised.1 in
    let after : Store = record {
      wallet = hold_wallet s.wallet a.maximum;
      lots = held.0;
      credits = promised.0;
      ledger = ledger;
      shadow_amount = s.shadow_amount;
      month = s.month;
      budgets = s.budgets;
      operations = o ∷ s.operations;
    } in
    (
      o,
      after,
      rw (a.valid, a.maximum_read, a.unknown)
          (rw (a.wallet_active, a.same_currency, a.allowed)
            (rw (a.promotion_read, a.not_taken, a.request_unknown)
              (rw (a.texts_fit, a.maximum_fits, a.promotion_fits)
                (rw (enough, posted, a.wallet_fits_after) refl)))),
    )
