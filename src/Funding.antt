-- ===== src/Funding.antt =====
-- internal/store/funding.go: the wallet of one organization, its ledger and the operations that hold
-- and charge its funds. A `Store` holds the rows that one transaction of the code reads and locks. An
-- amount is a column NUMERIC(30,12), here a number of units of 10^-12. An error rolls the
-- transaction back, so it comes without a store. Events, audit records and time stamps are left out.
pub mod Lots
pub mod Attribution
pub mod Reserve
pub mod Amounts
pub mod Settle
pub mod Restore
pub mod Reverse
pub mod Adjust
pub mod Reversal
pub mod Debits
pub mod Undo
pub mod Late
pub mod LateReversal
pub mod Attempt
pub mod Budgets
pub mod Begin
pub mod Recover
pub mod Never
pub mod Recovered
pub mod Bookkeeping
pub mod Repeat
pub mod Admission
pub mod Charge
pub mod Fees
pub mod Backing
pub mod Completion
pub mod Overage
use model_dock.Base.{
  ℕ, ◌≡◌, refl, subst, Bool, true, false, Option, none, some, List, [], ◌∷◌, ◌++◌, ◌||◌, ◌&&◌, ltb,
  length, if◌then◌else◌, ◌==◌,
}
use model_dock.Base.Int.{ℤ, ltb_ℤ, pos, abs}
use model_dock.Text.{Text, text_eq}
use model_dock.Decimal.{decimal_rat}
use model_dock.Pricing.{Rate}

pub data FundingError : Type 0 where
  invalid_reservation invalid_amount invalid_promotion invalid_usage invalid_journal not_found
        idempotency_conflict wallet_unavailable pricing_failed finance_state budget_exceeded
        invalid_adjustment invalid_reversal in_progress terminal no_rows currency_mismatch
        repeated_debit repeated_request unfit_row :
      FundingError

pub data Funded {ℓ} (A : Type ℓ) : Type ℓ where
  ok : A → Funded A
  err : FundingError → Funded A

infixl 5 ◌>>=◌ ◌>>◌
abbrev pub ◌>>=◌ {ℓ κ} : {A : Type ℓ} {B : Type κ} → Funded A → (A → Funded B) → Funded B
ok a >>= f = f a
err e >>= f = err e

abbrev pub ◌>>◌ {ℓ} : {B : Type ℓ} → Funded (Unit {0}) → Funded B → Funded B
m >> k = m >>= λ _. k

abbrev pub fail_if : Bool → FundingError → Funded (Unit {0})
fail_if true e = err e
fail_if false e = ok tt

abbrev pub or_fail {ℓ} : {A : Type ℓ} → Option A → FundingError → Funded A
or_fail none e = err e
or_fail (some a) e = ok a

pub data Side : Type 0 where
  debit credit : Side

-- The accounts "wallet:…:available", "wallet:…:reserved" and "system:revenue:…".
pub data Account : Type 0 where
  available reserved revenue : Account

pub record JournalLine : Type 0 where
  pub account : Account
  pub side : Side
  pub amount : ℕ

pub data BillingMode : Type 0 where
  prepaid postpaid : BillingMode

pub data WalletStatus : Type 0 where
  active frozen closed : WalletStatus

pub record Wallet : Type 0 where
  pub currency : Text
  pub billing_mode : BillingMode
  pub status : WalletStatus
  pub available_balance : ℤ
  pub reserved_balance : ℤ
  pub credit_limit : ℤ
  pub risk_limit : ℤ
  pub risk_exposure : ℤ
  pub credit_enforced : Bool

pub data FundingStatus : Type 0 where
  pending held settled partially_settled released failed reversed : FundingStatus

abbrev pub is_funding_terminal : FundingStatus → Bool
is_funding_terminal pending = false
is_funding_terminal held = false
is_funding_terminal settled = true
is_funding_terminal partially_settled = true
is_funding_terminal released = true
is_funding_terminal failed = true
is_funding_terminal reversed = true

-- A cash lot, or a promotion credit that is active and has not expired.
pub record Lot : Type 0 where
  pub id : Text
  pub original : ℕ
  pub remaining : ℕ

-- What an operation holds of a lot.
pub record Allocation : Type 0 where
  pub lot_id : Text
  pub reserved : ℕ
  pub consumed : ℕ
  pub released : ℕ
  pub reversed : ℕ

-- A row of wallet_cash_allocation with the direction DEBIT: of a lot, or of credit if there is none;
-- and the sum of the rows that restore it.
pub record Debit : Type 0 where
  pub lot_id : Option Text
  pub amount : ℕ
  pub restored : ℕ

-- The rates of a row of model_price_version.
pub record PriceVersion : Type 0 where
  pub retail : Rate
  pub cost : Rate

-- A row of provider_budget_reservations.
pub record BudgetReservation : Type 0 where
  pub provider_id : Text
  pub month : ℕ
  pub maximum_cost : ℕ

pub record Operation : Type 0 where
  pub id : Text
  pub project_id : Text
  pub api_key_id : Text
  pub request_id : Text
  pub idempotency_key : Text
  pub request_fingerprint : Text
  pub status : FundingStatus
  pub price_version : Option PriceVersion
  pub maximum_amount : ℕ
  pub promotion_amount : Text
  pub tax_rate : Text
  pub exchange_rate : Text
  pub settled_amount : ℕ
  pub released_amount : ℕ
  pub consumed_promotion : ℕ
  pub cash : List Allocation
  pub promotions : List Allocation
  -- The debits of the CHARGE transaction of its settlement, which exists if there is a debit.
  pub debits : List Debit
  -- The idempotency keys of its rows in funding_usage_adjustment.
  pub adjustments : List Text
  pub estimated_input : ℤ
  pub max_output : ℤ
  pub observed_bytes : ℕ
  -- Whether `credential_owner` is CUSTOMER, and whether there is a `provider_credential_id`.
  pub customer_owned : Bool
  pub has_credential : Bool
  pub byok_fees : Rate
  pub byok_fee_bps : ℕ
  pub byok_allowance : ℕ
  pub platform_service_fee : ℕ
  pub byok_shadow : ℕ
  -- Its row in provider_budget_reservations, while that is RESERVED.
  pub budget : Option BudgetReservation

-- A row of provider_usage_budget. A month is a number.
pub record Budget : Type 0 where
  pub provider_id : Text
  pub month : ℕ
  pub request_count : ℕ
  pub reserved_cost : ℕ
  pub provider_cost : ℕ

-- `shadow_amount` is that of the operation's project, credential and month, zero if there is no row,
-- and `month` is that of the time now.
pub record Store : Type 0 where
  pub wallet : Wallet
  pub lots : List Lot
  pub credits : List Lot
  pub ledger : List JournalLine
  pub shadow_amount : ℕ
  pub month : ℕ
  pub budgets : List Budget
  pub operations : List Operation

unfoldable pub find_budget : Text → ℕ → List Budget → Option Budget
find_budget provider month [] = none
find_budget provider month (b ∷ rest) =
    if text_eq b.provider_id provider && (b.month == month)
    then some b
    else find_budget provider month rest

-- `UPDATE provider_usage_budget … WHERE provider_id=$1 AND period_month=$2`
unfoldable pub update_budget : (Budget → Budget) → Text → ℕ → List Budget → List Budget
update_budget f provider month [] = []
update_budget f provider month (b ∷ rest) =
    if text_eq b.provider_id provider && (b.month == month)
    then f b ∷ rest
    else b ∷ update_budget f provider month rest

-- Some amount of a journal is not positive.
abbrev pub any_empty : List JournalLine → Bool
any_empty [] = false
any_empty (l ∷ ls) = (l.amount == 0) || any_empty ls

unfoldable pub post_journal : List JournalLine → List JournalLine → Funded (List JournalLine)
post_journal lines ledger = do
  fail_if (ltb (length lines) 2) invalid_journal
  fail_if (any_empty lines) invalid_journal
  ok (ledger ++ lines)

abbrev pub natural : ℤ → Option ℕ
natural z = if ltb_ℤ z (pos 0) then none else some (abs z)

-- `fundingRat` of a text that is not negative.
unfoldable pub funding_rat : Text → Option ℕ
funding_rat value = elim (decimal_rat value) [ none ↦ none | some z ↦ natural z ]

unfoldable pub find_operation : Text → List Operation → Option Operation
find_operation id [] = none
find_operation id (o ∷ rest) = if text_eq o.id id then some o else find_operation id rest

-- `UPDATE funding_operation … WHERE id=$1`
unfoldable pub put_operation : Operation → List Operation → List Operation
put_operation new [] = []
put_operation new (o ∷ rest) =
    if text_eq o.id new.id then new ∷ rest else o ∷ put_operation new rest

-- The result, if there is one, has the property.
abbrev pub Succeeds {ℓ κ} : {A : Type ℓ} → (A → Type κ) → Funded A → Type κ
Succeeds P (ok a) = P a
Succeeds P (err e) = Unit

pub Succeeds-bind {ℓ κ τ} :
    {A : Type ℓ} {B : Type κ} (P : B → Type τ) (m : Funded A) (f : A → Funded B)
    → ((a : A) → m ≡ ok a → Succeeds P (f a))
    → Succeeds P (m >>= f)
Succeeds-bind P (ok a) f h = h a refl
Succeeds-bind P (err e) f h = tt

pub Succeeds-fail_if {κ τ} :
    {B : Type κ} (P : B → Type τ) (b : Bool) (e : FundingError) (k : Funded B)
    → (b ≡ false → Succeeds P k)
    → Succeeds P (fail_if b e >> k)
Succeeds-fail_if P true e k h = tt
Succeeds-fail_if P false e k h = h refl

pub Succeeds-ok {ℓ κ} :
    {A : Type ℓ} (P : A → Type κ) (m : Funded A) {a : A} → m ≡ ok a → Succeeds P m → P a
Succeeds-ok P m e h = subst (Succeeds P) e h

pub Succeeds-map {ℓ κ τ} :
    {A : Type ℓ} (P : A → Type κ) (Q : A → Type τ) (m : Funded A)
    → ((a : A) → P a → Q a)
    → Succeeds P m
    → Succeeds Q m
Succeeds-map P Q (ok a) f h = f a h
Succeeds-map P Q (err e) f h = tt
