-- ===== src/Funding/Reserve.antt =====
-- `ReserveFunding` of internal/store/funding.go.
use model_dock.Base.{
  ℕ, Bool, true, false, not, ◌&&◌, ◌||◌, Option, none, some, List, [], ◌∷◌, ltb, ◌==◌,
  if◌then◌else◌,
}
use model_dock.Base.Int.{ℤ, pos, abs, ◌+ℤ◌, ◌-ℤ◌, ltb_ℤ, leb_ℤ}
use model_dock.Text.{Text, codes, text_eq, to_upper}
use model_dock.Decimal.{float_string}
use model_dock.Pricing.{Rate, format, is_blank}
use model_dock.Pricing.Calculate.{default_if_blank}
use model_dock.Funding.{
  Funded, ok, err, ◌>>=◌, ◌>>◌, fail_if, or_fail, invalid_reservation, invalid_amount,
  invalid_promotion, idempotency_conflict, wallet_unavailable, repeated_request, unfit_row, debit,
  credit, available, reserved, JournalLine, BillingMode, prepaid, postpaid, Wallet, WalletStatus,
  active, frozen, closed, held, Allocation, Operation, PriceVersion, Store, post_journal, natural,
}
use model_dock.Funding.Lots.{take_lots, total_reserved}

-- `FundingReservationRequest`. An amount is what `SetString` reads, `none` if the text is no number
-- and zero if it is blank; the code's callers pass amounts of at most 12 digits behind the point.
-- `texts_fit` says whether the database takes the texts of the request: its identifiers are those of
-- rows that exist, tax_rate is a numeric(12,8) that is not negative, and exchange_rate a
-- numeric(30,12) that is positive; `taken_elsewhere`, whether an operation of another wallet has the
-- request's identifier.
pub record ReservationRequest : Type 0 where
  pub organization_id : Text
  pub project_id : Text
  pub api_key_id : Text
  pub request_id : Text
  pub idempotency_key : Text
  pub request_fingerprint : Text
  pub price_version : Option PriceVersion
  pub currency : Text
  pub maximum_amount : Option ℤ
  pub promotion_amount : Option ℤ
  pub tax_rate : Text
  pub exchange_rate : Text
  pub texts_fit : Bool
  pub taken_elsewhere : Bool
  pub estimated_input : ℤ
  pub max_output : ℤ

unfoldable pub is_invalid : ReservationRequest → Bool
is_invalid r =
    is_blank r.organization_id
    || is_blank r.project_id
    || is_blank r.request_id
    || is_blank r.idempotency_key
    || is_blank r.request_fingerprint
    || ltb_ℤ r.estimated_input (pos 0)
    || ltb_ℤ r.max_output (pos 0)

abbrev pub amount_of : Option ℤ → Option ℕ
amount_of none = none
amount_of (some z) = natural z

unfoldable pub find_idempotent : Text → List Operation → Option Operation
find_idempotent key [] = none
find_idempotent key (o ∷ rest) =
    if text_eq o.idempotency_key key then some o else find_idempotent key rest

unfoldable pub conflicts : Operation → ReservationRequest → Bool
conflicts o r =
    not (text_eq o.request_fingerprint r.request_fingerprint)
    || not (text_eq o.project_id r.project_id)
    || not (text_eq o.api_key_id r.api_key_id)

abbrev pub is_active : WalletStatus → Bool
is_active active = true
is_active frozen = false
is_active closed = false

abbrev pub within_risk : Wallet → Bool
within_risk w = leb_ℤ w.risk_exposure w.risk_limit

abbrev pub allowed_by : BillingMode → Wallet → ℤ → Bool
allowed_by prepaid w remaining = not (ltb_ℤ remaining (pos 0)) && within_risk w
allowed_by postpaid w remaining =
    if w.credit_enforced
    then not (ltb_ℤ (remaining +ℤ w.credit_limit) (pos 0)) && within_risk w
    else true

unfoldable pub is_allowed : Wallet → ℕ → Bool
is_allowed w maximum = allowed_by w.billing_mode w (w.available_balance -ℤ pos maximum)

unfoldable pub hold_wallet : Wallet → ℕ → Wallet
hold_wallet w maximum = record w {
  available_balance = w.available_balance -ℤ pos maximum;
  reserved_balance = w.reserved_balance +ℤ pos maximum;
}

abbrev pub reservation_lines : ℕ → List JournalLine
reservation_lines maximum =
    record { account = available; side = debit; amount = maximum }
    ∷ record { account = reserved; side = credit; amount = maximum }
    ∷ []

-- No journal is posted of an empty amount.
unfoldable pub post_if_any : ℕ → List JournalLine → List JournalLine → Funded (List JournalLine)
post_if_any amount lines ledger = if ltb 0 amount then post_journal lines ledger else ok ledger

-- The defaults of the columns that only an attempt sets.
abbrev pub no_fees : Rate
no_fees = record {
  input = codes "0";
  cached = codes "0";
  output = codes "0";
  fixed = codes "0";
  unit = pos 1_000_000;
  currency = [];
}

unfoldable pub new_operation :
    Text → ReservationRequest → ℕ → ℕ → List Allocation → List Allocation → Operation
new_operation id r maximum promotion cash promotions = record {
  id = id;
  project_id = r.project_id;
  api_key_id = r.api_key_id;
  request_id = r.request_id;
  idempotency_key = r.idempotency_key;
  request_fingerprint = r.request_fingerprint;
  status = held;
  price_version = r.price_version;
  maximum_amount = maximum;
  promotion_amount = format (float_string false promotion);
  tax_rate = default_if_blank (codes "0") r.tax_rate;
  exchange_rate = default_if_blank (codes "1") r.exchange_rate;
  settled_amount = 0;
  released_amount = 0;
  consumed_promotion = 0;
  cash = cash;
  promotions = promotions;
  debits = [];
  adjustments = [];
  estimated_input = r.estimated_input;
  max_output = r.max_output;
  observed_bytes = 0;
  customer_owned = false;
  has_credential = false;
  byok_fees = no_fees;
  byok_fee_bps = 0;
  byok_allowance = 0;
  platform_service_fee = 0;
  byok_shadow = 0;
  budget = none;
}

-- UNIQUE of the column request_id
unfoldable pub has_request : Text → List Operation → Bool
has_request request [] = false
has_request request (o ∷ rest) = text_eq o.request_id request || has_request request rest

-- numeric(30,12), in units of 10^-12
unfoldable pub fits_numeric : ℕ → Bool
fits_numeric n = ltb n 1_000_000_000_000_000_000_000_000_000_000

-- The columns of wallets: the reserved balance and the exposure to risk are not negative.
unfoldable pub wallet_fits : Wallet → Bool
wallet_fits w =
    leb_ℤ (pos 0) w.reserved_balance
    && leb_ℤ (pos 0) w.risk_exposure
    && fits_numeric (abs w.available_balance)
    && fits_numeric (abs w.reserved_balance)
    && fits_numeric (abs w.risk_exposure)

-- What is written when the request is allowed: the row of funding_operation, if its constraints
-- hold, the lots, the promotion, which has to be covered in full, the journal and the wallet, if its
-- columns take it. `id` is the new UUID.
unfoldable pub write_reservation :
    Text → ReservationRequest → ℕ → Store → Funded (Operation × Store)
write_reservation id r maximum s = do
  promotion ← or_fail (amount_of r.promotion_amount) invalid_promotion
  fail_if (r.taken_elsewhere || has_request r.request_id s.operations) repeated_request
  fail_if (not (r.texts_fit && fits_numeric maximum && fits_numeric promotion)) unfit_row
  let (lots, cash) = take_lots maximum s.lots
  let (credits, promotions) = take_lots promotion s.credits
  fail_if (not (total_reserved promotions == promotion)) wallet_unavailable
  ledger ← post_if_any maximum (reservation_lines maximum) s.ledger
  fail_if (not (wallet_fits (hold_wallet s.wallet maximum))) unfit_row
  let o = new_operation id r maximum promotion cash promotions
  ok (
    o,
    record {
      wallet = hold_wallet s.wallet maximum;
      lots = lots;
      credits = credits;
      ledger = ledger;
      shadow_amount = s.shadow_amount;
      month = s.month;
      budgets = s.budgets;
      operations = o ∷ s.operations;
    },
  )

-- `if request.Currency == ""`
abbrev pub currency_of : ReservationRequest → Text
currency_of r = if text_eq r.currency [] then codes "USD" else r.currency

-- A fresh reservation, once no operation has its key.
unfoldable pub reserve_fresh : Text → ReservationRequest → ℕ → Store → Funded (Operation × Store)
reserve_fresh id r maximum s = do
  fail_if
      (not (is_active s.wallet.status)
        || not (text_eq s.wallet.currency (to_upper (currency_of r))))
      wallet_unavailable
  fail_if (not (is_allowed s.wallet maximum)) wallet_unavailable
  write_reservation id r maximum s

-- An operation with the request's key is returned as it is, or conflicts.
abbrev pub reserve_known :
    Option Operation → Text → ReservationRequest → ℕ → Store → Funded (Operation × Bool × Store)
reserve_known (some o) id r maximum s =
    if conflicts o r then err idempotency_conflict else ok (o, true, s)
reserve_known none id r maximum s = reserve_fresh id r maximum s >>= λ (o, s'). ok (o, false, s')

unfoldable pub reserve_funding :
    Text → ReservationRequest → Store → Funded (Operation × Bool × Store)
reserve_funding id r s = do
  fail_if (is_invalid r) invalid_reservation
  maximum ← or_fail (amount_of r.maximum_amount) invalid_amount
  reserve_known (find_idempotent r.idempotency_key s.operations) id r maximum s
