-- ===== src/Funding/Reverse.antt =====
-- `ReverseFunding` of internal/store/funding.go.
use model_dock.Base.{ℕ, ◌-◌, ◌||◌, Option, none, some, List, [], ◌∷◌, ◌==◌}
use model_dock.Base.Int.{pos, ◌+ℤ◌}
use model_dock.Text.{Text, text_eq}
use model_dock.Pricing.{is_blank}
use model_dock.Funding.{
  Funded, ok, err, ◌>>=◌, ◌>>◌, fail_if, not_found, invalid_reversal, terminal, debit, credit,
  available, revenue, JournalLine, Wallet, FundingStatus, pending, held, settled, partially_settled,
  released, failed, reversed, Allocation, Debit, Operation, Store, post_journal, find_operation,
  put_operation,
}
use model_dock.Funding.Restore.{restore_charge, reverse_promotion}

-- The orders in which the queries read the rows of one transaction.
pub record Orders : Type 0 where
  pub debits : List Debit → List Debit
  pub allocations : List Allocation → List Allocation

-- What is sent back to the wallet of the revenue.
abbrev pub refund_lines : ℕ → List JournalLine
refund_lines amount =
    record { account = revenue; side = debit; amount = amount }
    ∷ record { account = available; side = credit; amount = amount }
    ∷ []

unfoldable pub refund_wallet : Wallet → ℕ → Wallet
refund_wallet w amount = record w { available_balance = w.available_balance +ℤ pos amount }

unfoldable pub reverse_operation : Operation → ℕ → List Allocation → List Debit → Operation
reverse_operation o promotion promotions debits = record o {
  status = reversed;
  consumed_promotion = o.consumed_promotion - promotion;
  promotions = promotions;
  debits = debits;
}

unfoldable pub reverse_open : Orders → Operation → Store → Funded (Operation × Store)
reverse_open orders o s = do
  fail_if (o.settled_amount == 0) terminal
  ledger ← post_journal (refund_lines o.settled_amount) s.ledger
  (debits, lots) ← restore_charge o.settled_amount (orders.debits o.debits) s.lots
  (promotion, promotions, credits) ←
      reverse_promotion o.consumed_promotion (orders.allocations o.promotions) s.credits
  let after = reverse_operation o promotion promotions debits
  ok (
    after,
    record s {
      wallet = refund_wallet s.wallet o.settled_amount;
      lots = lots;
      credits = credits;
      ledger = ledger;
      operations = put_operation after s.operations;
    },
  )

-- A reversed operation is returned as it is.
abbrev pub reverse_by : FundingStatus → Orders → Operation → Store → Funded (Operation × Store)
reverse_by reversed orders o s = ok (o, s)
reverse_by pending orders o s = reverse_open orders o s
reverse_by held orders o s = reverse_open orders o s
reverse_by settled orders o s = reverse_open orders o s
reverse_by partially_settled orders o s = reverse_open orders o s
reverse_by released orders o s = reverse_open orders o s
reverse_by failed orders o s = reverse_open orders o s

abbrev pub reverse_found : Orders → Option Operation → Store → Funded (Operation × Store)
reverse_found orders none s = err not_found
reverse_found orders (some o) s = reverse_by o.status orders o s

unfoldable pub reverse_funding : Orders → Text → Text → Text → Store → Funded (Operation × Store)
reverse_funding orders id key reason s = do
  fail_if (text_eq key [] || is_blank reason) invalid_reversal
  reverse_found orders (find_operation id s.operations) s
