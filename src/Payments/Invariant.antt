-- ===== src/Payments/Invariant.antt =====
-- What holds of the rows of a recharge order at any time: where its money is.
use model_dock.Base.{
  ℕ, ◌+◌, ◌≤◌, ◌≡◌, refl, sym, ap, ◌∙◌, subst, ◌⊎◌, inl, inr, Bool, true, false, Option, none, some,
  List, [], ◌∷◌, arith, if◌then◌else◌, if_lem, Bool-cases, All,
}
use model_dock.Text.{Text, text_eq, text_eq→eq}
use model_dock.Payments.{
  Done, ok, err, ◌>>=◌, ◌>>◌, fail_if, PaymentError, RechargeStatus, created, pending, paid,
  credited, failed, expired, refund_pending, refunded, chargeback, RefundOrder, CashLot,
  Transaction, State, total_topped_up, total_refunded,
}
use model_dock.Payments.Refund.{is_unfinished, find_refund, put_refund}

-- The result, if there is one, has the property.
abbrev pub Holds {ℓ κ} : {A : Type ℓ} → (A → Type κ) → Done A → Type κ
Holds P (ok a) = P a
Holds P (err e) = Unit

pub Holds-bind {ℓ κ τ} :
    {A : Type ℓ} {B : Type κ} (P : B → Type τ) (Q : A → Type 0) (m : Done A) (f : A → Done B)
    → Holds Q m
    → ((a : A) → Q a → Holds P (f a))
    → Holds P (m >>= f)
Holds-bind P Q (ok a) f q h = h a q
Holds-bind P Q (err e) f q h = tt

pub Holds-fail_if {κ τ} :
    {B : Type κ} (P : B → Type τ) (b : Bool) (e : PaymentError) (k : Done B)
    → (b ≡ false → Holds P k)
    → Holds P (fail_if b e >> k)
Holds-fail_if P true e k h = tt
Holds-fail_if P false e k h = h refl

pub Holds-ok {ℓ κ} : {A : Type ℓ} (P : A → Type κ) (m : Done A) {a : A} → m ≡ ok a → Holds P m → P a
Holds-ok P m e h = subst (Holds P) e h

-- Whether the order was not credited yet, was credited, or was charged back.
pub data Phase : Type 0 where
  before after charged_back : Phase

abbrev pub phase_of : RechargeStatus → Phase
phase_of created = before
phase_of pending = before
phase_of paid = before
phase_of failed = before
phase_of expired = before
phase_of credited = after
phase_of refund_pending = after
phase_of refunded = after
phase_of chargeback = charged_back

-- What is reserved for refunds that are not finished.
unfoldable pub unfinished_total : List RefundOrder → ℕ
unfinished_total [] = 0
unfinished_total (r ∷ rest) =
    (if is_unfinished r.status then r.amount else 0) + unfinished_total rest

-- An unfinished refund has reserved its amount.
abbrev pub Honest : RefundOrder → Type 0
Honest r = (is_unfinished r.status ≡ false) ⊎ (r.reserved ≡ r.amount)

-- Where the amount of an order is, of which `spent` was consumed by other operations on the
-- wallet's lots. Nothing was credited or refunded before the credit. After it the amount was
-- credited once, and is in the lot, spent, reserved for refunds or refunded. After a chargeback no
-- more was taken back than the amount twice.
abbrev pub Sound : Phase → ℕ → Option CashLot → List RefundOrder → List Transaction → ℕ → Type 0
Sound before amount lot refunds transactions spent =
    (lot ≡ none)
    × (total_topped_up transactions ≡ 0)
    × (total_refunded transactions ≡ 0)
    × (unfinished_total refunds ≡ 0)
    × (spent ≡ 0)
Sound after amount none refunds transactions spent = ⊥
Sound after amount (some lot) refunds transactions spent =
    (lot.original ≡ amount)
    × (total_topped_up transactions ≡ amount)
    × (lot.remaining + spent + unfinished_total refunds + total_refunded transactions ≡ amount)
Sound charged_back amount lot refunds transactions spent =
    (total_topped_up transactions ≡ amount) × (total_refunded transactions ≤ amount + amount)

pub record IsSound (s : State) (spent : ℕ) : Type 0 where
  pub sound : Sound (phase_of s.order.status) s.order.amount s.lot s.refunds s.transactions spent
  pub honest : All Honest s.refunds

pub find_refund-Honest :
    (id : Text) (refunds : List RefundOrder) (r : RefundOrder)
    → find_refund id refunds ≡ some r
    → All Honest refunds
    → Honest r
unfolding find_refund
find_refund-Honest id [] r e h = absurd (ground arith)
find_refund-Honest id (x ∷ rest) r e (h, hs) = elim (Bool-cases (text_eq x.id id)) [
  | inl t ↦
      let same : some x ≡ some r =
        sym (ap (λ b. if b then some x else find_refund id rest) t) ∙ e in
      let this : x ≡ r = ground (arith, same) in subst Honest this h
  | inr t ↦
      find_refund-Honest id rest r (sym (ap (λ b. if b then some x else find_refund id rest) t) ∙ e)
        hs
]

pub put_refund-Honest :
    (new : RefundOrder) (refunds : List RefundOrder)
    → Honest new
    → All Honest refunds
    → All Honest (put_refund new refunds)
unfolding put_refund
put_refund-Honest new [] h hs = tt
put_refund-Honest new (r ∷ rest) h (p, ps) =
    if_lem (All Honest) (text_eq r.id new.id) (new ∷ rest) (r ∷ put_refund new rest) (λ _. (h, ps))
      (λ _. (p, put_refund-Honest new rest h ps))

abbrev pub counted : RefundOrder → ℕ
counted r = if is_unfinished r.status then r.amount else 0

-- Replacing a refund changes the total by what it counts.
pub put_refund-total :
    (id : Text) (new : RefundOrder) (refunds : List RefundOrder) (r : RefundOrder)
    → find_refund id refunds ≡ some r
    → new.id ≡ id
    → unfinished_total (put_refund new refunds) + counted r ≡ unfinished_total refunds + counted new
unfolding find_refund put_refund unfinished_total
put_refund-total id new [] r e same = absurd (ground arith)
put_refund-total id new (x ∷ rest) r e same = elim (Bool-cases (text_eq x.id id)) [
  | inl t ↦
      let found : some x ≡ some r =
        sym (ap (λ b. if b then some x else find_refund id rest) t) ∙ e in
      let hit : text_eq x.id new.id ≡ true = subst (λ i. text_eq x.id i ≡ true) (sym same) t in
      let this : x ≡ r = ground (arith, found) in
      let amount : counted x ≡ counted r = ap counted this in rw hit (omega (arith, amount))
  | inr t ↦
      let later = sym (ap (λ b. if b then some x else find_refund id rest) t) ∙ e in
      let miss : text_eq x.id new.id ≡ false = subst (λ i. text_eq x.id i ≡ false) (sym same) t in
      rw miss (omega (arith, put_refund-total id new rest r later same))
]

pub find_refund-id :
    (id : Text) (refunds : List RefundOrder) (r : RefundOrder)
    → find_refund id refunds ≡ some r
    → r.id ≡ id
unfolding find_refund
find_refund-id id [] r e = absurd (ground arith)
find_refund-id id (x ∷ rest) r e = elim (Bool-cases (text_eq x.id id)) [
  | inl t ↦
      let found : some x ≡ some r =
        sym (ap (λ b. if b then some x else find_refund id rest) t) ∙ e in
      let this : x ≡ r = ground (arith, found) in
      sym (ap (λ (y : RefundOrder). y.id) this) ∙ text_eq→eq x.id id t
  | inr t ↦
      find_refund-id id rest r (sym (ap (λ b. if b then some x else find_refund id rest) t) ∙ e)
]
