-- ===== src/Decimal/Digits.antt =====
-- Printing and reading runs of digits: the number comes back, and what is printed fits the pattern.
use native.Mathlib.Nat.{
  div-add-mod', mod-lt, pow-suc, pow-succ', one-le-pow, div-lt_iff_lt-mul, add-sub_cancel_left,
}
use model_dock.Base.{
  ℕ, zero, suc, ◌+◌, ◌-◌, ◌*◌, ◌/◌, ◌%◌, ◌^◌, ◌≤◌, ◌<◌, ◌≡◌, refl, sym, ap, ◌∙◌, ◌≢◌, inl, inr,
  true, false, [], ◌∷◌, ◌++◌, arith, ltb, length, length-append, All, Bool-cases, ltb→lt, lt→ltb,
}
use model_dock.Text.{Text, is_space, IsPlain}
use model_dock.Decimal.{
  is_digit, span_digits, all_digits, integer_matches, digits_value, fraction_value, natural_digits,
  fixed_digits,
}

abbrev pub IsDigit : ℕ → Type 0
IsDigit c = is_digit c ≡ true

pub IsDigit-of : (d : ℕ) → d < 10 → IsDigit (b'0' + d)
IsDigit-of d h = ground arith

pub all_digits-append_one :
    (s : Text) (c : ℕ) → all_digits s ≡ true → IsDigit c → all_digits (s ++ c ∷ []) ≡ true
all_digits-append_one [] c h d = ground arith
all_digits-append_one (x ∷ s) c h d = ground (arith, all_digits-append_one s c)

-- The digits of a number are digits.
pub all_digits-natural_digits : (f n : ℕ) → all_digits (natural_digits f n) ≡ true
unfolding natural_digits
all_digits-natural_digits zero n = refl
all_digits-natural_digits (suc f) n = elim (Bool-cases (ltb n 10)) [
  | inl small ↦ rw small (ground (arith, IsDigit-of n (ltb→lt n 10 small)))
  | inr large ↦ rw large (
      all_digits-append_one (natural_digits f (n / 10)) (b'0' + n % 10)
        (all_digits-natural_digits f (n / 10)) (IsDigit-of (n % 10) (omega arith)))
]

digits_value-append_one :
    (acc : ℕ) (s : Text) (c : ℕ)
    → digits_value acc (s ++ c ∷ []) ≡ digits_value acc s * 10 + (c - b'0')
unfolding digits_value
digits_value-append_one acc [] c = refl
digits_value-append_one acc (x ∷ s) c = digits_value-append_one (acc * 10 + (x - b'0')) s c

-- Reading the digits of a number gives the number, with fuel above it.
pub digits_value-natural_digits : (f n : ℕ) → n < f → digits_value 0 (natural_digits f n) ≡ n
unfolding natural_digits digits_value
digits_value-natural_digits zero n h = elim h [ ]
digits_value-natural_digits (suc f) n h = elim (Bool-cases (ltb n 10)) [
  | inl small ↦ rw small (omega arith)
  | inr large ↦
      let big : 9 < n = ground arith in
      rw
        (
          large,
          digits_value-append_one 0 (natural_digits f (n / 10)) (b'0' + n % 10),
          digits_value-natural_digits f (n / 10) (omega arith),
        )
        (omega arith)
]

-- A number below 10^(k + 1) has at most k + 1 digits.
pub length-natural_digits :
    (k f n : ℕ) → n < f → n < 10 ^ suc k → length (natural_digits f n) ≤ suc k
unfolding natural_digits
length-natural_digits k zero n h b = elim h [ ]
length-natural_digits zero (suc f) n h b = rw (lt→ltb n 10 (omega (arith, b))) (omega arith)
length-natural_digits (suc k) (suc f) n h b = elim (Bool-cases (ltb n 10)) [
  | inl small ↦ rw small (omega arith)
  | inr large ↦
      let big : 9 < n = ground arith in
      let shorter : n / 10 < 10 ^ suc k = omega (arith, pow-suc 10 (suc k)) in
      rw (large, length-append (natural_digits f (n / 10)) ((b'0' + n % 10) ∷ []))
        (omega (arith, length-natural_digits k f (n / 10) (omega arith) shorter))
]

-- A number of at least 10^k has more than k digits.
pub length-natural_digits-lower : (k f n : ℕ) → n < f → 10 ^ k ≤ n → k < length (natural_digits f n)
unfolding natural_digits
length-natural_digits-lower k zero n h b = elim h [ ]
length-natural_digits-lower zero (suc f) n h b = elim (Bool-cases (ltb n 10)) [
  | inl small ↦ rw small (omega arith)
  | inr large ↦
      rw (large, length-append (natural_digits f (n / 10)) ((b'0' + n % 10) ∷ [])) (omega arith)
]
length-natural_digits-lower (suc k) (suc f) n h b =
    let many : 10 ^ k * 10 ≤ n = rw pow-suc at b in
    let positive : 0 < 10 ^ k = one-le-pow k 10 (omega arith) in
    let big : ltb n 10 ≡ false = ground (arith, many, positive) in
    rw (big, length-append (natural_digits f (n / 10)) ((b'0' + n % 10) ∷ []))
      (omega (arith, length-natural_digits-lower k f (n / 10) (omega arith) (omega arith)))

-- The first digit is a zero only in the text "0".
pub data Leading : Text → Type 0 where
  lone : (d : ℕ) → d < 10 → Leading ((b'0' + d) ∷ [])
  longer : (c : ℕ) (s : Text) → b'0' < c → Leading (c ∷ s)

Leading-append_one : {s : Text} (c : ℕ) → Leading s → s ≢ b'0' ∷ [] → Leading (s ++ c ∷ [])
Leading-append_one c (lone zero h) ne = absurd (ne refl)
Leading-append_one c (lone (suc d) h) ne = longer (b'0' + suc d) (c ∷ []) (omega arith)
Leading-append_one c (longer x s h) ne = longer x (s ++ c ∷ []) h

pub Leading-natural_digits : (f n : ℕ) → n < f → Leading (natural_digits f n)
unfolding natural_digits digits_value
Leading-natural_digits zero n h = elim h [ ]
Leading-natural_digits (suc f) n h = elim (Bool-cases (ltb n 10)) [
  | inl small ↦ rw small (lone n (ltb→lt n 10 small))
  | inr large ↦
      let big : 9 < n = ground arith in
      let below : n / 10 < f = omega arith in
      rw large (
        Leading-append_one (b'0' + n % 10) (Leading-natural_digits f (n / 10) below)
          λ e. absurd (not_zero below big e))
]
  where
    not_zero : n / 10 < f → 9 < n → natural_digits f (n / 10) ≡ b'0' ∷ [] → ⊥
    not_zero below big e =
        let v : 0 ≡ n / 10 =
          ap (digits_value 0) (sym e) ∙ digits_value-natural_digits f (n / 10) below in
        omega arith

-- The digits of a number below 10^18 fit the integer part of the pattern.
pub integer_matches-Leading : {s : Text} → Leading s → length s ≤ 18 → integer_matches s ≡ true
integer_matches-Leading (lone d h) b = refl
integer_matches-Leading (longer c [] h) b = refl
integer_matches-Leading (longer c (x ∷ s) h) b = ground arith

pub span_digits-append :
    (s : Text) (t : Text) → all_digits s ≡ true → span_digits (s ++ b'.' ∷ t) ≡ (s, b'.' ∷ t)
unfolding span_digits
span_digits-append [] t h = refl
span_digits-append (c ∷ s) t h = ground (arith, span_digits-append s t)

pub length-fixed_digits : (w n : ℕ) → length (fixed_digits w n) ≡ w
unfolding fixed_digits
length-fixed_digits zero n = refl
length-fixed_digits (suc w) n = ap suc (length-fixed_digits w (n % 10 ^ w))

pub pow_pos : (w : ℕ) → 0 < 10 ^ w
pow_pos w = one-le-pow w 10 (omega arith)

pub all_digits-fixed_digits : (w n : ℕ) → n < 10 ^ w → all_digits (fixed_digits w n) ≡ true
unfolding fixed_digits
all_digits-fixed_digits zero n h = refl
all_digits-fixed_digits (suc w) n h =
    let small : n / 10 ^ w < 10 =
      (div-lt_iff_lt-mul (pow_pos w)).1 (omega (arith, pow-succ' 10 w)) in
    ground (
      arith,
      IsDigit-of (n / 10 ^ w) small,
      all_digits-fixed_digits w (n % 10 ^ w) (mod-lt n (pow_pos w)),
    )

pub fraction_value-fixed_digits : (w n : ℕ) → n < 10 ^ w → fraction_value w (fixed_digits w n) ≡ n
unfolding fraction_value fixed_digits
fraction_value-fixed_digits zero n h = omega arith
fraction_value-fixed_digits (suc w) n h =
    rw (fraction_value-fixed_digits w (n % 10 ^ w) (mod-lt n (pow_pos w)))
      (rw (add-sub_cancel_left (b'0') (n / 10 ^ w)) (div-add-mod' n (10 ^ w)))

pub digit-IsPlain : (c : ℕ) → IsDigit c → IsPlain c
unfolding is_space
digit-IsPlain c h = ground arith

pub all_digits-IsPlain : (s : Text) → all_digits s ≡ true → All IsPlain s
all_digits-IsPlain [] h = tt
all_digits-IsPlain (c ∷ s) h = (digit-IsPlain c (ground arith), all_digits-IsPlain s (ground arith))
