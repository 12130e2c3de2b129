-- ===== src/Ratelimit/Window.antt =====
-- What a key is granted within one minute.
use model_dock.Base.{
  ℕ, ◌+◌, ◌≤◌, ◌≡◌, refl, subst, ◌⊎◌, inl, true, false, List, [], ◌∷◌, arith, if◌then◌else◌, if_lem,
}
use model_dock.Base.Int.{ℤ, pos, abs, ltb_ℤ}
use model_dock.Text.{Text, text_eq, text_eq_refl}
use model_dock.Ratelimit.{Counts, Ttl, or_default, request_key, token_key, allow_script, allow}

-- The tokens that a request counts.
abbrev pub counted_tokens : ℤ → ℕ
counted_tokens estimated = if ltb_ℤ estimated (pos 1) then 1 else abs estimated

-- The requests and tokens that are granted of one request after another, within one minute.
unfoldable pub granted : Counts → Ttl → Text → Text → ℤ → ℤ → List ℤ → ℕ × ℕ
granted counts ttl id bucket rpm tpm [] = (0, 0)
granted counts ttl id bucket rpm tpm (estimated ∷ rest) =
    let (result, after) = allow counts ttl id bucket rpm tpm estimated in
    let (n, t) = granted after ttl id bucket rpm tpm rest in
    if result.allowed then (n + 1, t + counted_tokens estimated) else (n, t)

-- Nothing is granted, or it fits on top of what was counted before.
abbrev Fits : ℕ → ℕ → ℕ → Type 0
Fits before limit n = (n ≡ 0) ⊎ (before + n ≤ limit)

token_key_lem : (id bucket : Text) → text_eq (request_key id bucket) (token_key id bucket) ≡ false
token_key_lem id bucket = refl

token_key_lem' : (id bucket : Text) → text_eq (token_key id bucket) (request_key id bucket) ≡ false
token_key_lem' id bucket = refl

module _ (counts : Counts) (ttl : Ttl) (id bucket : Text) (rpm tpm estimated : ℤ) where
  abbrev after_allow : Counts
  after_allow = (allow counts ttl id bucket rpm tpm estimated).1

  allow-requests : after_allow (request_key id bucket) ≡ counts (request_key id bucket) + 1
  unfolding allow allow_script
  allow-requests = rw (text_eq_refl (request_key id bucket)) refl

  allow-tokens :
      after_allow (token_key id bucket) ≡ counts (token_key id bucket) + counted_tokens estimated
  unfolding allow allow_script
  allow-tokens = rw (text_eq_refl (token_key id bucket)) refl

  allow-allowed :
      (allow counts ttl id bucket rpm tpm estimated).0.allowed ≡ true
      → (counts (request_key id bucket) + 1 ≤ or_default 60 rpm)
        × (counts (token_key id bucket) + counted_tokens estimated ≤ or_default 100_000 tpm)
  unfolding allow allow_script
  allow-allowed h = (ground arith, ground arith)

-- What the rest is granted, and this request if it is allowed, fits on top of what was counted.
step_Fits :
    (before cost limit n : ℕ)
    → (before + cost ≤ limit)
    → Fits (before + cost) limit n
    → Fits before limit (n + cost)
step_Fits before cost limit n here h = ground arith

skip_Fits : (before cost limit n : ℕ) → Fits (before + cost) limit n → Fits before limit n
skip_Fits before cost limit n h = ground arith

granted-Fits :
    (counts : Counts) (ttl : Ttl) (id bucket : Text) (rpm tpm : ℤ) (requests : List ℤ)
    → let (n, t) = granted counts ttl id bucket rpm tpm requests in
      Fits (counts (request_key id bucket)) (or_default 60 rpm) n
      × Fits (counts (token_key id bucket)) (or_default 100_000 tpm) t
unfolding granted
granted-Fits counts ttl id bucket rpm tpm [] = (inl refl, inl refl)
granted-Fits counts ttl id bucket rpm tpm (estimated ∷ rest) =
    let (result, after) = allow counts ttl id bucket rpm tpm estimated in
    let (n, t) = granted after ttl id bucket rpm tpm rest in
    let (hn, ht) = granted-Fits after ttl id bucket rpm tpm rest in
    let kn =
      subst (λ c. Fits c (or_default 60 rpm) n)
        (allow-requests counts ttl id bucket rpm tpm estimated) hn in
    let kt =
      subst (λ c. Fits c (or_default 100_000 tpm) t)
        (allow-tokens counts ttl id bucket rpm tpm estimated) ht in
    if_lem
      (λ (pair : ℕ × ℕ).
        Fits (counts (request_key id bucket)) (or_default 60 rpm) pair.0
        × Fits (counts (token_key id bucket)) (or_default 100_000 tpm) pair.1)
      result.allowed (n + 1, t + counted_tokens estimated) (n, t)
      (λ yes.
        let (r_fits, t_fits) = allow-allowed counts ttl id bucket rpm tpm estimated yes in
        (step_Fits _ 1 _ n r_fits kn, step_Fits _ (counted_tokens estimated) _ t t_fits kt))
      (λ _. (skip_Fits _ 1 _ n kn, skip_Fits _ (counted_tokens estimated) _ t kt))

-- From counters at zero, the requests that a key is granted within one minute are never more than its
-- limit of requests, and their estimated tokens never more than its limit of tokens, which are 60 and
-- 100000 where none is configured.
pub granted-le :
    (counts : Counts) (ttl : Ttl) (id bucket : Text) (rpm tpm : ℤ) (requests : List ℤ)
    → counts (request_key id bucket) ≡ 0
    → counts (token_key id bucket) ≡ 0
    → ((granted counts ttl id bucket rpm tpm requests).0 ≤ or_default 60 rpm)
      × ((granted counts ttl id bucket rpm tpm requests).1 ≤ or_default 100_000 tpm)
granted-le counts ttl id bucket rpm tpm requests no_requests no_tokens =
    let (hn, ht) = granted-Fits counts ttl id bucket rpm tpm requests in
    (ground arith, ground arith)
