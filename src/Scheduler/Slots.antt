-- ===== src/Scheduler/Slots.antt =====
-- The slots that acquireScript and releaseScript keep, over every interleaving of requests: each
-- holder releases once, as `Selection.Release` does, and each credential has one capacity.
use model_dock.Base.{
  ℕ, suc, ◌+◌, ◌-◌, ◌≤◌, ◌≡◌, refl, sym, ap, ◌∙◌, subst, ◌⊎◌, inl, inr, Bool, true, false, List, [],
  ◌∷◌, ◌++◌, arith, leb, if◌then◌else◌, if_lem, Bool-cases,
}
use model_dock.Base.Int.{ℤ, pos, ◌≤ℤ◌, ltb_ℤ}
use model_dock.Text.{Text, text_eq, text_eq→eq}
use model_dock.Scheduler.Counters.{Redis, update, acquire_script, expire_key, release_script}

-- How many of the holders hold a slot of the credential.
abbrev pub held_by : Text → List Text → ℕ
held_by id [] = 0
held_by id (h ∷ holders) = if text_eq id h then suc (held_by id holders) else held_by id holders

held_by-append :
    (id : Text) (xs ys : List Text) → held_by id (xs ++ ys) ≡ held_by id xs + held_by id ys
held_by-append id [] ys = omega arith
held_by-append id (x ∷ xs) ys = let ih = held_by-append id xs ys in ground arith

-- The state of the service, with the credentials whose slots are held.
pub record Slots : Type 0 where
  pub redis : Redis
  pub holders : List Text

-- One request's step on the counters, where `limits` is the capacity of each
-- credential; or a key expires, in a run in which keys do.
pub data Step (limits : Text → ℤ) (expiring : Bool) : Slots → Slots → Type 0 where
  granted :
      (redis after : Redis) (holders : List Text) (id : Text) (n : ℤ)
      → acquire_script redis id (limits id) ≡ ((true, n), after)
      → Step limits expiring
          (record { redis = redis; holders = holders })
          (record { redis = after; holders = id ∷ holders })
  refused :
      (redis after : Redis) (holders : List Text) (id : Text) (n : ℤ)
      → acquire_script redis id (limits id) ≡ ((false, n), after)
      → Step limits expiring
          (record { redis = redis; holders = holders })
          (record { redis = after; holders = holders })
  released :
      (redis : Redis) (id : Text) (earlier later : List Text)
      → Step limits expiring
          (record { redis = redis; holders = earlier ++ id ∷ later })
          (record { redis = release_script redis id; holders = earlier ++ later })
  expired :
      (redis : Redis) (holders : List Text) (id : Text)
      → expiring ≡ true
      → Step limits expiring
          (record { redis = redis; holders = holders })
          (record { redis = expire_key redis id; holders = holders })

pub data Reaches (limits : Text → ℤ) (expiring : Bool) : Slots → Slots → Type 0 where
  stay : (s : Slots) → Reaches limits expiring s s
  then_step :
      (s t u : Slots)
      → Reaches limits expiring s t
      → Step limits expiring t u
      → Reaches limits expiring s u

-- No count exceeds the number of holders or the capacity, and while no key expires each count is that
-- of the holders.
pub record IsCounted (limits : Text → ℤ) (expiring : Bool) (s : Slots) : Type 0 where
  pub counted : expiring ≡ false → (id : Text) → s.redis.active id ≡ held_by id s.holders
  pub within : (id : Text) → s.redis.active id ≤ held_by id s.holders
  pub bounded : (id : Text) → (s.redis.active id ≡ 0) ⊎ (pos (s.redis.active id) ≤ℤ limits id)

acquire_script-cases :
    (redis : Redis) (id : Text) (limit : ℤ)
    → let n = redis.active id + 1 in
      (acquire_script redis id limit ≡ ((false, pos (n - 1)), redis))
      ⊎ ((acquire_script redis id limit
            ≡ ((true, pos n), record redis { active = update redis.active id n }))
          × (pos n ≤ℤ limit))
unfolding acquire_script
acquire_script-cases redis id limit =
    let n = redis.active id + 1 in
    if_lem
      (λ a.
        (a ≡ ((false, pos (n - 1)), redis))
        ⊎ ((a ≡ ((true, pos n), record redis { active = update redis.active id n }))
            × (pos n ≤ℤ limit)))
      (ltb_ℤ limit (pos n)) ((false, pos (n - 1)), redis)
      ((true, pos n), record redis { active = update redis.active id n }) (λ _. inl refl)
      (λ fits. inr (refl, ground arith))

-- One more holder of the credential, or one less.
counted-granted :
    (active : Text → ℕ) (holders : List Text) (id : Text)
    → ((k : Text) → active k ≡ held_by k holders)
    → (k : Text) → update active id (active id + 1) k ≡ held_by k (id ∷ holders)
counted-granted active holders id c k = elim (Bool-cases (text_eq k id)) [
  | inl e ↦ let same = ap active (text_eq→eq k id e) in let now = c k in ground arith
  | inr e ↦ let now = c k in ground arith
]

abbrev freed : ℕ → ℕ
freed n = if leb n 1 then 0 else n - 1

counted-released :
    (active : Text → ℕ) (earlier later : List Text) (id : Text)
    → ((k : Text) → active k ≡ held_by k (earlier ++ id ∷ later))
    → (k : Text) → update active id (freed (active id)) k ≡ held_by k (earlier ++ later)
counted-released active earlier later id c k =
    let before = held_by-append k earlier (id ∷ later) in
    let after = held_by-append k earlier later in
    let now = c k in
    elim (Bool-cases (text_eq k id)) [
      | inl e ↦ let same = ap active (text_eq→eq k id e) in ground arith
      | inr e ↦ ground arith
    ]

within-granted :
    (active : Text → ℕ) (holders : List Text) (id : Text)
    → ((k : Text) → active k ≤ held_by k holders)
    → (k : Text) → update active id (active id + 1) k ≤ held_by k (id ∷ holders)
within-granted active holders id c k = elim (Bool-cases (text_eq k id)) [
  | inl e ↦ let same = ap active (text_eq→eq k id e) in let now = c k in ground arith
  | inr e ↦ let now = c k in ground arith
]

within-released :
    (active : Text → ℕ) (earlier later : List Text) (id : Text)
    → ((k : Text) → active k ≤ held_by k (earlier ++ id ∷ later))
    → (k : Text) → update active id (freed (active id)) k ≤ held_by k (earlier ++ later)
within-released active earlier later id c k =
    let before = held_by-append k earlier (id ∷ later) in
    let after = held_by-append k earlier later in
    let now = c k in
    elim (Bool-cases (text_eq k id)) [
      | inl e ↦ let same = ap active (text_eq→eq k id e) in ground arith
      | inr e ↦ ground arith
    ]

within-expired :
    (active : Text → ℕ) (holders : List Text) (id : Text)
    → ((k : Text) → active k ≤ held_by k holders)
    → (k : Text) → update active id 0 k ≤ held_by k holders
within-expired active holders id c k = let now = c k in ground arith

-- A bound of every count, kept by a change of one.
bounded-update :
    (limits : Text → ℤ) (active : Text → ℕ) (id : Text) (n : ℕ)
    → ((k : Text) → (active k ≡ 0) ⊎ (pos (active k) ≤ℤ limits k))
    → (n ≡ 0) ⊎ (pos n ≤ℤ limits id)
    → (k : Text) → (update active id n k ≡ 0) ⊎ (pos (update active id n k) ≤ℤ limits k)
bounded-update limits active id n b fits k =
    if_lem (λ m. (m ≡ 0) ⊎ (pos m ≤ℤ limits k)) (text_eq k id) n (active k)
      (λ e. subst (λ i. (n ≡ 0) ⊎ (pos n ≤ℤ limits i)) (sym (text_eq→eq k id e)) fits) (λ _. b k)

freed_bounded :
    (n : ℕ) (limit : ℤ) → (n ≡ 0) ⊎ (pos n ≤ℤ limit) → (freed n ≡ 0) ⊎ (pos (freed n) ≤ℤ limit)
freed_bounded n limit b = ground arith

module _ (limits : Text → ℤ) (expiring : Bool) where
  Step-IsCounted :
      (s t : Slots)
      → Step limits expiring s t
      → IsCounted limits expiring s
      → IsCounted limits expiring t
  unfolding release_script expire_key
  Step-IsCounted s t (granted redis after holders id n e) c =
      elim (acquire_script-cases redis id (limits id)) [
        | inl denied ↦
            let wrong : false ≡ true = ap (λ a. a.0.0) (sym denied ∙ e) in absurd (ground arith)
        | inr (got, fits) ↦
            let same = ap (λ a. a.1) (sym got ∙ e) in
            subst (λ r. IsCounted limits expiring (record { redis = r; holders = id ∷ holders }))
              same
              (record {
                counted = λ x. counted-granted redis.active holders id (c.counted x);
                within = within-granted redis.active holders id c.within;
                bounded =
                    bounded-update limits redis.active id (redis.active id + 1) c.bounded
                      (inr fits);
              })
      ]
  Step-IsCounted s t (refused redis after holders id n e) c =
      elim (acquire_script-cases redis id (limits id)) [
        | inl denied ↦
            subst (λ r. IsCounted limits expiring (record { redis = r; holders = holders }))
              (ap (λ a. a.1) (sym denied ∙ e)) c
        | inr (got, fits) ↦
            let wrong : true ≡ false = ap (λ a. a.0.0) (sym got ∙ e) in absurd (ground arith)
      ]
  Step-IsCounted s t (released redis id earlier later) c = record {
    counted = λ x. counted-released redis.active earlier later id (c.counted x);
    within = within-released redis.active earlier later id c.within;
    bounded =
        bounded-update limits redis.active id (freed (redis.active id)) c.bounded
          (freed_bounded (redis.active id) (limits id) (c.bounded id));
  }
  Step-IsCounted s t (expired redis holders id e) c = record {
    counted = λ x. absurd (ground (arith, e, x));
    within = within-expired redis.active holders id c.within;
    bounded = bounded-update limits redis.active id 0 c.bounded (inl refl);
  }

  -- Over any interleaving of requests, in which keys may expire or not, from counts that are so: no
  -- count ever exceeds the capacity of its credential, nor the number of its holders, and if no key
  -- expires each count is that number, so that no credential is held more often than its capacity
  -- allows.
  pub Reaches-IsCounted :
      (s t : Slots)
      → Reaches limits expiring s t
      → IsCounted limits expiring s
      → IsCounted limits expiring t
  Reaches-IsCounted s t (stay _) c = c
  Reaches-IsCounted s t (then_step _ m _ r step) c =
      Step-IsCounted m t step (Reaches-IsCounted s m r c)
