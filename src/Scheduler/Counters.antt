-- ===== src/Scheduler/Counters.antt =====
-- The counters of internal/scheduler/scheduler.go: the interface `Counter`, and the scripts of
-- `RedisCounter`. Redis runs a script as one step. A key that is absent counts zero. acquireScript
-- gives a key two hours to live, from the acquire that created it: that it then goes is the step
-- `expire_key`, which no request asks for. The expiry of the scores is left out.
use model_dock.Base.{
  ℕ, ◌+◌, ◌-◌, Bool, true, false, ◌&&◌, ◌||◌, Option, none, some, List, [], ◌∷◌, leb, ltb,
  if◌then◌else◌,
}
use model_dock.Base.Int.{ℤ, pos, ◌+ℤ◌, ◌-ℤ◌, ltb_ℤ, eqb_ℤ}
use model_dock.Text.{Text, text_eq}

pub record WeightedCandidate : Type 0 where
  pub id : Text
  pub weight : ℤ

-- `Counter`, and `WeightedChooser` where the implementation has it. `none` is an error of the
-- service, and `S` the state that the service keeps.
pub record Counter (S : Type 0) : Type 0 where
  pub try_acquire : S → Text → ℤ → Option (Bool × ℤ) × S
  pub active : S → Text → Option ℤ
  pub choose_weighted : Option (S → Text → List WeightedCandidate → Option Text × S)

-- The two families of keys, rdk:active: and rdk:wrr:.
pub record Redis : Type 0 where
  pub active : Text → ℕ
  pub scores : Text → Text → ℤ

module _ {ℓ} {A : Type ℓ} where
  abbrev pub update : (Text → A) → Text → A → Text → A
  update f key value k = if text_eq k key then value else f k

-- acquireScript: INCR, and DECR again if the limit is passed.
unfoldable pub acquire_script : Redis → Text → ℤ → (Bool × ℤ) × Redis
acquire_script redis key limit =
    let n = redis.active key + 1 in
    if ltb_ℤ limit (pos n)
    then ((false, pos (n - 1)), redis)
    else ((true, pos n), record redis { active = update redis.active key n })

-- The two hours of a key are over, whoever holds slots of it.
unfoldable pub expire_key : Redis → Text → Redis
expire_key redis key = record redis { active = update redis.active key 0 }

-- releaseScript: DEL or DECR.
unfoldable pub release_script : Redis → Text → Redis
release_script redis key =
    let n = redis.active key in
    record redis { active = update redis.active key (if leb n 1 then 0 else n - 1) }

-- `a < b` of two texts, by code points.
unfoldable pub text_ltb : Text → Text → Bool
text_ltb [] [] = false
text_ltb [] (b ∷ t) = true
text_ltb (a ∷ s) [] = false
text_ltb (a ∷ s) (b ∷ t) = if ltb a b then true else if ltb b a then false else text_ltb s t

-- The best candidate so far, with its score.
abbrev pub Best : Type 0
Best = Option (Text × ℤ)

-- `bestScore==nil or score>bestScore or (score==bestScore and id<best)`
unfoldable pub better : Text → ℤ → Best → Best
better id score none = some (id, score)
better id score (some (best, best_score)) =
    if ltb_ℤ best_score score || (eqb_ℤ score best_score && text_ltb id best)
    then some (id, score)
    else some (best, best_score)

-- The loop of weightedRoundRobinScript: the total weight, the best, and the hash of scores.
unfoldable pub score_loop : List WeightedCandidate → ℤ → Best → (Text → ℤ) → ℤ × Best × (Text → ℤ)
score_loop [] total best scores = (total, best, scores)
score_loop (c ∷ rest) total best scores =
    let score = scores c.id +ℤ c.weight in
    score_loop rest (total +ℤ c.weight) (better c.id score best) (update scores c.id score)

abbrev pub charge : ℤ → Best → (Text → ℤ) → Text × (Text → ℤ)
charge total none scores = ([], scores)
charge total (some (best, score)) scores = (best, update scores best (scores best -ℤ total))

-- weightedRoundRobinScript on the hash of one group.
unfoldable pub weighted_round_robin : List WeightedCandidate → (Text → ℤ) → Text × (Text → ℤ)
weighted_round_robin candidates scores =
    let (total, best, scored) = score_loop candidates (pos 0) none scores in
    charge total best scored

-- `max(weight, 1)`
abbrev pub at_least_one : ℤ → ℤ
at_least_one w = if ltb_ℤ w (pos 1) then pos 1 else w

unfoldable pub clamp_weights : List WeightedCandidate → List WeightedCandidate
clamp_weights [] = []
clamp_weights (c ∷ rest) = record c { weight = at_least_one c.weight } ∷ clamp_weights rest

unfoldable pub choose_weighted_redis : Redis → Text → List WeightedCandidate → Text × Redis
choose_weighted_redis redis group candidates =
    let (chosen, scores) = weighted_round_robin (clamp_weights candidates) (redis.scores group) in
    (chosen, record redis { scores = update redis.scores group scores })

-- `RedisCounter`, while the service answers.
abbrev pub redis_counter : Counter Redis
redis_counter = record {
  try_acquire =
      λ redis id limit. let (r, redis') = acquire_script redis id limit in (some r, redis');
  active = λ redis id. some (pos (redis.active id));
  choose_weighted = some λ redis group candidates.
      let (chosen, redis') = choose_weighted_redis redis group candidates in (some chosen, redis');
}
