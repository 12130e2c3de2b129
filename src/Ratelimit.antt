-- ===== src/Ratelimit.antt =====
-- internal/ratelimit/ratelimit.go: the limits on requests and tokens of a minute, and on requests
-- at a time. Redis runs a script as one step. `ttl` is what Redis answers of a key's time to live;
-- a key's expiry is left out: the minute is a part of the keys of the first limits, and a counter
-- of the requests at a time is taken within the two hours that it has from the acquire that created
-- it. The INCR and DECR of a refusal leave the count as it is.
pub mod Window
pub mod Holders
use model_dock.Base.{
  ℕ, ◌+◌, ◌-◌, Bool, true, false, not, ◌||◌, Option, none, some, List, [], ◌∷◌, ◌++◌, ltb, leb,
  if◌then◌else◌,
}
use model_dock.Base.Int.{ℤ, pos, abs, ltb_ℤ, leb_ℤ}
use model_dock.Text.{Text, codes}
use model_dock.Scheduler.Counters.{update}

pub record Result : Type 0 where
  pub allowed : Bool
  pub requests : ℕ
  pub tokens : ℕ
  -- In seconds, or milliseconds for an identity.
  pub retry_after : ℕ

pub data Answer : Type 0 where
  answered : Result → Answer
  unavailable : Answer

-- The counters of the keys, where an absent key counts zero.
abbrev pub Counts : Type 0
Counts = Text → ℕ

-- The limiter: without a client, with one whose service fails, or with one that answers.
pub data Limiter : Type 0 where
  missing failing : Limiter
  answering : Counts → Limiter

abbrev pub Ttl : Type 0
Ttl = Text → ℤ

-- `if ttl < 1 { ttl = … }`
abbrev pub retry_or : ℕ → ℤ → ℕ
retry_or default ttl = if ltb_ℤ ttl (pos 1) then default else abs ttl

abbrev pub or_default : ℕ → ℤ → ℕ
or_default default z = if leb_ℤ z (pos 0) then default else abs z

abbrev pub request_key : Text → Text → Text
request_key id bucket = codes "rdk:rl:r:" ++ id ++ codes ":" ++ bucket

abbrev pub token_key : Text → Text → Text
token_key id bucket = codes "rdk:rl:t:" ++ id ++ codes ":" ++ bucket

-- `script`: both counters grow, whether or not the request is allowed.
unfoldable pub allow_script : Counts → Text → Text → ℕ → ℕ → ℕ → Bool × ℕ × ℕ × Counts
allow_script counts requests tokens estimated rpm tpm =
    let r = counts requests + 1 in
    let counted = update counts requests r in
    let t = counted tokens + estimated in
    (not (ltb rpm r || ltb tpm t), r, t, update counted tokens t)

unfoldable pub allow : Counts → Ttl → Text → Text → ℤ → ℤ → ℤ → Result × Counts
allow counts ttl id bucket rpm tpm estimated =
    let (allowed, r, t, after) =
      allow_script counts (request_key id bucket) (token_key id bucket)
        (if ltb_ℤ estimated (pos 1) then 1 else abs estimated) (or_default 60 rpm)
        (or_default 100_000 tpm) in
    (
      record {
        allowed = allowed;
        requests = r;
        tokens = t;
        retry_after = retry_or 60 (ttl (request_key id bucket));
      },
      after,
    )

-- `Allow` of a limiter. Without a client the code does not return; that is `unavailable` here.
unfoldable pub allow_with : Limiter → Ttl → Text → Text → ℤ → ℤ → ℤ → Answer × Limiter
allow_with missing ttl id bucket rpm tpm estimated = (unavailable, missing)
allow_with failing ttl id bucket rpm tpm estimated = (unavailable, failing)
allow_with (answering counts) ttl id bucket rpm tpm estimated =
    let (result, after) = allow counts ttl id bucket rpm tpm estimated in
    (answered result, answering after)

-- `requestOnlyScript` and `identityScript`
unfoldable pub count_script : Counts → Text → ℕ → Bool × ℕ × Counts
count_script counts key limit =
    let n = counts key + 1 in (not (ltb limit n), n, update counts key n)

abbrev pub count_result : Ttl → Text → ℕ → Bool × ℕ × Counts → Answer × Limiter
count_result ttl key default (allowed, n, after) = (
  answered (record {
    allowed = allowed;
    requests = n;
    tokens = 0;
    retry_after = retry_or default (ttl key);
  }),
  answering after,
)

-- Without a client or a limit, `AllowOrganization` refuses.
unfoldable pub allow_organization : Limiter → Ttl → Text → Text → ℤ → Answer × Limiter
allow_organization missing ttl id bucket rpm = (unavailable, missing)
allow_organization failing ttl id bucket rpm = (unavailable, failing)
allow_organization (answering counts) ttl id bucket rpm =
    let key = codes "rdk:subscription:r:" ++ id ++ codes ":" ++ bucket in
    if leb_ℤ rpm (pos 0)
    then (unavailable, answering counts)
    else count_result ttl key 60 (count_script counts key (abs rpm))

abbrev pub unlimited : Answer
unlimited = answered (record { allowed = true; requests = 0; tokens = 0; retry_after = 0 })

-- Without a client or a limit, `AllowProvider` admits.
unfoldable pub allow_provider : Limiter → Ttl → Text → Text → ℤ → Answer × Limiter
allow_provider missing ttl id bucket rpm = (unlimited, missing)
allow_provider failing ttl id bucket rpm =
    (if leb_ℤ rpm (pos 0) then unlimited else unavailable, failing)
allow_provider (answering counts) ttl id bucket rpm =
    let key = codes "rdk:provider:r:" ++ id ++ codes ":" ++ bucket in
    if leb_ℤ rpm (pos 0)
    then (unlimited, answering counts)
    else count_result ttl key 60 (count_script counts key (abs rpm))

-- `digest` is the hexadecimal SHA-256 of the identity, cut to 16 bytes; times are in milliseconds.
unfoldable pub allow_identity :
    (Text → Text) → Limiter → Ttl → Text → Text → ℤ → ℤ → Answer × Limiter
allow_identity digest missing ttl action identity limit window = (unavailable, missing)
allow_identity digest failing ttl action identity limit window = (unavailable, failing)
allow_identity digest (answering counts) ttl action identity limit window =
    let key = codes "rdk:identity:" ++ action ++ codes ":" ++ digest identity in
    count_result ttl key (or_default 900_000 window) (count_script counts key (or_default 5 limit))

-- `concurrencyAcquireScript`
unfoldable pub concurrency_acquire : Counts → Text → ℕ → Bool × ℕ × Counts
concurrency_acquire counts key limit =
    let n = counts key + 1 in
    if ltb limit n then (false, n - 1, counts) else (true, n, update counts key n)

-- `concurrencyReleaseScript`
unfoldable pub concurrency_release : Counts → Text → Counts
concurrency_release counts key =
    let n = counts key in update counts key (if leb n 1 then 0 else n - 1)

-- What the release function that is returned with a slot remembers.
pub record Hold : Type 0 where
  pub key : Text
  pub released : Bool

pub data Slot : Type 0 where
  refused : ℕ → Slot
  acquired : Hold → ℕ → Slot
  no_service : Slot

abbrev pub slot_of : Text → Bool × ℕ × Counts → Slot × Limiter
slot_of key (true, n, after) =
    (acquired (record { key = key; released = false }) n, answering after)
slot_of key (false, n, after) = (refused n, answering after)

unfoldable pub acquire_organization_concurrency : Limiter → Text → ℤ → Slot × Limiter
acquire_organization_concurrency missing id limit = (no_service, missing)
acquire_organization_concurrency failing id limit = (no_service, failing)
acquire_organization_concurrency (answering counts) id limit =
    let key = codes "rdk:subscription:active:" ++ id in
    if leb_ℤ limit (pos 0)
    then (no_service, answering counts)
    else slot_of key (concurrency_acquire counts key (abs limit))

-- The release function, while the service answers.
unfoldable pub release_hold : Hold → Counts → Hold × Counts
release_hold hold counts =
    if hold.released
    then (hold, counts)
    else (record hold { released = true }, concurrency_release counts hold.key)
