-- ===== src/Ratelimit/Holders.antt =====
-- The limit on an organization's requests at a time.
use model_dock.Base.{
  ℕ, ◌++◌, if_lem, ◌+◌, ◌≤◌, ◌≡◌, refl, ap, Bool, true, false, arith, ltb, Bool-cases, inl, inr,
}
use model_dock.Text.{Text, codes, text_eq, text_eq→eq, text_eq_refl}
use model_dock.Scheduler.Counters.{update}
use model_dock.Base.Int.{ℤ, pos, abs, leb_ℤ}
use model_dock.Ratelimit.{
  Slot, acquired, refused, no_service, Limiter, missing, failing, answering, slot_of, release_hold,
  acquire_organization_concurrency, Counts, concurrency_acquire, concurrency_release,
}

-- An acquired slot was free, is counted, and is given back by the release: every counter is then what
-- it was. A refused request finds the limit reached, and changes no counter.
abbrev pub Balanced : Counts → Text → ℕ → Bool × ℕ × Counts → Type 0
Balanced counts key limit (true, n, after) =
    (n ≡ counts key + 1)
    × (n ≤ limit)
    × (after key ≡ n)
    × ((k : Text) → concurrency_release after key k ≡ counts k)
Balanced counts key limit (false, n, after) = (n ≡ counts key) × (limit ≤ n) × (after ≡ counts)

release_lem :
    (counts : Counts) (key k : Text)
    → concurrency_release (update counts key (counts key + 1)) key k ≡ counts k
unfolding concurrency_release
release_lem counts key k =
    let here = text_eq_refl key in
    elim (Bool-cases (text_eq k key)) [
      | inl e ↦ let same = ap counts (text_eq→eq k key e) in ground arith
      | inr e ↦ ground arith
    ]

-- A slot that is acquired was free, is counted, and is given back by the release, after which every
-- counter is what it was; a request that is refused finds the limit reached and changes no counter.
pub concurrency_acquire-Balanced :
    (counts : Counts) (key : Text) (limit : ℕ)
    → Balanced counts key limit (concurrency_acquire counts key limit)
unfolding concurrency_acquire
concurrency_acquire-Balanced counts key limit = elim (Bool-cases (ltb limit (counts key + 1))) [
  | inl full ↦ rw full (omega arith, ground arith, refl)
  | inr free ↦ rw free (refl, ground arith, rw (text_eq_refl key) refl, release_lem counts key)
]

-- What an acquisition by an organization promises of the limiter and of the release function.
abbrev pub GivesBack : Counts → ℤ → Slot × Limiter → Type 0
GivesBack counts limit (acquired hold n, answering after) =
    (n ≤ abs limit)
    × ((k : Text)
        → let (once, first) = release_hold hold after in
          (first k ≡ counts k) × ((release_hold once first).1 k ≡ counts k))
GivesBack counts limit (acquired hold n, missing) = ⊥
GivesBack counts limit (acquired hold n, failing) = ⊥
GivesBack counts limit (refused n, after) = after ≡ answering counts
GivesBack counts limit (no_service, after) = after ≡ answering counts

slot_of-GivesBack :
    (counts : Counts) (key : Text) (limit : ℤ) (answer : Bool × ℕ × Counts)
    → Balanced counts key (abs limit) answer
    → GivesBack counts limit (slot_of key answer)
unfolding release_hold
slot_of-GivesBack counts key limit (true, n, after) (count, fits, here, back) =
    (fits, λ k. (back k, back k))
slot_of-GivesBack counts key limit (false, n, after) (count, full, same) = ap answering same

-- A slot that an organization acquires is within its limit. Its release function gives it back, and
-- called again changes nothing: every counter is then what it was before the acquisition. A refusal,
-- and an answer without a limit, leave the limiter as it is.
pub acquire_organization_concurrency-GivesBack :
    (counts : Counts) (id : Text) (limit : ℤ)
    → GivesBack counts limit (acquire_organization_concurrency (answering counts) id limit)
unfolding acquire_organization_concurrency
acquire_organization_concurrency-GivesBack counts id limit =
    let key = codes "rdk:subscription:active:" ++ id in
    if_lem (GivesBack counts limit) (leb_ℤ limit (pos 0)) (no_service, answering counts)
      (slot_of key (concurrency_acquire counts key (abs limit))) (λ _. refl)
      (λ _.
        slot_of-GivesBack counts key limit (concurrency_acquire counts key (abs limit))
          (concurrency_acquire-Balanced counts key (abs limit)))
