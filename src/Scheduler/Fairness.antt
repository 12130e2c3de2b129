-- ===== src/Scheduler/Fairness.antt =====
-- The weighted round robin of internal/scheduler/scheduler.go: what a turn does to the scores.
use model_dock.Base.{
  ◌≡◌, refl, ap, ◌∙◌, ◌⊎◌, inl, inr, false, ◌||◌, ◌&&◌, none, some, List, [], ◌∷◌, arith,
  if◌then◌else◌, if_lem, All,
}
use model_dock.Base.Int.{
  ℤ, pos, ◌+ℤ◌, ◌-ℤ◌, pos_part, neg_part, ltb_ℤ, eqb_ℤ, +ℤ_parts, -ℤ_parts, eq_of_parts,
}
use model_dock.Text.{Text, text_eq, text_eq_refl}
use model_dock.Scheduler.Counters.{
  WeightedCandidate, update, text_ltb, Best, better, score_loop, charge, weighted_round_robin,
}

-- The sum of the candidates' scores.
unfoldable pub sum_scores : List WeightedCandidate → (Text → ℤ) → ℤ
sum_scores [] scores = pos 0
sum_scores (c ∷ rest) scores = scores c.id +ℤ sum_scores rest scores

abbrev Absent : Text → List WeightedCandidate → Type 0
Absent id cs = All (λ d. text_eq d.id id ≡ false) cs

-- No two candidates have one identifier.
abbrev pub Distinct : List WeightedCandidate → Type 0
Distinct [] = Unit
Distinct (c ∷ rest) = Absent c.id rest × All (λ d. text_eq c.id d.id ≡ false) rest × Distinct rest

-- The identifier is that of a candidate.
abbrev pub IsCandidate : Text → List WeightedCandidate → Type 0
IsCandidate id [] = ⊥
IsCandidate id (c ∷ rest) = (id ≡ c.id) ⊎ IsCandidate id rest

sum_scores-update :
    (cs : List WeightedCandidate) (scores : Text → ℤ) (id : Text) (v : ℤ)
    → Absent id cs
    → sum_scores cs (update scores id v) ≡ sum_scores cs scores
unfolding sum_scores
sum_scores-update [] scores id v h = refl
sum_scores-update (c ∷ rest) scores id v (p, ps) =
    rw (p, sum_scores-update rest scores id v ps) refl

-- The loop leaves the scores of others alone.
score_loop-absent :
    (cs : List WeightedCandidate) (total : ℤ) (best : Best) (scores : Text → ℤ) (id : Text)
    → All (λ d. text_eq id d.id ≡ false) cs
    → (score_loop cs total best scores).2 id ≡ scores id
unfolding score_loop
score_loop-absent [] total best scores id h = refl
score_loop-absent (c ∷ rest) total best scores id (p, ps) =
    let score = scores c.id +ℤ c.weight in
    score_loop-absent rest (total +ℤ c.weight) (better c.id score best) (update scores c.id score)
      id ps
    ∙ ap (λ b. if b then score else scores id) p

swap_sum : (a b c d t w u : ℤ) → c +ℤ (t +ℤ w) ≡ d +ℤ u → a ≡ b +ℤ w → a +ℤ c +ℤ t ≡ b +ℤ d +ℤ u
swap_sum a b c d t w u h k = eq_of_parts _ _ (
    omega (
      arith,
      +ℤ_parts c (t +ℤ w),
      +ℤ_parts t w,
      +ℤ_parts d u,
      +ℤ_parts b w,
      +ℤ_parts a c,
      +ℤ_parts (a +ℤ c) t,
      +ℤ_parts b d,
      +ℤ_parts (b +ℤ d) u,
      ap pos_part h,
      ap neg_part h,
      ap pos_part k,
      ap neg_part k,
    ))

-- The loop adds to the sum of the scores what it adds to the total.
score_loop-sum :
    (cs : List WeightedCandidate) (total : ℤ) (best : Best) (scores : Text → ℤ)
    → Distinct cs
    → let (total', best', scored) = score_loop cs total best scores in
      sum_scores cs scored +ℤ total ≡ sum_scores cs scores +ℤ total'
unfolding score_loop sum_scores
score_loop-sum [] total best scores h = refl
score_loop-sum (c ∷ rest) total best scores (absent, others, distinct) =
    let score = scores c.id +ℤ c.weight in
    let updated = update scores c.id score in
    let next = better c.id score best in
    let ih = score_loop-sum rest (total +ℤ c.weight) next updated distinct in
    let same = sum_scores-update rest scores c.id score absent in
    let here =
      score_loop-absent rest (total +ℤ c.weight) next updated c.id others
      ∙ ap (λ b. if b then score else scores c.id) (text_eq_refl c.id) in
    swap_sum _ (scores c.id) _ (sum_scores rest scores) total c.weight _
      (ih ∙ ap (λ z. z +ℤ (score_loop rest (total +ℤ c.weight) next updated).0) same) here

abbrev IsBest : Text → Best → Type 0
IsBest x none = ⊥
IsBest x (some (id, score)) = x ≡ id

abbrev IsSome : Best → Type 0
IsSome none = ⊥
IsSome (some b) = Unit

better-IsBest :
    (id : Text) (score : ℤ) (best : Best) (x : Text)
    → IsBest x (better id score best)
    → (x ≡ id) ⊎ IsBest x best
unfolding better
better-IsBest id score none x h = inl h
better-IsBest id score (some (old, s)) x h =
    if_lem (λ b. IsBest x b → (x ≡ id) ⊎ (x ≡ old))
      (ltb_ℤ s score || (eqb_ℤ score s && text_ltb id old)) (some (id, score)) (some (old, s))
      (λ _ e. inl e) (λ _ e. inr e) h

better-IsSome : (id : Text) (score : ℤ) (best : Best) → IsSome (better id score best)
unfolding better
better-IsSome id score none = tt
better-IsSome id score (some (old, s)) =
    if_lem IsSome (ltb_ℤ s score || (eqb_ℤ score s && text_ltb id old)) (some (id, score))
      (some (old, s)) (λ _. tt) (λ _. tt)

score_loop-IsSome :
    (cs : List WeightedCandidate) (total : ℤ) (best : Best) (scores : Text → ℤ)
    → IsSome best
    → IsSome (score_loop cs total best scores).1
unfolding score_loop
score_loop-IsSome [] total best scores h = h
score_loop-IsSome (c ∷ rest) total best scores h =
    score_loop-IsSome rest _ _ _ (better-IsSome c.id (scores c.id +ℤ c.weight) best)

score_loop-IsBest :
    (cs : List WeightedCandidate) (total : ℤ) (best : Best) (scores : Text → ℤ) (x : Text)
    → IsBest x (score_loop cs total best scores).1
    → IsBest x best ⊎ IsCandidate x cs
unfolding score_loop
score_loop-IsBest [] total best scores x h = inl h
score_loop-IsBest (c ∷ rest) total best scores x h =
    let score = scores c.id +ℤ c.weight in
    elim (score_loop-IsBest rest (total +ℤ c.weight) (better c.id score best)
      (update scores c.id score) x h) [
        | inr i ↦ inr (inr i)
        | inl b ↦ elim (better-IsBest c.id score best x b) [ inl e ↦ inr (inl e) | inr e ↦ inl e ]
      ]

charge_back : (a b t : ℤ) → a -ℤ t +ℤ b +ℤ t ≡ a +ℤ b
charge_back a b t =
    eq_of_parts _ _
      (omega (arith, -ℤ_parts a t, +ℤ_parts (a -ℤ t) b, +ℤ_parts (a -ℤ t +ℤ b) t, +ℤ_parts a b))

pass_on : (a b c t : ℤ) → b +ℤ t ≡ c → a +ℤ b +ℤ t ≡ a +ℤ c
pass_on a b c t h = eq_of_parts _ _ (
    omega (
      arith,
      +ℤ_parts a b,
      +ℤ_parts (a +ℤ b) t,
      +ℤ_parts b t,
      +ℤ_parts a c,
      ap pos_part h,
      ap neg_part h,
    ))

IsCandidate-not :
    (id : Text) (x : Text) (cs : List WeightedCandidate)
    → All (λ d. text_eq id d.id ≡ false) cs
    → IsCandidate x cs
    → text_eq id x ≡ false
IsCandidate-not id x [] h i = absurd i
IsCandidate-not id x (c ∷ rest) (p, ps) (inl e) = rw e p
IsCandidate-not id x (c ∷ rest) (p, ps) (inr i) = IsCandidate-not id x rest ps i

-- Charging one candidate takes the charge off the sum.
sum_scores-charged :
    (cs : List WeightedCandidate) (scores : Text → ℤ) (id : Text) (t : ℤ)
    → Distinct cs
    → IsCandidate id cs
    → sum_scores cs (update scores id (scores id -ℤ t)) +ℤ t ≡ sum_scores cs scores
unfolding sum_scores
sum_scores-charged [] scores id t d i = absurd i
sum_scores-charged (c ∷ rest) scores id t (absent, others, distinct) (inl e) =
    rw (e, text_eq_refl c.id, sum_scores-update rest scores c.id (scores c.id -ℤ t) absent)
      (charge_back (scores c.id) (sum_scores rest scores) t)
sum_scores-charged (c ∷ rest) scores id t (absent, others, distinct) (inr i) =
    rw (IsCandidate-not c.id id rest others i) (
      pass_on (scores c.id) _ (sum_scores rest scores) t
        (sum_scores-charged rest scores id t distinct i))

cancel_total : (a b c t : ℤ) → a +ℤ t ≡ b → b +ℤ pos 0 ≡ c +ℤ t → a ≡ c
cancel_total a b c t h k = eq_of_parts _ _ (
    omega (
      arith,
      +ℤ_parts a t,
      +ℤ_parts b (pos 0),
      +ℤ_parts c t,
      ap pos_part h,
      ap neg_part h,
      ap pos_part k,
      ap neg_part k,
    ))

-- A turn chose a candidate and kept the sum of the scores.
abbrev pub IsFairTurn : List WeightedCandidate → (Text → ℤ) → Text × (Text → ℤ) → Type 0
IsFairTurn cs scores (chosen, scores') =
    IsCandidate chosen cs × (sum_scores cs scores' ≡ sum_scores cs scores)

charge-IsFairTurn :
    (cs : List WeightedCandidate) (scores : Text → ℤ) (total : ℤ) (best : Best) (scored : Text → ℤ)
    → Distinct cs
    → IsSome best
    → ((x : Text) → IsBest x best → IsBest x none ⊎ IsCandidate x cs)
    → sum_scores cs scored +ℤ pos 0 ≡ sum_scores cs scores +ℤ total
    → IsFairTurn cs scores (charge total best scored)
charge-IsFairTurn cs scores total none scored d h f e = absurd h
charge-IsFairTurn cs scores total (some (best, score)) scored d h f e =
    let i : IsCandidate best cs = elim (f best refl) [ inl b ↦ absurd b | inr i ↦ i ] in
    (i, cancel_total _ _ _ total (sum_scores-charged cs scored best total d i) e)

-- For a non-empty list of candidates with distinct identifiers, whatever their weights and scores,
-- the weighted round robin chooses the identifier of one of them, and the sum of their scores
-- after the turn is the sum before it.
pub weighted_round_robin-IsFairTurn :
    (c : WeightedCandidate) (rest : List WeightedCandidate) (scores : Text → ℤ)
    → Distinct (c ∷ rest)
    → IsFairTurn (c ∷ rest) scores (weighted_round_robin (c ∷ rest) scores)
unfolding weighted_round_robin score_loop
weighted_round_robin-IsFairTurn c rest scores d =
    charge-IsFairTurn (c ∷ rest) scores _ _ _ d
      (score_loop-IsSome rest _ _ _ (better-IsSome c.id (scores c.id +ℤ c.weight) none))
      (score_loop-IsBest (c ∷ rest) (pos 0) none scores)
      (score_loop-sum (c ∷ rest) (pos 0) none scores d)
