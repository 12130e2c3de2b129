-- ===== src/Tests/Limits.antt =====
-- Runs of internal/ratelimit/ratelimit.go.
use model_dock.Base.{◌≤◌, ◌≡◌, refl, List, [], ◌∷◌}
use model_dock.Base.Int.{ℤ, pos}
use model_dock.Text.{codes}
use model_dock.Ratelimit.{
  Counts, Ttl, or_default, allow, allow_script, answering, acquire_organization_concurrency,
}
use model_dock.Ratelimit.Window.{granted, granted-le}
use model_dock.Ratelimit.Holders.{GivesBack, acquire_organization_concurrency-GivesBack}

abbrev idle : Counts
idle key = 0

abbrev minute : Ttl
minute key = pos 70

abbrev requests : List ℤ
requests = pos 400 ∷ pos 0 ∷ pos 700 ∷ []

-- The third request passes both limits.
granted_two :
    granted idle minute (codes "key") (codes "202601010000") (pos 2) (pos 1_000) requests ≡ (2, 401)
unfolding granted allow allow_script
granted_two = refl

granted-le_example :
    ((granted idle minute (codes "key") (codes "202601010000") (pos 2) (pos 1_000) requests).0
      ≤ or_default 60 (pos 2))
    × ((granted idle minute (codes "key") (codes "202601010000") (pos 2) (pos 1_000) requests).1
        ≤ or_default 100_000 (pos 1_000))
granted-le_example =
    granted-le idle minute (codes "key") (codes "202601010000") (pos 2) (pos 1_000) requests refl
      refl

acquire_organization_concurrency-GivesBack_example :
    GivesBack idle (pos 3) (acquire_organization_concurrency (answering idle) (codes "org") (pos 3))
acquire_organization_concurrency-GivesBack_example =
    acquire_organization_concurrency-GivesBack idle (codes "org") (pos 3)
