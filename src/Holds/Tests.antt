-- ===== src/Holds/Tests.antt =====
-- The theorems about `DispatchHolds` at a seeding, a purge, a second purge and the end of the first.
use birdtest.Prelude.{◌≡◌, ◌≤◌, true, false, not, ◌&&◌, List, [], ◌∷◌, ltb, ◌==◌}
use birdtest.Holds.{dispatch_only, claims, try_claims, is_held, claims_held, DispatchHold}
use birdtest.Holds.Guards.{Event, took, tried, commits, drops, run, guards}
use birdtest.Holds.Exclusive.{is_granted, is_held-guards, guards-exclusive}

abbrev two_purges : List Event
two_purges =
    drops 0 90 ∷ commits 0 ∷ tried 5 30 true ∷ tried 5 30 true ∷ took 5 dispatch_only 30 ∷ []

is_held-guards_example :
    (is_held (run two_purges).inner 5
      ≡ not (
          guards dispatch_only 5 (run two_purges).live == 0
          && guards claims 5 (run two_purges).live == 0))
    × (claims_held (run two_purges).inner 5 ≡ ltb 0 (guards claims 5 (run two_purges).live))
    × (is_granted (try_claims (run two_purges).inner 5 30 false).1
        ≡ (guards claims 5 (run two_purges).live == 0))
is_held-guards_example = is_held-guards two_purges 5 30 false

guards-exclusive_example : guards claims 5 (run two_purges).live ≤ 1
guards-exclusive_example = guards-exclusive two_purges 5 tt

abbrev first_purge : DispatchHold
first_purge = record { job_id = 5; kind = claims; grace = 30; committed = false }
