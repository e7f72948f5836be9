-- ===== src/Offers/Answers.antt =====
-- A worker is turned away for a reason that it can mend: scheduler.rs, `claim` and `shutdown_or_idle`.
use birdtest.Prelude.{◌≡◌, true, ◌||◌, List, [], none, some}
use birdtest.Claims.Rows.{exists}
use birdtest.Offers.{
  Offer, WorkerCapabilities, ShutdownDirective, is_too_new, is_data_blocked,
  required_magpie_version, directive_of,
}

-- The worker that came back with the version that it was told, and with all the data.
abbrev pub mended : WorkerCapabilities → ShutdownDirective → WorkerCapabilities
mended caps d = record {
  magpie_version = elim d.required_magpie_version [ none ↦ caps.magpie_version | some v ↦ v ];
  unsupported_jobs = [];
}

module _ (caps : WorkerCapabilities) (jobs : List Offer)
    (ruled : (exists (is_too_new caps) jobs || exists (is_data_blocked caps) jobs) ≡ true) where
  abbrev came_back : WorkerCapabilities
  came_back = mended caps (directive_of caps jobs)
