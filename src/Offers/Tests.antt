-- ===== src/Offers/Tests.antt =====
-- A worker of 0.2.0 beside a job that wants 0.3.0 and one that wants data that it has not got.
use birdtest.Prelude.{◌≡◌, refl, List, [], ◌∷◌, none, some, pos}
use birdtest.Claims.Rows.{active, inactive}
use birdtest.Versions.{Version}
use birdtest.Offers.{
  Offer, WorkerCapabilities, ShutdownDirective, both, no_work_exists, shutdown, claim_opening,
}
use birdtest.Offers.Answers.{mended}

abbrev zero_two : Version
zero_two = record { major = pos 0; minor = pos 2; patch = pos 0 }

abbrev zero_three : Version
zero_three = record { major = pos 0; minor = pos 3; patch = pos 0 }

abbrev new_job : Offer
new_job = record {
  id = 1;
  status = active;
  allocation = 50;
  min_magpie = zero_three;
  tarball_dates = 20260101 ∷ 20260101 ∷ [];
}

abbrev data_job : Offer
data_job = record new_job {
  id = 2;
  min_magpie = zero_two;
  tarball_dates = 20260101 ∷ 20260301 ∷ [];
}

abbrev parked_job : Offer
parked_job = record data_job { id = 3; allocation = 0 }

abbrev jobs : List Offer
jobs = new_job ∷ data_job ∷ parked_job ∷ record data_job { id = 4; status = inactive } ∷ []

abbrev caps : WorkerCapabilities
caps = record { magpie_version = zero_two; unsupported_jobs = 2 ∷ [] }

abbrev directive : ShutdownDirective
directive = record {
  reason = both;
  required_tarball_dates = 20260301 ∷ 20260101 ∷ [];
  required_magpie_version = some zero_three;
}

turned_away : claim_opening zero_two caps jobs ≡ some (shutdown directive)
unfolding claim_opening
turned_away = refl

comes_back : claim_opening zero_two (mended caps directive) jobs ≡ none
unfolding claim_opening
comes_back = refl

parked : claim_opening zero_two caps (parked_job ∷ []) ≡ some no_work_exists
unfolding claim_opening
parked = refl
