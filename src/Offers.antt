-- ===== src/Offers.antt =====
-- backend/src/scheduler.rs: which jobs a worker may be handed work of, `candidate_jobs`, and what it is told when
-- there is none, `shutdown_or_idle` and the opening of `claim`. The order of the candidates, which goes by a
-- floating-point ratio, and the texts are left out; a tarball's date is a number. The statements read one state of
-- the jobs.
pub mod Answers
mod Tests
use birdtest.Prelude.{
  ℕ, Bool, true, false, not, ◌&&◌, ◌||◌, List, [], ◌∷◌, ◌++◌, Option, none, some, ltb, ◌==◌,
  if◌then◌else◌, ltb_ℤ, eq_ℤ,
}
use birdtest.Claims.Rows.{JobStatus, is_active, exists, count}
use birdtest.Versions.{Version}

-- A row of `jobs`, with the dates of its letter distribution and its layout.
pub record Offer : Type 0 where
  pub id : ℕ
  pub status : JobStatus
  pub allocation : ℕ
  pub min_magpie : Version
  pub tarball_dates : List ℕ

pub record WorkerCapabilities : Type 0 where
  pub magpie_version : Version
  pub unsupported_jobs : List ℕ

pub data Reason : Type 0 where
  both magpie_too_old data_out_of_date : Reason

pub record ShutdownDirective : Type 0 where
  pub reason : Reason
  pub required_tarball_dates : List ℕ
  pub required_magpie_version : Option Version

-- `Task` is the answer of a claim that goes on.
pub data ClaimOutcome : Type 0 where
  idle no_work_exists : ClaimOutcome
  shutdown : ShutdownDirective → ClaimOutcome

-- The order of `Version`, and of rows in SQL.
abbrev pub is_below : Version → Version → Bool
is_below v w =
    ltb_ℤ v.major w.major
    || eq_ℤ v.major w.major
      && (ltb_ℤ v.minor w.minor || eq_ℤ v.minor w.minor && ltb_ℤ v.patch w.patch)

abbrev pub on_offer : Offer → Bool
on_offer j = is_active j.status && ltb 0 j.allocation

abbrev pub is_unsupported : WorkerCapabilities → Offer → Bool
is_unsupported caps j = exists (λ i. i == j.id) caps.unsupported_jobs

abbrev pub is_candidate : WorkerCapabilities → Offer → Bool
is_candidate caps j =
    on_offer j && not (is_below caps.magpie_version j.min_magpie) && not (is_unsupported caps j)

abbrev pub is_too_new : WorkerCapabilities → Offer → Bool
is_too_new caps j = on_offer j && is_below caps.magpie_version j.min_magpie

abbrev pub is_data_blocked : WorkerCapabilities → Offer → Bool
is_data_blocked caps j =
    on_offer j && not (is_below caps.magpie_version j.min_magpie) && is_unsupported caps j

abbrev pub candidate_jobs : WorkerCapabilities → List Offer → List Offer
candidate_jobs caps [] = []
candidate_jobs caps (j ∷ js) =
    let rest = candidate_jobs caps js in if is_candidate caps j then j ∷ rest else rest

-- `ORDER BY min_magpie_major, .. LIMIT 1`.
unfoldable pub required_magpie_version : WorkerCapabilities → List Offer → Option Version
required_magpie_version caps [] = none
required_magpie_version caps (j ∷ js) =
    let rest = required_magpie_version caps js in
    if is_too_new caps j
    then elim rest [
      | none ↦ some j.min_magpie
      | some v ↦ some (if is_below v j.min_magpie then v else j.min_magpie)
    ]
    else rest

-- `SELECT DISTINCT .. ORDER BY .. DESC`.
abbrev pub place_date : ℕ → List ℕ → List ℕ
place_date d [] = d ∷ []
place_date d (e ∷ es) =
    let rest = place_date d es in
    if d == e then e ∷ es else if ltb e d then d ∷ e ∷ es else e ∷ rest

abbrev pub place_dates : List ℕ → List ℕ → List ℕ
place_dates [] es = es
place_dates (d ∷ ds) es = place_date d (place_dates ds es)

unfoldable pub tarball_dates_of : WorkerCapabilities → List Offer → List ℕ
tarball_dates_of caps [] = []
tarball_dates_of caps (j ∷ js) =
    let rest = tarball_dates_of caps js in
    if on_offer j && is_unsupported caps j then place_dates j.tarball_dates rest else rest

abbrev pub version_blocked : WorkerCapabilities → List Offer → Bool
version_blocked caps jobs = ltb 0 (count (is_too_new caps) jobs)

abbrev pub data_blocked : WorkerCapabilities → List Offer → Bool
data_blocked caps jobs = ltb 0 (count (is_data_blocked caps) jobs)

unfoldable pub directive_of : WorkerCapabilities → List Offer → ShutdownDirective
unfolding required_magpie_version tarball_dates_of
directive_of caps jobs = record {
  reason =
      if version_blocked caps jobs
      then (if data_blocked caps jobs then both else magpie_too_old)
      else data_out_of_date;
  required_tarball_dates = if data_blocked caps jobs then tarball_dates_of caps jobs else [];
  required_magpie_version =
      if version_blocked caps jobs then required_magpie_version caps jobs else none;
}

unfoldable pub shutdown_or_idle : WorkerCapabilities → List Offer → ClaimOutcome
unfolding directive_of
shutdown_or_idle caps jobs =
    if count on_offer jobs == 0
    then no_work_exists
    else if not (version_blocked caps jobs) && not (data_blocked caps jobs)
    then idle
    else shutdown (directive_of caps jobs)

-- How `claim` opens: under the server's own floor, and with no candidate, it ends here.
unfoldable pub claim_opening : Version → WorkerCapabilities → List Offer → Option ClaimOutcome
unfolding shutdown_or_idle
claim_opening floor caps jobs =
    if is_below caps.magpie_version floor
    then some (
        shutdown (record {
          reason = magpie_too_old;
          required_tarball_dates = [];
          required_magpie_version = some floor;
        }))
    else elim (candidate_jobs caps jobs) [ [] ↦ some (shutdown_or_idle caps jobs) | j ∷ js ↦ none ]
