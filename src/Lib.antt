-- ===== src/Lib.antt =====
-- birdtest, the part of the backend that decides: which rack a unit of work is about, who holds a task and
-- until when, which requests are let in, and whether a submitted result is believed. The server hands work to volunteers' machines (workers), which run
-- MAGPIE and send results back; a worker can be wrong or dishonest, so every result is checked
-- against what MAGPIE could have produced before it is written to the database.
--
-- The parts, each under backend/src/:
-- * jobs/racks.rs (Racks.antt). `RackIndex` counts the racks of a letter distribution, row by row, and
--   numbers them; `rack_at` takes the numbers in a scattered order, in which opening-rack jobs
--   are dispatched. `Racks.new`, `total`, `rack_at`, `scatter`, `walk` and the rest bear the source's
--   names. Racks/Space.antt is the rack space on its own, as a list.
-- * jobs/handler.rs (Wire.antt). The figures and positions that responses and records carry, one record
--   per struct. A text is a list of code points (Wire/Chars.antt); an `f64` is not a number, infinite or
--   a multiple of 2 ^ -1074 (Wire/Real.antt), which every finite one is: the checks only compare.
-- * jobs/plausibility.rs (Plausibility.antt). The checks of a submission, one function per check: racks
--   and texts (Plausibility/Tiles.antt), aggregates, moves and inferences (Plausibility/Moves.antt), the
--   analyses that a task's players can make (Plausibility/Players.antt), and the rack occurrences of a
--   leave-generation batch (Plausibility/Batches.antt).
-- * jobs/game.rs (Games.antt). `process_response` of a games job, `validate_positions`, and the seeds that
--   its batches take.
-- * jobs/game_pair.rs with stats/outcomes.rs (Pairs.antt, Outcomes.antt). `process_response` of a game-pairs
--   job: the pentanomial, the wins, losses and draws of all games and those of the divergent pairs must fit
--   together. A pair is two games of one seed with the seats swapped. `check_first_divergences` is that of
--   the same file.
-- * jobs/opening_rack.rs (OpeningRacks.antt), on racks.rs. `next_request` makes the next task of a job, which
--   `generate_opening_rack` of jobs/registry.rs writes; `task_racks` reads a task's racks back;
--   `check_batch_against_task` compares a result with them. OpeningRacks/Tiling.antt runs a job's claims.
-- * compat.rs (Compat.antt). The types that MAGPIE reads off the names of lexicons, leaves and letter
--   distributions, and `validate_job_files`. Names are ASCII, as inputdata.rs accepts no other.
-- * jobs/mod.rs (Holds.antt). `DispatchHolds`, by which a purge, a delete or an edit of a job keeps claims
--   and submissions away from it while it works: its calls, and the guards that they give. Holds/Guards.antt
--   runs any sequence of calls and of guards' ends; a guard is named by its place among those alive.
--   Holds/Grace.antt is about the claims that are spared after a purge that did not commit.
-- * ratelimit.rs (Credentials.antt). `check`, which names a bucket and rounds a wait up, and `CredentialGate`,
--   which a worker's credential passes before it is looked up. Credentials/Small.antt runs any sequence of
--   requests, lookups that resolve and sweeps. The limiter is an interface, with what it keeps as its law.
-- * board.rs (Board.antt). `BoardLayout::parse` is `parse_layout`, on the characters of the file.
-- * version.rs (Versions.antt). The floor of a job or of the server is checked with `parse_strict` when it is
--   set and read with `parse_or_zero` when a client is held to it.
-- * clientip.rs (ClientIp.antt). `resolve`, the address by which requests are rate limited.
-- * error.rs (Prelude/Errors.antt). An `AppError` is its status and its Retry-After; `AppResult` carries it.
--   A chain of early returns is a do block of `refuse`.
-- * The life of a claim (Claims.antt): scheduler.rs (`issue_claim`, `release_claim`, `reclaim_expired_for`),
--   jobs/registry.rs (`acquire`, `next_available`, `insert_on_demand_task`) and routes/worker.rs (`heartbeat`,
--   `decline_task`, `record_time_limit`, `submit_result`). Claims/Rows.antt has the rows of the tables,
--   Claims/Writes.antt and Claims/Requests.antt a function for each statement and each transaction. A
--   transaction is one step, as the row locks that it takes, claim before task before job, put it in order
--   with the others on the same rows; rows that a statement skips as locked are an argument. Claims/Reached.antt
--   is the relation of steps, in which the id and the token of a new row are fresh. A time is in milliseconds.
--   The ratio of a job (claims_baseline), the contributor's totals, the stored result and its progress, and
--   the edits of an admin are left out; leave generation has a model of its own.
-- * The opening of a claim (Offers.antt): scheduler.rs, `candidate_jobs`, `shutdown_or_idle` and the start of
--   `claim`, which turn a worker away for its version or for data that it has not got.
-- * Leave generation (Leaves.antt): jobs/leave_gen.rs with `generate_leave_gen` of jobs/registry.rs. A generation's
--   tasks force racks until each has been drawn as often as its target, and then a transition builds its leaves.
--   Leaves/Rows.antt has its rows, Leaves/Merges.antt `merge_staged_in_slices`, Leaves/Events.antt what commits
--   between two statements of a claim, Leaves/Selection.antt `next_step` and the selections, statement by
--   statement, Leaves/Acquire.antt the claim, and Leaves/Steps.antt the relation of steps; Leaves/Generations.antt
--   has the order of a job's generations and Leaves/Spelling.antt how a reported rack is spelled. Racks are numbered
--   in the order of the primary key; the hash of Postgres and the order of an index are arguments. A job has
--   one claim at a time within its dispatch lock, so claims are steps, and everything else is between or
--   within them. `run_transition` is a merge, the building of the leaves and `close_generation`; a merge that
--   gives up at a lock is no event. Left out are a purge, another generation's rows, a transition that outlasts its takeover, the job's status at the last
--   close, and how often a claim asks for a merge.
-- Prelude.antt and its children hold tests, lists and integers over the native natural numbers.
--
-- Numbers. An integer of the source that cannot be negative is a natural number, others an integer of
-- Prelude/Int.antt; `as u64`, `u32` and `u128` sums and the saturating operations are written out where
-- the source has them. A debug build panics where a release build wraps; the release build is modelled.
--
-- Loops are by recursion on the list, or on the rounds left where the source counts: `end - start` for a
-- range, `min(count, size) + 1` for the takes of a tile. No other fuel is used, so nothing can run out.
--
-- Not modelled: the texts of errors; the other tables and routes, JSON, sessions, e-mail and exports,
-- which read and write through libraries; the statistics on floating-point numbers (stats/match_test.rs,
-- stats/bradley_terry.rs, jobstats.rs, ratings.rs); the workers, the frontend and the scripts. A hash set
-- of the source is a list, a hash map an association list.
pub mod Prelude
pub mod Wire
pub mod Outcomes
pub mod Plausibility
pub mod Games
pub mod Pairs
pub mod Racks
pub mod Board
pub mod Claims
pub mod ClientIp
pub mod Compat
pub mod Credentials
pub mod Holds
pub mod Leaves
pub mod Offers
pub mod OpeningRacks
pub mod Versions
