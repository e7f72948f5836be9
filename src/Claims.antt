-- ===== src/Claims.antt =====
-- The life of a task and of its claims: backend/src/scheduler.rs (`issue_claim`, `release_claim`,
-- `reclaim_expired_for`), jobs/registry.rs (`next_available`, `insert_on_demand_task`) and routes/worker.rs
-- (`heartbeat`, `decline_task`, `record_time_limit`, `submit_result`), each statement of SQL on lists of
-- rows and each transaction one step: the row locks that they take order them. Where a statement skips
-- locked rows, the locked ones are an argument.
pub mod Rows
pub mod Writes
pub mod Requests
pub mod Slots
pub mod Kept
pub mod Handed
pub mod Issued
pub mod Settled
pub mod Totals
pub mod Credited
pub mod Completed
pub mod Reached
pub mod Ended
pub mod Past
pub mod Spent
pub mod Sweeps
mod Tests
