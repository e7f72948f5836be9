-- ===== src/Leaves.antt =====
-- Leave generation: backend/src/jobs/leave_gen.rs, with `generate_leave_gen` of jobs/registry.rs and the
-- hand-back of a failed transition in scheduler.rs. One generation of one job: every statement of that code
-- names both, and a claim for another generation leaves these rows alone.
pub mod Rows
pub mod Merges
pub mod Events
pub mod Selection
pub mod Acquire
pub mod Slices
pub mod Quiet
pub mod Claimed
pub mod Closing
pub mod Decided
pub mod Decisions
pub mod Steps
pub mod Out
pub mod Picks
pub mod Hands
pub mod Handing
pub mod Handed
pub mod Issued
pub mod Once
pub mod Onward
pub mod Generations
pub mod Spelling
pub mod Closes
pub mod Closed
mod Tests
