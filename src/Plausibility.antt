-- ===== src/Plausibility.antt =====
-- backend/src/jobs/plausibility.rs: what a worker's submission is refused for. Each check answers a
-- bad request or nothing; the messages are left out.
pub mod Tiles
pub mod Printed
pub mod Moves
pub mod Players
pub mod Batches
pub mod Counted
mod Tests
