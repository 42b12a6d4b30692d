-- ===== src/Postgres.antt =====
-- internal/postgres: the stores over the tables of migrations/.
pub mod Tables
pub mod Tickets
pub mod Assignment
pub mod Assign
pub mod Commands
pub mod Rooms
pub mod Results
pub mod Finalize
pub mod Deadlines
pub mod OutboxQueue
pub mod MatchmakingQueue
pub mod Matching
pub mod Service
pub mod Lifecycle
mod Examples
mod Endings
