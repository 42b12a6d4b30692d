-- ===== src/Tournament.antt =====
-- internal/tournament: the lifecycle of tickets, rooms and results.
pub mod Model
pub mod Tickets
pub mod Results
pub mod Service
