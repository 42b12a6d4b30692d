-- ===== src/Rating.antt =====
-- pkg/rating: the data that matchmaking and the tournament lifecycle take from the rating system.
pub mod Types
