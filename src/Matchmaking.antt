-- ===== src/Matchmaking.antt =====
-- pkg/matchmaking: policies, eligibility, priority, selection and match attempts.
pub mod Policy
pub mod Validation
pub mod Priority
pub mod Fairness
pub mod Eligibility
pub mod Selector
pub mod Orchestration
mod Examples
