-- ===== src/Updates.antt =====
-- backend/src/updates.rs: the releases of the agent, their rollout, and the update attempts of the
-- instances.
pub mod Model
pub mod Status
pub mod Eligibility
pub mod Attempts
pub mod Rollback
pub mod Rollout
pub mod Instances
pub mod Releases
pub mod Offering
pub mod Polls
pub mod Answers
pub mod Sound
pub mod Steps
pub mod History
pub mod Transitions
pub mod Lifecycle
pub mod Candidates
pub mod Offers
pub mod Served
pub mod Retries
pub mod Accepted
pub mod Repeated
pub mod Settled
pub mod Confirmed
pub mod Fixtures
pub mod Tests
pub mod PollTests
