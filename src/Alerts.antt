-- ===== src/Alerts.antt =====
-- backend/src/alerts.rs: alert rules, events and notification deliveries.
pub mod Model
pub mod Observation
pub mod Lifecycle
pub mod Sound
pub mod Resolution
pub mod Evaluation
pub mod Sampling
pub mod Delivery
pub mod Completion
pub mod History
pub mod Fixtures
pub mod Tests
pub mod Leases
pub mod Schedule
pub mod Firing
pub mod Recovery
