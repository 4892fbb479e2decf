-- ===== src/Task.antt =====
-- The controller of the Cruise Control tasks of a KafkaCluster: controllers/cruisecontroltask_types.go
-- and controllers/cruisecontroltask_controller.go.
pub mod Types
pub mod Outcome
pub mod Apply
pub mod Active
pub mod Brokers
pub mod Request
pub mod Schedule
pub mod Priority
pub mod Scheduled
pub mod Update
pub mod Reconcile
pub mod Capacity
pub mod Cases
pub mod RoundTrip
pub mod Index
