-- ===== src/Operation.antt =====
-- The controller of the CruiseControlOperation resource:
-- controllers/cruisecontroloperation_controller.go.
pub mod Finalizer
pub mod Queues
pub mod Order
pub mod World
pub mod Select
pub mod Equality
pub mod Sync
pub mod Status
pub mod Execute
pub mod Reconcile
pub mod Quiet
pub mod Safety
pub mod Conflict
pub mod Panic
pub mod Choice
pub mod Upscale
pub mod Outcome
pub mod History
