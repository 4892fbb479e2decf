-- ===== src/Kafka.antt =====
-- The reconciler of the brokers: pkg/resources/kafka/kafka.go.
pub mod Reorder
pub mod Ascending
pub mod Pods
pub mod Racks
pub mod Rolling
pub mod Removal
pub mod Volumes
pub mod Claims
