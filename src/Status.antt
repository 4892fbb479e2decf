-- ===== src/Status.antt =====
-- The status of a KafkaCluster and how it is written: pkg/k8sutil/status.go.
pub mod World
pub mod Update
pub mod Broker
pub mod Backup
pub mod Listeners
