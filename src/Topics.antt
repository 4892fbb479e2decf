-- ===== src/Topics.antt =====
-- The reconciler of KafkaTopics: controllers/kafkatopic_controller.go, with the functions of
-- controllers/controller_common.go and pkg/util/util.go that it calls.
pub mod World
pub mod Finalizers
pub mod Reconcile
pub mod Managed
