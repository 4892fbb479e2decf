-- ===== src/Api.antt =====
-- The custom resources of the API: api/v1alpha1 and api/v1beta1.
pub mod Failure
pub mod TaskKind
pub mod States
pub mod Cluster
pub mod Operation
