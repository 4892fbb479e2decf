-- ===== src/Alert.antt =====
-- The alert manager, internal/alertmanager.
pub mod Types
pub mod World
pub mod Cluster
pub mod Commands
pub mod Process
pub mod Stored
pub mod Once
pub mod Limits
pub mod Fresh
