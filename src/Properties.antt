-- ===== src/Properties.antt =====
-- The properties library, properties/pkg.
pub mod Types
pub mod Store
pub mod Ordered
pub mod Refinement
pub mod Difference
pub mod Separators
pub mod Parser
pub mod RoundTrip
