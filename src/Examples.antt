-- ===== src/Examples.antt =====
-- The theorems at concrete inputs: a cluster, its operations, and a server that answers.
mod Data
mod Operations
mod Tasks
mod Panic
mod Brokers
mod Properties
mod Alerts
mod Webhooks
mod Topics
mod Status
mod Upgrades
