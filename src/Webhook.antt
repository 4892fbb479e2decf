-- ===== src/Webhook.antt =====
-- The admission webhooks, pkg/webhooks.
pub mod Cluster
pub mod Topic
