-- ===== src/Panel.antt =====
-- The panel's backend, panel/backend/src/aipanel.
pub mod Auth
pub mod Campaigns
pub mod Cluster
pub mod Deployments
pub mod Ingest
pub mod Scripts
pub mod Mining
mod Tests
