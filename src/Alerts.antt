-- ===== src/Alerts.antt =====
-- Operational alerts: apps/worker-maintenance/src/operational-checks.ts and alert-delivery.ts.
pub mod Evaluation
pub mod Synchronize
pub mod Notices
pub mod Standing
mod Examples
