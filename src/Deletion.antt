-- ===== src/Deletion.antt =====
-- Erasure of customer uploads: apps/worker-maintenance/src/deletion.ts.
pub mod Json
pub mod Plan
pub mod Tables
pub mod Prepare
pub mod Worker
pub mod Boundary
pub mod Eligible
mod Examples
