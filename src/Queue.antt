-- ===== src/Queue.antt =====
-- The proof queue and its repair: apps/worker-proof and apps/worker-maintenance.
pub mod Proof
pub mod Reconcile
pub mod Changes
pub mod Invariant
pub mod Creation
pub mod Leases
pub mod Fencing
pub mod Repair
mod Examples
