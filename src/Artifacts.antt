-- ===== src/Artifacts.antt =====
-- Production artifacts and the removal of their bytes: apps/worker-maintenance/src/artifact-cleanup.ts,
-- the two routes of apps/web-admin/app/api/generated-artifacts that lease and hold an artifact, and
-- the read of an object by apps/api/src/objects.ts.
pub mod Types
pub mod Cleanup
pub mod Access
pub mod Guard
pub mod Free
pub mod Reach
pub mod Runs
pub mod Traces
pub mod Removals
pub mod Erased
pub mod Examples
