-- ===== src/Customiser.antt =====
-- The customiser interface of apps/api/src/embed.ts: who may open a design, which customisation may
-- be resumed, and the transaction that commits one.
pub mod Types
pub mod Access
pub mod Revisions
pub mod Assets
pub mod Commit
pub mod Latest
pub mod History
pub mod Resume
pub mod Supersede
pub mod Safety
pub mod Examples
