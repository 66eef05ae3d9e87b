-- ===== src/Storage.antt =====
-- Object storage: packages/storage/src/index.ts.
pub mod Keys
mod Examples
