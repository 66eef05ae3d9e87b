-- ===== src/Connector.antt =====
-- The connector: packages/connector-contracts and packages/connector-processing, and the inbox of
-- apps/worker-maintenance that drives them.
pub mod Types
pub mod Ordering
pub mod Receipt
pub mod Result
pub mod Process
pub mod Inbox
mod Tests
mod Examples
