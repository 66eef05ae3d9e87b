-- ===== src/Connector/Process.antt =====
-- packages/connector-processing/src/index.ts, with one function for each stage.
-- The transaction is serializable and holds the order's advisory lock, so it is a function of the
-- tables; a row that a foreign key promises and that is absent makes a reference invalid.
pub mod Lines
pub mod Lifecycle
pub mod Transaction
pub mod Frame
pub mod Runs
pub mod Claims
pub mod OrderWatermark
pub mod Convergence
pub mod Transitions
pub mod Endings
pub mod PrintJobs
pub mod Once
pub mod Prints
pub mod Production
