-- ===== src/Scanner.antt =====
-- src/exec and struct Batch: how a table is read batch by batch.
pub mod Batch
pub mod Columns
pub mod Batches
pub mod Statistics
mod Tests
mod ReadTests
