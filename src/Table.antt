-- ===== src/Table.antt =====
-- include/Table.h: the files and the columns of a table.
pub mod Rep
pub mod Columns
pub mod Access
pub mod Schemas
mod Tests
