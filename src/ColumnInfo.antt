-- ===== src/ColumnInfo.antt =====
-- include/ORCColumnInfo.h.
pub mod Column
pub mod EncodingInfo
pub mod SortData
pub mod RleInfo
pub mod Info
mod Tests
