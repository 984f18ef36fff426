-- ===== src/Sql.antt =====
-- src/frontend: the expressions of SQL statements, and select statements.
pub mod Expr
pub mod Select
pub mod Print
mod Tests
