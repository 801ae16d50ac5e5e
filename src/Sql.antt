-- ===== src/Sql.antt =====
-- The embedded SQL pipeline: internal/sqlsink. `Pattern` has the key patterns, `Rows` the mapping of
-- events, `Order` the sorting of column names, `Batches` the committer, `Statements` the SQL text.
pub mod Pattern
pub mod Order
pub mod Rows
pub mod Batches
pub mod Statements
