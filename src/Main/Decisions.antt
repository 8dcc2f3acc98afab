-- ===== src/Main/Decisions.antt =====
-- From the rows of Postgres and the usages of the warehouse to the decision about a request: the
-- stores that main.go makes, behind the handler that it makes.
pub mod Plans
pub mod RowApps
pub mod OpenRows
pub mod Admission
pub mod Served
pub mod Tables
pub mod ByTables
pub mod Refreshed
