-- ===== src/Store.antt =====
-- internal/store: the tables, and the operations that write them.
mod Tests
pub mod Table
pub mod Db
pub mod Events
pub mod ToolCalls
pub mod Cursors
pub mod Prune
pub mod Repair
pub mod Migrations
pub mod Meta
pub mod Scores
pub mod Daily
pub mod Lists
