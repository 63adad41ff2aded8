-- ===== src/Live.antt =====
-- internal/live/live.go: the chart, the turns and the running sessions of the last half hour.
pub mod Chart
pub mod Trail
pub mod Staged
pub mod Turns
pub mod Ticker
pub mod Detail
pub mod Lifetime
pub mod GroupTotals
pub mod Whole
pub mod Snapshot
pub mod Nested
pub mod Reached
mod Tests
