-- ===== src/Claude.antt =====
-- internal/adapter/claude/claude.go: the lines of a transcript as events and tool calls.
mod Tests
pub mod Json
pub mod Lines
pub mod Parse
pub mod Cloud
pub mod Turns
pub mod Tools
pub mod Outputs
pub mod Flags
pub mod Distinct
pub mod Stored
pub mod Split
