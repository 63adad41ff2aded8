-- ===== src/Codex.antt =====
-- internal/adapter/codex/codex.go: the lines of a rollout as events and tool calls.
pub mod Meta
pub mod Lines
pub mod Parse
pub mod Usage
pub mod Keys
pub mod Identified
mod Tests
