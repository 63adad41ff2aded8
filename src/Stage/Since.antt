-- ===== src/Stage/Since.antt =====
-- The moments that `Classify` reports, and the long-running tools.
use burnmon.Base.{
  ◌∙◌, ◌+◌, ◌≤◌, ◌<◌, true, false, ◌≡◌, ◌≢◌, ◌⊎◌, arith, dur_lt-sub_time, dur_ge-sub_time, ◌==◌,
  string_eq,
}
use burnmon.Stage.{
  Stage, running, delegating, waiting, Input, tool_stage, with_tool, by_trail, classify, last_seen,
  arrival_window, compact_window, idle_cutoff, think_after, stuck_tool_after,
}

-- Nothing in the trail lies in the future.
pub record IsPast (i : Input) : Type 0 where
  pub start : i.start ≤ i.now
  pub turn : i.last_turn ≤ i.now
  pub tool : i.last_tool_at ≤ i.now
  pub compacted : i.compacted_at ≤ i.now

last_seen-le : (i : Input) → IsPast i → last_seen i ≤ i.now
unfolding last_seen
last_seen-le i h = ground arith

with_tool_since : (s : Stage) (i : Input) → IsPast i → (with_tool s i).since ≤ i.now
unfolding with_tool
with_tool_since s i h = ground (
  arith,
  last_seen-le i h,
  dur_ge-sub_time i.now (last_seen i) stuck_tool_after,
  dur_ge-sub_time i.now (last_seen i) think_after,
)

-- The moment at which the stage began is never in the future.
classify_since : (i : Input) → IsPast i → (classify i).since ≤ i.now
unfolding classify by_trail
classify_since i h = ground (
  arith,
  last_seen-le i h,
  dur_ge-sub_time i.now (last_seen i) stuck_tool_after,
  dur_ge-sub_time i.now (last_seen i) idle_cutoff,
  with_tool_since (tool_stage i.last_tool) i h,
)

-- Past the arrival and compaction windows and before the idle cutoff the trail decides.
classify-by_trail :
    (i : Input)
    → i.start + arrival_window ≤ i.now
    → i.compacted_at + compact_window ≤ i.now
    → i.now < last_seen i + idle_cutoff
    → classify i ≡ by_trail i
unfolding classify
classify-by_trail i old calm fresh = ground (
  arith,
  dur_lt-sub_time i.now i.start arrival_window,
  dur_lt-sub_time i.now i.compacted_at compact_window,
  dur_ge-sub_time i.now (last_seen i) idle_cutoff,
)

open-with_tool :
    (s : Stage) (i : Input)
    → i.last_tool_done ≡ false
    → (((s ≡ running) ⊎ (s ≡ delegating)) → (with_tool s i).stage ≡ s)
      × (s ≢ running
          → s ≢ delegating
          → last_seen i + stuck_tool_after ≤ i.now
          → (with_tool s i).stage ≡ waiting)
      × (i.now < last_seen i + stuck_tool_after → (with_tool s i).stage ≡ s)
unfolding with_tool
open-with_tool s i h =
    let d = dur_ge-sub_time i.now (last_seen i) stuck_tool_after (omega arith) (omega arith) in
    (
      λ slow. ground (arith, d, slow),
      λ a b c. ground (arith, d, a, b, c),
      λ soon. ground (arith, d, soon),
    )

-- A shell or a subagent that the newest turn started and that has not answered keeps its room until
-- the idle cutoff, however long it runs; any other open tool is read as a prompt after 3 minutes.
open_tool_stage :
    (i : Input)
    → i.no_tool_trail ≡ false
    → (i.last_tool == "") ≡ false
    → i.last_tool_in_latest_turn ≡ true
    → i.last_tool_done ≡ false
    → i.start + arrival_window ≤ i.now
    → i.compacted_at + compact_window ≤ i.now
    → i.now < last_seen i + idle_cutoff
    → (((tool_stage i.last_tool ≡ running) ⊎ (tool_stage i.last_tool ≡ delegating))
        → (classify i).stage ≡ tool_stage i.last_tool)
      × ((tool_stage i.last_tool ≢ running)
          → (tool_stage i.last_tool ≢ delegating)
          → last_seen i + stuck_tool_after ≤ i.now
          → (classify i).stage ≡ waiting)
      × (i.now < last_seen i + stuck_tool_after → (classify i).stage ≡ tool_stage i.last_tool)
unfolding by_trail
open_tool_stage i trail named latest open_ old calm fresh =
    let e : by_trail i ≡ with_tool (tool_stage i.last_tool) i = ground arith in
    rw (classify-by_trail i old calm fresh ∙ e) (open-with_tool (tool_stage i.last_tool) i open_)
