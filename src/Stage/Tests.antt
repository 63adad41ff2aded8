-- ===== src/Stage/Tests.antt =====
-- The Station's rooms on concrete trails.
use burnmon.Base.{◌*◌, ◌≤◌, true, false, ◌≡◌, refl, arith, minute, to_lower, trim_space}
use burnmon.Stage.{
  reading, fetching, running, waiting, coding, Input, tool_stage, classify, room_of, is_mcp,
  is_reading, is_fetching, is_planning, is_coding, is_running, is_delegating, is_asking,
}
use burnmon.Stage.Silence.{rank, at_time, classify_forward}
use burnmon.Stage.Since.{IsPast}

-- A shell command that was started two minutes into the session, seen 4 minutes later.
abbrev test_run : Input
test_run = record {
  now = 406 * minute;
  start = 400 * minute;
  last_turn = 402 * minute;
  last_tool = " Bash ";
  last_tool_at = 402 * minute;
  last_tool_in_latest_turn = true;
  last_tool_done = false;
  compacted_at = 0;
  no_tool_trail = false;
}

program : Unit {0}
unfolding tool_stage room_of is_mcp is_reading is_fetching is_planning is_coding is_running
    is_delegating is_asking to_lower trim_space
program = tt

rooms :
    (tool_stage "Bash" ≡ running)
    × (tool_stage "mcp__github__search" ≡ fetching)
    × (tool_stage "NotebookRead\n" ≡ reading)
    × (tool_stage "Frobnicate" ≡ coding)
    × (tool_stage "AskUserQuestion" ≡ waiting)
unfolding program
rooms = (refl, refl, refl, refl, refl)

classify_forward_example :
    rank (classify test_run).stage ≤ rank (classify (at_time (500 * minute) test_run)).stage
classify_forward_example = classify_forward test_run (500 * minute) (omega arith)

test_run-IsPast : IsPast test_run
test_run-IsPast = omega arith
