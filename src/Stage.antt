-- ===== src/Stage.antt =====
-- internal/stage/stage.go: which Station room a live session is in. Every time is an instant
-- (Base/Time); the zero time is "never seen".
mod Tests
pub mod Silence
pub mod Since
use burnmon.Base.{
  ℕ, ◌+◌, ◌*◌, String, Bool, true, false, not, ◌&&◌, ◌||◌, List, [], ◌∷◌, codes, codes_beq,
  has_prefix, to_lower, trim_space, any, second, minute, sub_time, dur_lt, dur_ge, after, is_zero,
  ◌==◌, string_eq, if◌then◌else◌, map,
}

pub data Stage : Type 0 where
  arriving reading fetching planning coding running thinking delegating waiting dormant compacting :
      Stage

abbrev pub idle_cutoff : ℕ
idle_cutoff = 10 * minute

abbrev pub arrival_window : ℕ
arrival_window = 15 * second

abbrev pub compact_window : ℕ
compact_window = 60 * second

abbrev pub think_after : ℕ
think_after = 8 * second

abbrev pub stuck_tool_after : ℕ
stuck_tool_after = 3 * minute

pub record Input : Type 0 where
  pub now : ℕ
  pub start : ℕ
  pub last_turn : ℕ
  pub last_tool : String
  pub last_tool_at : ℕ
  pub last_tool_in_latest_turn : Bool
  pub last_tool_done : Bool
  pub compacted_at : ℕ
  pub no_tool_trail : Bool

pub record Result : Type 0 where
  pub stage : Stage
  pub since : ℕ
  pub tool : String

-- `switch t { case ...: }` on the lower-case name.
abbrev pub one_of : List ℕ → List String → Bool
one_of t names = any (λ n. codes_beq t (codes n)) names

unfoldable pub is_mcp : List ℕ → Bool
is_mcp t = has_prefix (codes "mcp__") t || has_prefix (codes "mcp.") t

unfoldable pub is_reading : List ℕ → Bool
is_reading t = one_of t (
    "read" ∷ "grep" ∷ "glob" ∷ "ls" ∷ "notebookread" ∷ "view" ∷ "read_file" ∷ "list_dir"
    ∷ "list_directory" ∷ "search" ∷ "find" ∷ "file_search" ∷ "grep_search" ∷ [])

unfoldable pub is_fetching : List ℕ → Bool
is_fetching t = one_of t (
    "webfetch" ∷ "websearch" ∷ "web_fetch" ∷ "web_search" ∷ "fetch" ∷ "toolsearch"
    ∷ "listmcpresourcestool" ∷ "readmcpresourcetool" ∷ [])

unfoldable pub is_planning : List ℕ → Bool
is_planning t = one_of t (
    "todowrite" ∷ "todoread" ∷ "taskcreate" ∷ "taskupdate" ∷ "tasklist" ∷ "taskget" ∷ "exitplanmode"
    ∷ "enterplanmode" ∷ "update_plan" ∷ "plan" ∷ [])

unfoldable pub is_coding : List ℕ → Bool
is_coding t = one_of t (
    "edit" ∷ "write" ∷ "multiedit" ∷ "notebookedit" ∷ "apply_patch" ∷ "str_replace" ∷ "create_file"
    ∷ "edit_file" ∷ "write_file" ∷ "str_replace_editor" ∷ [])

unfoldable pub is_running : List ℕ → Bool
is_running t = one_of t (
    "bash" ∷ "bashoutput" ∷ "killshell" ∷ "powershell" ∷ "shell" ∷ "exec" ∷ "exec_command"
    ∷ "local_shell" ∷ "run_command" ∷ "terminal" ∷ "write_stdin" ∷ [])

unfoldable pub is_delegating : List ℕ → Bool
is_delegating t = one_of t ("task" ∷ "agent" ∷ "sendmessage" ∷ "spawn_agent" ∷ "subagent" ∷ [])

unfoldable pub is_asking : List ℕ → Bool
is_asking t = one_of t ("askuserquestion" ∷ "request_user_input" ∷ "ask_user" ∷ [])

unfoldable pub room_of : List ℕ → Stage
room_of t =
    if is_mcp t
    then fetching
    else if is_reading t
    then reading
    else if is_fetching t
    then fetching
    else if is_planning t
    then planning
    else if is_coding t
    then coding
    else if is_running t
    then running
    else if is_delegating t
    then delegating
    else if is_asking t
    then waiting
    else coding

unfoldable pub tool_stage : String → Stage
tool_stage tool = room_of (to_lower (trim_space (codes tool)))

abbrev pub is_waiting : Stage → Bool
is_waiting waiting = true
is_waiting _ = false

-- `s != Running && s != Delegating`
abbrev pub may_stick : Stage → Bool
may_stick running = false
may_stick delegating = false
may_stick _ = true

-- The newest sign of life: the later of turn and tool call, or the start.
unfoldable pub last_seen : Input → ℕ
last_seen i =
    let last = if after i.last_tool_at i.last_turn then i.last_tool_at else i.last_turn in
    if is_zero last then i.start else last

-- The branch of a session whose newest turn called a tool, in the room `s`.
unfoldable pub with_tool : Stage → Input → Result
with_tool s i =
    let last = last_seen i in
    let idle = sub_time i.now last in
    if is_waiting s
    then record { stage = waiting; since = i.last_tool_at; tool = i.last_tool }
    else if i.last_tool_done
    then (if dur_ge idle stuck_tool_after
        then record { stage = waiting; since = last + stuck_tool_after; tool = i.last_tool }
        else if dur_ge idle think_after
        then record { stage = thinking; since = last + think_after; tool = i.last_tool }
        else record { stage = s; since = i.last_tool_at; tool = i.last_tool })
    else if dur_ge idle stuck_tool_after && may_stick s
    then record { stage = waiting; since = last + stuck_tool_after; tool = i.last_tool }
    else record { stage = s; since = i.last_tool_at; tool = i.last_tool }

-- What follows the three time windows.
unfoldable pub by_trail : Input → Result
by_trail i =
    let last = last_seen i in
    if i.no_tool_trail
    then (if dur_ge (sub_time i.now last) stuck_tool_after
        then record { stage = waiting; since = last + stuck_tool_after; tool = "" }
        else record { stage = thinking; since = last; tool = "" })
    else if not (i.last_tool == "") && i.last_tool_in_latest_turn
    then with_tool (tool_stage i.last_tool) i
    else record { stage = waiting; since = last; tool = "" }

unfoldable pub classify : Input → Result
classify i =
    let last = last_seen i in
    if not (is_zero i.start) && dur_lt (sub_time i.now i.start) arrival_window
    then record { stage = arriving; since = i.start; tool = "" }
    else if not (is_zero i.compacted_at) && dur_lt (sub_time i.now i.compacted_at) compact_window
    then record { stage = compacting; since = i.compacted_at; tool = "" }
    else if dur_ge (sub_time i.now last) idle_cutoff
    then record { stage = dormant; since = last + idle_cutoff; tool = "" }
    else by_trail i
