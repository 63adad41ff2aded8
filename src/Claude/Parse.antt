-- ===== src/Claude/Parse.antt =====
-- What `Parse` of internal/adapter/claude/claude.go does with a transcript: the events, the tool calls and the offset of a read.
-- The file is the list of its complete lines after the offset; a read that fails is one after them.
use burnmon.Base.{
  ℕ, String, Bool, true, false, not, Option, none, some, List, [], ◌∷◌, ◌++◌, ◌+◌, ◌==◌, any,
  filter, map, lt64, string_eq, if◌then◌else◌,
}
use burnmon.Schema.{Event, ToolCall}
use burnmon.Paths.{Os, session_id_from_path}
use burnmon.Store.Table.{row}
use burnmon.Claude.Json.{Fields, classify_surface, agent_for}
use burnmon.Claude.Lines.{
  Library, Turn, PendingCall, ToolCount, TurnTools, LateResult, Reading, new_reading, read_line,
  pending_id, tools_turn,
}

pub record Line : Type 0 where
  pub bytes : ℕ
  pub decoded : Option Fields

unfoldable pub read_lines : Library → List Line → Reading → Reading
unfolding read_line
read_lines lib [] st = st
read_lines lib (l ∷ ls) st = read_lines lib ls (read_line lib l.decoded st)

unfoldable pub advance : ℕ → List Line → ℕ
advance offset [] = offset
advance offset (l ∷ ls) = advance (offset + l.bytes) ls

-- e.At: the zero time where the text is empty or is none.
abbrev pub or_zero_time : Option ℕ → ℕ
or_zero_time none = 0
or_zero_time (some t) = t

unfoldable pub instant : Library → String → ℕ
instant lib ts = if ts == "" then 0 else or_zero_time (lib.parse_time ts)

-- `if v > 0 { e.F = &v }`
abbrev pub when_positive : ℕ → Option ℕ
when_positive n = if lt64 0 n then some n else none

abbrev pub tool_pairs : List ToolCount → List (String × ℕ)
tool_pairs ts = map (λ (t : ToolCount). (t.tool, t.count)) ts

abbrev pub pairs_of : Option TurnTools → List (String × ℕ)
pairs_of none = []
pairs_of (some t) = tool_pairs t.counts

-- What every event of the file has in common.
abbrev pub blank_event : String → String → Reading → Event
blank_event surface session st = record {
  vendor = "anthropic";
  agent = agent_for surface;
  surface = surface;
  session_id = session;
  request_id = "";
  parent_id = "";
  at = 0;
  model = "";
  project = st.cwd;
  owner = "";
  client = "";
  title = st.title;
  input = 0;
  cache_write = none;
  cache_read = none;
  output = 0;
  reasoning = none;
  vendor_cost = none;
  window_used = none;
  window_reset = none;
  tools = [];
}

unfoldable pub turn_event : Library → String → String → Reading → Turn → Event
unfolding instant row agent_for
turn_event lib surface session st t = record (blank_event surface session st) {
  request_id = t.key;
  at = instant lib t.ts;
  model = t.model;
  input = t.fresh;
  output = t.out;
  cache_write = when_positive t.cache_w;
  cache_read = when_positive t.cache_r;
  tools = pairs_of (row tools_turn t.key st.tool_counts);
}

unfoldable pub orphan_event : String → String → Reading → TurnTools → Event
unfolding agent_for
orphan_event surface session st t = record (blank_event surface session st) {
  request_id = t.turn;
  tools = tool_pairs t.counts;
}

-- Not among consumedToolKeys.
unfoldable pub is_orphan : List Turn → TurnTools → Bool
is_orphan calls t = not (any (λ (c : Turn). c.key == t.turn) calls)

unfoldable pub events_of : Library → String → String → Reading → List Event
unfolding turn_event orphan_event is_orphan
events_of lib surface session st =
    map (turn_event lib surface session st) st.calls
    ++ map (orphan_event surface session st) (filter (is_orphan st.calls) st.tool_counts)

abbrev pub call_row : Library → String → String → PendingCall → ToolCall
call_row lib surface session p = record {
  vendor = "anthropic";
  agent = agent_for surface;
  session_id = session;
  call_id = p.id;
  turn = p.turn;
  tool = p.tool;
  at = instant lib p.at;
  input_bytes = p.input_bytes;
  result_bytes = p.result_bytes;
  path = p.path;
}

abbrev pub late_row : String → LateResult → ToolCall
late_row session r = record {
  vendor = "anthropic";
  agent = "";
  session_id = session;
  call_id = r.call_id;
  turn = "";
  tool = "";
  at = 0;
  input_bytes = 0;
  result_bytes = some r.result_bytes;
  path = "";
}

-- Every id of the order was filed as a call that waits.
unfoldable pub call_rows :
    Library → String → String → List PendingCall → List String → List ToolCall
unfolding row instant agent_for
call_rows lib surface session ps [] = []
call_rows lib surface session ps (id ∷ ids) =
    let rest = call_rows lib surface session ps ids in
    elim (row pending_id id ps) [ none ↦ rest | some p ↦ call_row lib surface session p ∷ rest ]

unfoldable pub tool_calls_of : Library → String → String → Reading → List ToolCall
unfolding call_rows
tool_calls_of lib surface session st =
    call_rows lib surface session st.pending_calls st.tool_call_order
    ++ map (late_row session) st.late_results

-- The results of `Parse`; `ok` is a nil error.
pub record Parsed : Type 0 where
  pub events : List Event
  pub tool_calls : List ToolCall
  pub offset : ℕ
  pub ok : Bool

-- `read_fails` is a ReadString that fails before the end of the file.
unfoldable pub parse_transcript : Library → Os → String → ℕ → Bool → List Line → Parsed
unfolding read_lines advance events_of tool_calls_of classify_surface session_id_from_path
parse_transcript lib os path from read_fails ls =
    let st = read_lines lib ls new_reading in
    let surface = classify_surface path st.cwd in
    let session = session_id_from_path os path in
    if read_fails
    then record { events = []; tool_calls = []; offset = from; ok = false }
    else record {
      events = events_of lib surface session st;
      tool_calls = tool_calls_of lib surface session st;
      offset = advance from ls;
      ok = true;
    }
