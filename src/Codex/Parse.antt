-- ===== src/Codex/Parse.antt =====
-- `Parse` of internal/adapter/codex/codex.go: the events, the tool calls and the offset of a read.
-- The file is the list of its complete lines after the offset; a read that fails is one after them.
use burnmon.Base.{
  ℕ, String, Bool, true, false, Option, none, some, List, [], ◌∷◌, ◌++◌, ◌+◌, map, ltb, string_eq,
  if◌then◌else◌,
}
use burnmon.Schema.{ToolCall}
use burnmon.Paths.{Os, session_id_from_path}
use burnmon.Store.Table.{row}
use burnmon.Claude.Json.{Fields}
use burnmon.Claude.Lines.{PendingCall, LateResult, pending_id}
use burnmon.Claude.Parse.{Line, Parsed, advance}
use burnmon.Codex.Meta.{Decoders, Header, no_header, scan_header_meta, stamp_time}
use burnmon.Codex.Lines.{Rollout, start_with, read_rollout_line}

unfoldable pub read_rollout : Decoders → String → ℕ → List Line → Rollout → Rollout
unfolding read_rollout_line
read_rollout d session start [] st = st
read_rollout d session start (l ∷ ls) st =
    read_rollout d session (start + l.bytes) ls (read_rollout_line d session start l.decoded st)

abbrev pub codex_call : Decoders → String → PendingCall → ToolCall
codex_call d session p = record {
  vendor = "openai";
  agent = "codex";
  session_id = session;
  call_id = p.id;
  turn = p.turn;
  tool = p.tool;
  at = stamp_time d p.at;
  input_bytes = p.input_bytes;
  result_bytes = p.result_bytes;
  path = p.path;
}

abbrev pub codex_late : String → LateResult → ToolCall
codex_late session r = record {
  vendor = "openai";
  agent = "";
  session_id = session;
  call_id = r.call_id;
  turn = "";
  tool = "";
  at = 0;
  input_bytes = 0;
  result_bytes = some r.result_bytes;
  path = "";
}

-- Every id of the order was filed as a call that waits.
unfoldable pub codex_calls : Decoders → String → List PendingCall → List String → List ToolCall
unfolding row stamp_time
codex_calls d session ps [] = []
codex_calls d session ps (id ∷ ids) =
    let rest = codex_calls d session ps ids in
    elim (row pending_id id ps) [ none ↦ rest | some p ↦ codex_call d session p ∷ rest ]

-- What a read starts with: at 0 nothing, else what the file's header says.
unfoldable pub header_at : ℕ → List (Option Fields) → Header
unfolding scan_header_meta
header_at from header = if ltb 0 from then scan_header_meta header no_header else no_header

-- `header` is what the lines of the first 64 KiB decode to, and `read_fails` is a ReadString that
-- fails before the end of the file.
unfoldable pub parse : Decoders → Os → String → List (Option Fields) → ℕ → Bool → List Line → Parsed
unfolding read_rollout header_at codex_calls advance session_id_from_path
parse d os path header from read_fails ls =
    let session = session_id_from_path os path in
    let st = read_rollout d session from ls (start_with (header_at from header)) in
    if read_fails
    then record { events = []; tool_calls = []; offset = from; ok = false }
    else record {
      events = st.events;
      tool_calls =
          codex_calls d session st.pending_calls st.tool_call_order
          ++ map (codex_late session) st.late_results;
      offset = advance from ls;
      ok = true;
    }
