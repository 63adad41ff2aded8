-- ===== src/Codex/Lines.antt =====
-- The loop of `Parse` in internal/adapter/codex/codex.go: what one line of a rollout changes.
use burnmon.Base.{
  ℕ, String, Bool, ◌||◌, Option, none, some, List, [], ◌∷◌, ◌++◌, ◌==◌, lt64, sub64, string_eq,
  if◌then◌else◌,
}
use burnmon.Schema.{Event}
use burnmon.Store.Table.{row, upsert}
use burnmon.Claude.Json.{Fields, lookup, text_at, has_text, int_at, byte_length, content_byte_len}
use burnmon.Claude.Lines.{PendingCall, LateResult, pending_id, set_result, replace_call}
use burnmon.Codex.Meta.{
  Decoders, Header, object_at, float_of, whole_of, rate_limit_window, read_session_meta,
  file_path_from_args, tool_call_output_bytes, request_id_of, stamp_time, unix_time,
}

-- The variables of the loop.
pub record Rollout : Type 0 where
  pub cwd : String
  pub model : String
  pub surface : String
  pub title : String
  pub sub_run : Bool
  pub events : List Event
  pub pending_calls : List PendingCall
  pub tool_call_order : List String
  pub late_results : List LateResult

abbrev pub start_with : Header → Rollout
start_with h = record {
  cwd = h.head_cwd;
  model = h.head_model;
  surface = h.head_surface;
  title = "";
  sub_run = h.head_sub_run;
  events = [];
  pending_calls = [];
  tool_call_order = [];
  late_results = [];
}

abbrev pub set_session_meta : Option Fields → Rollout → Rollout
set_session_meta none st = st
set_session_meta (some payload) st =
    let m = read_session_meta payload in
    record st {
      cwd = if st.cwd == "" then m.meta_cwd else st.cwd;
      surface = m.meta_surface;
      sub_run = m.meta_sub_run;
    }

-- A sub-run's model is its name, and becomes the title.
abbrev pub set_model : String → Rollout → Rollout
set_model m st =
    if m == "" then st else if st.sub_run then record st { title = m } else record st { model = m }

abbrev pub set_turn_context : Option Fields → Rollout → Rollout
set_turn_context none st = st
set_turn_context (some payload) st =
    set_model (text_at "model" payload)
      (record st { cwd = if st.cwd == "" then text_at "cwd" payload else st.cwd })

-- A call, read from a function_call or custom_tool_call.
abbrev pub turn_id_of : Option Fields → String
turn_id_of none = ""
turn_id_of (some fs) = text_at "turn_id" fs

abbrev pub new_call : Decoders → Fields → Fields → String → Rollout → Rollout
new_call d obj payload raw st =
    let id = text_at "call_id" payload in
    let tool = text_at "name" payload in
    let call : PendingCall = record {
      id = id;
      turn = turn_id_of (object_at "internal_chat_message_metadata_passthrough" (some payload));
      tool = tool;
      at = text_at "timestamp" obj;
      input_bytes = byte_length raw;
      result_bytes = none;
      path = file_path_from_args d raw;
    } in
    if id == "" || tool == "" then st else record st {
      pending_calls = upsert pending_id replace_call call st.pending_calls;
      tool_call_order = st.tool_call_order ++ (id ∷ []);
    }

abbrev pub call_output : String → ℕ → Option PendingCall → Rollout → Rollout
call_output id n (some p) st = record st { pending_calls = set_result id n st.pending_calls }
call_output id n none st = if id == "" then st else record st {
  late_results = st.late_results ++ (record { call_id = id; result_bytes = n } ∷ []);
}

-- The part of a "response_item" line.
abbrev pub response_item : Decoders → Fields → Option Fields → Rollout → Rollout
response_item d obj none st = st
response_item d obj (some payload) st =
    let kind = text_at "type" payload in
    let id = text_at "call_id" payload in
    if kind == "function_call"
    then new_call d obj payload (text_at "arguments" payload) st
    else if kind == "custom_tool_call"
    then new_call d obj payload (text_at "input" payload) st
    else if kind == "function_call_output" || kind == "custom_tool_call_output"
    then call_output id (tool_call_output_bytes (lookup "output" payload))
        (row pending_id id st.pending_calls) st
    else st

-- `if v > 0 { e.F = &v }`
abbrev pub some_positive : ℕ → Option ℕ
some_positive n = if lt64 0 n then some n else none

-- The rate-limit window's percentage and reset.
abbrev pub used_of : Option Fields → Option ℕ
used_of none = none
used_of (some w) = float_of (lookup "used_percent" w)

abbrev pub unix_of : Option ℕ → Option ℕ
unix_of none = none
unix_of (some s) = some (unix_time s)

abbrev pub reset_of : Option Fields → Option ℕ
reset_of none = none
reset_of (some w) = unix_of (whole_of (lookup "resets_at" w))

abbrev pub window_of : Decoders → Option Fields → Option Fields
window_of d none = none
window_of d (some rl) = rate_limit_window d rl

unfoldable pub usage_event : Decoders → String → ℕ → Fields → Fields → Fields → Rollout → Event
unfolding request_id_of int_at sub64 stamp_time rate_limit_window object_at lookup unix_time
usage_event d session start obj payload last st =
    let cached = int_at "cached_input_tokens" last in
    let window = window_of d (object_at "rate_limits" (some payload)) in
    record {
      vendor = "openai";
      agent = "codex";
      surface = st.surface;
      session_id = session;
      request_id = request_id_of d session obj start;
      parent_id = "";
      at = stamp_time d (text_at "timestamp" obj);
      model = st.model;
      project = st.cwd;
      owner = "";
      client = "";
      title = st.title;
      input = sub64 (int_at "input_tokens" last) cached;
      cache_write = none;
      cache_read = some_positive cached;
      output = int_at "output_tokens" last;
      reasoning = some_positive (int_at "reasoning_output_tokens" last);
      vendor_cost = none;
      window_used = used_of window;
      window_reset = reset_of window;
      tools = [];
    }

abbrev pub add_usage : Decoders → String → ℕ → Fields → Fields → Option Fields → Rollout → Rollout
add_usage d session start obj payload none st = st
add_usage d session start obj payload (some last) st = record st {
  events = st.events ++ (usage_event d session start obj payload last st ∷ []);
}

-- The part of an "event_msg" line.
abbrev pub token_count : Decoders → String → ℕ → Fields → Option Fields → Rollout → Rollout
token_count d session start obj none st = st
token_count d session start obj (some payload) st =
    if has_text "type" "token_count" payload
    then add_usage d session start obj payload
        (object_at "last_token_usage" (object_at "info" (some payload))) st
    else st

-- `start` is the line's offset, and none is a line that is blank or no JSON object.
unfoldable pub read_rollout_line : Decoders → String → ℕ → Option Fields → Rollout → Rollout
unfolding text_at has_text lookup object_at read_session_meta file_path_from_args byte_length
    content_byte_len upsert row set_result usage_event
read_rollout_line d session start none st = st
read_rollout_line d session start (some obj) st =
    let kind = text_at "type" obj in
    let payload = object_at "payload" (some obj) in
    if kind == "session_meta"
    then set_session_meta payload st
    else if kind == "turn_context"
    then set_turn_context payload st
    else if kind == "response_item"
    then response_item d obj payload st
    else if kind == "event_msg"
    then token_count d session start obj payload st
    else st
