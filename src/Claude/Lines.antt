-- ===== src/Claude/Lines.antt =====
-- The loop of `Parse` in internal/adapter/claude/claude.go: what one line of a transcript changes.
mod State
mod User
unfoldable pub use State.*
unfoldable pub use User.*
use burnmon.Base.{
  ℕ, suc, String, not, ◌||◌, Option, none, some, List, [], ◌∷◌, ◌++◌, ◌==◌, ltb, length, lt64,
  string_eq, if◌then◌else◌,
}
use burnmon.Store.Table.{row, upsert}
use burnmon.Claude.Json.{
  Items, Fields, no_items, item, no_fields, lookup, as_object, as_array, text_at, unless_empty,
  has_text, no_entries, int_at, extract_text, content_byte_len, skill_tag, file_path_from_input,
}

-- lineTools[name]++
unfoldable pub count_tool : String → List ToolCount → List ToolCount
count_tool name [] = record { tool = name; count = 1 } ∷ []
count_tool name (t ∷ ts) =
    if t.tool == name then record t { count = suc t.count } ∷ ts else t ∷ count_tool name ts

-- pendingCalls[id] = p
abbrev pub replace_call : PendingCall → PendingCall → PendingCall
replace_call old new = new

-- The tools of one line, with the calls that they leave waiting.
pub record LineTools : Type 0 where
  pub counts : List ToolCount
  pub waiting : List PendingCall
  pub order : List String

abbrev pub no_input : Option Fields → Fields
no_input none = no_fields
no_input (some fs) = fs

-- json.Marshal writes a nil map as null.
abbrev pub input_bytes_of : Library → Option Fields → ℕ
input_bytes_of lib none = 4
input_bytes_of lib (some fs) = lib.marshal_length fs

unfoldable pub read_tool : Library → String → String → Fields → LineTools → LineTools
unfolding has_text text_at lookup skill_tag file_path_from_input count_tool upsert
read_tool lib turn line_ts block t =
    let name = text_at "name" block in
    let input = as_object (lookup "input" block) in
    let id = text_at "id" block in
    let tag = skill_tag name (no_input input) in
    let call : PendingCall = record {
      id = id;
      turn = turn;
      tool = tag;
      at = line_ts;
      input_bytes = input_bytes_of lib input;
      result_bytes = none;
      path = file_path_from_input (no_input input);
    } in
    if not (has_text "type" "tool_use" block) || name == ""
    then t
    else if id == ""
    then record t { counts = count_tool tag t.counts }
    else record {
      counts = count_tool tag t.counts;
      waiting = upsert pending_id replace_call call t.waiting;
      order = t.order ++ (id ∷ []);
    }

abbrev pub tool_item : Library → String → String → Option Fields → LineTools → LineTools
tool_item lib turn line_ts none t = t
tool_item lib turn line_ts (some block) t = read_tool lib turn line_ts block t

unfoldable pub read_tools : Library → String → String → Items → LineTools → LineTools
unfolding read_tool
read_tools lib turn line_ts no_items t = t
read_tools lib turn line_ts (item v xs) t =
    read_tools lib turn line_ts xs (tool_item lib turn line_ts (as_object v) t)

-- `if c > seen[name]`
unfoldable pub raise_count : ToolCount → List ToolCount → List ToolCount
raise_count c [] = c ∷ []
raise_count c (t ∷ ts) =
    if t.tool == c.tool
    then (if ltb t.count c.count then record t { count = c.count } else t) ∷ ts
    else t ∷ raise_count c ts

unfoldable pub raise_counts : List ToolCount → List ToolCount → List ToolCount
unfolding raise_count
raise_counts [] seen = seen
raise_counts (c ∷ cs) seen = raise_counts cs (raise_count c seen)

abbrev pub tools_turn : TurnTools → String
tools_turn t = t.turn

abbrev pub join_tools : TurnTools → TurnTools → TurnTools
join_tools old new = record old { counts = raise_counts new.counts old.counts }

-- `if len(lineTools) > 0`
abbrev pub keep_tools : String → List ToolCount → List TurnTools → List TurnTools
keep_tools turn [] all = all
keep_tools turn (c ∷ cs) all =
    upsert tools_turn join_tools (record { turn = turn; counts = c ∷ cs }) all

-- The part of an "assistant" line up to the tools.
abbrev pub tools_of : Library → Fields → Option Items → Reading → Reading
tools_of lib obj none st = st
tools_of lib obj (some xs) st =
    let turn = or_else (own_key obj) (lib.tool_row_name st.row_idx) in
    let t =
      read_tools lib turn (text_at "timestamp" obj) xs
        (record { counts = []; waiting = st.pending_calls; order = st.tool_call_order }) in
    record st {
      tool_counts = keep_tools turn t.counts st.tool_counts;
      pending_calls = t.waiting;
      tool_call_order = t.order;
    }

-- Whether the line counts as a turn: a usage that is not empty, and a model that is not "" or
-- "<synthetic>".
abbrev pub turn_with : Library → Fields → Fields → Fields → ℕ → Option Turn
turn_with lib obj msg usage n =
    let model = text_at "model" msg in
    if no_entries usage || model == "" || model == "<synthetic>"
    then none
    else some (record {
      key = or_else (own_key obj) (lib.row_name n);
      ts = text_at "timestamp" obj;
      model = model;
      fresh = int_at "input_tokens" usage;
      cache_w = int_at "cache_creation_input_tokens" usage;
      cache_r = int_at "cache_read_input_tokens" usage;
      out = int_at "output_tokens" usage;
    })

abbrev pub usage_with : Library → Fields → Fields → Option Fields → ℕ → Option Turn
usage_with lib obj msg none n = none
usage_with lib obj msg (some usage) n = turn_with lib obj msg usage n

unfoldable pub usage_turn : Library → Fields → Fields → ℕ → Option Turn
unfolding lookup text_at own_key int_at
usage_turn lib obj msg n = usage_with lib obj msg (as_object (lookup "usage" msg)) n

abbrev pub turn_key : Turn → String
turn_key t = t.key

-- `t.o >= prev.o`: of two lines of one request the later one, unless its output is smaller.
unfoldable pub resolve_turn : Turn → Turn → Turn
resolve_turn prev t = if lt64 t.out prev.out then prev else t

abbrev pub add_turn : Option Turn → List Turn → List Turn
add_turn none calls = calls
add_turn (some t) calls = upsert turn_key resolve_turn t calls

abbrev pub turn_of : Library → Fields → Fields → Reading → Reading
turn_of lib obj msg st = record st {
  calls = add_turn (usage_turn lib obj msg (length st.calls)) st.calls;
}

abbrev pub assistant_message : Library → Fields → Option Fields → Reading → Reading
assistant_message lib obj none st = st
assistant_message lib obj (some msg) st =
    turn_of lib obj msg (tools_of lib obj (as_array (lookup "content" msg)) st)

unfoldable pub read_assistant : Library → Fields → Reading → Reading
unfolding has_text lookup text_at own_key read_tools raise_counts usage_turn resolve_turn upsert
read_assistant lib obj st =
    if has_text "type" "assistant" obj
    then assistant_message lib obj (as_object (lookup "message" obj)) st
    else st

abbrev pub set_cwd : Fields → Reading → Reading
set_cwd obj st = if st.cwd == "" then record st { cwd = text_at "cwd" obj } else st

-- What a line decodes to: none where it is blank or no JSON object.
unfoldable pub read_line : Library → Option Fields → Reading → Reading
unfolding read_user read_assistant text_at
read_line lib none st = st
read_line lib (some obj) st =
    read_assistant lib obj
      (read_user lib obj (set_cwd obj (record st { row_idx = suc st.row_idx })))
