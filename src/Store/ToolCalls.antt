-- ===== src/Store/ToolCalls.antt =====
-- `UpsertToolCalls`: a call and its result may arrive in separate passes, in either order.
pub mod Laws
use burnmon.Base.{
  ℕ, suc, Bool, true, false, not, ◌&&◌, Option, none, some, List, [], ◌∷◌, ◌==◌, string_eq,
  if◌then◌else◌,
}
use burnmon.Schema.{ToolCall, Key, call_key, key_eq}
use burnmon.Store.Db.{Db, Faults, Error, transaction}
use burnmon.Store.Table.{upsert}

-- COALESCE(a, b)
abbrev pub coalesce : Option ℕ → Option ℕ → Option ℕ
coalesce none b = b
coalesce (some a) b = some a

-- The DO UPDATE of the statement.
unfoldable pub resolve_call : ToolCall → ToolCall → ToolCall
resolve_call old new = record old {
  agent = new.agent;
  turn = new.turn;
  tool = new.tool;
  at = new.at;
  input_bytes = new.input_bytes;
  result_bytes = coalesce new.result_bytes old.result_bytes;
  path = if not (new.path == "") then new.path else old.path;
}

unfoldable pub fill : ℕ → ToolCall → ToolCall
fill n c = record c { result_bytes = coalesce c.result_bytes (some n) }

-- `late`: UPDATE ... SET result_bytes = ? WHERE the key matches AND result_bytes IS NULL.
unfoldable pub fill_result : ℕ → Key → List ToolCall → List ToolCall
unfolding fill
fill_result n k [] = []
fill_result n k (c ∷ t) = (if call_key c == k then fill n c else c) ∷ fill_result n k t

-- The branch of a row with no tool name, which carries a result only.
unfoldable pub apply_late : Option ℕ → Key → List ToolCall → List ToolCall
unfolding fill_result
apply_late none k t = t
apply_late (some n) k t = fill_result n k t

unfoldable pub apply_call : ToolCall → List ToolCall → List ToolCall
unfolding upsert resolve_call apply_late
apply_call c t =
    if c.tool == ""
    then apply_late c.result_bytes (call_key c) t
    else upsert call_key resolve_call c t

-- Whether the row runs a statement.
unfoldable pub needs_exec : ToolCall → Bool
needs_exec c = not (c.tool == "" && elim c.result_bytes [ none ↦ true | some _ ↦ false ])

unfoldable pub exec_calls : Faults → ℕ → List ToolCall → List ToolCall → Option (List ToolCall)
unfolding apply_call needs_exec
exec_calls f i [] t = some t
exec_calls f i (c ∷ cs) t =
    let rest = exec_calls f (suc i) cs (apply_call c t) in
    if needs_exec c && f.exec i then none else rest

unfoldable pub upsert_calls_body : Faults → List ToolCall → Db → Option Db
unfolding exec_calls
upsert_calls_body f cs db = if f.prepare then none else elim (exec_calls f 0 cs db.tool_calls) [
  | none ↦ none
  | some t ↦ some (record db { tool_calls = t })
]

unfoldable pub upsert_tool_calls : Faults → List ToolCall → Db → Db × Option Error
unfolding upsert_calls_body transaction
upsert_tool_calls f [] db = (db, none)
upsert_tool_calls f (c ∷ cs) db = transaction f (upsert_calls_body f (c ∷ cs)) db
