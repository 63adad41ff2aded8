-- ===== src/Claude/Lines/User.antt =====
-- What a "user" line changes in the loop of `Parse` in internal/adapter/claude/claude.go.
use burnmon.Base.{
  ℕ, String, not, ◌||◌, Option, none, some, List, [], ◌∷◌, ◌++◌, ◌==◌, string_eq, if◌then◌else◌,
}
use burnmon.Store.Table.{row}
use burnmon.Claude.Json.{
  Items, Fields, no_items, item, lookup, as_object, as_array, text_at, has_text, extract_text,
  content_byte_len,
}
use burnmon.Claude.Lines.State.{Library, PendingCall, Reading}

-- One tool_result block: its call is waiting, or was read in an earlier pass.
unfoldable pub set_result : String → ℕ → List PendingCall → List PendingCall
set_result id n [] = []
set_result id n (p ∷ ps) =
    (if p.id == id then record p { result_bytes = some n } else p) ∷ set_result id n ps

abbrev pub pending_id : PendingCall → String
pending_id p = p.id

abbrev pub file_result : String → ℕ → Option PendingCall → Reading → Reading
file_result id n (some p) st = record st { pending_calls = set_result id n st.pending_calls }
file_result id n none st = record st {
  late_results = st.late_results ++ (record { call_id = id; result_bytes = n } ∷ []);
}

unfoldable pub read_result : Fields → Reading → Reading
unfolding has_text text_at content_byte_len set_result row lookup
read_result block st =
    let id = text_at "tool_use_id" block in
    if not (has_text "type" "tool_result" block) || id == ""
    then st
    else file_result id (content_byte_len (lookup "content" block))
        (row pending_id id st.pending_calls) st

abbrev pub result_item : Option Fields → Reading → Reading
result_item none st = st
result_item (some block) st = read_result block st

unfoldable pub read_results : Items → Reading → Reading
unfolding read_result
read_results no_items st = st
read_results (item v xs) st = read_results xs (result_item (as_object v) st)

-- The part of a "user" line.
abbrev pub set_title : Library → Fields → Reading → Reading
set_title lib msg st =
    if st.title == ""
    then record st { title = lib.clean_title (extract_text (lookup "content" msg)) }
    else st

abbrev pub results_of : Option Items → Reading → Reading
results_of none st = st
results_of (some xs) st = read_results xs st

abbrev pub user_message : Library → Option Fields → Reading → Reading
user_message lib none st = st
user_message lib (some msg) st = results_of (as_array (lookup "content" msg)) (set_title lib msg st)

unfoldable pub read_user : Library → Fields → Reading → Reading
unfolding has_text lookup read_results extract_text
read_user lib obj st =
    if has_text "type" "user" obj
    then user_message lib (as_object (lookup "message" obj)) st
    else st
