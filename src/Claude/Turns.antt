-- ===== src/Claude/Turns.antt =====
-- What one line of a transcript does to the turns and to the tool counts of a read.
use burnmon.Base.{
  ℕ, suc, String, not, Option, none, some, List, ◌≡◌, refl, ◌==◌, ◌∙◌, ap, length, ◌||◌, string_eq,
  if◌then◌else◌, if_both, Bool-cases, inl, inr,
}
use burnmon.Store.Table.{row}
use burnmon.Claude.Json.{
  Fields, Items, no_items, item, as_object, as_array, lookup, has_text, text_at,
}
use burnmon.Claude.Lines.{
  Library, Turn, Reading, read_line, read_user, read_assistant, user_message, results_of,
  read_results, read_result, result_item, file_result, set_title, set_cwd, assistant_message,
  tools_of, usage_turn, add_turn, pending_id, PendingCall,
}

-- A step that leaves the turns and the tool counts alone.
abbrev pub Untouched : Reading → Reading → Type 0
Untouched st st' = (st'.calls ≡ st.calls) × (st'.tool_counts ≡ st.tool_counts)

file_result-Untouched :
    (id : String) (n : ℕ) (o : Option PendingCall) (st : Reading)
    → Untouched st (file_result id n o st)
file_result-Untouched id n none st = (refl, refl)
file_result-Untouched id n (some p) st = (refl, refl)

result_item-Untouched : (o : Option Fields) (st : Reading) → Untouched st (result_item o st)
unfolding read_result
result_item-Untouched none st = (refl, refl)
result_item-Untouched (some block) st =
    if_both (Untouched st)
      (not (has_text "type" "tool_result" block) || text_at "tool_use_id" block == "") (refl, refl)
      (file_result-Untouched _ _ (row pending_id (text_at "tool_use_id" block) st.pending_calls) st)

Untouched-trans : (a b c : Reading) → Untouched a b → Untouched b c → Untouched a c
Untouched-trans a b c h k = (k.0 ∙ h.0, k.1 ∙ h.1)

read_results-Untouched : (xs : Items) (st : Reading) → Untouched st (read_results xs st)
unfolding read_results
read_results-Untouched no_items st = (refl, refl)
read_results-Untouched (item v xs) st =
    let st' = result_item (as_object v) st in
    Untouched-trans st st' (read_results xs st') (result_item-Untouched (as_object v) st)
      (read_results-Untouched xs st')

results_of-Untouched : (o : Option Items) (st : Reading) → Untouched st (results_of o st)
results_of-Untouched none st = (refl, refl)
results_of-Untouched (some xs) st = read_results-Untouched xs st

set_title-Untouched :
    (lib : Library) (msg : Fields) (st : Reading) → Untouched st (set_title lib msg st)
set_title-Untouched lib msg st = if_both (Untouched st) (st.title == "") (refl, refl) (refl, refl)

user_message-Untouched :
    (lib : Library) (o : Option Fields) (st : Reading) → Untouched st (user_message lib o st)
user_message-Untouched lib none st = (refl, refl)
user_message-Untouched lib (some msg) st =
    let st' = set_title lib msg st in
    let o = as_array (lookup "content" msg) in
    Untouched-trans st st' (results_of o st') (set_title-Untouched lib msg st)
      (results_of-Untouched o st')

read_user-Untouched :
    (lib : Library) (obj : Fields) (st : Reading) → Untouched st (read_user lib obj st)
unfolding read_user
read_user-Untouched lib obj st =
    if_both (Untouched st) (has_text "type" "user" obj)
      (user_message-Untouched lib (as_object (lookup "message" obj)) st) (refl, refl)

set_cwd-Untouched : (obj : Fields) (st : Reading) → Untouched st (set_cwd obj st)
set_cwd-Untouched obj st = if_both (Untouched st) (st.cwd == "") (refl, refl) (refl, refl)

-- The state in which a line comes to its "assistant" part.
abbrev pub at_assistant : Library → Fields → Reading → Reading
at_assistant lib obj st = read_user lib obj (set_cwd obj (record st { row_idx = suc st.row_idx }))

pub at_assistant-Untouched :
    (lib : Library) (obj : Fields) (st : Reading) → Untouched st (at_assistant lib obj st)
at_assistant-Untouched lib obj st =
    let st1 = record st { row_idx = suc st.row_idx } in
    let st2 = set_cwd obj st1 in
    Untouched-trans st st2 (read_user lib obj st2) (set_cwd-Untouched obj st1)
      (read_user-Untouched lib obj st2)

-- The turn of an assistant line, if it is one; `n` is the length of `order`.
abbrev pub message_turn : Library → Fields → Option Fields → ℕ → Option Turn
message_turn lib obj none n = none
message_turn lib obj (some msg) n = usage_turn lib obj msg n

unfoldable pub line_turn : Library → Fields → ℕ → Option Turn
line_turn lib obj n =
    if has_text "type" "assistant" obj
    then message_turn lib obj (as_object (lookup "message" obj)) n
    else none

tools_of-calls :
    (lib : Library) (obj : Fields) (o : Option Items) (st : Reading)
    → (tools_of lib obj o st).calls ≡ st.calls
tools_of-calls lib obj none st = refl
tools_of-calls lib obj (some xs) st = refl

assistant_message-calls :
    (lib : Library) (obj : Fields) (o : Option Fields) (st : Reading)
    → (assistant_message lib obj o st).calls
      ≡ add_turn (message_turn lib obj o (length st.calls)) st.calls
assistant_message-calls lib obj none st = refl
assistant_message-calls lib obj (some msg) st =
    rw (tools_of-calls lib obj (as_array (lookup "content" msg)) st) refl

read_assistant-calls :
    (lib : Library) (obj : Fields) (st : Reading)
    → (read_assistant lib obj st).calls ≡ add_turn (line_turn lib obj (length st.calls)) st.calls
unfolding read_assistant line_turn
read_assistant-calls lib obj st = elim (Bool-cases (has_text "type" "assistant" obj)) [
  | inl e ↦ rw e (assistant_message-calls lib obj (as_object (lookup "message" obj)) st)
  | inr e ↦ rw e refl
]

-- A line adds its turn to the ones before it.
pub read_line-calls :
    (lib : Library) (obj : Fields) (st : Reading)
    → (read_line lib (some obj) st).calls ≡ add_turn (line_turn lib obj (length st.calls)) st.calls
unfolding read_line
read_line-calls lib obj st =
    read_assistant-calls lib obj (at_assistant lib obj st)
    ∙ ap (λ (ts : List Turn). add_turn (line_turn lib obj (length ts)) ts)
        (at_assistant-Untouched lib obj st).0
