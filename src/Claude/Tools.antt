-- ===== src/Claude/Tools.antt =====
-- Which requests a line of a transcript gives tool counts to.
use burnmon.Base.{
  ℕ, String, Bool, true, false, not, Option, none, some, List, [], ◌∷◌, ◌≡◌, refl, ◌==◌, ◌∙◌, ap,
  any, ◌&&◌, ◌||◌, string_eq, if◌then◌else◌, if_both, Bool-cases, inl, inr, sym,
}
use burnmon.Store.Table.{any-upsert}
use burnmon.Claude.Json.{
  Fields, Items, no_items, item, as_object, as_array, lookup, has_text, text_at, skill_tag,
}
use burnmon.Claude.Lines.{
  Library, Reading, LineTools, ToolCount, TurnTools, own_key, or_else, read_line, read_assistant,
  assistant_message, tools_of, read_tools, read_tool, tool_item, count_tool, keep_tools, tools_turn,
  join_tools, no_input,
}
use burnmon.Claude.Turns.{at_assistant, at_assistant-Untouched}

-- A tool_use block with a name.
unfoldable pub is_tool : Fields → Bool
is_tool block = not (not (has_text "type" "tool_use" block) || text_at "name" block == "")

abbrev pub item_tool : Option Fields → Bool
item_tool none = false
item_tool (some block) = is_tool block

unfoldable pub some_tool : Items → Bool
some_tool no_items = false
some_tool (item v xs) = item_tool (as_object v) || some_tool xs

abbrev pub non_empty : List ToolCount → Bool
non_empty [] = false
non_empty (c ∷ cs) = true

non_empty-count_tool : (name : String) (ts : List ToolCount) → non_empty (count_tool name ts) ≡ true
unfolding count_tool
non_empty-count_tool name [] = refl
non_empty-count_tool name (t ∷ ts) =
    if_both (λ (l : List ToolCount). non_empty l ≡ true) (t.tool == name) refl refl

or_true : (b : Bool) → (b || true) ≡ true
or_true true = refl
or_true false = refl

pub or_false : (b : Bool) → (b || false) ≡ b
or_false true = refl
or_false false = refl

pub or_assoc : (a b c : Bool) → ((a || b) || c) ≡ (a || (b || c))
or_assoc true b c = refl
or_assoc false b c = refl

read_tool-non_empty :
    (lib : Library) (turn ts : String) (block : Fields) (t : LineTools)
    → non_empty (read_tool lib turn ts block t).counts ≡ (non_empty t.counts || is_tool block)
unfolding read_tool is_tool
read_tool-non_empty lib turn ts block t =
    let tag = skill_tag (text_at "name" block) (no_input (as_object (lookup "input" block))) in
    elim (Bool-cases (not (has_text "type" "tool_use" block) || text_at "name" block == "")) [
      | inl e ↦ rw e (sym (or_false (non_empty t.counts)))
      | inr e ↦
          rw (e, or_true (non_empty t.counts))
            (if_both (λ (l : LineTools). non_empty l.counts ≡ true) (text_at "id" block == "")
              (non_empty-count_tool tag t.counts) (non_empty-count_tool tag t.counts))
    ]

tool_item-non_empty :
    (lib : Library) (turn ts : String) (o : Option Fields) (t : LineTools)
    → non_empty (tool_item lib turn ts o t).counts ≡ (non_empty t.counts || item_tool o)
tool_item-non_empty lib turn ts none t = sym (or_false (non_empty t.counts))
tool_item-non_empty lib turn ts (some block) t = read_tool-non_empty lib turn ts block t

read_tools-non_empty :
    (lib : Library) (turn ts : String) (xs : Items) (t : LineTools)
    → non_empty (read_tools lib turn ts xs t).counts ≡ (non_empty t.counts || some_tool xs)
unfolding read_tools some_tool
read_tools-non_empty lib turn ts no_items t = sym (or_false (non_empty t.counts))
read_tools-non_empty lib turn ts (item v xs) t =
    read_tools-non_empty lib turn ts xs (tool_item lib turn ts (as_object v) t)
    ∙ rw (tool_item-non_empty lib turn ts (as_object v) t)
        (or_assoc (non_empty t.counts) (item_tool (as_object v)) (some_tool xs))

-- The request has an entry.
abbrev pub has_tools : String → List TurnTools → Bool
has_tools k ts = any (λ (t : TurnTools). t.turn == k) ts

keep_tools-has_tools :
    (k turn : String) (counts : List ToolCount) (all : List TurnTools)
    → has_tools k (keep_tools turn counts all)
      ≡ (has_tools k all || (non_empty counts && turn == k))
keep_tools-has_tools k turn [] all = sym (or_false (has_tools k all))
keep_tools-has_tools k turn (c ∷ cs) all =
    any-upsert tools_turn join_tools (λ x r e. refl) k (record { turn = turn; counts = c ∷ cs }) all

abbrev pub is_key : String → Option String → Bool
is_key k none = false
is_key k (some s) = s == k

abbrev pub content_tools : String → Fields → Option Items → Bool
content_tools k obj none = false
content_tools k obj (some xs) = some_tool xs && is_key k (own_key obj)

abbrev pub message_tools : String → Fields → Option Fields → Bool
message_tools k obj none = false
message_tools k obj (some msg) = content_tools k obj (as_array (lookup "content" msg))

-- Whether a line counts a tool for the request `k`.
unfoldable pub line_tools : String → Fields → Bool
line_tools k obj =
    if has_text "type" "assistant" obj
    then message_tools k obj (as_object (lookup "message" obj))
    else false

module _ (lib : Library) (k : String) (named : (n : ℕ) → (lib.tool_row_name n == k) ≡ false) where
  or_else-is_key : (n : ℕ) (o : Option String) → (or_else o (lib.tool_row_name n) == k) ≡ is_key k o
  or_else-is_key n none = named n
  or_else-is_key n (some s) = refl

  tools_of-has_tools :
      (obj : Fields) (o : Option Items) (st : Reading)
      → has_tools k (tools_of lib obj o st).tool_counts
        ≡ (has_tools k st.tool_counts || content_tools k obj o)
  tools_of-has_tools obj none st = sym (or_false (has_tools k st.tool_counts))
  tools_of-has_tools obj (some xs) st =
      let turn = or_else (own_key obj) (lib.tool_row_name st.row_idx) in
      let t0 : LineTools = record {
        counts = [];
        waiting = st.pending_calls;
        order = st.tool_call_order;
      } in
      let t = read_tools lib turn (text_at "timestamp" obj) xs t0 in
      keep_tools-has_tools k turn t.counts st.tool_counts
      ∙ rw
          (
            read_tools-non_empty lib turn (text_at "timestamp" obj) xs t0,
            or_else-is_key st.row_idx (own_key obj),
          )
          refl

  assistant_message-has_tools :
      (obj : Fields) (o : Option Fields) (st : Reading)
      → has_tools k (assistant_message lib obj o st).tool_counts
        ≡ (has_tools k st.tool_counts || message_tools k obj o)
  assistant_message-has_tools obj none st = sym (or_false (has_tools k st.tool_counts))
  assistant_message-has_tools obj (some msg) st =
      tools_of-has_tools obj (as_array (lookup "content" msg)) st

  read_assistant-has_tools :
      (obj : Fields) (st : Reading)
      → has_tools k (read_assistant lib obj st).tool_counts
        ≡ (has_tools k st.tool_counts || line_tools k obj)
  unfolding read_assistant line_tools
  read_assistant-has_tools obj st = elim (Bool-cases (has_text "type" "assistant" obj)) [
    | inl e ↦ rw e (assistant_message-has_tools obj (as_object (lookup "message" obj)) st)
    | inr e ↦ rw e (sym (or_false (has_tools k st.tool_counts)))
  ]

  pub read_line-has_tools :
      (obj : Fields) (st : Reading)
      → has_tools k (read_line lib (some obj) st).tool_counts
        ≡ (has_tools k st.tool_counts || line_tools k obj)
  unfolding read_line
  read_line-has_tools obj st =
      read_assistant-has_tools obj (at_assistant lib obj st)
      ∙ ap (λ (ts : List TurnTools). has_tools k ts || line_tools k obj)
          (at_assistant-Untouched lib obj st).1
