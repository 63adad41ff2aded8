-- ===== src/Claude/Distinct.antt =====
-- The events of one read of a transcript have different keys in the store.
use burnmon.Base.{
  String, Bool, true, false, Option, none, some, List, [], ◌∷◌, ◌≡◌, refl, ◌==◌, ◌∙◌, sym, subst,
  any, filter, map, All, ℕ, All-imp, All-map, Bool-cases, inl, inr, arith, string_eq, if_both,
  ==_comm, ==_refl,
}
use burnmon.Schema.{Event, event_key, key_eq}
use burnmon.Paths.{Os, session_id_from_path}
use burnmon.Store.Table.{Unique-append, Unique, Absent, upsert-Unique}
use burnmon.Claude.Json.{Fields, Items, as_object, as_array, lookup, has_text, classify_surface}
use burnmon.Claude.Lines.{
  Library, Turn, TurnTools, ToolCount, Reading, new_reading, turn_key, tools_turn, join_tools,
  keep_tools, tools_of, assistant_message, read_assistant, read_line,
}
use burnmon.Claude.Turns.{at_assistant, at_assistant-Untouched}
use burnmon.Claude.Flags.{read_lines-Unique}
use burnmon.Claude.Parse.{
  Line, read_lines, events_of, turn_event, orphan_event, is_orphan, parse_transcript,
}
use burnmon.Claude.Cloud.{DropFile, is_cloud_drop_path, parse}

-- The entries of toolCounts have different turns.
keep_tools-Unique :
    (turn : String) (counts : List ToolCount) (all : List TurnTools)
    → Unique tools_turn all
    → Unique tools_turn (keep_tools turn counts all)
keep_tools-Unique turn [] all u = u
keep_tools-Unique turn (c ∷ cs) all u =
    upsert-Unique tools_turn join_tools (λ x r e. refl) (record { turn = turn; counts = c ∷ cs })
      all u

tools_of-Unique :
    (lib : Library) (obj : Fields) (o : Option Items) (st : Reading)
    → Unique tools_turn st.tool_counts
    → Unique tools_turn (tools_of lib obj o st).tool_counts
tools_of-Unique lib obj none st u = u
tools_of-Unique lib obj (some xs) st u = keep_tools-Unique _ _ st.tool_counts u

assistant_message-Unique :
    (lib : Library) (obj : Fields) (o : Option Fields) (st : Reading)
    → Unique tools_turn st.tool_counts
    → Unique tools_turn (assistant_message lib obj o st).tool_counts
assistant_message-Unique lib obj none st u = u
assistant_message-Unique lib obj (some msg) st u =
    tools_of-Unique lib obj (as_array (lookup "content" msg)) st u

read_assistant-Unique :
    (lib : Library) (obj : Fields) (st : Reading)
    → Unique tools_turn st.tool_counts
    → Unique tools_turn (read_assistant lib obj st).tool_counts
unfolding read_assistant
read_assistant-Unique lib obj st u =
    if_both (λ (r : Reading). Unique tools_turn r.tool_counts) (has_text "type" "assistant" obj)
      (assistant_message-Unique lib obj (as_object (lookup "message" obj)) st u) u

read_lines-tools_Unique :
    (lib : Library) (ls : List Line) (st : Reading)
    → Unique tools_turn st.tool_counts
    → Unique tools_turn (read_lines lib ls st).tool_counts
unfolding read_lines read_line
read_lines-tools_Unique lib [] st u = u
read_lines-tools_Unique lib (l ∷ ls) st u =
    read_lines-tools_Unique lib ls (read_line lib l.decoded st) (go l.decoded)
  where
    go : (o : Option Fields) → Unique tools_turn (read_line lib o st).tool_counts
    go none = u
    go (some obj) = read_assistant-Unique lib obj (at_assistant lib obj st) (
        subst (λ (ts : List TurnTools). Unique tools_turn ts)
          (sym (at_assistant-Untouched lib obj st).1) u)

All-filter :
    (P : TurnTools → Type 0) (p : TurnTools → Bool) (ts : List TurnTools)
    → All P ts
    → All P (filter p ts)
All-filter P p [] h = tt
All-filter P p (t ∷ ts) h =
    if_both (λ (l : List TurnTools). All P l) (p t) (h.0, All-filter P p ts h.1)
      (All-filter P p ts h.1)

filter-Unique :
    (p : TurnTools → Bool) (ts : List TurnTools)
    → Unique tools_turn ts
    → Unique tools_turn (filter p ts)
filter-Unique p [] u = tt
filter-Unique p (t ∷ ts) u =
    if_both (λ (l : List TurnTools). Unique tools_turn l) (p t)
      (All-filter (λ (x : TurnTools). (x.turn == t.turn) ≡ false) p ts u.0, filter-Unique p ts u.1)
      (filter-Unique p ts u.1)

module _ (lib : Library) (surface session : String) (st : Reading) where
  -- Two events of the session differ where their requests do.
  turns-Unique :
      (ts : List Turn)
      → Unique turn_key ts
      → Unique event_key (map (turn_event lib surface session st) ts)
  unfolding turn_event
  turns-Unique [] u = tt
  turns-Unique (t ∷ ts) u = (
    All-map
        (λ (x : Event). (event_key x == event_key (turn_event lib surface session st t)) ≡ false)
        (turn_event lib surface session st) ts (All-imp ts (λ x h. rw (==_refl session) h) u.0),
    turns-Unique ts u.1,
  )

  orphans-Unique :
      (ts : List TurnTools)
      → Unique tools_turn ts
      → Unique event_key (map (orphan_event surface session st) ts)
  unfolding orphan_event
  orphans-Unique [] u = tt
  orphans-Unique (t ∷ ts) u = (
    All-map (λ (x : Event). (event_key x == event_key (orphan_event surface session st t)) ≡ false)
        (orphan_event surface session st) ts (All-imp ts (λ x h. rw (==_refl session) h) u.0),
    orphans-Unique ts u.1,
  )

All-swap :
    (R : Turn → TurnTools → Type 0) (cs : List Turn) (os : List TurnTools)
    → All (λ (o : TurnTools). All (λ (c : Turn). R c o) cs) os
    → All (λ (c : Turn). All (R c) os) cs
All-swap R [] os h = tt
All-swap R (c ∷ cs) os h = (All-imp os (λ o k. k.0) h, All-swap R cs os (All-imp os (λ o k. k.1) h))

-- An entry of toolCounts that no turn has.
abbrev Apart : Turn → TurnTools → Type 0
Apart c o = (o.turn == c.key) ≡ false

any-Apart :
    (cs : List Turn) (o : TurnTools)
    → any (λ (c : Turn). c.key == o.turn) cs ≡ false
    → All (λ (c : Turn). Apart c o) cs
any-Apart [] o h = tt
any-Apart (c ∷ cs) o h = (==_comm o.turn c.key ∙ ground arith, any-Apart cs o (ground arith))

orphans-Apart :
    (cs : List Turn) (os : List TurnTools)
    → All (λ (o : TurnTools). All (λ (c : Turn). Apart c o) cs) (filter (is_orphan cs) os)
unfolding is_orphan
orphans-Apart cs [] = tt
orphans-Apart cs (o ∷ os) = elim (Bool-cases (any (λ (c : Turn). c.key == o.turn) cs)) [
  | inl e ↦ rw e (orphans-Apart cs os)
  | inr e ↦ rw e (any-Apart cs o e, orphans-Apart cs os)
]

module _ (lib : Library) (surface session : String) (st : Reading) where
  turns_orphans-Absent :
      (ts : List Turn) (os : List TurnTools)
      → All (λ (c : Turn). All (Apart c) os) ts
      → All
          (λ (e : Event). Absent event_key (event_key e) (map (orphan_event surface session st) os))
          (map (turn_event lib surface session st) ts)
  unfolding turn_event orphan_event
  turns_orphans-Absent ts os h =
      All-map
        (λ (e : Event). Absent event_key (event_key e) (map (orphan_event surface session st) os))
        (turn_event lib surface session st) ts
        (All-imp ts
          (λ c k.
            All-map
              (λ (x : Event).
                (event_key x == event_key (turn_event lib surface session st c)) ≡ false)
              (orphan_event surface session st) os (All-imp os (λ o r. rw (==_refl session) r) k))
          h)

parse_transcript-Unique :
    (lib : Library) (os : Os) (path : String) (from : ℕ) (ls : List Line)
    → Unique event_key (parse_transcript lib os path from false ls).events
unfolding parse_transcript events_of
parse_transcript-Unique lib os path from ls =
    let st = read_lines lib ls new_reading in
    let surface = classify_surface path st.cwd in
    let session = session_id_from_path os path in
    Unique-append event_key (map (turn_event lib surface session st) st.calls)
      (map (orphan_event surface session st) (filter (is_orphan st.calls) st.tool_counts))
      (turns-Unique lib surface session st st.calls (read_lines-Unique lib ls new_reading tt))
      (orphans-Unique lib surface session st (filter (is_orphan st.calls) st.tool_counts) (
        filter-Unique (is_orphan st.calls) st.tool_counts
          (read_lines-tools_Unique lib ls new_reading tt)))
      (turns_orphans-Absent lib surface session st st.calls
        (filter (is_orphan st.calls) st.tool_counts)
        (All-swap Apart st.calls (filter (is_orphan st.calls) st.tool_counts)
          (orphans-Apart st.calls st.tool_counts)))

-- In the events that Parse reads of a transcript, of a path that is no cloud drop's, no two have the
-- same key in the store: there is one for a request, whether a line of usage gave it or only its tools
-- did.
pub parse-Unique :
    (lib : Library) (os : Os) (path : String) (from : ℕ) (fails : Bool) (ls : List Line)
    (drop : DropFile)
    → is_cloud_drop_path path ≡ false
    → Unique event_key (parse lib os path from fails ls drop).events
unfolding parse parse_transcript
parse-Unique lib os path from fails ls drop transcript = rw transcript (go fails)
  where
    go : (b : Bool) → Unique event_key (parse_transcript lib os path from b ls).events
    go true = tt
    go false = parse_transcript-Unique lib os path from ls
