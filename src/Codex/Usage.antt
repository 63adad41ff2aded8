-- ===== src/Codex/Usage.antt =====
-- The usage that the events of a rollout carry, in one read or two.
use burnmon.Base.{
  ℕ, String, false, ◌||◌, Option, none, some, List, [], ◌∷◌, ◌++◌, ◌+◌, ◌≡◌, refl, ◌==◌, ◌∙◌, ap,
  sym, map, map-append, append-nil, append_assoc, string_eq, if◌then◌else◌, if_both, Bool-cases,
  inl, inr,
}
use burnmon.Schema.{Event}
use burnmon.Paths.{Os, session_id_from_path}
use burnmon.Store.Table.{row}
use burnmon.Claude.Json.{Fields, lookup, text_at, has_text}
use burnmon.Claude.Lines.{PendingCall, pending_id}
use burnmon.Claude.Parse.{Line, advance}
use burnmon.Codex.Meta.{Decoders, object_at, no_header, tool_call_output_bytes}
use burnmon.Codex.Lines.{
  Rollout, start_with, set_session_meta, set_turn_context, set_model, new_call, call_output,
  response_item, add_usage, token_count, usage_event, read_rollout_line,
}
use burnmon.Codex.Parse.{read_rollout, header_at, parse}

-- An event without what the lines before it say of the session: its model, its folder, its surface
-- and its title.
unfoldable pub usage_of : Event → Event
usage_of e = record e { model = ""; project = ""; surface = ""; title = "" }

abbrev pub usages : List Event → List Event
usages es = map usage_of es

abbrev pub blank : Rollout
blank = start_with no_header

-- A step that adds the same usage as it does to a blank state.
abbrev Adds : Rollout → Rollout → Rollout → Type 0
Adds st st' new = usages st'.events ≡ usages st.events ++ usages new.events

Adds-nothing : (st st' new : Rollout) → st'.events ≡ st.events → new.events ≡ [] → Adds st st' new
Adds-nothing st st' new same none_new =
    ap usages same
    ∙ sym (append-nil (usages st.events))
    ∙ ap (λ es. usages st.events ++ usages es) (sym none_new)

pub set_session_meta-events :
    (o : Option Fields) (st : Rollout) → (set_session_meta o st).events ≡ st.events
set_session_meta-events none st = refl
set_session_meta-events (some payload) st = refl

set_model-events : (m : String) (st : Rollout) → (set_model m st).events ≡ st.events
set_model-events m st =
    if_both (λ (x : Rollout). x.events ≡ st.events) (m == "") refl
      (if_both (λ (x : Rollout). x.events ≡ st.events) st.sub_run refl refl)

pub set_turn_context-events :
    (o : Option Fields) (st : Rollout) → (set_turn_context o st).events ≡ st.events
set_turn_context-events none st = refl
set_turn_context-events (some payload) st =
    set_model-events (text_at "model" payload)
      (record st { cwd = if st.cwd == "" then text_at "cwd" payload else st.cwd })

new_call-events :
    (d : Decoders) (obj payload : Fields) (raw : String) (st : Rollout)
    → (new_call d obj payload raw st).events ≡ st.events
new_call-events d obj payload raw st =
    if_both (λ (x : Rollout). x.events ≡ st.events)
      (text_at "call_id" payload == "" || text_at "name" payload == "") refl refl

call_output-events :
    (id : String) (n : ℕ) (o : Option PendingCall) (st : Rollout)
    → (call_output id n o st).events ≡ st.events
call_output-events id n (some p) st = refl
call_output-events id n none st =
    if_both (λ (x : Rollout). x.events ≡ st.events) (id == "") refl refl

pub response_item-events :
    (d : Decoders) (obj : Fields) (o : Option Fields) (st : Rollout)
    → (response_item d obj o st).events ≡ st.events
response_item-events d obj none st = refl
response_item-events d obj (some payload) st =
    let kind = text_at "type" payload in
    let id = text_at "call_id" payload in
    let Same : Rollout → Type 0 = λ x. x.events ≡ st.events in
    if_both Same (kind == "function_call") (new_call-events d obj payload _ st) (
      if_both Same (kind == "custom_tool_call") (new_call-events d obj payload _ st) (
        if_both Same (kind == "function_call_output" || kind == "custom_tool_call_output")
          (call_output-events id (tool_call_output_bytes (lookup "output" payload))
            (row pending_id id st.pending_calls) st)
          refl))

module _ (d : Decoders) (session : String) (start : ℕ) where
  add_usage-Adds :
      (obj payload : Fields) (o : Option Fields) (st : Rollout)
      → Adds st
          (add_usage d session start obj payload o st)
          (add_usage d session start obj payload o blank)
  unfolding usage_of usage_event
  add_usage-Adds obj payload none st = sym (append-nil (usages st.events))
  add_usage-Adds obj payload (some last) st =
      map-append usage_of st.events (usage_event d session start obj payload last st ∷ [])

  token_count-Adds :
      (obj : Fields) (o : Option Fields) (st : Rollout)
      → Adds st (token_count d session start obj o st) (token_count d session start obj o blank)
  token_count-Adds obj none st = sym (append-nil (usages st.events))
  token_count-Adds obj (some payload) st =
      elim (Bool-cases (has_text "type" "token_count" payload)) [
        | inl e ↦ rw e (
            add_usage-Adds obj payload
              (object_at "last_token_usage" (object_at "info" (some payload))) st)
        | inr e ↦ rw e (sym (append-nil (usages st.events)))
      ]

  pub read_rollout_line-Adds :
      (o : Option Fields) (st : Rollout)
      → usages (read_rollout_line d session start o st).events
        ≡ usages st.events ++ usages (read_rollout_line d session start o blank).events
  unfolding read_rollout_line
  read_rollout_line-Adds none st = sym (append-nil (usages st.events))
  read_rollout_line-Adds (some obj) st =
      let kind = text_at "type" obj in
      let payload = object_at "payload" (some obj) in
      elim (Bool-cases (kind == "session_meta")) [
        | inl e ↦ rw e (
            Adds-nothing st (set_session_meta payload st) (set_session_meta payload blank)
              (set_session_meta-events payload st) (set_session_meta-events payload blank))
        | inr n1 ↦ elim (Bool-cases (kind == "turn_context")) [
          | inl e ↦
              rw (n1, e)
                (Adds-nothing st (set_turn_context payload st) (set_turn_context payload blank)
                  (set_turn_context-events payload st) (set_turn_context-events payload blank))
          | inr n2 ↦ elim (Bool-cases (kind == "response_item")) [
            | inl e ↦
                rw (n1, n2, e)
                  (Adds-nothing st (response_item d obj payload st)
                    (response_item d obj payload blank) (response_item-events d obj payload st)
                    (response_item-events d obj payload blank))
            | inr n3 ↦ elim (Bool-cases (kind == "event_msg")) [
              | inl e ↦ rw (n1, n2, n3, e) (token_count-Adds obj payload st)
              | inr n4 ↦ rw (n1, n2, n3, n4) (sym (append-nil (usages st.events)))
            ]
          ]
        ]
      ]

-- The usage of each line, by its offset.
unfoldable pub line_usages : Decoders → String → ℕ → List Line → List Event
line_usages d session start [] = []
line_usages d session start (l ∷ ls) =
    usages (read_rollout_line d session start l.decoded blank).events
    ++ line_usages d session (start + l.bytes) ls

pub read_rollout-usages :
    (d : Decoders) (session : String) (start : ℕ) (ls : List Line) (st : Rollout)
    → usages (read_rollout d session start ls st).events
      ≡ usages st.events ++ line_usages d session start ls
unfolding read_rollout line_usages
read_rollout-usages d session start [] st = sym (append-nil (usages st.events))
read_rollout-usages d session start (l ∷ ls) st =
    let new = usages (read_rollout_line d session start l.decoded blank).events in
    read_rollout-usages d session (start + l.bytes) ls
      (read_rollout_line d session start l.decoded st)
    ∙ ap (λ es. es ++ line_usages d session (start + l.bytes) ls)
        (read_rollout_line-Adds d session start l.decoded st)
    ∙ append_assoc (usages st.events) new (line_usages d session (start + l.bytes) ls)

line_usages-append :
    (d : Decoders) (session : String) (start : ℕ) (ls ms : List Line)
    → line_usages d session start (ls ++ ms)
      ≡ line_usages d session start ls ++ line_usages d session (advance start ls) ms
unfolding line_usages advance
line_usages-append d session start [] ms = refl
line_usages-append d session start (l ∷ ls) ms =
    ap (λ es. usages (read_rollout_line d session start l.decoded blank).events ++ es)
      (line_usages-append d session (start + l.bytes) ls ms)
    ∙ sym (
        append_assoc (usages (read_rollout_line d session start l.decoded blank).events)
          (line_usages d session (start + l.bytes) ls)
          (line_usages d session (advance (start + l.bytes) ls) ms))

-- Whatever the header of the file says at each read: the events of one read of all lines are those
-- of two reads, the second from the offset that the first one returned, in order, with the same
-- keys, times, tokens and rate limits. Only the model, the folder, the surface and the title of an
-- event, which earlier lines give, may differ.
pub parse-usages :
    (d : Decoders) (os : Os) (path : String) (header header' header'' : List (Option Fields))
    (from : ℕ) (ls ms : List Line)
    → usages (parse d os path header from false (ls ++ ms)).events
      ≡ usages (parse d os path header' from false ls).events
        ++ usages
            (parse d os path header''
              (parse d os path header' from false ls).offset
              false
              ms).events
unfolding parse
parse-usages d os path header header' header'' from ls ms =
    let session = session_id_from_path os path in
    let next = advance from ls in
    read_rollout-usages d session from (ls ++ ms) (start_with (header_at from header))
    ∙ line_usages-append d session from ls ms
    ∙ ap (λ es. es ++ line_usages d session next ms)
        (sym (read_rollout-usages d session from ls (start_with (header_at from header'))))
    ∙ ap
        (λ es.
          usages (read_rollout d session from ls (start_with (header_at from header'))).events
          ++ es)
        (sym (read_rollout-usages d session next ms (start_with (header_at next header''))))
