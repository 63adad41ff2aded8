-- ===== src/Codex/Identified.antt =====
-- What the first line of a rollout says of the session, in every event of every read.
use burnmon.Base.{
  ℕ, ◌+◌, ◌<◌, lt→ltb, if_cases, String, true, false, ◌||◌, Option, none, some, List, [], ◌∷◌, ◌≡◌,
  refl, ◌==◌, ◌∙◌, ap, sym, string_eq, if◌then◌else◌, if_both, All, All-append, arith,
}
use burnmon.Schema.{Event}
use burnmon.Paths.{Os, session_id_from_path}
use burnmon.Store.Table.{row}
use burnmon.Claude.Json.{Fields, lookup, text_at, has_text}
use burnmon.Claude.Lines.{PendingCall, pending_id}
use burnmon.Claude.Parse.{Line}
use burnmon.Codex.Meta.{
  Decoders, SessionMeta, Header, no_header, object_at, read_session_meta, header_model, header_line,
  scan_header_meta, tool_call_output_bytes,
}
use burnmon.Codex.Lines.{
  Rollout, start_with, set_turn_context, set_model, new_call, call_output, response_item, add_usage,
  token_count, usage_event, read_rollout_line,
}
use burnmon.Codex.Parse.{read_rollout, header_at, parse}

-- No session_meta line.
abbrev pub NotMeta : Option Fields → Type 0
NotMeta none = Unit
NotMeta (some obj) = (text_at "type" obj == "session_meta") ≡ false

-- A session_meta line with this payload, which names a folder.
abbrev pub IsMeta : Fields → Fields → Type 0
IsMeta payload obj =
    ((text_at "type" obj == "session_meta") ≡ true)
    × ((object_at "payload" (some obj) ≡ some payload)
        × (((read_session_meta payload).meta_cwd == "") ≡ false))

module _ (m : SessionMeta) where
  -- The event is filed under the session's folder and surface, and a sub-run's has no model.
  abbrev pub IsFiled : Event → Type 0
  IsFiled e =
      (e.project ≡ m.meta_cwd)
      × ((e.surface ≡ m.meta_surface) × (m.meta_sub_run ≡ true → e.model ≡ ""))

  abbrev Known : Rollout → Type 0
  Known st =
      ((st.cwd ≡ m.meta_cwd)
        × ((st.surface ≡ m.meta_surface) × (m.meta_sub_run ≡ true → st.model ≡ "")))
      × ((st.sub_run ≡ m.meta_sub_run) × All IsFiled st.events)

  abbrev Scanned : Header → Type 0
  Scanned h =
      ((h.head_cwd ≡ m.meta_cwd)
        × ((h.head_surface ≡ m.meta_surface) × (m.meta_sub_run ≡ true → h.head_model ≡ "")))
      × (h.head_sub_run ≡ m.meta_sub_run)

  module _ (named : (m.meta_cwd == "") ≡ false) where
    set_model-Known : (s : String) (st : Rollout) → Known st → Known (set_model s st)
    set_model-Known s st k = if_both Known (s == "") k (
        if_cases Known st.sub_run (λ sub. k)
          (λ main.
            let not_sub : m.meta_sub_run ≡ false = sym k.1.0 ∙ main in
            ((k.0.0, (k.0.1.0, λ sub. cc)), k.1)))

    set_cwd-same :
        (st : Rollout) (s : String) → Known st → (if st.cwd == "" then s else st.cwd) ≡ m.meta_cwd
    set_cwd-same st s k = rw (ap (λ (c : String). c == "") k.0.0 ∙ named) k.0.0

    set_turn_context-Known :
        (o : Option Fields) (st : Rollout) → Known st → Known (set_turn_context o st)
    set_turn_context-Known none st k = k
    set_turn_context-Known (some payload) st k =
        set_model-Known (text_at "model" payload)
          (record st { cwd = if st.cwd == "" then text_at "cwd" payload else st.cwd })
          ((set_cwd-same st (text_at "cwd" payload) k, k.0.1), k.1)

  new_call-Known :
      (d : Decoders) (obj payload : Fields) (raw : String) (st : Rollout)
      → Known st
      → Known (new_call d obj payload raw st)
  new_call-Known d obj payload raw st k =
      if_both Known (text_at "call_id" payload == "" || text_at "name" payload == "") k k

  call_output-Known :
      (id : String) (n : ℕ) (o : Option PendingCall) (st : Rollout)
      → Known st
      → Known (call_output id n o st)
  call_output-Known id n (some p) st k = k
  call_output-Known id n none st k = if_both Known (id == "") k k

  response_item-Known :
      (d : Decoders) (obj : Fields) (o : Option Fields) (st : Rollout)
      → Known st
      → Known (response_item d obj o st)
  response_item-Known d obj none st k = k
  response_item-Known d obj (some payload) st k =
      let kind = text_at "type" payload in
      let id = text_at "call_id" payload in
      if_both Known (kind == "function_call")
        (new_call-Known d obj payload (text_at "arguments" payload) st k)
        (if_both Known (kind == "custom_tool_call")
          (new_call-Known d obj payload (text_at "input" payload) st k)
          (if_both Known (kind == "function_call_output" || kind == "custom_tool_call_output")
            (call_output-Known id (tool_call_output_bytes (lookup "output" payload))
              (row pending_id id st.pending_calls) st k)
            k))

  module _ (d : Decoders) (session : String) (start : ℕ) where
    add_usage-Known :
        (obj payload : Fields) (o : Option Fields) (st : Rollout)
        → Known st
        → Known (add_usage d session start obj payload o st)
    unfolding usage_event
    add_usage-Known obj payload none st k = k
    add_usage-Known obj payload (some last) st k = (
      k.0,
      (
        k.1.0,
        All-append IsFiled st.events (usage_event d session start obj payload last st ∷ []) k.1.1
            (k.0, tt),
      ),
    )

    token_count-Known :
        (obj : Fields) (o : Option Fields) (st : Rollout)
        → Known st
        → Known (token_count d session start obj o st)
    token_count-Known obj none st k = k
    token_count-Known obj (some payload) st k =
        if_both Known (has_text "type" "token_count" payload)
          (add_usage-Known obj payload
            (object_at "last_token_usage" (object_at "info" (some payload))) st k)
          k

    read_rollout_line-Known :
        (m.meta_cwd == "") ≡ false
        → (o : Option Fields) (st : Rollout) → NotMeta o
        → Known st
        → Known (read_rollout_line d session start o st)
    unfolding read_rollout_line
    read_rollout_line-Known named none st h k = k
    read_rollout_line-Known named (some obj) st h k =
        let kind = text_at "type" obj in
        let payload = object_at "payload" (some obj) in
        rw h (
          if_both Known (kind == "turn_context") (set_turn_context-Known named payload st k) (
            if_both Known (kind == "response_item") (response_item-Known d obj payload st k)
              (if_both Known (kind == "event_msg") (token_count-Known obj payload st k) k)))

  read_rollout-Known :
      (m.meta_cwd == "") ≡ false
      → (d : Decoders) (session : String) (start : ℕ) (ls : List Line) (st : Rollout)
      → All (λ (l : Line). NotMeta l.decoded) ls
      → Known st
      → Known (read_rollout d session start ls st)
  unfolding read_rollout
  read_rollout-Known named d session start [] st h k = k
  read_rollout-Known named d session start (l ∷ ls) st h k =
      read_rollout-Known named d session (start + l.bytes) ls
        (read_rollout_line d session start l.decoded st) h.1
        (read_rollout_line-Known d session start named l.decoded st h.0 k)

  header_model-Scanned : (o : Option Fields) (h : Header) → Scanned h → Scanned (header_model o h)
  header_model-Scanned none h k = k
  header_model-Scanned (some payload) h k =
      if_cases Scanned (h.head_sub_run || text_at "model" payload == "") (λ kept. k)
        (λ main.
          let not_sub : h.head_sub_run ≡ false = ground arith in
          let other : m.meta_sub_run ≡ false = sym k.1 ∙ not_sub in
          ((k.0.0, (k.0.1.0, λ sub. cc)), k.1))

  header_line-Scanned :
      (o : Option Fields) (h : Header) → NotMeta o → Scanned h → Scanned (header_line o h)
  unfolding header_line
  header_line-Scanned none h n k = k
  header_line-Scanned (some obj) h n k = rw n (
      if_both Scanned (text_at "type" obj == "turn_context")
        (header_model-Scanned (object_at "payload" (some obj)) h k) k)

  scan_header_meta-Scanned :
      (os : List (Option Fields)) (h : Header)
      → All NotMeta os
      → Scanned h
      → Scanned (scan_header_meta os h)
  unfolding scan_header_meta
  scan_header_meta-Scanned [] h n k = k
  scan_header_meta-Scanned (o ∷ os) h n k =
      scan_header_meta-Scanned os (header_line o h) n.1 (header_line-Scanned o h n.0 k)

module _ (payload obj : Fields) (is : IsMeta payload obj) where
  abbrev meta_of : SessionMeta
  meta_of = read_session_meta payload

  header_line-first : Scanned meta_of (header_line (some obj) no_header)
  unfolding header_line
  header_line-first = rw (is.0, is.1.0) ((refl, (refl, λ sub. refl)), refl)

  read_rollout_line-first :
      (d : Decoders) (session : String) (start : ℕ)
      → Known meta_of (read_rollout_line d session start (some obj) (start_with no_header))
  unfolding read_rollout_line
  read_rollout_line-first d session start =
      rw (is.0, is.1.0) ((refl, (refl, λ sub. refl)), (refl, tt))

  parse-resumed :
      (d : Decoders) (os : Os) (path : String) (header : List (Option Fields)) (from : ℕ)
      (ls : List Line)
      → 0 < from
      → All NotMeta header
      → All (λ (l : Line). NotMeta l.decoded) ls
      → All (IsFiled meta_of) (parse d os path (some obj ∷ header) from false ls).events
  unfolding parse header_at scan_header_meta
  parse-resumed d os path header from ls later no_meta none_more =
      let session = session_id_from_path os path in
      let h = scan_header_meta header (header_line (some obj) no_header) in
      let k =
        scan_header_meta-Scanned meta_of header (header_line (some obj) no_header) no_meta
          header_line-first in
      rw (lt→ltb 0 from later)
        (read_rollout-Known meta_of is.1.1 d session from ls (start_with h) none_more
          (k.0, (k.1, tt))).1.1

  parse-whole :
      (d : Decoders) (os : Os) (path : String) (header : List (Option Fields)) (bytes : ℕ)
      (ls : List Line)
      → All (λ (l : Line). NotMeta l.decoded) ls
      → All
          (IsFiled meta_of)
          (parse d os path header 0 false
            (record { bytes = bytes; decoded = some obj } ∷ ls)).events
  unfolding parse header_at read_rollout
  parse-whole d os path header bytes ls none_more =
      let session = session_id_from_path os path in
      (read_rollout-Known meta_of is.1.1 d session (0 + bytes) ls
        (read_rollout_line d session 0 (some obj) (start_with no_header)) none_more
        (read_rollout_line-first d session 0)).1.1

  -- If the first line is a session_meta that names a folder and no other line is one, every event of
  -- a read of the whole file, and every event of a read that starts later, after a look at the
  -- header, has that folder and the surface of that originator; a sub-run's has no model.
  pub parse-IsFiled :
      (d : Decoders) (os : Os) (path : String) (header : List (Option Fields)) (bytes from : ℕ)
      (ls ms : List Line)
      → 0 < from
      → All NotMeta header
      → All (λ (l : Line). NotMeta l.decoded) ls
      → All (λ (l : Line). NotMeta l.decoded) ms
      → All
          (IsFiled meta_of)
          (parse d os path [] 0 false (record { bytes = bytes; decoded = some obj } ∷ ls)).events
        × All (IsFiled meta_of) (parse d os path (some obj ∷ header) from false ms).events
  parse-IsFiled d os path header bytes from ls ms later no_meta one more = (
    parse-whole d os path [] bytes ls one,
    parse-resumed d os path header from ms later no_meta more,
  )
