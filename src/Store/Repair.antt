-- ===== src/Store/Repair.antt =====
-- The calls that mend a store: `ResetCollapsedCodexSessions`, `PurgeAuditSessions`, `ReownEvents`.
-- A range over a Go map is a list in first-seen order.
pub mod Reset
mod Tests
pub mod Reown
use Prim.Native.String.{◌++◌ as join}
use burnmon.Base.{
  ℕ, suc, ◌+◌, String, Bool, true, false, not, ◌&&◌, ◌||◌, Option, none, some, List, [], ◌∷◌,
  length, map, ◌==◌, string_eq, if◌then◌else◌, filter, any, codes, codes_beq, lower_rune, nat_beq,
}
use burnmon.Paths.{Os, session_id_from_path}
use burnmon.Schema.{Event, ToolCall, event_key, key_eq}
use burnmon.Store.Db.{
  Db, CursorRow, MetaRow, Faults, Error, statement_failed, query_failed, Outcome, done, failed,
  transact,
}
use burnmon.Store.Table.{row, upsert}

-- WHERE vendor = 'openai' AND agent = 'codex' AND request_id = session_id || ':0'
abbrev pub is_collapsed : Event → Bool
is_collapsed e =
    e.vendor == "openai" && e.agent == "codex" && e.request_id == join e.session_id ":0"

-- The keys of the map `collapsed`.
unfoldable pub add_once : String → List String → List String
add_once s ss = if any (λ t. t == s) ss then ss else s ∷ ss

unfoldable pub collapsed_sessions : List Event → List String
unfolding add_once
collapsed_sessions [] = []
collapsed_sessions (e ∷ es) =
    if is_collapsed e then add_once e.session_id (collapsed_sessions es) else collapsed_sessions es

unfoldable pub collapsed_paths : Os → List String → List CursorRow → List String
collapsed_paths os sids [] = []
collapsed_paths os sids (c ∷ cs) =
    if any (λ s. s == session_id_from_path os c.path) sids
    then c.path ∷ collapsed_paths os sids cs
    else collapsed_paths os sids cs

-- The row is the collapsed one of this session.
abbrev pub is_collapsed_of : String → Event → Bool
is_collapsed_of sid e =
    e.vendor == "openai"
    && e.agent == "codex"
    && e.session_id == sid
    && e.request_id == join sid ":0"

-- The first loop: the rows that are left, and how many were deleted.
unfoldable pub delete_collapsed :
    Faults → ℕ → List String → List Event → ℕ → Option (List Event × ℕ)
delete_collapsed f i [] t n = some (t, n)
delete_collapsed f i (sid ∷ sids) t n =
    let rest =
      delete_collapsed f (suc i) sids (filter (λ e. not (is_collapsed_of sid e)) t)
        (n + length (filter (is_collapsed_of sid) t)) in
    if f.exec i then none else rest

-- The second loop; `cursors++` counts its rounds.
unfoldable pub delete_cursors :
    Faults → ℕ → List String → List CursorRow → ℕ → Option (List CursorRow × ℕ)
delete_cursors f i [] t n = some (t, n)
delete_cursors f i (p ∷ ps) t n =
    let rest = delete_cursors f (suc i) ps (filter (λ c. not (c.path == p)) t) (suc n) in
    if f.exec i then none else rest

-- Both loops; the second one's statements are numbered after the first one's.
unfoldable pub reset_body : Faults → List String → List String → Db → Option (Db × (ℕ × ℕ))
unfolding delete_collapsed delete_cursors
reset_body f sids ps db = elim (delete_collapsed f 0 sids db.events 0) [
  | none ↦ none
  | some (t, n) ↦ elim (delete_cursors f (length sids) ps db.cursors 0) [
    | none ↦ none
    | some (u, m) ↦ some (record db { events = t; cursors = u }, (n, m))
  ]
]

-- From `len(collapsed) == 0` on.
unfoldable pub reset_sessions : Os → Faults → List String → Db → Db × Outcome (ℕ × ℕ)
unfolding reset_body
reset_sessions os f [] db = (db, done (0, 0))
reset_sessions os f (s ∷ ss) db =
    if f.requery
    then (db, failed query_failed)
    else transact f (reset_body f (s ∷ ss) (collapsed_paths os (s ∷ ss) db.cursors)) db

unfoldable pub reset_collapsed_codex_sessions : Os → Faults → Db → Db × Outcome (ℕ × ℕ)
unfolding reset_sessions
reset_collapsed_codex_sessions os f db =
    if f.query
    then (db, failed query_failed)
    else reset_sessions os f (collapsed_sessions db.events) db

-- WHERE vendor = 'anthropic' AND session_id = 'audit'
abbrev pub is_audit_event : Event → Bool
is_audit_event e = e.vendor == "anthropic" && e.session_id == "audit"

abbrev pub is_audit_call : ToolCall → Bool
is_audit_call c = c.vendor == "anthropic" && c.session_id == "audit"

-- lower() of SQLite, which only folds A to Z, after replace(path, '\', '/').
abbrev pub sql_lower : ℕ → ℕ
sql_lower c = if nat_beq c 0x212a then c else if nat_beq c 0x130 then c else lower_rune c

abbrev pub slash : ℕ → ℕ
slash c = if nat_beq c b'\\' then b'/' else c

unfoldable pub ends_with : List ℕ → List ℕ → Bool
ends_with p [] = codes_beq p []
ends_with p (c ∷ s) = codes_beq p (c ∷ s) || ends_with p s

-- LIKE '%/audit.jsonl' of the slashed path, or the bare name.
unfoldable pub is_audit_cursor : CursorRow → Bool
unfolding ends_with lower_rune
is_audit_cursor c =
    ends_with (codes "/audit.jsonl") (map (λ x. sql_lower (slash x)) (codes c.path))
    || codes_beq (map sql_lower (codes c.path)) (codes "audit.jsonl")

abbrev pub AuditCounts : Type 0
AuditCounts = ℕ × (ℕ × ℕ)

-- The three statements; the counts are their RowsAffected.
unfoldable pub purge_body : Faults → Db → Option (Db × AuditCounts)
unfolding is_audit_cursor
purge_body f db =
    if f.exec 0 || f.exec 1 || f.exec 2
    then none
    else some (
      record db {
        events = filter (λ e. not (is_audit_event e)) db.events;
        tool_calls = filter (λ c. not (is_audit_call c)) db.tool_calls;
        cursors = filter (λ c. not (is_audit_cursor c)) db.cursors;
      },
      (
        length (filter is_audit_event db.events),
        (length (filter is_audit_call db.tool_calls), length (filter is_audit_cursor db.cursors)),
      ),
    )

unfoldable pub purge_audit_sessions : Faults → Db → Db × Outcome AuditCounts
unfolding purge_body
purge_audit_sessions f db = transact f (purge_body f) db

module _ (owner_for client_for : String → String) where
  -- The rule results of the row's project.
  abbrev pub owned : Event → Event
  owned e = record e { owner = owner_for e.project; client = client_for e.project }

  abbrev pub needs_reown : Event → Bool
  needs_reown e = not (owner_for e.project == e.owner) || not (client_for e.project == e.client)

  -- UPDATE ... WHERE the key is that of `u`: the owner and client found for `u`.
  unfoldable pub update_owner : Event → List Event → List Event
  update_owner u [] = []
  update_owner u (e ∷ es) =
      (if event_key e == event_key u
        then record e { owner = owner_for u.project; client = client_for u.project }
        else e)
      ∷ update_owner u es

  unfoldable pub exec_reown : Faults → ℕ → List Event → List Event → Option (List Event)
  unfolding update_owner
  exec_reown f i [] t = some t
  exec_reown f i (u ∷ us) t =
      let rest = exec_reown f (suc i) us (update_owner u t) in if f.exec i then none else rest

  unfoldable pub reown_body : Faults → List Event → Db → Option (Db × ℕ)
  unfolding exec_reown
  reown_body f us db = if f.prepare then none else elim (exec_reown f 0 us db.events) [
    | none ↦ none
    | some t ↦ some (record db { events = t }, length us)
  ]

  -- From `len(updates) == 0` on.
  unfoldable pub reown_updates : Faults → List Event → Db → Db × Outcome ℕ
  unfolding reown_body
  reown_updates f [] db = (db, done 0)
  reown_updates f (u ∷ us) db = transact f (reown_body f (u ∷ us)) db

  unfoldable pub reown_events : Faults → Db → Db × Outcome ℕ
  unfolding reown_updates
  reown_events f db =
      if f.query
      then (db, failed query_failed)
      else reown_updates f (filter needs_reown db.events) db
