-- ===== src/Store/Prune.antt =====
-- `DeleteEventsForOtherPaths`: forget the transcripts that are gone.
pub mod Laws
pub mod Moved
use burnmon.Base.{
  ℕ, suc, String, Bool, true, false, not, ◌&&◌, Option, none, some, List, [], ◌∷◌, ◌==◌, string_eq,
  if◌then◌else◌, filter, any,
}
use burnmon.Paths.{Os, session_id_from_path}
use burnmon.Schema.{Event}
use burnmon.Store.Db.{Db, CursorRow, Faults, Error, query_failed, transaction}

-- `keep[p]`
abbrev pub kept : List String → String → Bool
kept keep p = any (λ q. q == p) keep

-- The paths of the cursors that no longer name a listed file.
unfoldable pub stale_paths : List String → List CursorRow → List String
stale_paths keep [] = []
stale_paths keep (c ∷ cs) =
    if kept keep c.path then stale_paths keep cs else c.path ∷ stale_paths keep cs

-- DELETE FROM events WHERE session_id = ?
unfoldable pub delete_session : String → List Event → List Event
delete_session sid t = filter (λ e. not (e.session_id == sid)) t

-- DELETE FROM cursors WHERE path = ?
unfoldable pub delete_cursor : String → List CursorRow → List CursorRow
delete_cursor p t = filter (λ c. not (c.path == p)) t

-- One round of the loop: the events only if the path gives a session id.
unfoldable pub forget : Os → String → Db → Db
unfolding delete_session delete_cursor session_id_from_path
forget os p db =
    let sid = session_id_from_path os p in
    record db {
      events = if not (sid == "") then delete_session sid db.events else db.events;
      cursors = delete_cursor p db.cursors;
    }

unfoldable pub forget_all : Os → Faults → ℕ → List String → Db → Option Db
unfolding forget
forget_all os f i [] db = some db
forget_all os f i (p ∷ ps) db =
    let rest = forget_all os f (suc i) ps (forget os p db) in if f.exec i then none else rest

-- The second half of the call, from `len(stale) == 0` on.
unfoldable pub delete_stale : Os → Faults → List String → Db → Db × Option Error
unfolding forget_all transaction
delete_stale os f [] db = (db, none)
delete_stale os f (p ∷ ps) db = transaction f (forget_all os f 0 (p ∷ ps)) db

unfoldable pub delete_events_for_other_paths : Os → Faults → List String → Db → Db × Option Error
unfolding stale_paths delete_stale
delete_events_for_other_paths os f keep db =
    if f.query then (db, some query_failed) else delete_stale os f (stale_paths keep db.cursors) db
