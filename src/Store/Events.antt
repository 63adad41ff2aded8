-- ===== src/Store/Events.antt =====
-- `UpsertEvents`: the conflict rule, the statement and its transaction.
pub mod Laws
use burnmon.Base.{
  ℕ, suc, Bool, true, false, Option, none, some, List, [], ◌∷◌, ◌==◌, lt64, if◌then◌else◌,
}
use burnmon.Schema.{Event, event_key, key_eq}
use burnmon.Store.Db.{Db, Faults, Error, transaction}
use burnmon.Store.Table.{upsert}

-- The DO UPDATE of the statement, which sets every column, behind its WHERE.
unfoldable pub resolve_event : Event → Event → Event
resolve_event old new = if lt64 old.output new.output then new else old

unfoldable pub upsert_event : Event → List Event → List Event
unfolding upsert resolve_event
upsert_event e t = upsert event_key resolve_event e t

-- The loop over the batch; `i` counts its rounds.
unfoldable pub exec_events : Faults → ℕ → List Event → List Event → Option (List Event)
unfolding upsert_event
exec_events f i [] t = some t
exec_events f i (e ∷ es) t =
    let rest = exec_events f (suc i) es (upsert_event e t) in if f.exec i then none else rest

unfoldable pub upsert_events_body : Faults → List Event → Db → Option Db
unfolding exec_events
upsert_events_body f es db = if f.prepare then none else elim (exec_events f 0 es db.events) [
  | none ↦ none
  | some t ↦ some (record db { events = t })
]

unfoldable pub upsert_events : Faults → List Event → Db → Db × Option Error
unfolding upsert_events_body transaction
upsert_events f [] db = (db, none)
upsert_events f (e ∷ es) db = transaction f (upsert_events_body f (e ∷ es)) db
