-- ===== src/Dataset/Ingest.antt =====
-- `ingest`: every new byte of every file is parsed by the file's adapter and stored, and the file's
-- cursor advances. The adapters' Parse, os.Stat and the owner and client rules are parameters, with
-- the database calls that fail. The client memo is left out, since the rule is a function, and so
-- are progress calls and logs.
pub mod Resume
pub mod Batches
pub mod Again
use burnmon.Base.{
  ℕ, zero, suc, String, Bool, true, false, not, ◌&&◌, ◌||◌, Option, none, some, List, [], ◌∷◌,
  length, map, take, drop, ltb, ◌==◌, nat_eq, if◌then◌else◌,
}
use burnmon.Paths.{Os}
use burnmon.Schema.{Event, ToolCall}
use burnmon.Store.Db.{Db, CursorRow, Faults, Error, query_failed}
use burnmon.Store.Events.{upsert_events}
use burnmon.Store.ToolCalls.{upsert_tool_calls}
use burnmon.Store.Cursors.{cursor, set_cursor}
use burnmon.Dataset.{adapter_for_path}

-- A modification time and a size.
abbrev pub Stat : Type 0
Stat = ℕ × ℕ

abbrev pub Parsed : Type 0
Parsed = List Event × (List ToolCall × ℕ)

pub record World : Type 0 where
  -- The adapter's Parse of a path from an offset.
  pub parse : String → String → ℕ → Option Parsed
  pub stat : String → Option Stat
  pub owner_for : String → String
  pub client_for : String → String
  pub cursor_fails : String → Bool
  -- Of the i-th batch of the file.
  pub event_faults : String → ℕ → Faults
  pub call_faults : String → ℕ → Faults
  pub set_cursor_fails : String → Bool

pub data Plan : Type 0 where
  skip : Plan
  read_from : ℕ → Plan

unfoldable pub fully_read : CursorRow → Stat → Bool
fully_read c (m, s) = c.mtime == m && c.size == s && c.offset == s

-- 0 where the file was rewritten or the cursor lies past its end.
unfoldable pub start_offset : CursorRow → Stat → ℕ
start_offset c (m, s) =
    if (not (c.mtime == m) && ltb s c.size) || ltb s c.offset then 0 else c.offset

-- From the cursor, if it is known, to the offset to read from; a slow file is not looked at.
unfoldable pub plan : Bool → Option CursorRow → Option Stat → Plan
unfolding fully_read start_offset
plan slow none none = skip
plan slow none (some st) = read_from 0
plan slow (some c) none = skip
plan slow (some c) (some st) =
    if slow || fully_read c st then skip else read_from (start_offset c st)

abbrev pub upsert_batch : ℕ
upsert_batch = 1000

-- events[start:end] for start = 0, 1000, ...; the first number is fuel, of which one is used for
-- each batch.
unfoldable pub batches {ℓ} : {A : Type ℓ} → ℕ → List A → List (List A)
batches zero xs = []
batches (suc fuel) [] = []
batches (suc fuel) (x ∷ xs) = take upsert_batch (x ∷ xs) ∷ batches fuel (drop upsert_batch (x ∷ xs))

-- The next call, unless this one failed.
unfoldable pub and_then : Db × Option Error → (Db → Db × Option Error) → Db × Option Error
and_then (db, none) k = k db
and_then (db, some e) k = (db, some e)

unfoldable pub store_events : (ℕ → Faults) → ℕ → List (List Event) → Db → Db × Option Error
unfolding and_then
store_events f i [] db = (db, none)
store_events f i (b ∷ bs) db = and_then (upsert_events (f i) b db) (store_events f (suc i) bs)

unfoldable pub store_calls : (ℕ → Faults) → ℕ → List (List ToolCall) → Db → Db × Option Error
unfolding and_then
store_calls f i [] db = (db, none)
store_calls f i (b ∷ bs) db = and_then (upsert_tool_calls (f i) b db) (store_calls f (suc i) bs)

module _ (w : World) where
  abbrev pub assign : Event → Event
  assign e = record e { owner = w.owner_for e.project; client = w.client_for e.project }

  -- What was parsed goes to the store, then the cursor.
  unfoldable pub store_parsed : String → Stat → Parsed → Db → Db × Option Error
  unfolding store_events store_calls batches
  store_parsed p (m, s) (es, (cs, n)) db =
      and_then
        (and_then (store_events (w.event_faults p) 0 (batches (length es) (map assign es)) db)
          (store_calls (w.call_faults p) 0 (batches (length cs) cs)))
        (set_cursor (w.set_cursor_fails p) (record { path = p; offset = n; mtime = m; size = s }))

  -- Whether the file counts as live: it grew past a cursor.
  unfoldable pub advanced : ℕ → ℕ → Option Error → Bool
  advanced start n none = ltb 0 start && ltb start n
  advanced start n (some e) = false

  -- If the file did not parse, the next file's turn comes.
  unfoldable pub store_read : String → Stat → ℕ → Option Parsed → Db → (Db × Option Error) × Bool
  unfolding store_parsed advanced
  store_read p st start none db = ((db, none), false)
  store_read p st start (some r) db =
      let stored = store_parsed p st r db in (stored, advanced start r.1.1 stored.1)

  unfoldable pub read_file : String → String → Stat → ℕ → Db → (Db × Option Error) × Bool
  unfolding store_read
  read_file a p st start db = store_read p st start (w.parse a p start) db

  unfoldable pub follow : Plan → Option Stat → String → String → Db → (Db × Option Error) × Bool
  unfolding read_file
  follow (read_from start) (some st) a p db = read_file a p st start db
  follow (read_from start) none a p db = ((db, none), false)
  follow skip st a p db = ((db, none), false)

  -- The rounds of the loop: the database, the error that ends it, and whether onAdvance is called.
  unfoldable pub ingest_with :
      Bool → Bool → Option String → String → Db → (Db × Option Error) × Bool
  unfolding follow plan
  ingest_with force slow none p db = ((db, none), false)
  ingest_with force slow (some a) p db =
      if w.cursor_fails p
      then ((db, some query_failed), false)
      else follow (plan slow (if force then none else cursor p db) (w.stat p)) (w.stat p) a p db

  module _ (os : Os) (roots : List (String × List String)) where
    unfoldable pub ingest_file : Bool → (String → Bool) → String → Db → (Db × Option Error) × Bool
    unfolding ingest_with adapter_for_path
    ingest_file force slow p db = ingest_with force (slow p) (adapter_for_path os p roots) p db

    -- The database, the error and the paths that onAdvance is called with.
    unfoldable pub ingest :
        Bool → (String → Bool) → List String → Db → (Db × Option Error) × List String
    unfolding ingest_file
    ingest force slow [] db = ((db, none), [])
    ingest force slow (p ∷ ps) db =
        let r = ingest_file force slow p db in
        let rest = ingest force slow ps r.0.0 in
        elim r.0.1 [ some e ↦ (r.0, []) | none ↦ (rest.0, if r.1 then p ∷ rest.1 else rest.1) ]
