-- ===== src/Store/Migrations.antt =====
-- internal/store/migrations/migrations.go, and `runMigrations` of internal/store/store.go.
-- A schema is its tables with their columns, and its indexes; a statement is what the DDL of
-- a migration does to them. The column types and the primary keys are not kept.
pub mod Pending
pub mod Upgrade
pub mod Again
mod Tests
use mathlib.Core.Option.{bind}
use burnmon.Base.{
  ℕ, String, Bool, true, false, Option, none, some, List, [], ◌∷◌, ◌++◌, ◌==◌, ◌||◌, string_eq, ltb,
  any, map, filter, get_last?, if◌then◌else◌,
}

pub record TableDef : Type 0 where
  pub name : String
  pub columns : List String

pub record Schema : Type 0 where
  pub tables : List TableDef
  pub indexes : List String

pub data Ddl : Type 0 where
  create_table : String → List String → Ddl
  create_index : String → String → Ddl
  add_column : String → String → Ddl

unfoldable pub has_table : String → Schema → Bool
has_table t s = any (λ (d : TableDef). d.name == t) s.tables

unfoldable pub has_column : String → String → Schema → Bool
has_column t c s =
    any (λ (d : TableDef). if d.name == t then any (λ (x : String). x == c) d.columns else false)
      s.tables

unfoldable pub widen : String → String → TableDef → TableDef
widen t c d = if d.name == t then record d { columns = d.columns ++ (c ∷ []) } else d

-- CREATE ... IF NOT EXISTS keeps what is there; an index needs its table, and ADD COLUMN a table
-- without that column.
unfoldable pub exec_ddl : Ddl → Schema → Option Schema
unfolding has_table has_column widen
exec_ddl (create_table t cs) s = some (
    if has_table t s
    then s
    else record s { tables = s.tables ++ (record { name = t; columns = cs } ∷ []) })
exec_ddl (create_index i t) s =
    if has_table t s
    then some (
        if any (λ (j : String). j == i) s.indexes
        then s
        else record s { indexes = s.indexes ++ (i ∷ []) })
    else none
exec_ddl (add_column t c) s =
    if has_column t c s
    then none
    else if has_table t s
    then some (record s { tables = map (widen t c) s.tables })
    else none

pub record Migration : Type 0 where
  pub version : ℕ
  pub up : List Ddl

-- The statements of one `Exec`, up to the first that fails.
unfoldable pub exec_script : List Ddl → Schema → Option Schema
unfolding exec_ddl bind
exec_script [] s = some s
exec_script (d ∷ ds) s = bind (exec_ddl d s) (exec_script ds)

abbrev pub event_columns : List String
event_columns =
    "vendor" ∷ "agent" ∷ "surface" ∷ "session_id" ∷ "request_id" ∷ "parent_id" ∷ "at" ∷ "model"
    ∷ "project" ∷ "title" ∷ "input" ∷ "cache_write" ∷ "cache_read" ∷ "output" ∷ "reasoning"
    ∷ "vendor_cost" ∷ "window_used" ∷ "window_reset" ∷ "tools" ∷ []

abbrev pub migration1 : List Ddl
migration1 =
    create_table "events" event_columns
    ∷ create_index "idx_events_session" "events"
    ∷ create_index "idx_events_at" "events"
    ∷ create_table "cursors" ("path" ∷ "offset" ∷ "mtime" ∷ "size" ∷ [])
    ∷ create_table "meta" ("key" ∷ "value" ∷ [])
    ∷ []

abbrev pub migration2 : List Ddl
migration2 = add_column "events" "owner" ∷ []

abbrev pub tool_call_columns : List String
tool_call_columns =
    "vendor" ∷ "agent" ∷ "session_id" ∷ "call_id" ∷ "turn" ∷ "tool" ∷ "at" ∷ "input_bytes"
    ∷ "result_bytes" ∷ []

abbrev pub migration3 : List Ddl
migration3 =
    create_table "tool_calls" tool_call_columns
    ∷ create_index "idx_tool_calls_at" "tool_calls"
    ∷ create_index "idx_tool_calls_tool" "tool_calls"
    ∷ []

abbrev pub migration4 : List Ddl
migration4 = add_column "tool_calls" "path" ∷ []

abbrev pub score_columns : List String
score_columns =
    "iso_year" ∷ "iso_week" ∷ "week_start" ∷ "plan_tokens" ∷ "actual_tokens" ∷ "scored_at" ∷ []

abbrev pub migration5 : List Ddl
migration5 = create_table "forecast_scores" score_columns ∷ []

abbrev pub migration6 : List Ddl
migration6 = create_index "idx_events_session_id" "events" ∷ []

abbrev pub migration7 : List Ddl
migration7 = add_column "events" "client" ∷ []

-- migrations.All
abbrev pub all_migrations : List Migration
all_migrations =
    record { version = 1; up = migration1 }
    ∷ record { version = 2; up = migration2 }
    ∷ record { version = 3; up = migration3 }
    ∷ record { version = 4; up = migration4 }
    ∷ record { version = 5; up = migration5 }
    ∷ record { version = 6; up = migration6 }
    ∷ record { version = 7; up = migration7 }
    ∷ []

-- The file: `versions` are the rows of schema_version, none of them before the first run.
pub record Disk : Type 0 where
  pub versions : List ℕ
  pub schema : Schema

-- The calls that fail for a reason outside the statements: `up v` is that of migration v.
pub record Failures : Type 0 where
  pub ddl : Bool
  pub read : Bool
  pub begin : Bool
  pub up : ℕ → Bool
  pub delete : Bool
  pub insert : Bool
  pub commit : Bool

-- What `runMigrations` returns: from, to, and whether err is nil.
pub record Moved : Type 0 where
  pub from : ℕ
  pub to : ℕ
  pub ok : Bool

-- SELECT version FROM schema_version LIMIT 1, and 0 where it has no row.
unfoldable pub current_version : List ℕ → ℕ
current_version [] = 0
current_version (v ∷ vs) = v

unfoldable pub pending : ℕ → List Migration → List Migration
pending current ms = filter (λ (m : Migration). ltb current m.version) ms

-- The loop over `pending` inside the transaction.
unfoldable pub run_ups : (ℕ → Bool) → List Migration → Schema → Option Schema
unfolding exec_script bind
run_ups fails [] s = some s
run_ups fails (m ∷ ms) s =
    if fails m.version then none else bind (exec_script m.up s) (run_ups fails ms)

unfoldable pub last_version : ℕ → List Migration → ℕ
last_version v [] = v
last_version v (m ∷ ms) = last_version m.version ms

-- The end of the transaction: DELETE, INSERT and Commit, or the rollback.
unfoldable pub record_version : Failures → ℕ → ℕ → Option Schema → Disk → Disk × Moved
record_version f from to none d = (d, record { from = from; to = from; ok = false })
record_version f from to (some s) d =
    if f.delete || f.insert || f.commit
    then (d, record { from = from; to = from; ok = false })
    else (record { versions = to ∷ []; schema = s }, record { from = from; to = to; ok = true })

unfoldable pub migrate_pending : Failures → ℕ → List Migration → Disk → Disk × Moved
unfolding run_ups last_version record_version
migrate_pending f from [] d = (d, record { from = from; to = from; ok = true })
migrate_pending f from (m ∷ ms) d =
    if f.begin
    then (d, record { from = from; to = from; ok = false })
    else record_version f from (last_version m.version ms) (run_ups f.up (m ∷ ms) d.schema) d

unfoldable pub run_migrations : Failures → List Migration → Disk → Disk × Moved
unfolding current_version pending migrate_pending
run_migrations f ms d =
    if f.ddl
    then (d, record { from = 0; to = 0; ok = false })
    else if f.read
    then (d, record { from = 0; to = 0; ok = false })
    else migrate_pending f (current_version d.versions) (pending (current_version d.versions) ms) d
