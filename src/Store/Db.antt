-- ===== src/Store/Db.antt =====
-- The tables of internal/store/store.go and what a call of the database may answer.
-- SQLite itself is not modelled: which of its calls fails is an argument, and a transaction works
-- on its own copy until Commit, as `defer tx.Rollback()` makes it. A text column that holds an
-- RFC3339Nano instant is that instant, and the JSON of the tool counts is the map.
use burnmon.Base.{ℕ, Bool, true, false, ◌≡◌, refl, Option, none, some, List, String, if◌then◌else◌}
use burnmon.Schema.{Event, ToolCall}

pub record CursorRow : Type 0 where
  pub path : String
  pub offset : ℕ
  pub mtime : ℕ
  pub size : ℕ

pub record MetaRow : Type 0 where
  pub name : String
  pub value : String

pub record ForecastScore : Type 0 where
  pub iso_year : ℕ
  pub iso_week : ℕ
  pub week_start : ℕ
  pub plan_tokens : ℕ
  pub actual_tokens : Option ℕ
  pub scored_at : Option ℕ

pub record Db : Type 0 where
  pub events : List Event
  pub tool_calls : List ToolCall
  pub cursors : List CursorRow
  pub meta : List MetaRow
  pub forecast_scores : List ForecastScore

-- The calls that fail: `query` is the first query, `requery` the second one, `exec i` is the statement for the i-th element of a loop.
pub record Faults : Type 0 where
  pub query : Bool
  pub requery : Bool
  pub begin : Bool
  pub prepare : Bool
  pub exec : ℕ → Bool
  pub commit : Bool

abbrev pub no_faults : Faults
no_faults = record {
  query = false;
  requery = false;
  begin = false;
  prepare = false;
  exec = λ _. false;
  commit = false;
}

pub data Error : Type 0 where
  query_failed begin_failed statement_failed commit_failed : Error

-- Begin, the body, Commit; `none` from the body is a statement that failed.
unfoldable pub transaction : Faults → (Db → Option Db) → Db → Db × Option Error
transaction f body db = if f.begin then (db, some begin_failed) else elim (body db) [
  | none ↦ (db, some statement_failed)
  | some db' ↦ if f.commit then (db, some commit_failed) else (db', none)
]

-- What a call with a result answers.
pub data Outcome {ℓ} (A : Type ℓ) : Type ℓ where
  done : A → Outcome A
  failed : Error → Outcome A

-- The end of a transaction, from whether Begin and Commit fail and what the body gave.
unfoldable pub settle {ℓ} : {A : Type ℓ} → Bool → Bool → Db → Option (Db × A) → Db × Outcome A
settle true c db r = (db, failed begin_failed)
settle false c db none = (db, failed statement_failed)
settle false true db (some r) = (db, failed commit_failed)
settle false false db (some (db', a)) = (db', done a)

-- The same around a body with a result.
unfoldable pub transact {ℓ} : {A : Type ℓ} → Faults → (Db → Option (Db × A)) → Db → Db × Outcome A
unfolding settle
transact f body db = settle f.begin f.commit db (body db)

-- What holds of every failure and of what the body gives holds of the call.
pub settle-cases {ℓ κ} :
    {A : Type ℓ} (P : Db × Outcome A → Type κ) (b c : Bool) (db : Db) (r : Option (Db × A))
    → ((e : Error) → P (db, failed e))
    → ((x : Db × A) → r ≡ some x → P (x.0, done x.1))
    → P (settle b c db r)
unfolding settle
settle-cases P true c db r h k = h begin_failed
settle-cases P false c db none h k = h statement_failed
settle-cases P false true db (some x) h k = h commit_failed
settle-cases P false false db (some x) h k = k x refl
