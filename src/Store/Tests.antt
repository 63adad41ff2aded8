-- ===== src/Store/Tests.antt =====
-- The store on a small database: two streamed lines of one request, a call and its late result, and
-- a transcript that moved.
use burnmon.Base.{
  ℕ, String, false, not, none, some, List, [], ◌∷◌, ◌≡◌, ◌≢◌, refl, ◌⊎◌, filter, ◌==◌, lt64,
  string_eq,
}
use burnmon.Paths.{windows, session_id_from_path}
use burnmon.Schema.{Event, ToolCall, event_key, call_key, key_eq}
use burnmon.Store.Db.{done, Db, no_faults}
use burnmon.Store.Table.{row, Unique}
use burnmon.Store.Events.{upsert_events}
use burnmon.Store.Events.Laws.{
  upsert_all, best, has_key, upsert_events_atomic, upsert_events_again, upsert_events-best,
}
use burnmon.Store.ToolCalls.{upsert_tool_calls}
use burnmon.Store.ToolCalls.Laws.{
  apply_all, result_of, upsert_tool_calls_keeps_result, late_result_lands,
}
use burnmon.Store.Cursors.{cursor}
use burnmon.Store.Meta.{meta, set_meta, meta-set_meta}
use burnmon.Store.Prune.{kept, stale_paths, delete_events_for_other_paths}
use burnmon.Store.Prune.Laws.{owned_by, delete_events_for_other_paths_exact}
use burnmon.Store.Prune.Moved.{moved_transcript_loses_events}

abbrev line : ℕ → Event
line output = record {
  vendor = "anthropic";
  agent = "claude-code";
  surface = "cli";
  session_id = "s1";
  request_id = "req_1";
  parent_id = "";
  at = 5;
  model = "claude";
  project = "C:\\work";
  owner = "";
  client = "";
  title = "";
  input = 100;
  cache_write = none;
  cache_read = some 40;
  output = output;
  reasoning = none;
  vendor_cost = none;
  window_used = none;
  window_reset = none;
  tools = [];
}

abbrev no_rows : Db
no_rows = record { events = []; tool_calls = []; cursors = []; meta = []; forecast_scores = [] }

abbrev one_row : Db
one_row = record no_rows { events = line 3 ∷ [] }

abbrev batch : List Event
batch = line 7 ∷ line 5 ∷ []

-- What the tests compute with.
program : Unit {0}
unfolding lt64 upsert_events upsert_all best row upsert_tool_calls apply_all
    delete_events_for_other_paths session_id_from_path cursor
program = tt

upsert_keeps_largest : (upsert_events no_faults batch one_row).0.events ≡ line 7 ∷ []
unfolding program
upsert_keeps_largest = refl

upsert_events_atomic_example :
    (((upsert_events no_faults batch one_row).1 ≡ none)
      × ((upsert_events no_faults batch one_row).0
          ≡ record one_row { events = upsert_all batch one_row.events }))
    ⊎ (((upsert_events no_faults batch one_row).1 ≢ none)
        × ((upsert_events no_faults batch one_row).0 ≡ one_row))
upsert_events_atomic_example = upsert_events_atomic no_faults batch one_row

upsert_events_again_example :
    (upsert_events no_faults batch (upsert_events no_faults batch one_row).0).0
    ≡ (upsert_events no_faults batch one_row).0
unfolding program
upsert_events_again_example = upsert_events_again no_faults no_faults batch one_row refl

upsert_events-best_example :
    (row event_key (event_key (line 0)) (upsert_events no_faults batch one_row).0.events
      ≡ best
          (row event_key (event_key (line 0)) one_row.events)
          (filter (has_key (event_key (line 0))) batch))
    × Unique event_key (upsert_events no_faults batch one_row).0.events
unfolding program
upsert_events-best_example =
    upsert_events-best no_faults batch one_row (event_key (line 0)) (tt, tt) refl

abbrev call : ToolCall
call = record {
  vendor = "anthropic";
  agent = "claude-code";
  session_id = "s1";
  call_id = "t1";
  turn = "req_1";
  tool = "Bash";
  at = 6;
  input_bytes = 20;
  result_bytes = none;
  path = "";
}

abbrev result : ToolCall
result = record call {
  agent = "";
  turn = "";
  tool = "";
  at = 0;
  input_bytes = 0;
  result_bytes = some 512;
}

abbrev answered : Db
answered = record no_rows { tool_calls = record call { result_bytes = some 512 } ∷ [] }

upsert_tool_calls_keeps_result_example :
    result_of
      (row call_key (call_key call) (upsert_tool_calls no_faults (call ∷ []) answered).0.tool_calls)
    ≢ none
unfolding program
upsert_tool_calls_keeps_result_example =
    upsert_tool_calls_keeps_result no_faults (call ∷ []) answered (call_key call) (λ e. cc)

late_result_lands_example :
    row call_key (call_key call) answered.tool_calls
    ≡ some (record call { result_bytes = some 512 })
unfolding program
late_result_lands_example =
    late_result_lands no_faults no_faults (call_key call) [] [] [] [] call result 512 no_rows
      (record no_rows { tool_calls = call ∷ [] }) answered (refl, refl, refl) (refl, refl, refl)
      (refl, refl) (refl, refl) refl refl refl

abbrev moved : Db
moved = record one_row {
  cursors =
      record { path = "/a/s1.jsonl"; offset = 90; mtime = 1; size = 90 }
      ∷ record { path = "/b/s1.jsonl"; offset = 90; mtime = 1; size = 90 }
      ∷ [];
}

abbrev listed : List String
listed = "/b/s1.jsonl" ∷ []

delete_events_for_other_paths_exact_example :
    (((delete_events_for_other_paths windows no_faults listed moved).1 ≡ none)
      × ((delete_events_for_other_paths windows no_faults listed moved).0 ≡ record moved {
        events =
            filter
              (λ e. not (owned_by windows (stale_paths listed moved.cursors) e.session_id))
              moved.events;
        cursors = filter (λ c. kept listed c.path) moved.cursors;
      }))
    ⊎ (((delete_events_for_other_paths windows no_faults listed moved).1 ≢ none)
        × ((delete_events_for_other_paths windows no_faults listed moved).0 ≡ moved))
delete_events_for_other_paths_exact_example =
    delete_events_for_other_paths_exact windows no_faults listed moved

moved_transcript_loses_events_example :
    (cursor "/b/s1.jsonl" (delete_events_for_other_paths windows no_faults listed moved).0
      ≡ cursor "/b/s1.jsonl" moved)
    × (filter
          (λ e. e.session_id == session_id_from_path windows "/b/s1.jsonl")
          (delete_events_for_other_paths windows no_faults listed moved).0.events
        ≡ [])
unfolding program
moved_transcript_loses_events_example =
    moved_transcript_loses_events windows no_faults listed "/a/s1.jsonl" "/b/s1.jsonl" moved refl
      refl refl refl (λ e. cc) refl

meta-set_meta_example :
    meta false "last_rebuild"
      (set_meta false (record { name = "last_rebuild"; value = "5" }) one_row).0
    ≡ done (some (record { name = "last_rebuild"; value = "5" }))
meta-set_meta_example =
    meta-set_meta "last_rebuild" (record { name = "last_rebuild"; value = "5" }) one_row
