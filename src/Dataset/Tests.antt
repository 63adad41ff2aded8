-- ===== src/Dataset/Tests.antt =====
-- One transcript that grew, read twice; and the lists of sources.
use burnmon.Base.{false, none, some, [], ◌∷◌, ◌≡◌, refl, string_eq, arith}
use burnmon.Paths.{windows}
use burnmon.Schema.{Event}
use burnmon.Store.Db.{Db, CursorRow, no_faults}
use burnmon.Store.Events.{upsert_events}
use burnmon.Store.Cursors.{cursor, set_cursor}
use burnmon.Store.Events.Laws.{upsert_all}
use burnmon.Dataset.{dedupe_case_insensitive}
use burnmon.Dataset.Ingest.{World, batches, store_events, ingest_file}
use burnmon.Dataset.Ingest.Batches.{batches_store_all}
use burnmon.Dataset.Ingest.Again.{ReadsToEnd, ingest_file_again}

abbrev line : Event
line = record {
  vendor = "anthropic";
  agent = "claude-code";
  surface = "cli";
  session_id = "s1";
  request_id = "req_2";
  parent_id = "";
  at = 5;
  model = "claude";
  project = "C:\\work";
  owner = "";
  client = "";
  title = "";
  input = 100;
  cache_write = none;
  cache_read = none;
  output = 9;
  reasoning = none;
  vendor_cost = none;
  window_used = none;
  window_reset = none;
  tools = [];
}

abbrev half_read : CursorRow
half_read = record { path = "C:\\logs\\s1.jsonl"; offset = 40; mtime = 3; size = 40 }

abbrev store : Db
store = record {
  events = [];
  tool_calls = [];
  cursors = half_read ∷ [];
  meta = [];
  forecast_scores = [];
}

-- Every file is 60 bytes long, and holds one event.
abbrev world : World
world = record {
  parse = λ a p o. some (line ∷ [], ([], 60));
  stat = λ p. some (8, 60);
  owner_for = λ p. "me";
  client_for = λ p. "";
  cursor_fails = λ p. false;
  event_faults = λ p i. no_faults;
  call_faults = λ p i. no_faults;
  set_cursor_fails = λ p. false;
}

world-ReadsToEnd : ReadsToEnd world "C:\\logs\\s1.jsonl"
world-ReadsToEnd a o m s r h k = ground (arith, h, k)

ingest_file_again_example :
    ingest_file world windows [] false
      (λ p. false)
      "C:\\logs\\s1.jsonl"
      (ingest_file world windows [] false (λ p. false) "C:\\logs\\s1.jsonl" store).0.0
    ≡ (
      ((ingest_file world windows [] false (λ p. false) "C:\\logs\\s1.jsonl" store).0.0, none),
      false,
    )
unfolding ingest_file cursor upsert_events set_cursor
ingest_file_again_example =
    ingest_file_again world windows [] (λ p. false) "C:\\logs\\s1.jsonl" store world-ReadsToEnd refl

batches_store_all_example :
    (store_events (λ i. no_faults) 0 (batches 1 (line ∷ [])) store).0
    ≡ record store { events = upsert_all (line ∷ []) [] }
unfolding store_events batches upsert_events
batches_store_all_example = batches_store_all (λ i. no_faults) (line ∷ []) store refl

dedupe_test : dedupe_case_insensitive ("C:\\A" ∷ "D:\\b" ∷ "c:\\a" ∷ []) ≡ "C:\\A" ∷ "D:\\b" ∷ []
unfolding dedupe_case_insensitive
dedupe_test = refl
