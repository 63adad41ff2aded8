-- ===== src/Store/Repair/Tests.antt =====
-- A store with a collapsed Codex session, and one whose owner rules changed.
use burnmon.Base.{String, none, [], ◌∷◌, ◌≡◌, refl, if◌then◌else◌, ◌==◌, string_eq}
use burnmon.Paths.{windows, session_id_from_path}
use burnmon.Schema.{Event}
use burnmon.Store.Db.{Db, CursorRow, no_faults, done, transact}
use burnmon.Store.Repair.{
  reset_collapsed_codex_sessions, reset_sessions, reset_body, collapsed_sessions, collapsed_paths,
  delete_collapsed, delete_cursors, reown_events, purge_audit_sessions,
}
use burnmon.Store.Repair.Reset.{ResetOf, reset_collapsed_exact}
use burnmon.Store.Repair.Reown.{ReownOf, reown_exact}

abbrev turn : String → String → Event
turn session request = record {
  vendor = "openai";
  agent = "codex";
  surface = "cli";
  session_id = session;
  request_id = request;
  parent_id = "";
  at = 5;
  model = "gpt";
  project = "C:\\work";
  owner = "";
  client = "";
  title = "";
  input = 100;
  cache_write = none;
  cache_read = none;
  output = 9;
  reasoning = none;
  vendor_cost = none;
  window_used = none;
  window_reset = none;
  tools = [];
}

abbrev read_to : String → CursorRow
read_to p = record { path = p; offset = 10; mtime = 3; size = 10 }

abbrev collapsed : Db
collapsed = record {
  events = turn "a" "a:0" ∷ turn "b" "b:4" ∷ [];
  tool_calls = [];
  cursors =
      read_to "C:\\logs\\a.jsonl" ∷ read_to "C:\\logs\\b.jsonl" ∷ read_to "C:\\x\\Audit.jsonl" ∷ [];
  meta = [];
  forecast_scores = [];
}

reset_test : (reset_collapsed_codex_sessions windows no_faults collapsed).1 ≡ done (1, 1)
unfolding reset_collapsed_codex_sessions reset_sessions reset_body collapsed_sessions
    collapsed_paths delete_collapsed delete_cursors transact session_id_from_path
reset_test = refl

reset_collapsed_exact_example :
    ResetOf windows
      (collapsed_sessions collapsed.events)
      collapsed
      (reset_collapsed_codex_sessions windows no_faults collapsed)
reset_collapsed_exact_example = reset_collapsed_exact windows no_faults collapsed

audit_test : (purge_audit_sessions no_faults collapsed).1 ≡ done (0, (0, 1))
unfolding purge_audit_sessions transact
audit_test = refl

abbrev owner_rule : String → String
owner_rule project = if project == "C:\\work" then "me" else ""

reown_exact_example :
    ReownOf owner_rule (λ p. "") collapsed (reown_events owner_rule (λ p. "") no_faults collapsed)
reown_exact_example = reown_exact owner_rule (λ p. "") no_faults collapsed ((refl, tt), (tt, tt))
