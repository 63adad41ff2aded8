-- ===== src/Dataset/FromStore/Fixture.antt =====
-- Prices in whole numbers, and two sessions of three events.
use burnmon.Base.{ℕ, ◌+◌, String, false, none, some, List, [], ◌∷◌}
use burnmon.Schema.{Event}
use burnmon.Dataset.FromStore.{Prices}

abbrev pub prices : Prices ℕ
prices = record {
  event_cost = λ e. e.output;
  event_share = λ e. e.output;
  event_label = λ e. e.model;
  event_unpriced = λ e. false;
  no_cost = 0;
  add_cost = λ a b. a + b;
  round6 = λ x. x;
  per_call = λ c n. c;
  stamp = λ t. "2026-10-01T10:00:00.000Z";
  local_day = λ t. "2026-10-01";
  idle_cutoff = 5;
  minutes = λ n. n;
}

abbrev pub turn : String → String → ℕ → Event
turn session model at = record {
  vendor = "openai";
  agent = "codex";
  surface = "cli";
  session_id = session;
  request_id = "r";
  parent_id = "";
  at = at;
  model = model;
  project = "/work";
  owner = "";
  client = "";
  title = "";
  input = 10;
  cache_write = none;
  cache_read = some 3;
  output = 2;
  reasoning = none;
  vendor_cost = none;
  window_used = none;
  window_reset = none;
  tools = ("Read", 1) ∷ [];
}

abbrev pub first_session : List Event
first_session = turn "a" "m" 10 ∷ turn "a" "n" 14 ∷ []

abbrev pub all_events : List Event
all_events = turn "b" "m" 30 ∷ first_session
