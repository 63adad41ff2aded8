-- ===== src/Dataset/FromStore/Tests.antt =====
-- The sessions of the fixture.
use burnmon.Base.{
  ◌+◌, ℕ, false, Option, none, some, [], ◌∷◌, ◌≡◌, refl, arith, string_eq, nat_eq, ◌+64◌, lt64,
}
use burnmon.Schema.{is_turn}
use burnmon.Dataset.FromStore.{
  Session, event_tokens, build_session, sessions_from_events, sort_times, active_time,
}
use burnmon.Dataset.FromStore.Fixture.{prices, first_session, all_events}
use burnmon.Dataset.FromStore.Sums.{turn_sum}
use burnmon.Dataset.FromStore.Balance.{IsBalanced, build_session-IsBalanced}
use burnmon.Dataset.FromStore.Store.{session_tokens, sessions_from_events_total}
use burnmon.Dataset.FromStore.Active.{idle_time, active_time-idle_time}

program : Unit {0}
unfolding sessions_from_events session_tokens turn_sum is_turn ◌+64◌ lt64
program = tt

session_tokens_test : session_tokens prices (sessions_from_events prices all_events) ≡ 45
unfolding program
session_tokens_test = refl

abbrev built_of : Option (Session ℕ) → Session ℕ → Session ℕ
built_of none s = s
built_of (some s) t = s

active_time_test : active_time 5 (sort_times (14 ∷ 10 ∷ 30 ∷ [])) ≡ 4
unfolding active_time sort_times ◌+64◌
active_time_test = refl

abbrev none_session : Session ℕ
none_session = record {
  session_id = "";
  title = "";
  owner = "";
  client = "";
  vendor = "";
  agent = "";
  surface = "";
  cwd = "";
  start = "";
  finish = "";
  calls = 0;
  tokens = 0;
  cost = 0;
  cost_sub = 0;
  cost_per_call = 0;
  cost_sub_per_call = 0;
  fresh = 0;
  cache_w = 0;
  cache_r = 0;
  out = 0;
  models = [];
  tools = [];
  daily = [];
  long = false;
  unpriced = 0;
  active_minutes = 0;
}

build_session-IsBalanced_example :
    IsBalanced prices first_session (built_of (build_session prices first_session) none_session)
unfolding program
build_session-IsBalanced_example =
    build_session-IsBalanced prices first_session
      (built_of (build_session prices first_session) none_session) refl

sessions_from_events_total_example :
    session_tokens prices (sessions_from_events prices all_events)
    ≡ turn_sum event_tokens all_events
sessions_from_events_total_example =
    sessions_from_events_total prices all_events (refl, (refl, (refl, tt))) (omega arith)

active_time-idle_time_example :
    active_time 5 (sort_times (14 ∷ 10 ∷ 30 ∷ [])) + idle_time 5 (sort_times (14 ∷ 10 ∷ 30 ∷ []))
    ≡ 20
active_time-idle_time_example = active_time-idle_time 5 14 (10 ∷ 30 ∷ []) (omega arith)
