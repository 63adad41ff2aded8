-- ===== src/Live/Tests.antt =====
-- The stages of a session with a subagent, its turns, its lifetime totals and where it is shown.
use text.Mathlib.TextEquality.{eq_iff}
use burnmon.Base.{
  arith, ◌<◌, ◌==◌, ◌&&◌, not, sym, subst, ◌∙◌, some_injective, Bool-cases, inl, inr, string_eq, ℕ,
  second, ◌/◌, ◌+◌, ◌-◌, ◌*◌, String, none, some, List, [], ◌∷◌, ◌≡◌, refl, minute, Bool, true, ltb,
  filter, if◌then◌else◌, ◌+64◌, lt64,
}
use burnmon.Schema.{Event, ToolCall, is_turn, value_or_zero}
use burnmon.Insight.{Rules, sort_turns, analyze}
use burnmon.Live.Chart.{chart_window, in_window}
use burnmon.Live.Turns.{
  TurnEvent, Answer, answer, turn_not_found, not_read, build_turns, all_turns, build_turn_detail,
}
use burnmon.Live.Ticker.{total, bare, shown, build_turns_complete}
use burnmon.Store.Lists.{session_totals}
use burnmon.Live.Lifetime.{
  Running, Runs, run, stop, more, run_keys, runs_keys, apply_session_totals,
}
use burnmon.Live.GroupTotals.{turns_of}
use burnmon.Live.Whole.{AllTotaled, apply_session_totals-AllTotaled}
use burnmon.Live.Snapshot.{RunningSession, Scan, Nest, snapshot_sessions, has_session, value_at}
use burnmon.Live.Nested.{times_in, times_shown, shown_under, Placed}
use burnmon.Live.Reached.{Reached, snapshot_sessions-Reached}
use burnmon.Live.Detail.{IsRight, build_turn_detail-IsRight}
use burnmon.Live.Trail.{SessionInfo, Sessions, node, nil, cons, apply_stages, session_keys}
use burnmon.Live.Staged.{AllStaged, apply_stages_all}

abbrev noon : ℕ
noon = 100 * chart_window

abbrev turn : Event
turn = record {
  vendor = "anthropic";
  agent = "claude-code";
  surface = "cli";
  session_id = "s1";
  request_id = "req_2";
  parent_id = "";
  at = noon;
  model = "claude";
  project = "";
  owner = "";
  client = "";
  title = "";
  input = 100;
  cache_write = none;
  cache_read = none;
  output = 9;
  reasoning = none;
  vendor_cost = none;
  window_used = none;
  window_reset = none;
  tools = [];
}

abbrev info : SessionInfo
info = record {
  vendor = "anthropic";
  session_id = "s1";
  agent = "claude-code";
  start = minute;
  turns = turn ∷ [];
  window_start = 99 * chart_window;
  compactions = [];
  stage = none;
}

abbrev running : Sessions
running = cons (node info (cons (node (record info { session_id = "s2" }) nil) nil)) nil

abbrev bash_call : ToolCall
bash_call = record {
  vendor = "anthropic";
  agent = "claude-code";
  session_id = "s1";
  call_id = "t1";
  turn = "req_2";
  tool = "Bash";
  at = noon;
  input_bytes = 20;
  result_bytes = none;
  path = "";
}

apply_stages_all_example :
    AllStaged
      (λ t. t / second)
      noon
      (bash_call ∷ [])
      (apply_stages (λ t. t / second) noon (some (bash_call ∷ [])) running).0
    × (session_keys (apply_stages (λ t. t / second) noon (some (bash_call ∷ [])) running).0
        ≡ session_keys running)
apply_stages_all_example = apply_stages_all (λ t. t / second) noon (bash_call ∷ []) running

abbrev rules : Rules
rules = record {
  reprefill_threshold = 1000;
  cache_ttl = 300;
  context_window = λ model. none;
  drops = λ before after. ltb (after * 10) (before * 7);
  below = ltb;
  rank = λ n. n;
  runway = λ cs w. none;
  gap_cause = λ d. "gap";
  expensive_cause = λ e p. "expensive";
}

abbrev early : Event
early = record turn { request_id = "req_1"; at = noon - 2 * chart_window; input = 30 }

abbrev stamp : ℕ → String
stamp t = if ltb t noon then "11:00" else "12:00"

build_turns_complete_example :
    total
      (λ (t : TurnEvent). (bare t).fresh)
      (all_turns stamp rules (turn ∷ early ∷ []) minute (noon + 1))
    ≡ total
        (λ (e : Event). (shown stamp e).fresh)
        (filter (in_window minute (noon + 1)) (turn ∷ early ∷ []))
build_turns_complete_example =
    build_turns_complete stamp (λ (t : TurnEvent). t.fresh) rules (turn ∷ early ∷ []) minute
      (noon + 1)

build_turn_detail-IsRight_example :
    IsRight
      (λ (e : Event). e.output)
      rules
      2
      (sort_turns (filter is_turn (turn ∷ early ∷ [])))
      (build_turn_detail
        (λ (e : Event). e.output)
        rules
        (λ e. some (bash_call ∷ []))
        "s1"
        2
        (some (turn ∷ early ∷ [])))
build_turn_detail-IsRight_example =
    build_turn_detail-IsRight (λ (e : Event). e.output) rules (λ e. bash_call ∷ []) "s1" 2
      (turn ∷ early ∷ [])

program : Unit {0}
unfolding build_turns build_turn_detail in_window sort_turns analyze is_turn ◌+64◌ value_or_zero
    lt64
program = tt

numbers : List TurnEvent → List ℕ
numbers [] = []
numbers (t ∷ ts) = t.turn ∷ numbers ts

number_of : {F : Type 0} → Answer F → ℕ
number_of (answer d) = d.output
number_of turn_not_found = 0
number_of not_read = 0

-- The ticker numbers the turns of its window from 1, BuildTurnDetail those of the session.
ticker_number :
    (numbers
        (all_turns stamp rules (turn ∷ record early { output = 4 } ∷ []) (noon - minute) (noon + 1))
      ≡ 1 ∷ [])
    × (number_of (
          build_turn_detail
            (λ (e : Event). e.output)
            rules
            (λ e. some [])
            "s1"
            1
            (some (turn ∷ record early { output = 4 } ∷ [])))
        ≡ 4)
unfolding program numbers number_of
ticker_number = (refl, refl)

abbrev unknown : Running ℕ ℕ
unknown = record {
  vendor = "anthropic";
  session_id = "s1";
  start = "";
  turn_count = 0;
  tokens = 0;
  cost = 0;
  business_cost = none;
}

abbrev main_run : Runs ℕ ℕ
main_run = more (run unknown (more (run (record unknown { session_id = "s2" }) stop) stop)) stop

abbrev stored : List Event
stored = turn ∷ early ∷ record turn { session_id = "s2"; output = 7 } ∷ []

abbrev with_totals : Runs ℕ ℕ × Bool
with_totals =
    apply_session_totals 0 (λ a b. a + b) (λ (e : Event). e.output) (λ es. none) stamp
      (λ ks. session_totals ltb ks true stored) main_run

apply_session_totals-AllTotaled_example :
    AllTotaled (turns_of (runs_keys main_run) stored) with_totals.0
    × ((runs_keys with_totals.0 ≡ runs_keys main_run) × (with_totals.1 ≡ true))
unfolding program session_totals run_keys
apply_session_totals-AllTotaled_example =
    apply_session_totals-AllTotaled 0 (λ a b. a + b) (λ (e : Event). e.output) (λ es. none) stamp
      ltb stored main_run (refl, (refl, tt))

lifetime_tokens : Runs ℕ ℕ → List (ℕ × String)
lifetime_tokens stop = []
lifetime_tokens (more (run s subs) rs) = (s.tokens, s.start) ∷ lifetime_tokens rs

reads_lifetime : lifetime_tokens with_totals.0 ≡ (148, "11:00") ∷ []
unfolding program session_totals run_keys apply_session_totals lifetime_tokens
reads_lifetime = refl

-- A session, its subagent, and a session of another vendor with the subagent's id.
abbrev snapshot : List Event → Scan ℕ ℕ × Nest
snapshot es =
    snapshot_sessions 0 (λ a b. a + b) (λ (e : Event). e.output) (λ a b. a) (λ es. none) stamp rules
      600 es (noon + 1)

abbrev subagent_turn : Event
subagent_turn = record turn { session_id = "s2"; parent_id = "s1"; output = 7 }

abbrev rank : String → ℕ
rank id = if id == "s1" then 0 else 1

lower_parents :
    (runs : String → Bool) (j p : String)
    → shown_under (("s2", "s1") ∷ []) runs j ≡ some p
    → rank p < rank j
unfolding value_at
lower_parents runs j p h = elim (Bool-cases ("s2" == j)) [
  | inr other ↦ let nothing : shown_under (("s2", "s1") ∷ []) runs j ≡ none = rw other refl in cc
  | inl own ↦ elim (Bool-cases (runs "s1" && not ("s1" == j))) [
    | inr alone ↦
        let nothing : shown_under (("s2", "s1") ∷ []) runs j ≡ none = rw own (rw alone refl) in cc
    | inl nested ↦
        let found : shown_under (("s2", "s1") ∷ []) runs j ≡ some "s1" = rw own (rw nested refl) in
        let parent : "s1" ≡ p = some_injective (sym found ∙ h) in
        let least : rank "s1" < rank "s2" = omega arith in
        subst (λ x. rank x < rank j) parent
          (subst (λ x. rank "s1" < rank x) ((eq_iff "s2" j).0 own) least)
  ]
]

snapshot_sessions-Reached_example :
    (times_shown "s2" (snapshot (subagent_turn ∷ turn ∷ [])).1 ≡ 1)
    × (Reached (snapshot (subagent_turn ∷ turn ∷ [])).1 "s2"
        × Placed
            (snapshot (subagent_turn ∷ turn ∷ [])).0.parent_of
            (has_session (snapshot (subagent_turn ∷ turn ∷ [])).0.sessions)
            (snapshot (subagent_turn ∷ turn ∷ [])).1)
unfolding program snapshot_sessions
snapshot_sessions-Reached_example =
    snapshot_sessions-Reached {B = ℕ} 0 (λ a b. a + b) (λ (e : Event). e.output) (λ a b. a)
      (λ es. none) stamp rules 600 rank "s2" (subagent_turn ∷ turn ∷ []) (noon + 1)
      (lower_parents _) (unfold times_in in refl)

nests_the_subagent :
    (snapshot (subagent_turn ∷ turn ∷ [])).1
    ≡ record { top = "s1" ∷ []; subagents = ("s1", "s2" ∷ []) ∷ [] }
unfolding program snapshot_sessions
nests_the_subagent = refl

tokens_shown : List (String × RunningSession ℕ ℕ) → List (String × ℕ)
tokens_shown [] = []
tokens_shown ((k, s) ∷ m) = (s.vendor, s.tokens) ∷ tokens_shown m

-- Of two vendors' sessions with one id only one is kept, and it is shown twice.
one_id :
    (tokens_shown (snapshot (record turn { vendor = "openai"; output = 7 } ∷ turn ∷ [])).0.sessions
      ≡ ("openai", 107) ∷ [])
    × ((snapshot (record turn { vendor = "openai"; output = 7 } ∷ turn ∷ [])).1
        ≡ record { top = "s1" ∷ "s1" ∷ []; subagents = [] })
unfolding program snapshot_sessions tokens_shown
one_id = (refl, refl)
