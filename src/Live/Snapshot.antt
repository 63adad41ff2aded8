-- ===== src/Live/Snapshot.antt =====
-- The sessions of `BuildSnapshot` of internal/live/live.go: the groups, the running ones, and the
-- subagents under their parents. A session is an object that the map of sessions names by its id.
-- Prices and the ratio of two counts are parameters, `stamp` formats a time, and `running_seconds`
-- is the configured window, too short for a duration to wrap.
use burnmon.Base.{
  ℕ, ◌-◌, ◌*◌, String, Bool, not, ◌&&◌, ◌||◌, Option, none, some, List, [], ◌∷◌, ◌++◌, ◌==◌, ◌+64◌,
  lt64, any, filter, length, is_zero, second, sub_time, dur_gt, string_eq, if◌then◌else◌,
}
use burnmon.Schema.{Event, context_of, is_turn, value_or_zero}
use burnmon.Agg.{change, sort_days}
use burnmon.Insight.{Finding, Rules, analyze, sort_turns, context_turn, runway_text}
use burnmon.Live.Chart.{chart_window}
use burnmon.Live.Turns.{TurnGroup, new_group, add_turn_to, turn_key_of}
use burnmon.Live.Trail.{put}

-- Session, without what ApplyStages sets and without its subagents, which `Nest` holds.
pub record RunningSession (F B : Type 0) : Type 0 where
  pub vendor : String
  pub session_id : String
  pub agent : String
  pub surface : String
  pub model : String
  pub project : String
  pub client : String
  pub start : String
  pub last_turn : String
  pub turn_count : ℕ
  pub context : ℕ
  pub context_window : ℕ
  pub tokens : ℕ
  pub cost : F
  pub business_cost : Option B
  pub cache_hit_ratio : F
  pub findings : List Finding
  pub runway : String
  pub turns : List Event
  pub window_start : ℕ

unfoldable pub first_project : List Event → String
first_project [] = ""
first_project (e ∷ es) = let rest = first_project es in if e.project == "" then rest else e.project

unfoldable pub first_client : List Event → String
first_client [] = ""
first_client (e ∷ es) = let rest = first_client es in if e.client == "" then rest else e.client

-- The groups of all events by vendor and session.
unfoldable pub session_groups : List Event → List (String × TurnGroup) → List (String × TurnGroup)
unfolding change
session_groups [] gs = gs
session_groups (e ∷ es) gs =
    session_groups es (change (new_group e) (turn_key_of e) (add_turn_to e) gs)

unfoldable pub newest_first : List Event → List Event → List Event
newest_first [] back = back
newest_first (e ∷ es) back = newest_first es (e ∷ back)

unfoldable pub still_runs : ℕ → ℕ → Event → Bool
unfolding sub_time
still_runs running_seconds now last =
    not (is_zero last.at || dur_gt (sub_time now last.at) (running_seconds * second))

unfoldable pub tokens_from : ℕ → List Event → ℕ
unfolding value_or_zero
tokens_from n [] = n
tokens_from n (t ∷ ts) =
    tokens_from
      (n +64 (t.input +64 value_or_zero t.cache_write +64 value_or_zero t.cache_read +64 t.output))
      ts

-- sessions, parentOf and runningOrder.
pub record Scan (F B : Type 0) : Type 0 where
  pub sessions : List (String × RunningSession F B)
  pub parent_of : List (String × String)
  pub running_order : List String

-- m[k]
unfoldable pub value_at {ℓ} : {A : Type ℓ} → String → List (String × A) → Option A
value_at k [] = none
value_at k ((j, a) ∷ m) = let rest = value_at k m in if j == k then some a else rest

-- The sessions at the top, and the subagents of each one.
pub record Nest : Type 0 where
  pub top : List String
  pub subagents : List (String × List String)

-- The body of the second loop, for a session and its entry of parentOf.
unfoldable pub place : (String → Bool) → String → Option String → Nest → Nest
unfolding change
place runs id none n = record n { top = n.top ++ (id ∷ []) }
place runs id (some p) n =
    if runs p && not (p == id)
    then record n { subagents = change [] p (λ ids. ids ++ (id ∷ [])) n.subagents }
    else record n { top = n.top ++ (id ∷ []) }

unfoldable pub place_all : List (String × String) → (String → Bool) → List String → Nest → Nest
unfolding place value_at
place_all parent_of runs [] n = n
place_all parent_of runs (id ∷ ids) n =
    place_all parent_of runs ids (place runs id (value_at id parent_of) n)

abbrev pub has_session {ℓ} : {A : Type ℓ} → List (String × A) → String → Bool
has_session m k = any (λ e. e.0 == k) m

module _ {F B : Type 0} (zero_cost : F) (plus : F → F → F) (turn_cost : Event → F)
    (ratio : ℕ → ℕ → F) (headline : List Event → Option B) (stamp : ℕ → String) (rules : Rules)
    (running_seconds : ℕ) where
  unfoldable pub cost_from : F → List Event → F
  cost_from c [] = c
  cost_from c (t ∷ ts) = cost_from (plus c (turn_cost t)) ts

  abbrev pub hit_ratio : Event → F
  hit_ratio last =
      if lt64 0 (last.input +64 value_or_zero last.cache_read)
      then ratio (value_or_zero last.cache_read) (last.input +64 value_or_zero last.cache_read)
      else zero_cost

  -- s, of the turns, the first and the last of them, and the turn whose context counts.
  abbrev pub session_from : ℕ → String → List Event → Event → Event → Event → RunningSession F B
  session_from now id turns first last ctx = record {
    vendor = first.vendor;
    session_id = id;
    agent = first.agent;
    surface = last.surface;
    model = last.model;
    project = first_project turns;
    client = first_client turns;
    start = stamp first.at;
    last_turn = stamp last.at;
    turn_count = length turns;
    context = context_of ctx;
    context_window = value_or_zero (rules.context_window ctx.model);
    tokens = tokens_from 0 turns;
    cost = cost_from zero_cost turns;
    business_cost = headline turns;
    cache_hit_ratio = hit_ratio last;
    findings = analyze rules turns;
    runway = runway_text (analyze rules turns);
    turns = turns;
    window_start = now - chart_window;
  }

  abbrev pub note_parent : String → String → List (String × String) → List (String × String)
  note_parent id parent m = if parent == "" then m else put id parent m

  abbrev pub keep_running : ℕ → String → List Event → List Event → Scan F B → Scan F B
  keep_running now id [] back s = s
  keep_running now id (t ∷ ts) [] s = s
  keep_running now id (t ∷ ts) (last ∷ ps) s =
      if still_runs running_seconds now last
      then record {
        sessions = put id (session_from now id (t ∷ ts) t last (context_turn last ps)) s.sessions;
        parent_of = note_parent id t.parent_id s.parent_of;
        running_order = s.running_order ++ (id ∷ []);
      }
      else s

  -- The body of the loop over the groups.
  abbrev pub scan_group : ℕ → TurnGroup → Scan F B → Scan F B
  scan_group now g s =
      let turns = filter is_turn (sort_turns g.group_turns) in
      keep_running now g.group_session turns (newest_first turns []) s

  unfoldable pub scan_groups : ℕ → List (String × TurnGroup) → Scan F B → Scan F B
  unfolding still_runs first_project first_client newest_first tokens_from cost_from put analyze
      sort_turns context_turn
  scan_groups now [] s = s
  scan_groups now ((k, g) ∷ gs) s = scan_groups now gs (scan_group now g s)

  abbrev pub no_sessions : Scan F B
  no_sessions = record { sessions = []; parent_of = []; running_order = [] }

  unfoldable pub scan_events : List Event → ℕ → Scan F B
  unfolding scan_groups session_groups sort_days
  scan_events events now = scan_groups now (sort_days (session_groups events [])) no_sessions

  -- Snapshot.Sessions
  unfoldable pub snapshot_sessions : List Event → ℕ → Scan F B × Nest
  unfolding scan_events place_all
  snapshot_sessions events now =
      let s = scan_events events now in
      (
        s,
        place_all s.parent_of (has_session s.sessions) s.running_order
            (record { top = []; subagents = [] }),
      )
