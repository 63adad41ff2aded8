-- ===== src/Live/Trail.antt =====
-- The maps of the chart's sessions, and `ApplyStages`: the stage of each
-- running session from its turns, its newest tool call and its compactions.
use burnmon.Base.{
  ℕ, String, Bool, true, false, not, ◌&&◌, ◌||◌, Option, none, some, List, [], ◌∷◌, ◌++◌, any,
  get_last?, ◌==◌, ltb, nat_eq, string_eq, if◌then◌else◌, after,
}
use burnmon.Schema.{Event, ToolCall}
use burnmon.Stage.{Input, Result, classify}
use burnmon.Live.Chart.{in_window}

-- m[k] = v
unfoldable pub put {ℓ} : {A : Type ℓ} → String → A → List (String × A) → List (String × A)
put k v [] = (k, v) ∷ []
put k v ((j, u) ∷ m) = if j == k then (k, v) ∷ m else (j, u) ∷ put k v m

unfoldable pub chart_agents_from :
    ℕ → ℕ → List Event → List (String × String) → List (String × String)
unfolding put in_window
chart_agents_from start now [] m = m
chart_agents_from start now (e ∷ es) m =
    chart_agents_from start now es (if in_window start now e then put e.session_id e.agent m else m)

unfoldable pub build_chart_agents : List Event → ℕ → ℕ → List (String × String)
unfolding chart_agents_from
build_chart_agents es start now = chart_agents_from start now es []

unfoldable pub chart_projects_from :
    ℕ → ℕ → List Event → List (String × String) → List (String × String)
unfolding put in_window
chart_projects_from start now [] m = m
chart_projects_from start now (e ∷ es) m =
    chart_projects_from start now es
      (if not (e.project == "") && in_window start now e then put e.session_id e.project m else m)

unfoldable pub build_chart_projects : List Event → ℕ → ℕ → List (String × String)
unfolding chart_projects_from
build_chart_projects es start now = chart_projects_from start now es []

-- `noToolTrail`
unfoldable pub no_tool_trail : String → Bool
no_tool_trail agent = agent == "copilot-vscode" || agent == "cowork-cloud"

-- What ApplyStages reads of a session: `start` is the text field parsed, 0 if it does not parse,
-- and `compactions` holds the times of its compaction findings.
pub record SessionInfo : Type 0 where
  pub vendor : String
  pub session_id : String
  pub agent : String
  pub start : ℕ
  pub turns : List Event
  pub window_start : ℕ
  pub compactions : List ℕ
  pub stage : Option Result

-- A session with its subagents.
mutual
  pub data Session : Type 0 where
    node : SessionInfo → Sessions → Session

  pub data Sessions : Type 0 where
    nil : Sessions
    cons : Session → Sessions → Sessions

-- turns[n-2].At, or the window's start.
unfoldable pub before_last : ℕ → List Event → ℕ
before_last start [] = start
before_last start (t ∷ []) = start
before_last start (t ∷ u ∷ []) = t.at
before_last start (t ∷ u ∷ v ∷ ts) = before_last start (u ∷ v ∷ ts)

unfoldable pub latest_of : Option Event → SessionInfo → ToolCall → Bool
unfolding before_last
latest_of none s c = false
latest_of (some last) s c =
    if not (c.turn == "") && c.turn == last.request_id
    then true
    else if any (λ t. t.request_id == c.turn) s.turns
    then false
    else after c.at (before_last s.window_start s.turns)

unfoldable pub in_latest_turn : SessionInfo → ToolCall → Bool
unfolding latest_of
in_latest_turn s c = latest_of (get_last? s.turns) s c

-- `LatestToolCalls` at one key: the call of the greatest julianday(at), the first one of equals.
-- `julianday` is SQLite's, which is not as fine as the times.
unfoldable pub newer : (ℕ → ℕ) → ToolCall → Option ToolCall → ToolCall
newer julianday c none = c
newer julianday c (some d) = if ltb (julianday c.at) (julianday d.at) then d else c

unfoldable pub latest_call : (ℕ → ℕ) → String → String → List ToolCall → Option ToolCall
unfolding newer
latest_call julianday vendor sid [] = none
latest_call julianday vendor sid (c ∷ cs) =
    let rest = latest_call julianday vendor sid cs in
    if c.vendor == vendor && c.session_id == sid then some (newer julianday c rest) else rest

-- The latest compaction after the given time.
unfoldable pub last_compaction : ℕ → List ℕ → ℕ
last_compaction t [] = t
last_compaction t (u ∷ us) = last_compaction (if after u t then u else t) us

unfoldable pub last_turn_at : Option Event → ℕ
last_turn_at none = 0
last_turn_at (some e) = e.at

abbrev pub is_done : Option ℕ → Bool
is_done none = false
is_done (some n) = true

unfoldable pub stage_input : ℕ → SessionInfo → Option ToolCall → Input
unfolding no_tool_trail last_turn_at last_compaction in_latest_turn
stage_input now s none = record {
  now = now;
  start = s.start;
  last_turn = last_turn_at (get_last? s.turns);
  last_tool = "";
  last_tool_at = 0;
  last_tool_in_latest_turn = false;
  last_tool_done = false;
  compacted_at = last_compaction 0 s.compactions;
  no_tool_trail = no_tool_trail s.agent;
}
stage_input now s (some c) = record {
  now = now;
  start = s.start;
  last_turn = last_turn_at (get_last? s.turns);
  last_tool = c.tool;
  last_tool_at = c.at;
  last_tool_in_latest_turn = in_latest_turn s c;
  last_tool_done = is_done c.result_bytes;
  compacted_at = last_compaction 0 s.compactions;
  no_tool_trail = no_tool_trail s.agent;
}

-- StageSince is kept as the instant that the text names.
unfoldable pub set_stage : (ℕ → ℕ) → ℕ → List ToolCall → SessionInfo → SessionInfo
unfolding stage_input latest_call
set_stage julianday now calls s = record s {
  stage = some (classify (stage_input now s (latest_call julianday s.vendor s.session_id calls)));
}

unfoldable mutual
  pub apply_stage : (ℕ → ℕ) → ℕ → List ToolCall → Session → Session
  apply_stage julianday now calls (node s subs) =
      node (set_stage julianday now calls s) (apply_stages_to julianday now calls subs)

  pub apply_stages_to : (ℕ → ℕ) → ℕ → List ToolCall → Sessions → Sessions
  apply_stages_to julianday now calls nil = nil
  apply_stages_to julianday now calls (cons s ss) =
      cons (apply_stage julianday now calls s) (apply_stages_to julianday now calls ss)

unfoldable mutual
  pub keys_of : Session → List (String × String)
  keys_of (node s subs) = (s.vendor, s.session_id) ∷ session_keys subs

  pub session_keys : Sessions → List (String × String)
  session_keys nil = []
  session_keys (cons s ss) = keys_of s ++ session_keys ss

-- No session, no query; a failed query changes nothing.
unfoldable pub apply_stages_keyed :
    List (String × String) → (ℕ → ℕ) → ℕ → Option (List ToolCall) → Sessions → Sessions × Bool
apply_stages_keyed [] julianday now calls ss = (ss, true)
apply_stages_keyed (k ∷ ks) julianday now none ss = (ss, false)
apply_stages_keyed (k ∷ ks) julianday now (some calls) ss =
    (apply_stages_to julianday now calls ss, true)

-- `calls` is the table of tool calls, or `none` where its query fails; the Boolean is no error.
unfoldable pub apply_stages : (ℕ → ℕ) → ℕ → Option (List ToolCall) → Sessions → Sessions × Bool
unfolding apply_stages_keyed
apply_stages julianday now calls ss = apply_stages_keyed (session_keys ss) julianday now calls ss
