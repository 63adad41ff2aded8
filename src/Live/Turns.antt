-- ===== src/Live/Turns.antt =====
-- `buildTurns`, `BuildTurns`, `BuildTurnDetail` and `BuildSessionInsight` of internal/live/live.go. `stamp`
-- formats a time as RFC3339 in UTC, and `turn_cost` is the price of an event.
use Prim.Native.String.{◌++◌ as join}
use burnmon.Base.{
  ℕ, suc, ◌-◌, String, ◌&&◌, ◌||◌, Option, none, some, List, [], ◌∷◌, ◌++◌, ◌==◌, ℤ, any, filter,
  length, take, get_elem?, ltb, str_lt, sub_time, string_eq, nat_eq, if◌then◌else◌,
}
use burnmon.Schema.{Event, ToolCall, is_turn, value_or_zero}
use burnmon.Agg.{change}
use burnmon.Insight.{Finding, Rules, analyze, sort_turns}
use burnmon.Live.Chart.{in_window}

pub record TurnEvent : Type 0 where
  pub vendor : String
  pub agent : String
  pub session_id : String
  pub model : String
  pub turn : ℕ
  pub at : String
  pub fresh : ℕ
  pub cache_write : ℕ
  pub cache_read : ℕ
  pub output : ℕ
  pub finding : Option Finding

-- turnTickerCap
abbrev pub turn_ticker_cap : ℕ
turn_ticker_cap = 50

pub record TurnGroup : Type 0 where
  pub group_vendor : String
  pub group_session : String
  pub group_turns : List Event

abbrev pub new_group : Event → TurnGroup
new_group e = record { group_vendor = e.vendor; group_session = e.session_id; group_turns = [] }

abbrev pub add_turn_to : Event → TurnGroup → TurnGroup
add_turn_to e g = record g { group_turns = g.group_turns ++ (e ∷ []) }

abbrev pub turn_key_of : Event → String
turn_key_of e = join e.vendor (join "|" e.session_id)

unfoldable pub group_turns_in :
    ℕ → ℕ → List Event → List (String × TurnGroup) → List (String × TurnGroup)
unfolding in_window change
group_turns_in start now [] gs = gs
group_turns_in start now (e ∷ es) gs =
    group_turns_in start now es (
      if in_window start now e then change (new_group e) (turn_key_of e) (add_turn_to e) gs else gs)

-- findingByTurn[turn]: the first one of the turn.
unfoldable pub finding_at : ℕ → List Finding → Option Finding
finding_at n [] = none
finding_at n (f ∷ fs) = let rest = finding_at n fs in if f.turn == n then some f else rest

module _ (stamp : ℕ → String) where
  abbrev pub ticker_line : TurnGroup → List Finding → ℕ → Event → TurnEvent
  ticker_line g fs n e = record {
    vendor = g.group_vendor;
    agent = e.agent;
    session_id = g.group_session;
    model = e.model;
    turn = n;
    at = stamp e.at;
    fresh = e.input;
    cache_write = value_or_zero e.cache_write;
    cache_read = value_or_zero e.cache_read;
    output = e.output;
    finding = finding_at n fs;
  }

  unfoldable pub ticker_lines : TurnGroup → List Finding → ℕ → List Event → List TurnEvent
  unfolding finding_at value_or_zero
  ticker_lines g fs n [] = []
  ticker_lines g fs n (e ∷ es) = ticker_line g fs n e ∷ ticker_lines g fs (suc n) es

  -- sort.SliceStable, the newest first.
  unfoldable pub insert_line : TurnEvent → List TurnEvent → List TurnEvent
  insert_line t [] = t ∷ []
  insert_line t (x ∷ xs) = if str_lt t.at x.at then x ∷ insert_line t xs else t ∷ x ∷ xs

  unfoldable pub sort_lines : List TurnEvent → List TurnEvent
  unfolding insert_line
  sort_lines [] = []
  sort_lines (t ∷ ts) = insert_line t (sort_lines ts)

  abbrev pub cap_lines : ℕ → List TurnEvent → List TurnEvent
  cap_lines limit ts = if ltb 0 limit && ltb limit (length ts) then take limit ts else ts

  module _ (rules : Rules) where
    unfoldable pub lines_of_groups : List (String × TurnGroup) → List TurnEvent
    unfolding ticker_lines analyze sort_turns
    lines_of_groups [] = []
    lines_of_groups ((k, g) ∷ gs) =
        let turns = sort_turns g.group_turns in
        ticker_lines g (analyze rules turns) 1 turns ++ lines_of_groups gs

    unfoldable pub build_turns : List Event → ℕ → ℕ → ℕ → List TurnEvent
    unfolding lines_of_groups group_turns_in sort_lines
    build_turns events start now limit =
        cap_lines limit (sort_lines (lines_of_groups (group_turns_in start now events [])))

    -- BuildTurns
    abbrev pub all_turns : List Event → ℕ → ℕ → List TurnEvent
    all_turns events start now = build_turns events start now 0

pub record TurnDetail (F : Type 0) : Type 0 where
  pub session_id : String
  pub vendor : String
  pub agent : String
  pub model : String
  pub turn : ℕ
  pub at : ℕ
  pub fresh : ℕ
  pub cache_write : ℕ
  pub cache_read : ℕ
  pub output : ℕ
  pub cost : F
  pub gap : Option ℤ
  pub tool_calls : List ToolCall
  pub files : List String
  pub findings : List Finding

-- The answer of BuildTurnDetail, or one of its errors.
pub data Answer (F : Type 0) : Type 0 where
  answer : TurnDetail F → Answer F
  turn_not_found : Answer F
  not_read : Answer F

-- d.Files: each path once, in first-seen order.
unfoldable pub files_from : List String → List ToolCall → List String
files_from seen [] = []
files_from seen (c ∷ cs) =
    let kept = files_from (c.path ∷ seen) cs in
    let rest = files_from seen cs in
    if c.path == "" || any (λ s. s == c.path) seen then rest else c.path ∷ kept

-- HasGap and GapSeconds, as a duration.
abbrev pub gap_after : Event → Option Event → Option ℤ
gap_after e none = none
gap_after e (some before) = some (sub_time e.at before.at)

abbrev pub turn_before : ℕ → List Event → Option Event
turn_before n turns = if ltb 1 n then get_elem? turns (n - 2) else none

module _ {F : Type 0} (turn_cost : Event → F) (rules : Rules) where
  abbrev pub detail_of : String → ℕ → List Event → Event → List ToolCall → TurnDetail F
  detail_of id n turns e calls = record {
    session_id = id;
    vendor = e.vendor;
    agent = e.agent;
    model = e.model;
    turn = n;
    at = e.at;
    fresh = e.input;
    cache_write = value_or_zero e.cache_write;
    cache_read = value_or_zero e.cache_read;
    output = e.output;
    cost = turn_cost e;
    gap = gap_after e (turn_before n turns);
    tool_calls = calls;
    files = files_from [] calls;
    findings = filter (λ (f : Finding). f.turn == n) (analyze rules turns);
  }

  abbrev pub with_calls : String → ℕ → List Event → Event → Option (List ToolCall) → Answer F
  with_calls id n turns e none = not_read
  with_calls id n turns e (some calls) = answer (detail_of id n turns e calls)

  abbrev pub with_turn :
      (Event → Option (List ToolCall)) → String → ℕ → List Event → Option Event → Answer F
  with_turn calls_of id n turns none = turn_not_found
  with_turn calls_of id n turns (some e) = with_calls id n turns e (calls_of e)

  abbrev pub with_events :
      (Event → Option (List ToolCall)) → String → ℕ → Option (List Event) → Answer F
  with_events calls_of id n none = not_read
  with_events calls_of id n (some events) =
      let turns = sort_turns (filter is_turn events) in
      if ltb n 1 || ltb (length turns) n
      then turn_not_found
      else with_turn calls_of id n turns (get_elem? turns (n - 1))

  -- `events` is what EventsForSession returns, and `calls_of` what ToolCallsForTurn returns for a
  -- turn; a number below 1 is 0.
  unfoldable pub build_turn_detail :
      (Event → Option (List ToolCall)) → String → ℕ → Option (List Event) → Answer F
  unfolding sort_turns is_turn analyze files_from sub_time value_or_zero
  build_turn_detail calls_of id n events = with_events calls_of id n events

-- BuildSessionInsight
abbrev pub insight_of : Rules → Option (List Event) → Option (List Finding)
insight_of rules none = none
insight_of rules (some events) = some (analyze rules (sort_turns (filter is_turn events)))
