-- ===== src/Insight/Tests.antt =====
-- Four turns of a session: a steady context, a drop, and one turn far above the others.
use mathlib.Core.List.{Perm}
use burnmon.Insight.Turns.{Rising}
use burnmon.Base.{
  ℕ, none, some, List, [], ◌∷◌, ◌≡◌, refl, ◌+◌, ◌*◌, ◌/◌, ltb, map, filter, All, arith, lt64, ◌+64◌,
}
use burnmon.Schema.{Event, is_turn, context_of, value_or_zero}
use burnmon.Insight.{Rules, Finding, analyze}
use burnmon.Insight.Rank.{Ordered}
use burnmon.Insight.Placed.{InOrder, Placed, analyze-Placed}

abbrev turn_at : ℕ → ℕ → ℕ → Event
turn_at at cached output = record {
  vendor = "anthropic";
  agent = "claude-code";
  surface = "cli";
  session_id = "s1";
  request_id = "r";
  parent_id = "";
  at = at;
  model = "claude";
  project = "";
  owner = "";
  client = "";
  title = "";
  input = 10;
  cache_write = none;
  cache_read = some cached;
  output = output;
  reasoning = none;
  vendor_cost = none;
  window_used = none;
  window_reset = none;
  tools = [];
}

abbrev whole_rules : Rules
whole_rules = record {
  reprefill_threshold = 1000;
  cache_ttl = 300;
  context_window = λ model. none;
  drops = λ before after. ltb (after * 10) (before * 7);
  below = ltb;
  rank = λ n. (n * 95 + 99) / 100;
  runway = λ cs w. none;
  gap_cause = λ d. "gap";
  expensive_cause = λ e p. "expensive";
}

abbrev session : List Event
session = turn_at 3 100 5 ∷ turn_at 1 900 5 ∷ turn_at 2 950 50 ∷ []

program : Unit {0}
unfolding analyze context_of value_or_zero lt64 is_turn ◌+64◌
program = tt

finds_the_drop : map (λ (f : Finding). f.turn) (analyze whole_rules session) ≡ 3 ∷ []
unfolding program
finds_the_drop = refl

numbers-Ordered : Ordered whole_rules.below
numbers-Ordered = record { asymm = λ a b h. ground arith; not_trans = λ a b c h k. ground arith }

analyze-Placed_example :
    InOrder (analyze whole_rules session)
    × ((turns : List Event) × (Perm turns (filter is_turn session)
          × (Rising 0 turns × All (Placed 1 turns) (analyze whole_rules session))))
analyze-Placed_example = analyze-Placed whole_rules session
