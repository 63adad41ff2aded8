-- ===== src/History/Tests.antt =====
-- The history of the fixture's events.
use burnmon.Base.{ℕ, String, Option, some, List, [], ◌∷◌, ◌≡◌, refl, ◌+64◌, All, map, string_eq}
use burnmon.Calendar.{Date}
use burnmon.Schema.{Event, is_turn}
use burnmon.Dataset.FromStore.{event_tokens}
use burnmon.Dataset.FromStore.Fixture.{prices, all_events}
use burnmon.History.{Filter, Payload, Totals, build}
use burnmon.History.Rows.{AddsUp, build-AddsUp}
use burnmon.History.Split.{BySplit, build-BySplit}

abbrev costs : List Event → List (Option ℕ)
costs es = some 1 ∷ []

abbrev local : ℕ → Date
local t = record { year = 2426; month = 10; day = 1 }

abbrev every_day : Filter
every_day = record {
  period = "month";
  from_day = "2026-10-01";
  to_day = "2026-10-31";
  vendor = "";
  owner = "";
  client = "";
}

program : Unit {0}
unfolding build is_turn ◌+64◌ event_tokens
program = tt

abbrev tokens_by_key : Payload ℕ → List (String × ℕ)
tokens_by_key p = map (λ (r : String × Totals ℕ). (r.0, r.1.tokens)) p.rows

month_row : tokens_by_key (build prices costs all_events local every_day) ≡ ("2026-10", 45) ∷ []
unfolding program
month_row = refl

build-AddsUp_example : AddsUp prices costs (build prices costs all_events local every_day)
build-AddsUp_example = build-AddsUp prices costs all_events local every_day

build-BySplit_example :
    All
      (λ (r : String × Totals ℕ). BySplit prices costs r.1)
      (build prices costs all_events local every_day).rows
build-BySplit_example =
    build-BySplit prices costs all_events local every_day (refl, (refl, (refl, tt)))
