-- ===== src/Agg/Tests.antt =====
-- A session over two days of two months.
use burnmon.Base.{ℕ, ◌+◌, [], ◌∷◌, ◌≡◌, refl}
use burnmon.Agg.{PerModel, Session, tool_group}
use burnmon.Agg.Sessions.{build}
use burnmon.Agg.Balance.{Balanced, build-Balanced}

abbrev used : ℕ → PerModel ℕ
used n = record { calls = 1; tokens = n; cost = n; cost_sub = 0 }

abbrev session : Session ℕ
session = record {
  surface = "cli";
  start = "2026-09-30T22:00:00Z";
  finish = "2026-10-01T01:00:00Z";
  fresh = 10;
  cache_w = 0;
  cache_r = 0;
  out = 5;
  models = ("claude", used 15) ∷ [];
  tools = ("mcp__notes__add", 2) ∷ ("Bash", 1) ∷ [];
  daily = ("2026-10-01", used 5) ∷ ("2026-09-30", used 10) ∷ [];
}

groups_test :
    (tool_group "mcp__notes__add" ≡ "notes")
    × (tool_group "skill:review" ≡ "review")
    × (tool_group "Bash" ≡ "(built in)")
unfolding tool_group
groups_test = (refl, refl, refl)

build-Balanced_example :
    Balanced 0 ◌+◌ (λ x. x) (build 0 ◌+◌ (λ x. x) (session ∷ []) "2026-09-01").0
build-Balanced_example = build-Balanced 0 ◌+◌ (λ x. x) (session ∷ []) "2026-09-01"
