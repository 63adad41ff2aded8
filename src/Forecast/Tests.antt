-- ===== src/Forecast/Tests.antt =====
-- The forecast on a calendar of days of ten ticks, the first of them a Monday.
use burnmon.Base.{
  All, ltb, str_lt, false, none, Option, ℕ, String, [], ◌∷◌, ◌≡◌, refl, ◌+◌, ◌-◌, ◌*◌, ◌/◌, ◌%◌,
  some, arith, nat_beq, if◌then◌else◌, map, List,
}
use burnmon.Forecast.{LocalTime, ScoreFaults, ensure_scored, week_start, days_through}
use burnmon.Forecast.Days.{UpTo, WeekDays, days_through-UpTo, day_after}
use burnmon.Forecast.Scoring.{Frozen, ensure_scored-Frozen}
use burnmon.Forecast.Complete.{Recorded, Closed, ensure_scored-Closed}
use burnmon.Store.Db.{Db, ForecastScore, Error}
use burnmon.Store.Daily.{DayTotal, daily_token_totals}
use burnmon.Store.Scores.{
  planned, forecast_score, forecast_scores, insert_forecast_plan, record_forecast_actual,
}

abbrev name_of_day : ℕ → String
name_of_day n = if nat_beq n 3 then "wednesday" else "other"

abbrev ticks : LocalTime
ticks = record {
  midnight = λ t. t / 10 * 10;
  weekday = λ t. (t / 10 + 1) % 7;
  forward = λ n t. t + 10 * n;
  back = λ n t. t - 10 * n;
  month_start = λ t. t / 300 * 300;
  iso_week = λ t. record { iso_year = 2026; iso_week = t / 70 };
  date = λ t. name_of_day (t / 10);
}

days_through-UpTo_example : UpTo ticks 5 25 (days_through ticks 4 5 25)
days_through-UpTo_example =
    days_through-UpTo ticks 3 3 5 25 (unfold day_after in omega arith) (omega arith)

abbrev totals : List DayTotal
totals = record { date = "wednesday"; tokens = 40 } ∷ []

ticks-WeekDays : WeekDays ticks 90
ticks-WeekDays = record {
  none_back = refl;
  next = λ k h. omega arith;
  earlier = λ k. omega arith;
  later = omega arith;
}

abbrev no_rows : Db
no_rows = record { events = []; tool_calls = []; cursors = []; meta = []; forecast_scores = [] }

abbrev quiet : ScoreFaults
quiet = record {
  find = false;
  plan_totals = false;
  insert = false;
  list = false;
  actual_totals = λ i. false;
  record_actual = λ i. false;
}

-- The week of the first seven days has a plan and no actual.
abbrev one_week : Db
one_week = record no_rows {
  forecast_scores = planned (record { iso_year = 2026; iso_week = 0 }) 0 500 ∷ [];
}

abbrev scored : Db × Option Error
scored = ensure_scored ticks ltb str_lt quiet 95 one_week

-- What the tests compute with.
program : Unit {0}
unfolding ensure_scored forecast_score daily_token_totals insert_forecast_plan forecast_scores
    record_forecast_actual
program = tt

scores_the_week :
    map (λ (s : ForecastScore). s.actual_tokens) scored.0.forecast_scores ≡ some 0 ∷ none ∷ []
unfolding program
scores_the_week = refl

ensure_scored-Frozen_example : Frozen one_week scored.0
ensure_scored-Frozen_example = ensure_scored-Frozen ticks ltb str_lt quiet 95 one_week

scored-ok : scored.1 ≡ none
unfolding program
scored-ok = refl

ensure_scored-Closed_example :
    Recorded ticks ltb str_lt (ticks.iso_week (week_start ticks 95)) scored.0
    × All (Closed ticks ltb str_lt 95) scored.0.forecast_scores
ensure_scored-Closed_example = ensure_scored-Closed ticks ltb str_lt quiet 95 one_week scored-ok
