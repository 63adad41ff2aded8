-- ===== src/Forecast.antt =====
-- internal/forecast/forecast.go: the plan and live lines, and the scoring of weeks.
-- The local calendar (package time) is a parameter: `midnight t` is time.Date of t's local day at 0:00,
-- `forward n t` and `back n t` are t.AddDate(0, 0, n) and t.AddDate(0, 0, -n), `month_start` the same of its
-- month's first day, `date` the format 2006-01-02 in local time. The quotients that the live line takes in floating point are parameters too.
mod Tests
pub mod Days
pub mod Scoring
pub mod Complete
use burnmon.Base.{
  ℕ, zero, suc, String, Bool, true, false, Option, none, some, List, [], ◌∷◌, ◌+◌, ◌-◌, ◌*◌, ◌/◌,
  ◌%◌, ◌+64◌, ltb, lt64, sign_bit, word_mod, map, string_eq, ◌==◌, if◌then◌else◌, sub_time, dur_gt,
  ℤ, pos, negsuc,
}
use burnmon.Schema.{Event}
use burnmon.Store.Db.{Db, ForecastScore, Error, Outcome, done, failed}
use burnmon.Store.Daily.{DayTotal, daily_token_totals}
use burnmon.Store.Scores.{
  Week, score_week, forecast_score, forecast_scores, insert_forecast_plan, record_forecast_actual,
}

pub record LocalTime : Type 0 where
  pub midnight : ℕ → ℕ
  pub weekday : ℕ → ℕ
  pub forward : ℕ → ℕ → ℕ
  pub back : ℕ → ℕ → ℕ
  pub month_start : ℕ → ℕ
  pub iso_week : ℕ → Week
  pub date : ℕ → String

pub record Point : Type 0 where
  pub date : String
  pub tokens : ℕ

-- `sum / int64(n)` with n above 0, which truncates towards 0.
unfoldable pub quot64 : ℕ → ℕ → ℕ
quot64 a n = if ltb a sign_bit then a / n else (word_mod - (word_mod - a) / n) % word_mod

-- `byDay[key]` with its ok; `dailyMap` is the list of the totals itself, whose days differ.
unfoldable pub day_tokens? : String → List DayTotal → Option ℕ
day_tokens? key [] = none
day_tokens? key (d ∷ ds) = if d.date == key then some d.tokens else day_tokens? key ds

abbrev pub or_zero : Option ℕ → ℕ
or_zero none = 0
or_zero (some n) = n

unfoldable pub day_tokens : String → List DayTotal → ℕ
unfolding day_tokens?
day_tokens key ds = or_zero (day_tokens? key ds)

-- `sum` and `n` after one more week back.
abbrev pub add_found : Option ℕ → ℕ × ℕ → ℕ × ℕ
add_found none acc = acc
add_found (some v) acc = (acc.0 +64 v, acc.1 + 1)

unfoldable pub average : ℕ × ℕ → ℕ
unfolding quot64
average (sum, zero) = 0
average (sum, suc n) = quot64 sum (suc n)

unfoldable pub sum_points : List Point → ℕ
sum_points [] = 0
sum_points (p ∷ ps) = p.tokens +64 sum_points ps

-- The loop over `daily` with its `continue`: `before` is d.Date < end.
unfoldable pub sum_days : (String → Bool) → List DayTotal → ℕ → ℕ
sum_days before [] total = total
sum_days before (d ∷ ds) total =
    sum_days before ds (if before d.date then total +64 d.tokens else total)

-- The calls of `EnsureScored` that fail; the last two by the place of the week in the loop.
pub record ScoreFaults : Type 0 where
  pub find : Bool
  pub plan_totals : Bool
  pub insert : Bool
  pub list : Bool
  pub actual_totals : ℕ → Bool
  pub record_actual : ℕ → Bool

abbrev pub visit_day : ℕ → Option (List ℕ) → Option (List ℕ)
visit_day d none = none
visit_day d (some ds) = some (d ∷ ds)

abbrev pub over_days : (ℕ → Point) → Option (List ℕ) → Option (List Point)
over_days point none = none
over_days point (some ds) = some (map point ds)

module _ (cal : LocalTime) where
  unfoldable pub week_start : ℕ → ℕ
  week_start t = let d = cal.midnight t in cal.back ((cal.weekday d + 6) % 7) d

  -- `for d := from; !d.After(today); d = d.AddDate(0, 0, 1)`: the days it visits.
  unfoldable pub days_through : ℕ → ℕ → ℕ → Option (List ℕ)
  days_through zero d today = none
  days_through (suc fuel) d today =
      let rest = days_through fuel (cal.forward 1 d) today in
      if ltb today d then some [] else visit_day d rest

  unfoldable pub day_point : List DayTotal → ℕ → Point
  unfolding day_tokens
  day_point by_day d = record { date = cal.date d; tokens = day_tokens (cal.date d) by_day }

  unfoldable pub history_points : ℕ → List DayTotal → ℕ → Option (List Point)
  unfolding days_through day_point
  history_points fuel by_day now =
      let today = cal.midnight now in
      over_days (day_point by_day) (days_through fuel (cal.back 6 today) today)

  -- The inner loop of `planLine`, over the weeks w .. 4.
  unfoldable pub weeks_back : List DayTotal → ℕ → List ℕ → ℕ × ℕ → ℕ × ℕ
  unfolding day_tokens?
  weeks_back by_day d [] acc = acc
  weeks_back by_day d (w ∷ ws) acc =
      weeks_back by_day d ws (add_found (day_tokens? (cal.date (cal.back (7 * w) d)) by_day) acc)

  unfoldable pub plan_point : List DayTotal → ℕ → ℕ → Point
  unfolding weeks_back average
  plan_point by_day ws i =
      let d = cal.forward i ws in
      record {
        date = cal.date d;
        tokens = average (weeks_back by_day d (1 ∷ 2 ∷ 3 ∷ 4 ∷ []) (0, 0));
      }

  abbrev pub week_days : List ℕ
  week_days = 0 ∷ 1 ∷ 2 ∷ 3 ∷ 4 ∷ 5 ∷ 6 ∷ []

  unfoldable pub plan_line : List DayTotal → ℕ → List Point
  unfolding plan_point
  plan_line by_day ws = map (plan_point by_day ws) week_days

  unfoldable pub sum_month : List DayTotal → List ℕ → ℕ → ℕ
  unfolding day_tokens
  sum_month by_day [] total = total
  sum_month by_day (d ∷ ds) total = sum_month by_day ds (total +64 day_tokens (cal.date d) by_day)

  abbrev pub live_point : List DayTotal → ℕ → ℕ → ℕ → Point
  live_point by_day today eod d =
      if ltb d today then day_point by_day d else record { date = cal.date d; tokens = eod }

  -- `if eod < todayTokens`, and the same for the month.
  abbrev pub raise : ℕ → ℕ → ℕ
  raise projected sofar = if lt64 projected sofar then sofar else projected

  -- `per_day now n` is int64(n / fracDay) and `per_month now n` the projection of the month, or 0
  -- where the share that has elapsed is not above 0.
  unfoldable pub live_line :
      (ℕ → ℕ → ℕ) → (ℕ → ℕ → ℕ) → ℕ → List DayTotal → ℕ → ℕ → Option (List Point × (ℕ × ℕ))
  unfolding days_through day_point sum_month
  live_line per_day per_month fuel by_day ws now =
      let today = cal.midnight now in
      let sofar = day_tokens (cal.date today) by_day in
      let eod = raise (per_day now sofar) sofar in
      elim (days_through fuel (cal.month_start now) today) [
        | none ↦ none
        | some ds ↦
            let month = sum_month by_day ds 0 in
            some (
              map (λ i. live_point by_day today eod (cal.forward i ws)) week_days,
              (eod, raise (per_month now month) month),
            )
      ]

  module _ (earlier : ℕ → ℕ → Bool) (date_lt : String → String → Bool) where
    abbrev pub plan_of : ℕ → Outcome (List DayTotal) → Outcome ℕ
    plan_of ws (failed e) = failed e
    plan_of ws (done daily) = done (sum_points (plan_line daily ws))

    unfoldable pub plan_tokens_for_week : Bool → ℕ → Db → Outcome ℕ
    unfolding plan_line sum_points
    plan_tokens_for_week fails ws db =
        plan_of ws (daily_token_totals earlier cal.date fails (cal.back 28 ws) 0 db)

    abbrev pub actual_of : String → Outcome (List DayTotal) → Outcome ℕ
    actual_of end (failed e) = failed e
    actual_of end (done daily) = done (sum_days (λ date. date_lt date end) daily 0)

    unfoldable pub actual_tokens_for_week : Bool → ℕ → Db → Outcome ℕ
    unfolding sum_days
    actual_tokens_for_week fails ws db =
        let end = cal.forward 7 ws in
        actual_of (cal.date end) (daily_token_totals earlier cal.date fails ws end db)

    abbrev pub plan_week : Bool → ℕ → Outcome ℕ → Db → Db × Option Error
    plan_week fails ws (failed e) db = (db, some e)
    plan_week fails ws (done plan) db = insert_forecast_plan fails (cal.iso_week ws) ws plan db

    -- The first half of `EnsureScored`: the current week has its plan.
    abbrev pub ensure_plan :
        ScoreFaults → ℕ → Outcome (Option ForecastScore) → Db → Db × Option Error
    ensure_plan f ws (failed e) db = (db, some e)
    ensure_plan f ws (done (some s)) db = (db, none)
    ensure_plan f ws (done none) db =
        plan_week f.insert ws (plan_tokens_for_week f.plan_totals ws db) db

    abbrev pub score_one : Bool → ℕ → ForecastScore → Outcome ℕ → Db → Db × Option Error
    score_one fails now s (failed e) db = (db, some e)
    score_one fails now s (done actual) db =
        record_forecast_actual fails (score_week s) actual now db

    -- The body of the loop: a week with an actual, or not over yet, is passed by.
    abbrev pub score_open : ScoreFaults → ℕ → ℕ → ForecastScore → Option ℕ → Db → Db × Option Error
    score_open f i now s (some a) db = (db, none)
    score_open f i now s none db =
        if ltb now (cal.forward 7 s.week_start)
        then (db, none)
        else score_one (f.record_actual i) now s
            (actual_tokens_for_week (f.actual_totals i) s.week_start db) db

    -- The body of the loop: a week with an actual, or not over yet, is passed by.
    abbrev pub score_week_at : ScoreFaults → ℕ → ℕ → ForecastScore → Db → Db × Option Error
    score_week_at f i now s db = score_open f i now s s.actual_tokens db

    abbrev pub unless_failed : Db × Option Error → Db × Option Error → Db × Option Error
    unless_failed (db, none) rest = rest
    unless_failed (db, some e) rest = (db, some e)

    unfoldable pub score_weeks : ScoreFaults → ℕ → ℕ → List ForecastScore → Db → Db × Option Error
    unfolding actual_tokens_for_week
    score_weeks f i now [] db = (db, none)
    score_weeks f i now (s ∷ ss) db =
        let stepped = score_week_at f i now s db in
        let rest = score_weeks f (suc i) now ss stepped.0 in unless_failed stepped rest

    abbrev pub score_listed :
        ScoreFaults → ℕ → Outcome (List ForecastScore) → Db → Db × Option Error
    score_listed f now (failed e) db = (db, some e)
    score_listed f now (done ss) db = score_weeks f 0 now ss db

    abbrev pub after_plan : ScoreFaults → ℕ → Db × Option Error → Db × Option Error
    after_plan f now (db, some e) = (db, some e)
    after_plan f now (db, none) = score_listed f now (forecast_scores f.list db) db

    unfoldable pub ensure_scored : ScoreFaults → ℕ → Db → Db × Option Error
    unfolding week_start plan_tokens_for_week score_weeks
    ensure_scored f now db =
        let ws = week_start now in
        after_plan f now (ensure_plan f ws (forecast_score f.find (cal.iso_week ws) db) db)
