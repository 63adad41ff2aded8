-- ===== src/Store/Scores.antt =====
-- The forecast_scores table of internal/store/store.go: one row for each ISO week.
use burnmon.Base.{
  ℕ, Bool, true, ◌&&◌, ◌||◌, Option, none, some, List, [], ◌∷◌, ◌==◌, ◌≡◌, ◌↔◌, Eq, arith, ltb,
  nat_eq, nat_beq_iff, if◌then◌else◌, map,
}
use burnmon.Store.Db.{
  Db, ForecastScore, Error, Outcome, done, failed, query_failed, statement_failed,
}
use burnmon.Store.Table.{row, upsert}

-- The primary key.
pub record Week : Type 0 where
  pub iso_year : ℕ
  pub iso_week : ℕ

abbrev pub week_beq : Week → Week → Bool
week_beq a b = a.iso_year == b.iso_year && a.iso_week == b.iso_week

pub week_beq_iff : (a b : Week) → (week_beq a b ≡ true) ↔ (a ≡ b)
week_beq_iff a b =
    ground (arith, nat_beq_iff a.iso_year b.iso_year, nat_beq_iff a.iso_week b.iso_week)

instance abbrev pub week_eq : Eq Week
week_eq = record { beq = week_beq; beq_iff = week_beq_iff }

abbrev pub score_week : ForecastScore → Week
score_week s = record { iso_year = s.iso_year; iso_week = s.iso_week }

-- `ForecastScore`: `none` is its ok = false.
unfoldable pub forecast_score : Bool → Week → Db → Outcome (Option ForecastScore)
unfolding row
forecast_score fails w db =
    if fails then failed query_failed else done (row score_week w db.forecast_scores)

-- ORDER BY iso_year, iso_week
unfoldable pub insert_score : ForecastScore → List ForecastScore → List ForecastScore
insert_score s [] = s ∷ []
insert_score s (x ∷ xs) =
    if ltb x.iso_year s.iso_year || (x.iso_year == s.iso_year && ltb x.iso_week s.iso_week)
    then x ∷ insert_score s xs
    else s ∷ x ∷ xs

unfoldable pub sort_scores : List ForecastScore → List ForecastScore
unfolding insert_score
sort_scores [] = []
sort_scores (s ∷ ss) = insert_score s (sort_scores ss)

-- `ForecastScores`
unfoldable pub forecast_scores : Bool → Db → Outcome (List ForecastScore)
unfolding sort_scores
forecast_scores fails db =
    if fails then failed query_failed else done (sort_scores db.forecast_scores)

-- ON CONFLICT ... DO NOTHING
abbrev pub keep_plan : ForecastScore → ForecastScore → ForecastScore
keep_plan old new = old

abbrev pub planned : Week → ℕ → ℕ → ForecastScore
planned w start plan = record {
  iso_year = w.iso_year;
  iso_week = w.iso_week;
  week_start = start;
  plan_tokens = plan;
  actual_tokens = none;
  scored_at = none;
}

unfoldable pub insert_forecast_plan : Bool → Week → ℕ → ℕ → Db → Db × Option Error
unfolding upsert
insert_forecast_plan fails w start plan db = if fails then (db, some statement_failed) else (
  record db {
    forecast_scores = upsert score_week keep_plan (planned w start plan) db.forecast_scores;
  },
  none,
)

-- SET actual_tokens, scored_at WHERE actual_tokens IS NULL, on one row.
abbrev pub fill_actual : ℕ → ℕ → Option ℕ → ForecastScore → ForecastScore
fill_actual actual at none s = record s { actual_tokens = some actual; scored_at = some at }
fill_actual actual at (some a) s = s

unfoldable pub fill_week : Week → ℕ → ℕ → ForecastScore → ForecastScore
fill_week w actual at s = if score_week s == w then fill_actual actual at s.actual_tokens s else s

unfoldable pub fill_weeks : Week → ℕ → ℕ → List ForecastScore → List ForecastScore
unfolding fill_week
fill_weeks w actual at ss = map (fill_week w actual at) ss

unfoldable pub record_forecast_actual : Bool → Week → ℕ → ℕ → Db → Db × Option Error
unfolding fill_weeks
record_forecast_actual fails w actual at db =
    if fails
    then (db, some statement_failed)
    else (record db { forecast_scores = fill_weeks w actual at db.forecast_scores }, none)
