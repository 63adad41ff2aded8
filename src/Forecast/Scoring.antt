-- ===== src/Forecast/Scoring.antt =====
-- `EnsureScored`: what it never changes.
use burnmon.Base.{
  ℕ, suc, String, Bool, true, false, Option, none, some, List, [], ◌∷◌, ◌≡◌, refl, ◌==◌, ltb, ◌∙◌,
  ap, sym, subst, ◌⊎◌, inl, inr, if_both, if◌then◌else◌,
}
use burnmon.Store.Db.{Db, ForecastScore, Error, Outcome, done, failed}
use burnmon.Store.Table.{row, row-upsert, row-map, resolved}
use burnmon.Store.Scores.{
  Week, week_eq, score_week, forecast_score, forecast_scores, insert_forecast_plan,
  record_forecast_actual, fill_actual, fill_week, fill_weeks, keep_plan, planned,
}
use burnmon.Forecast.{
  LocalTime, week_start, ScoreFaults, ensure_scored, ensure_plan, plan_week, score_weeks,
  score_open, score_one, after_plan, score_listed, unless_failed, score_week_at,
  actual_tokens_for_week, plan_tokens_for_week,
}

-- A row of a week, later on: the same, or filled in once where it had no actual.
abbrev pub Kept : ForecastScore → ForecastScore → Type 0
Kept old new =
    (new ≡ old)
    ⊎ ((old.actual_tokens ≡ none)
        × ((a : ℕ) × (at : ℕ) × (new ≡ record old { actual_tokens = some a; scored_at = some at })))

-- Every recorded week is still there.
abbrev pub Frozen : Db → Db → Type 0
Frozen db db' =
    (w : Week) (old : ForecastScore)
    → row score_week w db.forecast_scores ≡ some old
    → (new : ForecastScore) × ((row score_week w db'.forecast_scores ≡ some new) × Kept old new)

Kept-trans : (a b c : ForecastScore) → Kept a b → Kept b c → Kept a c
Kept-trans a b c (inl e) k = subst (λ (x : ForecastScore). Kept x c) e k
Kept-trans a b c (inr h) (inl e) = subst (λ (x : ForecastScore). Kept a x) (sym e) (inr h)
Kept-trans a b c (inr (h, (n, at, k))) (inr (h', k')) =
    let filled : some n ≡ none = sym (ap (λ (x : ForecastScore). x.actual_tokens) k) ∙ h' in cc

Frozen-refl : (db : Db) → Frozen db db
Frozen-refl db w old h = (old, (h, inl refl))

Frozen-trans : (a b c : Db) → Frozen a b → Frozen b c → Frozen a c
Frozen-trans a b c f g w old h =
    let (mid, (e, k)) = f w old h in
    let (new, (e', k')) = g w mid e in (new, (e', Kept-trans old mid new k k'))

fill_actual-Kept :
    (a at : ℕ) (s : ForecastScore) (o : Option ℕ)
    → s.actual_tokens ≡ o
    → Kept s (fill_actual a at o s)
fill_actual-Kept a at s none h = inr (h, (a, at, refl))
fill_actual-Kept a at s (some n) h = inl refl

fill_week-Kept : (k : Week) (a at : ℕ) (s : ForecastScore) → Kept s (fill_week k a at s)
unfolding fill_week
fill_week-Kept k a at s =
    if_both (Kept s) (score_week s == k) (fill_actual-Kept a at s s.actual_tokens refl) (inl refl)

fill_actual-week :
    (a at : ℕ) (s : ForecastScore) (o : Option ℕ) → score_week (fill_actual a at o s) ≡ score_week s
fill_actual-week a at s none = refl
fill_actual-week a at s (some n) = refl

fill_week-week :
    (k : Week) (a at : ℕ) (s : ForecastScore) → score_week (fill_week k a at s) ≡ score_week s
unfolding fill_week
fill_week-week k a at s =
    if_both (λ (x : ForecastScore). score_week x ≡ score_week s) (score_week s == k)
      (fill_actual-week a at s s.actual_tokens) refl

record_forecast_actual-Frozen :
    (fails : Bool) (k : Week) (a at : ℕ) (db : Db)
    → Frozen db (record_forecast_actual fails k a at db).0
unfolding record_forecast_actual fill_weeks
record_forecast_actual-Frozen true k a at db = Frozen-refl db
record_forecast_actual-Frozen false k a at db = λ w old h. (
  fill_week k a at old,
  (
    row-map score_week (fill_week k a at) w db.forecast_scores old (fill_week-week k a at) h,
    fill_week-Kept k a at old,
  ),
)

stored-keeps :
    (b : Bool) (p old : ForecastScore) (o : Option ForecastScore)
    → o ≡ some old
    → (if b then some (resolved keep_plan p o) else o) ≡ some old
stored-keeps true p old none h = cc
stored-keeps true p old (some x) h = h
stored-keeps false p old o h = h

insert_forecast_plan-Frozen :
    (fails : Bool) (k : Week) (start plan : ℕ) (db : Db)
    → Frozen db (insert_forecast_plan fails k start plan db).0
unfolding insert_forecast_plan
insert_forecast_plan-Frozen true k start plan db = Frozen-refl db
insert_forecast_plan-Frozen false k start plan db = λ w old h.
    let p = planned k start plan in
    (
      old,
      (
        row-upsert score_week keep_plan (λ x r e. refl) w p db.forecast_scores
            ∙ stored-keeps (k == w) p old (row score_week w db.forecast_scores) h,
        inl refl,
      ),
    )

module _ (cal : LocalTime) (earlier : ℕ → ℕ → Bool) (date_lt : String → String → Bool) where
  score_open-Frozen :
      (f : ScoreFaults) (i now : ℕ) (s : ForecastScore) (o : Option ℕ) (db : Db)
      → Frozen db (score_open cal earlier date_lt f i now s o db).0
  score_open-Frozen f i now s (some a) db = Frozen-refl db
  score_open-Frozen f i now s none db =
      if_both (λ (r : Db × Option Error). Frozen db r.0) (ltb now (cal.forward 7 s.week_start))
        (Frozen-refl db)
        (go (actual_tokens_for_week cal earlier date_lt (f.actual_totals i) s.week_start db))
    where
      go :
          (o : Outcome ℕ)
          → Frozen db (score_one cal earlier date_lt (f.record_actual i) now s o db).0
      go (failed e) = Frozen-refl db
      go (done a) = record_forecast_actual-Frozen (f.record_actual i) (score_week s) a now db

  unless_failed-Frozen :
      (db : Db) (r rest : Db × Option Error)
      → Frozen db r.0
      → Frozen r.0 rest.0
      → Frozen db (unless_failed cal earlier date_lt r rest).0
  unless_failed-Frozen db (db', none) rest h k = Frozen-trans db db' rest.0 h k
  unless_failed-Frozen db (db', some e) rest h k = h

  pub score_weeks-Frozen :
      (f : ScoreFaults) (i now : ℕ) (ss : List ForecastScore) (db : Db)
      → Frozen db (score_weeks cal earlier date_lt f i now ss db).0
  unfolding score_weeks
  score_weeks-Frozen f i now [] db = Frozen-refl db
  score_weeks-Frozen f i now (s ∷ ss) db =
      let r = score_week_at cal earlier date_lt f i now s db in
      unless_failed-Frozen db r (score_weeks cal earlier date_lt f (suc i) now ss r.0)
        (score_open-Frozen f i now s s.actual_tokens db) (score_weeks-Frozen f (suc i) now ss r.0)

  ensure_plan-Frozen :
      (f : ScoreFaults) (ws : ℕ) (o : Outcome (Option ForecastScore)) (db : Db)
      → Frozen db (ensure_plan cal earlier date_lt f ws o db).0
  ensure_plan-Frozen f ws (failed e) db = Frozen-refl db
  ensure_plan-Frozen f ws (done (some s)) db = Frozen-refl db
  ensure_plan-Frozen f ws (done none) db =
      go (plan_tokens_for_week cal earlier date_lt f.plan_totals ws db)
    where
      go : (o : Outcome ℕ) → Frozen db (plan_week cal earlier date_lt f.insert ws o db).0
      go (failed e) = Frozen-refl db
      go (done plan) = insert_forecast_plan-Frozen f.insert (cal.iso_week ws) ws plan db

  after_plan-Frozen :
      (f : ScoreFaults) (now : ℕ) (db : Db) (r : Db × Option Error)
      → Frozen db r.0
      → Frozen db (after_plan cal earlier date_lt f now r).0
  after_plan-Frozen f now db (db', some e) h = h
  after_plan-Frozen f now db (db', none) h = go (forecast_scores f.list db')
    where
      go :
          (o : Outcome (List ForecastScore))
          → Frozen db (score_listed cal earlier date_lt f now o db').0
      go (failed e) = h
      go (done ss) =
          Frozen-trans db db' (score_weeks cal earlier date_lt f 0 now ss db').0 h
            (score_weeks-Frozen f 0 now ss db')

  -- Whatever fails and whenever it runs, `EnsureScored` keeps every recorded week: its plan and its
  -- start never change, and an actual, once there, stays as it is.
  pub ensure_scored-Frozen :
      (f : ScoreFaults) (now : ℕ) (db : Db)
      → Frozen db (ensure_scored cal earlier date_lt f now db).0
  unfolding ensure_scored
  ensure_scored-Frozen f now db =
      let ws = week_start cal now in
      let found = forecast_score f.find (cal.iso_week ws) db in
      after_plan-Frozen f now db (ensure_plan cal earlier date_lt f ws found db)
        (ensure_plan-Frozen f ws found db)
