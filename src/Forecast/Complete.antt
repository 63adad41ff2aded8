-- ===== src/Forecast/Complete.antt =====
-- `EnsureScored` where nothing fails: what it leaves of the weeks that are over.
use mathlib.Core.List.{Memᴰ}
use mathlib.Core.List.Memᴰ.{head, tail}
use burnmon.Base.{
  nat_eq, All-imp, All-map, ℕ, suc, String, Bool, true, false, Option, none, some, List, [], ◌∷◌,
  ◌≡◌, refl, ◌==◌, ltb, ◌∙◌, ap, sym, subst, All, ◌⊎◌, inl, inr, if_both, if◌then◌else◌, ==_refl,
  ◌||◌, ◌&&◌,
}
use burnmon.Store.Db.{Db, ForecastScore, Error, Outcome, done, failed, query_failed}
use burnmon.Store.Table.{row, row-upsert, resolved}
use burnmon.Store.Scores.{
  Week, week_eq, score_week, forecast_score, forecast_scores, insert_forecast_plan, insert_score,
  sort_scores, record_forecast_actual, fill_actual, fill_week, fill_weeks, keep_plan, planned,
}
use burnmon.Forecast.{
  LocalTime, week_start, ScoreFaults, ensure_scored, ensure_plan, plan_week, score_weeks,
  score_open, score_one, after_plan, score_listed, unless_failed, score_week_at,
  actual_tokens_for_week, plan_tokens_for_week,
}
use burnmon.Forecast.Scoring.{score_weeks-Frozen}

-- Every element stands in its sorted list.
Memᴰ-insert_score :
    (s x : ForecastScore) (ss : List ForecastScore) → Memᴰ x (s ∷ ss) → Memᴰ x (insert_score s ss)
unfolding insert_score
Memᴰ-insert_score s x [] m = m
Memᴰ-insert_score s x (y ∷ ys) m =
    if_both (λ (l : List ForecastScore). Memᴰ x l)
      (ltb y.iso_year s.iso_year || (y.iso_year == s.iso_year && ltb y.iso_week s.iso_week))
      (go m (λ h. Memᴰ-insert_score s x ys h)) m
  where
    go :
        Memᴰ x (s ∷ y ∷ ys)
        → (Memᴰ x (s ∷ ys) → Memᴰ x (insert_score s ys))
        → Memᴰ x (y ∷ insert_score s ys)
    go (head e) f = tail (f (head e))
    go (tail (head e)) f = head e
    go (tail (tail k)) f = tail (f (tail k))

All-sort_scores : (ss : List ForecastScore) → All (λ x. Memᴰ x (sort_scores ss)) ss
unfolding sort_scores
All-sort_scores [] = tt
All-sort_scores (s ∷ ss) = (
  Memᴰ-insert_score s s (sort_scores ss) (head refl),
  All-imp ss (λ x m. Memᴰ-insert_score s x (sort_scores ss) (tail m)) (All-sort_scores ss),
)

module _ (cal : LocalTime) (earlier : ℕ → ℕ → Bool) (date_lt : String → String → Bool) where
  -- A week with an actual, or one that is not over at `now`.
  abbrev pub Closed : ℕ → ForecastScore → Type 0
  Closed now s =
      ((a : ℕ) × (s.actual_tokens ≡ some a)) ⊎ (ltb now (cal.forward 7 s.week_start) ≡ true)

  -- Closed, or still to come in the loop.
  abbrev pub Awaited : ℕ → List ForecastScore → ForecastScore → Type 0
  Awaited now ss s = Closed now s ⊎ Memᴰ s ss

  Awaited-tail :
      (now : ℕ) (s : ForecastScore) (ss t : List ForecastScore)
      → Closed now s
      → All (Awaited now (s ∷ ss)) t
      → All (Awaited now ss) t
  Awaited-tail now s ss t c h = All-imp t go h
    where
      go : (r : ForecastScore) → Awaited now (s ∷ ss) r → Awaited now ss r
      go r (inl k) = inl k
      go r (inr (head e)) = inl (subst (λ (x : ForecastScore). Closed now x) (sym e) c)
      go r (inr (tail m)) = inr m

  fill_actual-cases :
      (now a : ℕ) (s : ForecastScore) (o : Option ℕ)
      → s.actual_tokens ≡ o
      → Closed now (fill_actual a now o s)
  fill_actual-cases now a s none h = inl (a, refl)
  fill_actual-cases now a s (some n) h = inl (n, h)

  fill_week-cases :
      (now a : ℕ) (k : Week) (s : ForecastScore)
      → (fill_week k a now s ≡ s) ⊎ Closed now (fill_week k a now s)
  unfolding fill_week
  fill_week-cases now a k s =
      if_both (λ (x : ForecastScore). (x ≡ s) ⊎ Closed now x) (score_week s == k)
        (inr (fill_actual-cases now a s s.actual_tokens refl)) (inl refl)

  fill_week-Closed : (now a : ℕ) (s : ForecastScore) → Closed now (fill_week (score_week s) a now s)
  unfolding fill_week
  fill_week-Closed now a s =
      rw (==_refl (score_week s)) (fill_actual-cases now a s s.actual_tokens refl)

  fill_weeks-Awaited :
      (now a : ℕ) (s : ForecastScore) (ss t : List ForecastScore)
      → All (Awaited now (s ∷ ss)) t
      → All (Awaited now ss) (fill_weeks (score_week s) a now t)
  unfolding fill_weeks
  fill_weeks-Awaited now a s ss t h =
      All-map (Awaited now ss) (fill_week (score_week s) a now) t (All-imp t go h)
    where
      keep :
          (r : ForecastScore)
          → Awaited now ss r
          → (fill_week (score_week s) a now r ≡ r) ⊎ Closed now (fill_week (score_week s) a now r)
          → Awaited now ss (fill_week (score_week s) a now r)
      keep r h (inl e) = subst (λ (x : ForecastScore). Awaited now ss x) (sym e) h
      keep r h (inr c) = inl c

      go :
          (r : ForecastScore)
          → Awaited now (s ∷ ss) r
          → Awaited now ss (fill_week (score_week s) a now r)
      go r (inl k) = keep r (inl k) (fill_week-cases now a (score_week s) r)
      go r (inr (head e)) = inl (
          subst (λ (x : ForecastScore). Closed now (fill_week (score_week s) a now x)) (sym e)
            (fill_week-Closed now a s))
      go r (inr (tail m)) = keep r (inr m) (fill_week-cases now a (score_week s) r)

  record_forecast_actual-Awaited :
      (fails : Bool) (now a : ℕ) (s : ForecastScore) (ss : List ForecastScore) (db : Db)
      → (record_forecast_actual fails (score_week s) a now db).1 ≡ none
      → All (Awaited now (s ∷ ss)) db.forecast_scores
      → All
          (Awaited now ss)
          (record_forecast_actual fails (score_week s) a now db).0.forecast_scores
  unfolding record_forecast_actual
  record_forecast_actual-Awaited true now a s ss db ok h = cc
  record_forecast_actual-Awaited false now a s ss db ok h =
      fill_weeks-Awaited now a s ss db.forecast_scores h

  score_one-Awaited :
      (fails : Bool) (now : ℕ) (s : ForecastScore) (ss : List ForecastScore) (o : Outcome ℕ)
      (db : Db)
      → (score_one cal earlier date_lt fails now s o db).1 ≡ none
      → All (Awaited now (s ∷ ss)) db.forecast_scores
      → All (Awaited now ss) (score_one cal earlier date_lt fails now s o db).0.forecast_scores
  score_one-Awaited fails now s ss (failed e) db ok h = cc
  score_one-Awaited fails now s ss (done a) db ok h =
      record_forecast_actual-Awaited fails now a s ss db ok h

  either-holds :
      (P : Db → Type 0) (b : Bool) (db : Db) (other : Db × Option Error)
      → (b ≡ true → P db)
      → (other.1 ≡ none → P other.0)
      → (if b then (db, none) else other).1 ≡ none
      → P (if b then (db, none) else other).0
  either-holds P true db other h k ok = h refl
  either-holds P false db other h k ok = k ok

  score_open-Awaited :
      (f : ScoreFaults) (i now : ℕ) (s : ForecastScore) (ss : List ForecastScore) (o : Option ℕ)
      (db : Db)
      → s.actual_tokens ≡ o
      → (score_open cal earlier date_lt f i now s o db).1 ≡ none
      → All (Awaited now (s ∷ ss)) db.forecast_scores
      → All (Awaited now ss) (score_open cal earlier date_lt f i now s o db).0.forecast_scores
  score_open-Awaited f i now s ss (some a) db e ok h =
      Awaited-tail now s ss db.forecast_scores (inl (a, e)) h
  score_open-Awaited f i now s ss none db e ok h =
      either-holds (λ (x : Db). All (Awaited now ss) x.forecast_scores)
        (ltb now (cal.forward 7 s.week_start)) db _
        (λ running. Awaited-tail now s ss db.forecast_scores (inr running) h)
        (λ k.
          score_one-Awaited (f.record_actual i) now s ss
            (actual_tokens_for_week cal earlier date_lt (f.actual_totals i) s.week_start db) db k h)
        ok

  unless_failed-ok :
      (r rest : Db × Option Error)
      → (unless_failed cal earlier date_lt r rest).1 ≡ none
      → (r.1 ≡ none) × (unless_failed cal earlier date_lt r rest ≡ rest)
  unless_failed-ok (db, none) rest ok = (refl, refl)
  unless_failed-ok (db, some e) rest ok = cc

  score_weeks-Closed :
      (f : ScoreFaults) (i now : ℕ) (ss : List ForecastScore) (db : Db)
      → (score_weeks cal earlier date_lt f i now ss db).1 ≡ none
      → All (Awaited now ss) db.forecast_scores
      → All (Closed now) (score_weeks cal earlier date_lt f i now ss db).0.forecast_scores
  unfolding score_weeks
  score_weeks-Closed f i now [] db ok h = All-imp db.forecast_scores go h
    where
      go : (r : ForecastScore) → Awaited now [] r → Closed now r
      go r (inl c) = c
      go r (inr m) = elim m [ ]
  score_weeks-Closed f i now (s ∷ ss) db ok h =
      let r = score_week_at cal earlier date_lt f i now s db in
      let rest = score_weeks cal earlier date_lt f (suc i) now ss r.0 in
      let (first, same) = unless_failed-ok r rest ok in
      let later : rest.1 ≡ none = ap (λ (x : Db × Option Error). x.1) (sym same) ∙ ok in
      subst (λ (x : Db × Option Error). All (Closed now) x.0.forecast_scores) (sym same)
        (score_weeks-Closed f (suc i) now ss r.0 later
          (score_open-Awaited f i now s ss s.actual_tokens db refl first h))

  -- The week is on record.
  abbrev pub Recorded : Week → Db → Type 0
  Recorded w db = (s : ForecastScore) × (row score_week w db.forecast_scores ≡ some s)

  insert_forecast_plan-Recorded :
      (fails : Bool) (w : Week) (start plan : ℕ) (db : Db)
      → (insert_forecast_plan fails w start plan db).1 ≡ none
      → Recorded w (insert_forecast_plan fails w start plan db).0
  unfolding insert_forecast_plan
  insert_forecast_plan-Recorded true w start plan db ok = cc
  insert_forecast_plan-Recorded false w start plan db ok =
      let p = planned w start plan in
      (
        resolved keep_plan p (row score_week w db.forecast_scores),
        row-upsert score_week keep_plan (λ x r e. refl) w p db.forecast_scores
            ∙ rw (==_refl w) refl,
      )

  plan_week-Recorded :
      (fails : Bool) (ws : ℕ) (o : Outcome ℕ) (db : Db)
      → (plan_week cal earlier date_lt fails ws o db).1 ≡ none
      → Recorded (cal.iso_week ws) (plan_week cal earlier date_lt fails ws o db).0
  plan_week-Recorded fails ws (failed e) db ok = cc
  plan_week-Recorded fails ws (done plan) db ok =
      insert_forecast_plan-Recorded fails (cal.iso_week ws) ws plan db ok

  ensure_plan-Recorded :
      (f : ScoreFaults) (ws : ℕ) (o : Option ForecastScore) (db : Db)
      → row score_week (cal.iso_week ws) db.forecast_scores ≡ o
      → (ensure_plan cal earlier date_lt f ws (done o) db).1 ≡ none
      → Recorded (cal.iso_week ws) (ensure_plan cal earlier date_lt f ws (done o) db).0
  ensure_plan-Recorded f ws (some s) db e ok = (s, e)
  ensure_plan-Recorded f ws none db e ok =
      plan_week-Recorded f.insert ws (plan_tokens_for_week cal earlier date_lt f.plan_totals ws db)
        db ok

  found-Recorded :
      (f : ScoreFaults) (ws : ℕ) (db : Db)
      → let found = forecast_score f.find (cal.iso_week ws) db in
        (ensure_plan cal earlier date_lt f ws found db).1 ≡ none
        → Recorded (cal.iso_week ws) (ensure_plan cal earlier date_lt f ws found db).0
  unfolding forecast_score
  found-Recorded f ws db = go f.find
    where
      go :
          (b : Bool)
          → let w = cal.iso_week ws in
            let found =
              if b then failed query_failed else done (row score_week w db.forecast_scores) in
            (ensure_plan cal earlier date_lt f ws found db).1 ≡ none
            → Recorded w (ensure_plan cal earlier date_lt f ws found db).0
      go true ok = cc
      go false ok =
          ensure_plan-Recorded f ws (row score_week (cal.iso_week ws) db.forecast_scores) db refl ok

  after_plan-Closed :
      (f : ScoreFaults) (now : ℕ) (w : Week) (r : Db × Option Error)
      → (r.1 ≡ none → Recorded w r.0)
      → (after_plan cal earlier date_lt f now r).1 ≡ none
      → Recorded w (after_plan cal earlier date_lt f now r).0
        × All (Closed now) (after_plan cal earlier date_lt f now r).0.forecast_scores
  unfolding forecast_scores
  after_plan-Closed f now w (db, some e) h ok = cc
  after_plan-Closed f now w (db, none) h ok = go f.list ok
    where
      go :
          (b : Bool)
          → let listed = if b then failed query_failed else done (sort_scores db.forecast_scores) in
            let r = score_listed cal earlier date_lt f now listed db in
            r.1 ≡ none → Recorded w r.0 × All (Closed now) r.0.forecast_scores
      go true k = cc
      go false k =
          let ss = sort_scores db.forecast_scores in
          let (s, stored) = h refl in
          let (s', (stored', kept)) =
            score_weeks-Frozen cal earlier date_lt f 0 now ss db w s stored in
          (
            (s', stored'),
            score_weeks-Closed f 0 now ss db k
                (All-imp db.forecast_scores (λ x m. inr m) (All-sort_scores db.forecast_scores)),
          )

  -- Where `EnsureScored` returns no error, the current week has its row, and every week that is
  -- over at `now` has its actual.
  pub ensure_scored-Closed :
      (f : ScoreFaults) (now : ℕ) (db : Db)
      → (ensure_scored cal earlier date_lt f now db).1 ≡ none
      → Recorded (cal.iso_week (week_start cal now)) (ensure_scored cal earlier date_lt f now db).0
        × All (Closed now) (ensure_scored cal earlier date_lt f now db).0.forecast_scores
  unfolding ensure_scored
  ensure_scored-Closed f now db ok =
      let ws = week_start cal now in
      let found = forecast_score f.find (cal.iso_week ws) db in
      after_plan-Closed f now (cal.iso_week ws) (ensure_plan cal earlier date_lt f ws found db)
        (found-Recorded f ws db) ok
