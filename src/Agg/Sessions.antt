-- ===== src/Agg/Sessions.antt =====
-- The loop of `Build` over the sessions, the order of those kept, and the rounding.
use burnmon.Base.{
  String, Bool, true, false, not, ◌||◌, Option, none, some, List, [], ◌∷◌, map, get_last?, str_lt,
  ◌==◌, string_eq, if◌then◌else◌,
}
use burnmon.Calendar.{Date, parse_day}
use burnmon.Agg.{PerModel, SurfaceAgg, Bucket, Session, sort_days, prefix, too_short}
use burnmon.Agg.Build.{Buckets, visit_days, add_splits}

-- No day, or none in the window.
unfoldable pub all_before {ℓ} : {A : Type ℓ} → String → Option (String × A) → Bool
all_before cutoff none = true
all_before cutoff (some d) = str_lt d.0 cutoff

-- A session that is skipped before its days are looked at.
unfoldable pub is_skipped : {F : Type 0} → String → Session F → Bool
unfolding all_before sort_days parse_day
is_skipped cutoff s =
    too_short s.start
    || too_short s.finish
    || (elim (parse_day (prefix 10 s.start)) [ none ↦ true | some d ↦ false ])
    || all_before cutoff (get_last? (sort_days s.daily))

-- sort.Slice by the start, the latest first. The order of equal starts is not fixed.
unfoldable pub insert_session : {F : Type 0} → Session F → List (Session F) → List (Session F)
insert_session s [] = s ∷ []
insert_session s (t ∷ ts) = if str_lt s.start t.start then t ∷ insert_session s ts else s ∷ t ∷ ts

unfoldable pub sort_kept : {F : Type 0} → List (Session F) → List (Session F)
unfolding insert_session
sort_kept [] = []
sort_kept (s ∷ ss) = insert_session s (sort_kept ss)

module _ {F : Type 0} (no_cost : F) (add_cost : F → F → F) (round4 : F → F) where
  -- The splits, if there is a first day, and whether the session is kept.
  unfoldable pub finish_session : Session F → String → Option Date → Buckets F → Buckets F × Bool
  unfolding add_splits
  finish_session s day none b = (b, not (day == ""))
  finish_session s day (some d) b =
      if day == "" then (b, false) else (add_splits no_cost add_cost round4 s d day b, true)

  unfoldable pub walk_session : String → Session F → Buckets F → Buckets F × Bool
  unfolding is_skipped visit_days finish_session
  walk_session cutoff s b =
      let w =
        visit_days no_cost add_cost round4 s.surface cutoff (sort_days s.daily)
          (record { buckets = b; first_day = ""; seen_months = []; seen_weeks = [] }) in
      if is_skipped cutoff s
      then (b, false)
      else finish_session s w.first_day (parse_day w.first_day) w.buckets

  -- The buckets and the sessions kept, in the order of the input.
  unfoldable pub walk_sessions :
      String → List (Session F) → Buckets F → Buckets F × List (Session F)
  unfolding walk_session
  walk_sessions cutoff [] b = (b, [])
  walk_sessions cutoff (s ∷ ss) b =
      let r = walk_session cutoff s b in
      let rest = walk_sessions cutoff ss r.0 in (rest.0, if r.1 then s ∷ rest.1 else rest.1)

  unfoldable pub round_surface : String × SurfaceAgg F → String × SurfaceAgg F
  round_surface (k, s) = (k, record s { cost = round4 s.cost; cost_sub = round4 s.cost_sub })

  unfoldable pub round_model : String × PerModel F → String × PerModel F
  round_model (k, m) = (k, record m { cost = round4 m.cost; cost_sub = round4 m.cost_sub })

  unfoldable pub round_bucket : String × Bucket F → String × Bucket F
  unfolding round_surface round_model
  round_bucket (k, b) = (
    k,
    record b {
      cost = round4 b.cost;
      cost_sub = round4 b.cost_sub;
      by_surface = map round_surface b.by_surface;
      by_model = map round_model b.by_model;
    },
  )

  unfoldable pub round_all : Buckets F → Buckets F
  unfolding round_bucket
  round_all b = record {
    months = map round_bucket b.months;
    weeks = map round_bucket b.weeks;
    days = map round_bucket b.days;
  }

  -- `cutoff` is the day that the window opens, as text.
  unfoldable pub build : List (Session F) → String → Buckets F × List (Session F)
  unfolding walk_sessions sort_kept round_all
  build ss cutoff =
      let r = walk_sessions cutoff ss (record { months = []; weeks = []; days = [] }) in
      (round_all r.0, sort_kept r.1)
