-- ===== src/Agg/Build.antt =====
-- `Build`: calls, tokens and costs go to each day of a session with its month and week; the split
-- by model and tool and the token classes go to the first day in the window.
use burnmon.Base.{
  ℕ, String, Bool, Option, none, some, List, [], ◌∷◌, any, length, str_lt, ◌+64◌, ◌==◌, string_eq,
  if◌then◌else◌, nat_eq,
}
use burnmon.Calendar.{Date, parse_day, week_key}
use burnmon.Agg.{
  PerModel, SurfaceAgg, ToolAgg, Bucket, Session, change, tool_group, month_key, sort_days,
}

pub record Buckets (F : Type 0) : Type 0 where
  pub months : List (String × Bucket F)
  pub weeks : List (String × Bucket F)
  pub days : List (String × Bucket F)

-- The variables of the loop over a session's days.
pub record Walk (F : Type 0) : Type 0 where
  pub buckets : Buckets F
  pub first_day : String
  pub seen_months : List String
  pub seen_weeks : List String

abbrev pub no_tool : ToolAgg
no_tool = record { calls = 0; sessions = 0 }

abbrev pub seen : String → List String → Bool
seen k ks = any (λ j. j == k) ks

-- The tool calls of a session, as groups.
unfoldable pub groups_of : List (String × ℕ) → List String
unfolding tool_group
groups_of [] = []
groups_of ((t, n) ∷ ts) =
    let rest = groups_of ts in if seen (tool_group t) rest then rest else tool_group t ∷ rest

unfoldable pub count_groups : List String → List (String × ToolAgg) → List (String × ToolAgg)
unfolding change
count_groups [] m = m
count_groups (g ∷ gs) m =
    count_groups gs (change no_tool g (λ t. record t { sessions = t.sessions +64 1 }) m)

unfoldable pub count_tools : List (String × ℕ) → List (String × ToolAgg) → List (String × ToolAgg)
unfolding change tool_group
count_tools [] m = m
count_tools ((n, calls) ∷ ts) m =
    count_tools ts (change no_tool (tool_group n) (λ t. record t { calls = t.calls +64 calls }) m)

module _ {F : Type 0} (no_cost : F) (add_cost : F → F → F) (round4 : F → F) where
  abbrev pub new_bucket : Bucket F
  new_bucket = record {
    calls = 0;
    tokens = 0;
    cost = no_cost;
    cost_sub = no_cost;
    sessions = 0;
    fresh = 0;
    cache_w = 0;
    cache_r = 0;
    out = 0;
    by_surface = [];
    by_model = [];
    by_tool = [];
  }

  abbrev pub no_surface : SurfaceAgg F
  no_surface = record { calls = 0; tokens = 0; cost = no_cost; cost_sub = no_cost; sessions = 0 }

  abbrev pub no_model : PerModel F
  no_model = record { calls = 0; tokens = 0; cost = no_cost; cost_sub = no_cost }

  -- The calls of a day, in the bucket and in its surface.
  unfoldable pub add_calls : String → PerModel F → Bucket F → Bucket F
  unfolding change
  add_calls surface d b = record b {
    calls = b.calls +64 d.calls;
    tokens = b.tokens +64 d.tokens;
    cost = add_cost b.cost d.cost;
    cost_sub = add_cost b.cost_sub d.cost_sub;
    by_surface =
        change no_surface surface
          (λ s. record s {
            calls = s.calls +64 d.calls;
            tokens = s.tokens +64 d.tokens;
            cost = add_cost s.cost d.cost;
            cost_sub = add_cost s.cost_sub d.cost_sub;
          })
          b.by_surface;
  }

  unfoldable pub count_session : String → Bucket F → Bucket F
  unfolding change
  count_session surface b = record b {
    sessions = b.sessions +64 1;
    by_surface =
        change no_surface surface (λ s. record s { sessions = s.sessions +64 1 }) b.by_surface;
  }

  -- get(m, k), changed.
  abbrev pub on :
      String → (Bucket F → Bucket F) → List (String × Bucket F) → List (String × Bucket F)
  on k f m = change new_bucket k f m

  -- The same change in the month, the week and the day.
  unfoldable pub on_targets : Date → String → (Bucket F → Bucket F) → Buckets F → Buckets F
  unfolding change month_key week_key
  on_targets d day f b = record {
    months = on (month_key d) f b.months;
    weeks = on (week_key d) f b.weeks;
    days = on day f b.days;
  }

  -- A session counts once in each day, month and week.
  unfoldable pub count_active : String → Date → String → Walk F → Walk F
  unfolding change count_session month_key week_key
  count_active surface d day w =
      let mk = month_key d in
      let wk = week_key d in
      record {
        buckets = record {
          months =
              if seen mk w.seen_months
              then w.buckets.months
              else on mk (count_session surface) w.buckets.months;
          weeks =
              if seen wk w.seen_weeks
              then w.buckets.weeks
              else on wk (count_session surface) w.buckets.weeks;
          days = on day (count_session surface) w.buckets.days;
        };
        first_day = w.first_day;
        seen_months = if seen mk w.seen_months then w.seen_months else mk ∷ w.seen_months;
        seen_weeks = if seen wk w.seen_weeks then w.seen_weeks else wk ∷ w.seen_weeks;
      }

  -- A day of the session whose text is a date.
  unfoldable pub visit : String → String → PerModel F → Date → Walk F → Walk F
  unfolding on_targets count_active add_calls
  visit surface day v d w = count_active surface d day (record w {
    buckets = on_targets d day (add_calls surface v) w.buckets;
    first_day = if w.first_day == "" then day else w.first_day;
  })

  -- A day that is no date changes nothing.
  unfoldable pub visit_parsed : String → String → PerModel F → Option Date → Walk F → Walk F
  unfolding visit
  visit_parsed surface day v none w = w
  visit_parsed surface day v (some d) w = visit surface day v d w

  unfoldable pub visit_days : String → String → List (String × PerModel F) → Walk F → Walk F
  unfolding visit_parsed parse_day
  visit_days surface cutoff [] w = w
  visit_days surface cutoff ((day, v) ∷ ds) w =
      visit_days surface cutoff ds
        (if str_lt day cutoff then w else visit_parsed surface day v (parse_day day) w)

  unfoldable pub add_models : List (String × PerModel F) → Bucket F → Bucket F
  unfolding change
  add_models [] b = b
  add_models ((n, v) ∷ ms) b = add_models ms (record b {
    by_model =
        change no_model n
          (λ m. record {
            calls = m.calls +64 v.calls;
            tokens = m.tokens +64 v.tokens;
            cost = add_cost m.cost v.cost;
            cost_sub = add_cost m.cost_sub v.cost_sub;
          })
          b.by_model;
  })

  unfoldable pub add_tools : List (String × ℕ) → Bucket F → Bucket F
  unfolding count_tools count_groups groups_of
  add_tools [] b = b
  add_tools (t ∷ ts) b = record b {
    by_tool = count_tools (t ∷ ts) (count_groups (groups_of (t ∷ ts)) b.by_tool);
  }

  unfoldable pub add_classes : Session F → Bucket F → Bucket F
  add_classes s b = record b {
    fresh = b.fresh +64 s.fresh;
    cache_w = b.cache_w +64 s.cache_w;
    cache_r = b.cache_r +64 s.cache_r;
    out = b.out +64 s.out;
  }

  -- The splits, on the session's first day in the window.
  unfoldable pub add_splits : Session F → Date → String → Buckets F → Buckets F
  unfolding on_targets add_models add_tools add_classes change month_key week_key
  add_splits s d day b =
      let c = on_targets d day (add_models (sort_days s.models)) b in
      let t = if length s.tools == 0 then c else on_targets d day (add_tools s.tools) c in
      record t {
        months = on (month_key d) (add_classes s) t.months;
        weeks = on (week_key d) (add_classes s) t.weeks;
      }
