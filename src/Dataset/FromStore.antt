-- ===== src/Dataset/FromStore.antt =====
-- internal/dataset/fromstore.go: sessions rebuilt from the stored events. A map of Go is a list of
-- its pairs in first-seen order. Prices, floating point and the texts of times are parameters.
pub mod Sums
pub mod Fixture
pub mod Totals
pub mod Balance
pub mod Store
pub mod Active
mod Tests
use Prim.Native.String.{◌++◌ as join}
use burnmon.Base.{
  ℕ, String, Bool, true, false, not, Option, none, some, List, [], ◌∷◌, ◌++◌, ◌==◌, ◌+64◌, ◌-◌, ltb,
  leb, lt64, filter, map, str_lt, min, max_duration, is_zero, get_last?, string_eq, nat_eq,
  if◌then◌else◌,
}
use burnmon.Schema.{Event, is_turn, value_or_zero}
use burnmon.Agg.{PerModel, change, sort_days, prefix}

-- `EventCost` of the price books: the cost, the share of the subscription, the model's label, and
-- whether the call has no price. `stamp` and `local_day` format a time; `minutes` is
-- time.Duration.Minutes.
pub record Prices (F : Type 0) : Type 0 where
  pub event_cost : Event → F
  pub event_share : Event → F
  pub event_label : Event → String
  pub event_unpriced : Event → Bool
  pub no_cost : F
  pub add_cost : F → F → F
  pub round6 : F → F
  pub per_call : F → ℕ → F
  pub stamp : ℕ → String
  pub local_day : ℕ → String
  pub idle_cutoff : ℕ
  pub minutes : ℕ → F

-- scan.Session.
pub record Session (F : Type 0) : Type 0 where
  pub session_id : String
  pub title : String
  pub owner : String
  pub client : String
  pub vendor : String
  pub agent : String
  pub surface : String
  pub cwd : String
  pub start : String
  pub finish : String
  pub calls : ℕ
  pub tokens : ℕ
  pub cost : F
  pub cost_sub : F
  pub cost_per_call : F
  pub cost_sub_per_call : F
  pub fresh : ℕ
  pub cache_w : ℕ
  pub cache_r : ℕ
  pub out : ℕ
  pub models : List (String × PerModel F)
  pub tools : List (String × ℕ)
  pub daily : List (String × PerModel F)
  pub long : Bool
  pub unpriced : ℕ
  pub active_minutes : F

-- The variables of buildSession's loop.
pub record Tally (F : Type 0) : Type 0 where
  pub per_model : List (String × PerModel F)
  pub by_day : List (String × PerModel F)
  pub tool_uses : List (String × ℕ)
  pub sum_fresh : ℕ
  pub sum_cache_w : ℕ
  pub sum_cache_r : ℕ
  pub sum_out : ℕ
  pub calls_n : ℕ
  pub no_price : ℕ
  pub sum_cost : F
  pub sum_share : F

-- LongSessionCalls
abbrev pub long_session_calls : ℕ
long_session_calls = 100

-- sort.Strings and sort.Slice of times.
unfoldable pub insert_text : String → List String → List String
insert_text s [] = s ∷ []
insert_text s (t ∷ ts) = if str_lt t s then t ∷ insert_text s ts else s ∷ t ∷ ts

unfoldable pub sort_texts : List String → List String
unfolding insert_text
sort_texts [] = []
sort_texts (s ∷ ss) = insert_text s (sort_texts ss)

unfoldable pub insert_time : ℕ → List ℕ → List ℕ
insert_time s [] = s ∷ []
insert_time s (t ∷ ts) = if ltb t s then t ∷ insert_time s ts else s ∷ t ∷ ts

unfoldable pub sort_times : List ℕ → List ℕ
unfolding insert_time
sort_times [] = []
sort_times (t ∷ ts) = insert_time t (sort_times ts)

-- The times that are not zero.
unfoldable pub times_of : List Event → List ℕ
times_of [] = []
times_of (e ∷ es) = let rest = times_of es in if is_zero e.at then rest else e.at ∷ rest

-- The first value that is not empty.
unfoldable pub first_non_empty : List String → String
first_non_empty [] = ""
first_non_empty (s ∷ ss) = let rest = first_non_empty ss in if s == "" then rest else s

unfoldable pub event_tokens : Event → ℕ
unfolding value_or_zero
event_tokens e = e.input +64 value_or_zero e.cache_write +64 value_or_zero e.cache_read +64 e.output

-- The gaps that are not above the cutoff, of sorted times.
unfoldable pub active_gaps : ℕ → ℕ → List ℕ → ℕ
active_gaps cutoff t [] = 0
active_gaps cutoff t (u ∷ us) =
    let rest = active_gaps cutoff u us in
    let gap = min (u - t) max_duration in if leb gap cutoff then gap +64 rest else rest

unfoldable pub active_time : ℕ → List ℕ → ℕ
unfolding active_gaps
active_time cutoff [] = 0
active_time cutoff (t ∷ ts) = active_gaps cutoff t ts

-- tools[name] += c
unfoldable pub add_uses : List (String × ℕ) → List (String × ℕ) → List (String × ℕ)
unfolding change
add_uses [] m = m
add_uses ((name, c) ∷ ts) m = add_uses ts (change 0 name (λ n. n +64 c) m)

module _ {F : Type 0} (p : Prices F) where
  abbrev pub no_calls : PerModel F
  no_calls = record { calls = 0; tokens = 0; cost = p.no_cost; cost_sub = p.no_cost }

  unfoldable pub add_call : Event → PerModel F → PerModel F
  unfolding event_tokens
  add_call e m = record {
    calls = m.calls +64 1;
    tokens = m.tokens +64 event_tokens e;
    cost = p.add_cost m.cost (p.event_cost e);
    cost_sub = p.add_cost m.cost_sub (p.event_share e);
  }

  abbrev pub day_of : String → Event → String
  day_of first e = if is_zero e.at then prefix 10 first else p.local_day e.at

  -- A turn; `first` is the first stamp.
  unfoldable pub count_turn : String → Event → Tally F → Tally F
  unfolding add_call change value_or_zero
  count_turn first e t = record {
    per_model = change no_calls (p.event_label e) (add_call e) t.per_model;
    by_day = change no_calls (day_of first e) (add_call e) t.by_day;
    tool_uses = t.tool_uses;
    sum_fresh = t.sum_fresh +64 e.input;
    sum_cache_w = t.sum_cache_w +64 value_or_zero e.cache_write;
    sum_cache_r = t.sum_cache_r +64 value_or_zero e.cache_read;
    sum_out = t.sum_out +64 e.output;
    calls_n = t.calls_n +64 1;
    no_price = if p.event_unpriced e then t.no_price +64 event_tokens e else t.no_price;
    sum_cost = p.add_cost t.sum_cost (p.event_cost e);
    sum_share = p.add_cost t.sum_share (p.event_share e);
  }

  abbrev pub count_if : Bool → String → Event → Tally F → Tally F
  count_if true first e t = count_turn first e t
  count_if false first e t = t

  unfoldable pub count_events : String → List Event → Tally F → Tally F
  unfolding count_turn add_uses
  count_events first [] t = t
  count_events first (e ∷ es) t =
      count_events first es
        (count_if (is_turn e) first e (record t { tool_uses = add_uses e.tools t.tool_uses }))

  abbrev pub no_tally : Tally F
  no_tally = record {
    per_model = [];
    by_day = [];
    tool_uses = [];
    sum_fresh = 0;
    sum_cache_w = 0;
    sum_cache_r = 0;
    sum_out = 0;
    calls_n = 0;
    no_price = 0;
    sum_cost = p.no_cost;
    sum_share = p.no_cost;
  }

  unfoldable pub round_costs : List (String × PerModel F) → List (String × PerModel F)
  round_costs [] = []
  round_costs ((k, m) ∷ ms) =
      (k, record m { cost = p.round6 m.cost; cost_sub = p.round6 m.cost_sub }) ∷ round_costs ms

  abbrev pub or_untitled : String → String
  or_untitled s = if s == "" then "(untitled session)" else s

  abbrev pub last_or : String → Option String → String
  last_or s none = s
  last_or s (some t) = t

  unfoldable pub session_of : Event → List Event → String → List String → Tally F → Session F
  unfolding first_non_empty round_costs sort_times times_of active_time
  session_of e es first stamps t =
      let all = e ∷ es in
      record {
        session_id = e.session_id;
        title = or_untitled (first_non_empty (map (λ (x : Event). x.title) all));
        owner = first_non_empty (map (λ (x : Event). x.owner) all);
        client = first_non_empty (map (λ (x : Event). x.client) all);
        vendor = e.vendor;
        agent = first_non_empty (map (λ (x : Event). x.agent) all);
        surface = e.surface;
        cwd = first_non_empty (map (λ (x : Event). x.project) all);
        start = first;
        finish = last_or first (get_last? stamps);
        calls = t.calls_n;
        tokens = t.sum_fresh +64 t.sum_cache_w +64 t.sum_cache_r +64 t.sum_out;
        cost = p.round6 t.sum_cost;
        cost_sub = p.round6 t.sum_share;
        cost_per_call = p.round6 (p.per_call t.sum_cost t.calls_n);
        cost_sub_per_call = p.round6 (p.per_call t.sum_share t.calls_n);
        fresh = t.sum_fresh;
        cache_w = t.sum_cache_w;
        cache_r = t.sum_cache_r;
        out = t.sum_out;
        models = round_costs t.per_model;
        tools = t.tool_uses;
        daily = round_costs t.by_day;
        long = lt64 long_session_calls t.calls_n;
        unpriced = t.no_price;
        active_minutes = p.minutes (active_time p.idle_cutoff (sort_times (times_of all)));
      }

  abbrev pub build_stamped : Event → List Event → List String → Option (Session F)
  build_stamped e es [] = none
  build_stamped e es (first ∷ stamps) =
      let t = count_events first (e ∷ es) no_tally in
      if t.calls_n == 0 then none else some (session_of e es first (first ∷ stamps) t)

  unfoldable pub build_session : List Event → Option (Session F)
  unfolding times_of sort_texts count_events session_of
  build_session [] = none
  build_session (e ∷ es) = build_stamped e es (sort_texts (map p.stamp (times_of (e ∷ es))))

  abbrev pub group_key : Event → String
  group_key e = join e.vendor (join "|" e.session_id)

  -- The events of each key, in the order of the keys' first events.
  unfoldable pub group_events : List Event → List (String × List Event) → List (String × List Event)
  unfolding change
  group_events [] gs = gs
  group_events (e ∷ es) gs = group_events es (change [] (group_key e) (λ xs. xs ++ (e ∷ [])) gs)

  unfoldable pub build_groups : List (String × List Event) → List (Session F)
  unfolding build_session
  build_groups [] = []
  build_groups ((k, es) ∷ gs) =
      let rest = build_groups gs in elim (build_session es) [ none ↦ rest | some s ↦ s ∷ rest ]

  unfoldable pub sessions_from_events : List Event → List (Session F)
  unfolding build_groups group_events sort_days
  sessions_from_events es = build_groups (sort_days (group_events es []))

  -- ActiveTimeMinutes
  unfoldable pub active_time_minutes : List Event → F
  unfolding active_time sort_times times_of
  active_time_minutes es = p.minutes (active_time p.idle_cutoff (sort_times (times_of es)))

  -- ActiveMinutesByClient
  unfoldable pub add_minutes : List (Session F) → List (String × F) → List (String × F)
  unfolding change
  add_minutes [] m = m
  add_minutes (s ∷ ss) m = add_minutes ss (
      if s.client == ""
      then m
      else change p.no_cost s.client (λ x. p.add_cost x s.active_minutes) m)

  abbrev pub active_minutes_by_client : List (Session F) → List (String × F)
  active_minutes_by_client ss = add_minutes ss []
