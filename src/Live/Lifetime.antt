-- ===== src/Live/Lifetime.antt =====
-- `ApplySessionTotals` of internal/live/live.go, on the rows of `SessionTotals`: the lifetime totals of
-- the running sessions and of their subagents. Prices are parameters, and `stamp` formats a time.
use Prim.Native.String.{◌++◌ as join}
use burnmon.Base.{
  ℕ, String, Bool, true, false, ◌||◌, Option, none, some, List, [], ◌∷◌, ◌++◌, ◌==◌, ◌+64◌, filter,
  is_zero, ltb, string_eq, if◌then◌else◌,
}
use burnmon.Schema.{Event}
use burnmon.Store.Lists.{SessionModelTotal}

-- The fields of a Session that ApplySessionTotals reads and writes.
pub record Running (F B : Type 0) : Type 0 where
  pub vendor : String
  pub session_id : String
  pub start : String
  pub turn_count : ℕ
  pub tokens : ℕ
  pub cost : F
  pub business_cost : Option B

-- A session with its subagents.
mutual
  pub data Run (F B : Type 0) : Type 0 where
    run : Running F B → Runs F B → Run F B

  pub data Runs (F B : Type 0) : Type 0 where
    stop : Runs F B
    more : Run F B → Runs F B → Runs F B

unfoldable mutual
  pub run_keys : {F B : Type 0} → Run F B → List (String × String)
  run_keys (run s subs) = (s.vendor, s.session_id) ∷ runs_keys subs

  -- sessionKeys
  pub runs_keys : {F B : Type 0} → Runs F B → List (String × String)
  runs_keys stop = []
  runs_keys (more r rs) = run_keys r ++ runs_keys rs

abbrev pub pair_key : String → String → String
pair_key vendor id = join vendor (join "|" id)

-- byID[k], in the order of the rows.
abbrev pub rows_at : String → List SessionModelTotal → List SessionModelTotal
rows_at k rows = filter (λ (r : SessionModelTotal). pair_key r.vendor r.session_id == k) rows

-- r.Input + r.CacheWrite + r.CacheRead + r.Output
abbrev pub model_tokens : SessionModelTotal → ℕ
model_tokens r = r.input +64 r.cache_write +64 r.cache_read +64 r.output

-- ev: a group as one event.
abbrev pub synth_event : SessionModelTotal → Event
synth_event r = record {
  vendor = r.vendor;
  agent = "";
  surface = "";
  session_id = "";
  request_id = "";
  parent_id = "";
  at = 0;
  model = r.model;
  project = "";
  owner = "";
  client = "";
  title = "";
  input = r.input;
  cache_write = some r.cache_write;
  cache_read = some r.cache_read;
  output = r.output;
  reasoning = none;
  vendor_cost = none;
  window_used = none;
  window_reset = none;
  tools = [];
}

-- The variables of the loop over a session's rows.
pub record Lifetime (F : Type 0) : Type 0 where
  pub life_tokens : ℕ
  pub life_turns : ℕ
  pub life_cost : F
  pub life_start : ℕ
  pub synth : List Event

module _ {F B : Type 0} (zero_cost : F) (plus : F → F → F) (event_cost : Event → F)
    (headline : List Event → Option B) (stamp : ℕ → String) where
  abbrev pub no_life : Lifetime F
  no_life = record {
    life_tokens = 0;
    life_turns = 0;
    life_cost = zero_cost;
    life_start = 0;
    synth = [];
  }

  abbrev pub add_model : SessionModelTotal → Lifetime F → Lifetime F
  add_model r t = record {
    life_tokens = t.life_tokens +64 model_tokens r;
    life_turns = t.life_turns +64 r.count;
    life_cost = plus t.life_cost (event_cost (synth_event r));
    life_start =
        if is_zero t.life_start || ltb r.min_at t.life_start then r.min_at else t.life_start;
    synth = t.synth ++ (synth_event r ∷ []);
  }

  unfoldable pub sum_models : List SessionModelTotal → Lifetime F → Lifetime F
  sum_models [] t = t
  sum_models (r ∷ rs) t = sum_models rs (add_model r t)

  abbrev pub set_lifetime : Lifetime F → Running F B → Running F B
  set_lifetime t s = record s {
    tokens = t.life_tokens;
    cost = t.life_cost;
    business_cost = headline t.synth;
    turn_count = t.life_turns;
    start = if is_zero t.life_start then s.start else stamp t.life_start;
  }

  abbrev pub apply_models : List SessionModelTotal → Running F B → Running F B
  apply_models [] s = s
  apply_models (r ∷ rs) s = set_lifetime (sum_models (r ∷ rs) no_life) s

  unfoldable mutual
    pub apply_run : List SessionModelTotal → Run F B → Run F B
    apply_run rows (run s subs) =
        run (apply_models (rows_at (pair_key s.vendor s.session_id) rows) s) (apply_runs rows subs)

    pub apply_runs : List SessionModelTotal → Runs F B → Runs F B
    apply_runs rows stop = stop
    apply_runs rows (more r rs) = more (apply_run rows r) (apply_runs rows rs)

  -- No session, no query; a failed query changes nothing.
  abbrev pub apply_keyed :
      List (String × String) → Option (List SessionModelTotal) → Runs F B → Runs F B × Bool
  apply_keyed [] rows ss = (ss, true)
  apply_keyed (k ∷ ks) none ss = (ss, false)
  apply_keyed (k ∷ ks) (some rows) ss = (apply_runs rows ss, true)

  -- `query` is SessionTotals; the Boolean is no error.
  unfoldable pub apply_session_totals :
      (List (String × String) → Option (List SessionModelTotal)) → Runs F B → Runs F B × Bool
  unfolding sum_models apply_run runs_keys
  apply_session_totals query ss = apply_keyed (runs_keys ss) (query (runs_keys ss)) ss
