-- ===== src/Store/Lists.antt =====
-- The queries of internal/store/store.go that list rows: `EventsForSession`, `ToolCallsForTurn` and
-- `SessionTotals`. `earlier` is the order of the stored texts of two instants, and `reads` says that
-- the query and its rows can be read. Sums are taken on int64, which SQLite's are as long as they
-- stay in it.
use burnmon.Base.{
  ℕ, String, Bool, ◌&&◌, Option, none, some, List, [], ◌∷◌, ◌==◌, ◌+64◌, any, filter, string_eq,
  if◌then◌else◌,
}
use burnmon.Schema.{Event, ToolCall, is_turn, value_or_zero}

-- SessionModelTotal
pub record SessionModelTotal : Type 0 where
  pub vendor : String
  pub session_id : String
  pub model : String
  pub input : ℕ
  pub cache_write : ℕ
  pub cache_read : ℕ
  pub output : ℕ
  pub reasoning : ℕ
  pub count : ℕ
  pub min_at : ℕ
  pub max_at : ℕ

abbrev pub of_turn : String → String → String → ToolCall → Bool
of_turn vendor id turn c = c.vendor == vendor && c.session_id == id && c.turn == turn

abbrev pub first_of_group : Event → SessionModelTotal
first_of_group e = record {
  vendor = e.vendor;
  session_id = e.session_id;
  model = e.model;
  input = 0 +64 e.input;
  cache_write = 0 +64 value_or_zero e.cache_write;
  cache_read = 0 +64 value_or_zero e.cache_read;
  output = 0 +64 e.output;
  reasoning = 0 +64 value_or_zero e.reasoning;
  count = 1;
  min_at = e.at;
  max_at = e.at;
}

abbrev pub in_group : Event → SessionModelTotal → Bool
in_group e t = t.vendor == e.vendor && t.session_id == e.session_id && t.model == e.model

-- (vendor = ? AND session_id = ?) OR ...
abbrev pub is_asked : List (String × String) → Event → Bool
is_asked keys e = any (λ (k : String × String). e.vendor == k.0 && e.session_id == k.1) keys

module _ (earlier : ℕ → ℕ → Bool) where
  -- ORDER BY at ASC
  unfoldable pub insert_event : Event → List Event → List Event
  insert_event e [] = e ∷ []
  insert_event e (x ∷ xs) = if earlier x.at e.at then x ∷ insert_event e xs else e ∷ x ∷ xs

  unfoldable pub order_events : List Event → List Event
  unfolding insert_event
  order_events [] = []
  order_events (e ∷ es) = insert_event e (order_events es)

  unfoldable pub events_for_session : Bool → String → List Event → Option (List Event)
  unfolding order_events
  events_for_session reads id es =
      if reads then some (order_events (filter (λ (e : Event). e.session_id == id) es)) else none

  unfoldable pub insert_call : ToolCall → List ToolCall → List ToolCall
  insert_call c [] = c ∷ []
  insert_call c (x ∷ xs) = if earlier x.at c.at then x ∷ insert_call c xs else c ∷ x ∷ xs

  unfoldable pub order_calls : List ToolCall → List ToolCall
  unfolding insert_call
  order_calls [] = []
  order_calls (c ∷ cs) = insert_call c (order_calls cs)

  unfoldable pub tool_calls_for_turn :
      Bool → String → String → String → List ToolCall → Option (List ToolCall)
  unfolding order_calls
  tool_calls_for_turn reads vendor id turn cs =
      if reads then some (order_calls (filter (of_turn vendor id turn) cs)) else none

  -- MIN(at)
  abbrev pub sooner_of : ℕ → ℕ → ℕ
  sooner_of s t = if earlier t s then t else s

  -- MAX(at)
  abbrev pub later_of : ℕ → ℕ → ℕ
  later_of s t = if earlier s t then t else s

  abbrev pub next_of_group : Event → SessionModelTotal → SessionModelTotal
  next_of_group e t = record t {
    input = t.input +64 e.input;
    cache_write = t.cache_write +64 value_or_zero e.cache_write;
    cache_read = t.cache_read +64 value_or_zero e.cache_read;
    output = t.output +64 e.output;
    reasoning = t.reasoning +64 value_or_zero e.reasoning;
    count = t.count +64 1;
    min_at = sooner_of t.min_at e.at;
    max_at = later_of t.max_at e.at;
  }

  -- One row of the query in its group.
  unfoldable pub group_event : Event → List SessionModelTotal → List SessionModelTotal
  unfolding value_or_zero
  group_event e [] = first_of_group e ∷ []
  group_event e (t ∷ ts) =
      let rest = group_event e ts in if in_group e t then next_of_group e t ∷ ts else t ∷ rest

  unfoldable pub group_all : List Event → List SessionModelTotal → List SessionModelTotal
  unfolding group_event
  group_all [] ts = ts
  group_all (e ∷ es) ts = group_all es (group_event e ts)

  abbrev pub totals_asked :
      List (String × String) → Bool → List Event → Option (List SessionModelTotal)
  totals_asked [] reads es = some []
  totals_asked (k ∷ ks) reads es =
      if reads
      then some (group_all (filter (λ (e : Event). is_asked (k ∷ ks) e && is_turn e) es) [])
      else none

  unfoldable pub session_totals :
      List (String × String) → Bool → List Event → Option (List SessionModelTotal)
  unfolding group_all is_turn
  session_totals keys reads es = totals_asked keys reads es
