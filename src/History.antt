-- ===== src/History.antt =====
-- internal/history/history.go: the stored events as rows by day, week or month, under a filter, with
-- a row by client. A map of Go is a list of its pairs in first-seen order, and the maps that have the
-- bucket's key in common are one, to a record. The local calendar and the costs are parameters.
pub mod Rows
pub mod Split
mod Tests
use Prim.Native.String.{◌++◌ as join}
use burnmon.Base.{
  ℕ, String, Bool, true, false, not, ◌&&◌, ◌||◌, Option, none, some, List, [], ◌∷◌, ◌++◌, ◌+64◌,
  ◌==◌, any, filter, map, length, str_lt, string_eq, if◌then◌else◌,
}
use burnmon.Calendar.{Date, week_key, year_text, pad_two}
use burnmon.Schema.{Event, is_turn, value_or_zero}
use burnmon.Agg.{change, month_key, sort_days}
use burnmon.Dataset.FromStore.{Prices, event_tokens, sessions_from_events, active_minutes_by_client}

pub record Filter : Type 0 where
  pub period : String
  pub from_day : String
  pub to_day : String
  pub vendor : String
  pub owner : String
  pub client : String

-- VendorAgg
pub record VendorAgg (F : Type 0) : Type 0 where
  pub tokens : ℕ
  pub cost_usd : Option F

pub record Totals (F : Type 0) : Type 0 where
  pub fresh : ℕ
  pub cache_w : ℕ
  pub cache_r : ℕ
  pub out : ℕ
  pub tokens : ℕ
  pub sessions : ℕ
  pub turns : ℕ
  pub cost_usd : Option F
  pub cost_note : String
  pub by_vendor : List (String × VendorAgg F)

pub record ClientRow (F : Type 0) : Type 0 where
  pub client : String
  pub tokens : ℕ
  pub cost_usd : Option F
  pub cost_note : String
  pub active_minutes : F
  pub sessions : ℕ

pub record Payload (F : Type 0) : Type 0 where
  pub filter_used : Filter
  pub totals : Totals F
  pub rows : List (String × Totals F)
  pub vendors : List String
  pub owners : List String
  pub clients : List String
  pub client_rows : List (ClientRow F)

-- What the loop keeps for one bucket, or for all of them.
pub record Pot : Type 0 where
  pub sum_fresh : ℕ
  pub sum_cache_w : ℕ
  pub sum_cache_r : ℕ
  pub sum_out : ℕ
  pub turn_n : ℕ
  pub session_set : List String
  pub turn_events : List Event
  pub vendor_tokens : List (String × ℕ)
  pub vendor_turns : List (String × List Event)

abbrev pub empty_pot : Pot
empty_pot = record {
  sum_fresh = 0;
  sum_cache_w = 0;
  sum_cache_r = 0;
  sum_out = 0;
  turn_n = 0;
  session_set = [];
  turn_events = [];
  vendor_tokens = [];
  vendor_turns = [];
}

-- set[k] = true
abbrev pub add_name : String → List String → List String
add_name k ks = if any (λ j. j == k) ks then ks else ks ++ (k ∷ [])

abbrev pub session_key : Event → String
session_key e = join e.vendor (join "|" e.session_id)

abbrev pub add_agent_tokens : Event → List (String × ℕ) → List (String × ℕ)
add_agent_tokens e m = if e.agent == "" then m else change 0 e.agent (λ n. n +64 event_tokens e) m

abbrev pub add_agent_turn : Event → List (String × List Event) → List (String × List Event)
add_agent_turn e m = if e.agent == "" then m else change [] e.agent (λ es. es ++ (e ∷ [])) m

unfoldable pub add_to_pot : Event → Pot → Pot
unfolding value_or_zero event_tokens change
add_to_pot e b = record {
  sum_fresh = b.sum_fresh +64 e.input;
  sum_cache_w = b.sum_cache_w +64 value_or_zero e.cache_write;
  sum_cache_r = b.sum_cache_r +64 value_or_zero e.cache_read;
  sum_out = b.sum_out +64 e.output;
  turn_n = if is_turn e then b.turn_n +64 1 else b.turn_n;
  session_set = add_name (session_key e) b.session_set;
  turn_events = if is_turn e then b.turn_events ++ (e ∷ []) else b.turn_events;
  vendor_tokens = add_agent_tokens e b.vendor_tokens;
  vendor_turns = if is_turn e then add_agent_turn e b.vendor_turns else b.vendor_turns;
}

-- `day >= from && day <= to`
abbrev pub in_range : String → String → String → Bool
in_range day from to = not (str_lt day from) && not (str_lt to day)

abbrev pub day_key : Date → String
day_key d = join (month_key d) (join "-" (pad_two d.day))

unfoldable pub bucket_key : String → Date → String
unfolding month_key
bucket_key period d =
    if period == "month" then month_key d else if period == "week" then week_key d else day_key d

abbrev pub is_or_any : String → String → Bool
is_or_any wanted s = wanted == "" || s == wanted

-- vendorOK && ownerOK && inDateRange
unfoldable pub passes : Filter → (ℕ → Date) → Event → Bool
unfolding month_key
passes f local e =
    is_or_any f.vendor e.agent
    && is_or_any f.owner e.owner
    && (f.from_day == "" || f.to_day == "" || in_range (day_key (local e.at)) f.from_day f.to_day)

unfoldable pub keeps : Filter → (ℕ → Date) → Event → Bool
unfolding passes
keeps f local e = passes f local e && (f.client == "" || e.client == f.client)

-- `buckets` with the maps that go with it, and the totals.
pub record Sums : Type 0 where
  pub buckets : List (String × Pot)
  pub overall : Pot

abbrev pub add_if : Bool → String → Event → Sums → Sums
add_if false key e s = s
add_if true key e s = record {
  buckets = change empty_pot key (add_to_pot e) s.buckets;
  overall = add_to_pot e s.overall;
}

unfoldable pub sum_events : Filter → (ℕ → Date) → List Event → Sums → Sums
unfolding keeps bucket_key add_to_pot change
sum_events f local [] s = s
sum_events f local (e ∷ es) s =
    sum_events f local es (add_if (keeps f local e) (bucket_key f.period (local e.at)) e s)

-- clientRowEvents
unfoldable pub client_events :
    Filter → (ℕ → Date) → List Event → List (String × List Event) → List (String × List Event)
unfolding passes change
client_events f local [] m = m
client_events f local (e ∷ es) m = client_events f local es (
    if passes f local e && not (e.client == "")
    then change [] e.client (λ xs. xs ++ (e ∷ [])) m
    else m)

-- The names that are not empty, once each, sorted.
unfoldable pub insert_name : String → List String → List String
insert_name s [] = s ∷ []
insert_name s (t ∷ ts) = if str_lt t s then t ∷ insert_name s ts else s ∷ t ∷ ts

unfoldable pub sort_names : List String → List String
unfolding insert_name
sort_names [] = []
sort_names (s ∷ ss) = insert_name s (sort_names ss)

unfoldable pub names_seen : List String → List String → List String
names_seen [] seen = seen
names_seen (s ∷ ss) seen = names_seen ss (if s == "" then seen else add_name s seen)

-- m[k], or what is nil for it.
unfoldable pub entry_or {ℓ} : {A : Type ℓ} → A → String → List (String × A) → A
entry_or z k [] = z
entry_or z k ((j, a) ∷ m) = let rest = entry_or z k m in if j == k then a else rest

-- f.Period
unfoldable pub set_period : Filter → Filter
set_period f =
    if not (f.period == "week") && not (f.period == "month") then record f { period = "day" } else f

module _ {F : Type 0} (p : Prices F) (cost_for_events : List Event → List (Option F)) where
  -- headlineCostUSD: the sum, if a vendor's headline is not nil.
  abbrev pub add_headline : Option F → Option F → Option F
  add_headline sum none = sum
  add_headline none (some h) = some (p.add_cost p.no_cost h)
  add_headline (some usd) (some h) = some (p.add_cost usd h)

  unfoldable pub headline_sum : Option F → List (Option F) → Option F
  headline_sum sum [] = sum
  headline_sum sum (h ∷ hs) = headline_sum (add_headline sum h) hs

  abbrev pub headline_cost_usd : List Event → Option F
  headline_cost_usd es = headline_sum none (cost_for_events es)

  abbrev pub note_of : Option F → String
  note_of none = "tokens only"
  note_of (some usd) = ""

  unfoldable pub vendor_aggs :
      List (String × List Event) → List (String × ℕ) → List (String × VendorAgg F)
  unfolding entry_or headline_sum
  vendor_aggs turns [] = []
  vendor_aggs turns ((agent, tokens) ∷ m) =
      (agent, record { tokens = tokens; cost_usd = headline_cost_usd (entry_or [] agent turns) })
      ∷ vendor_aggs turns m

  -- The totals of a pot, with its split by agent.
  unfoldable pub totals_of : List (String × VendorAgg F) → Pot → Totals F
  unfolding headline_sum
  totals_of split b =
      let usd = headline_cost_usd b.turn_events in
      record {
        fresh = b.sum_fresh;
        cache_w = b.sum_cache_w;
        cache_r = b.sum_cache_r;
        out = b.sum_out;
        tokens = b.sum_fresh +64 b.sum_cache_w +64 b.sum_cache_r +64 b.sum_out;
        sessions = length b.session_set;
        turns = b.turn_n;
        cost_usd = usd;
        cost_note = note_of usd;
        by_vendor = split;
      }

  unfoldable pub rows_of : List (String × Pot) → List (String × Totals F)
  unfolding totals_of vendor_aggs
  rows_of [] = []
  rows_of ((k, b) ∷ m) = (k, totals_of (vendor_aggs b.vendor_turns b.vendor_tokens) b) ∷ rows_of m

  unfoldable pub turn_tokens : List Event → ℕ → ℕ
  unfolding event_tokens is_turn
  turn_tokens [] n = n
  turn_tokens (e ∷ es) n = turn_tokens es (if is_turn e then n +64 event_tokens e else n)

  unfoldable pub build_client_row : String → List Event → ClientRow F
  unfolding turn_tokens headline_sum is_turn sessions_from_events entry_or
  build_client_row client events =
      let usd = headline_cost_usd (filter is_turn events) in
      let sessions = sessions_from_events p events in
      record {
        client = client;
        tokens = turn_tokens events 0;
        cost_usd = usd;
        cost_note = note_of usd;
        active_minutes = entry_or p.no_cost client (active_minutes_by_client p sessions);
        sessions = length sessions;
      }

  unfoldable pub build : List Event → (ℕ → Date) → Filter → Payload F
  unfolding set_period sum_events client_events names_seen sort_names rows_of totals_of sort_days
      entry_or build_client_row
  build events local filter_in =
      let f = set_period filter_in in
      let s = sum_events f local events (record { buckets = []; overall = empty_pot }) in
      let by_client = client_events f local events [] in
      let clients = sort_names (names_seen (map (λ (e : Event). e.client) events) []) in
      record {
        filter_used = f;
        totals = totals_of [] s.overall;
        rows = rows_of (sort_days s.buckets);
        vendors = sort_names (names_seen (map (λ (e : Event). e.agent) events) []);
        owners = sort_names (names_seen (map (λ (e : Event). e.owner) events) []);
        clients = clients;
        client_rows = map (λ (c : String). build_client_row c (entry_or [] c by_client)) clients;
      }
