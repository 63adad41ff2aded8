-- ===== src/Insight.antt =====
-- internal/insight/insight.go: what is noticed about the turns of one session.
-- A finding's Evidence and Confidence, which are floating point, are not kept. The comparisons of floats and
-- the texts made from them are parameters (Rules), and so is the price book's context window.
mod Tests
pub mod Rank
pub mod Turns
pub mod Placed
use burnmon.Base.{
  ℕ, zero, suc, String, Bool, true, false, not, ◌&&◌, ◌||◌, Option, none, some, List, [], ◌∷◌, ◌++◌,
  ◌+◌, ◌-◌, ◌==◌, ◌+64◌, ℤ, any, filter, map, drop, length, ltb, leb, lt64, sub_time, dur_gt,
  is_zero, get_elem?, get_last?, str_lt, string_eq, nat_eq, if◌then◌else◌,
}
use burnmon.Schema.{Event, is_turn, context_of, value_or_zero}

-- Kind
pub data Kind : Type 0 where
  reprefill compaction context_runway expensive_turn : Kind

abbrev pub kind_text : Kind → String
kind_text reprefill = "re-prefill"
kind_text compaction = "compaction"
kind_text context_runway = "context-runway"
kind_text expensive_turn = "expensive-turn"

pub record Finding : Type 0 where
  pub kind : Kind
  pub turn : ℕ
  pub at : ℕ
  pub cause : String

-- `drops before after` is float64(before-after)/float64(before) > 0.30; `below a b` is
-- float64(a) < float64(b); `rank n` is int(math.Ceil(0.95*float64(n))). `runway cs w` is the cause of
-- contextRunway, for the contexts of the sample and the window, where its fitted slope is above 0.
pub record Rules : Type 0 where
  pub reprefill_threshold : ℕ
  pub cache_ttl : ℕ
  pub context_window : String → Option ℕ
  pub drops : ℕ → ℕ → Bool
  pub below : ℕ → ℕ → Bool
  pub rank : ℕ → ℕ
  pub runway : List ℕ → ℕ → Option String
  pub gap_cause : ℤ → String
  pub expensive_cause : Event → ℕ → String

abbrev pub copilot_vscode_agent : String
copilot_vscode_agent = "copilot-vscode"

abbrev pub copilot_compaction_floor : ℕ
copilot_compaction_floor = 10_000

-- The newest earlier turn of the same model, with its `ok`; `earlier` has the newest turn first.
unfoldable pub same_model : String → List Event → ℕ × Bool
same_model model [] = (0, false)
same_model model (p ∷ ps) =
    let rest = same_model model ps in
    if p.model == model
    then (context_of p, not (lt64 (context_of p) copilot_compaction_floor))
    else rest

-- compactionBaseline, for a turn that has one before it.
unfoldable pub compaction_baseline : Event → List Event → Event → ℕ × Bool
unfolding same_model
compaction_baseline e ps p =
    if not (e.agent == copilot_vscode_agent)
    then (context_of p, true)
    else same_model e.model (p ∷ ps)

-- From the end, the first turn at or above the floor.
unfoldable pub big_turn : Event → List Event → Event
big_turn last [] = last
big_turn last (p ∷ ps) =
    let rest = big_turn last ps in
    if not (lt64 (context_of p) copilot_compaction_floor) then p else rest

-- ContextTurn, for the turns with the newest one first.
unfoldable pub context_turn : Event → List Event → Event
unfolding big_turn
context_turn last ps =
    if not (last.agent == copilot_vscode_agent) then last else big_turn last (last ∷ ps)

unfoldable pub insert_turn : Event → List Event → List Event
insert_turn e [] = e ∷ []
insert_turn e (x ∷ xs) = if ltb x.at e.at then x ∷ insert_turn e xs else e ∷ x ∷ xs

-- sort.SliceStable by At
unfoldable pub sort_turns : List Event → List Event
unfolding insert_turn
sort_turns [] = []
sort_turns (e ∷ es) = insert_turn e (sort_turns es)

-- turnTotal
unfoldable pub turn_total : Event → ℕ
unfolding value_or_zero
turn_total e = e.input +64 value_or_zero e.cache_write +64 value_or_zero e.cache_read +64 e.output

-- findings[i].Turn < findings[j].Turn, or the same turn and the smaller Kind.
unfoldable pub before : Finding → Finding → Bool
before f g =
    if not (f.turn == g.turn)
    then ltb f.turn g.turn
    else str_lt (kind_text f.kind) (kind_text g.kind)

unfoldable pub insert_finding : Finding → List Finding → List Finding
unfolding before
insert_finding f [] = f ∷ []
insert_finding f (g ∷ gs) = if before g f then g ∷ insert_finding f gs else f ∷ g ∷ gs

unfoldable pub sort_findings : List Finding → List Finding
unfolding insert_finding
sort_findings [] = []
sort_findings (f ∷ fs) = insert_finding f (sort_findings fs)

-- RunwayText
unfoldable pub runway_text : List Finding → String
runway_text [] = "runway unknown"
runway_text (f ∷ fs) =
    let rest = runway_text fs in if kind_text f.kind == "context-runway" then f.cause else rest

module _ (rules : Rules) where
  -- Whether the compaction rule fires.
  unfoldable pub compacts : ℕ × Bool → ℕ → Bool
  compacts (before, ok) after = ok && lt64 0 before && lt64 after before && rules.drops before after

  -- The first loop of Analyze, from the turn numbered `n` on.
  unfoldable pub compaction_findings : ℕ → List Event → List Event → List Finding
  unfolding compacts compaction_baseline context_of
  compaction_findings n earlier [] = []
  compaction_findings n [] (e ∷ es) = compaction_findings (suc n) (e ∷ []) es
  compaction_findings n (p ∷ ps) (e ∷ es) =
      let rest = compaction_findings (suc n) (e ∷ p ∷ ps) es in
      if compacts (compaction_baseline e ps p) (context_of e)
      then record {
        kind = compaction;
        turn = n;
        at = e.at;
        cause = "context dropped more than 30% since the previous turn";
      }
        ∷ rest
      else rest

  abbrev pub model_changed : Event → Event → Bool
  model_changed p e = not (p.model == "") && not (e.model == "") && not (p.model == e.model)

  abbrev pub gap_cause_of : Event → Event → String
  gap_cause_of p e =
      if not (is_zero p.at) && not (is_zero e.at) && dur_gt (sub_time e.at p.at) rules.cache_ttl
      then rules.gap_cause (sub_time e.at p.at)
      else "unknown"

  -- reprefillCause; `compacted` holds the findings of the first loop.
  unfoldable pub reprefill_cause : List Finding → ℕ → List Event → Event → String
  reprefill_cause compacted n [] e = "first turn after resume"
  reprefill_cause compacted n (p ∷ ps) e =
      if any (λ (f : Finding). f.turn == n || f.turn + 1 == n) compacted
      then "compaction just happened"
      else if model_changed p e
      then "model changed since the previous turn"
      else gap_cause_of p e

  -- The second loop.
  unfoldable pub reprefills : List Finding → ℕ → List Event → List Event → List Finding
  unfolding reprefill_cause value_or_zero
  reprefills compacted n earlier [] = []
  reprefills compacted n earlier (e ∷ es) =
      let rest = reprefills compacted (suc n) (e ∷ earlier) es in
      if lt64 rules.reprefill_threshold (value_or_zero e.cache_write)
      then record {
        kind = reprefill;
        turn = n;
        at = e.at;
        cause = reprefill_cause compacted n earlier e;
      }
        ∷ rest
      else rest

  unfoldable pub insert_total : ℕ → List ℕ → List ℕ
  insert_total x [] = x ∷ []
  insert_total x (y ∷ ys) = if rules.below y x then y ∷ insert_total x ys else x ∷ y ∷ ys

  -- sort.Float64s
  unfoldable pub sort_totals : List ℕ → List ℕ
  unfolding insert_total
  sort_totals [] = []
  sort_totals (x ∷ xs) = insert_total x (sort_totals xs)

  -- The rank within 1 and n.
  unfoldable pub clamped_rank : ℕ → ℕ
  clamped_rank n =
      let r = if ltb (rules.rank n) 1 then 1 else rules.rank n in if ltb n r then n else r

  unfoldable pub expensive_from : ℕ → ℕ → List Event → List Finding
  unfolding turn_total
  expensive_from p95 n [] = []
  expensive_from p95 n (e ∷ es) =
      let rest = expensive_from p95 (suc n) es in
      if rules.below p95 (turn_total e)
      then record {
        kind = expensive_turn;
        turn = n;
        at = e.at;
        cause = rules.expensive_cause e p95;
      }
        ∷ rest
      else rest

  abbrev pub above_rank : List Event → Option ℕ → List Finding
  above_rank turns none = []
  above_rank turns (some p95) = expensive_from p95 1 turns

  -- expensiveTurns
  unfoldable pub expensive_turns : List Event → List Finding
  unfolding sort_totals clamped_rank expensive_from turn_total
  expensive_turns turns =
      if ltb (length turns) 2
      then []
      else above_rank turns
          (get_elem? (sort_totals (map turn_total turns)) (clamped_rank (length turns) - 1))

  abbrev pub runway_finding : ℕ → Event → Option String → List Finding
  runway_finding n last none = []
  runway_finding n last (some cause) =
      record { kind = context_runway; turn = n; at = last.at; cause = cause } ∷ []

  abbrev pub runway_within : List Event → Event → Option ℕ → List Finding
  runway_within turns last none = []
  runway_within turns last (some w) =
      let sample = drop (length turns - 10) turns in
      if not (lt64 0 w) || ltb (length sample) 2
      then []
      else runway_finding (length turns) last (rules.runway (map context_of sample) w)

  -- contextRunway
  unfoldable pub context_runway_of : List Event → Option Event → List Finding
  unfolding context_of
  context_runway_of turns none = []
  context_runway_of turns (some last) = runway_within turns last (rules.context_window last.model)

  unfoldable pub all_findings : List Event → Option Event → List Finding
  unfolding compaction_findings reprefills expensive_turns context_runway_of
  all_findings turns last =
      let compacted = compaction_findings 1 [] turns in
      compacted
      ++ reprefills compacted 1 [] turns
      ++ context_runway_of turns last
      ++ expensive_turns turns

  -- Analyze
  unfoldable pub analyze : List Event → List Finding
  unfolding sort_turns all_findings sort_findings is_turn
  analyze events =
      let turns = sort_turns (filter is_turn events) in
      sort_findings (all_findings turns (get_last? turns))
