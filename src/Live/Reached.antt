-- ===== src/Live/Reached.antt =====
-- Which running sessions the tree of `BuildSnapshot` reaches.
use text.Mathlib.TextEquality.{eq_iff}
use burnmon.Base.{
  ℕ, zero, suc, ◌≤◌, ◌<◌, String, Bool, true, not, ◌&&◌, ◌||◌, Option, none, some, List, [], ◌∷◌,
  ◌++◌, ◌==◌, ◌≡◌, refl, sym, ◌∙◌, subst, leb, leb→le, arith, Bool-cases, inl, inr, string_eq,
  if_both, All, get_elem?, filter, some_injective,
}
use burnmon.Schema.{Event, is_turn}
use burnmon.Insight.{Rules, sort_turns}
use burnmon.Agg.{sort_days}
use burnmon.Live.Turns.{TurnGroup}
use burnmon.Live.Trail.{put}
use burnmon.Live.Snapshot.{
  Scan, Nest, has_session, keep_running, scan_group, scan_groups, session_groups, no_sessions,
  newest_first, scan_events, snapshot_sessions, still_runs,
}
use burnmon.Live.Nested.{
  times_in, times_in-append, times_under, times_shown, shown_under, parent_from, Placed,
  snapshot_sessions-NestedRight,
}

-- The sessions that a walk from the top comes to.
pub data Reached (n : Nest) : String → Type 0 where
  at_top : {id : String} → 1 ≤ times_in id n.top → Reached n id
  below :
      {id p : String} (ids : List String) (i : ℕ)
      → get_elem? n.subagents i ≡ some (p, ids)
      → 1 ≤ times_in id ids
      → Reached n p
      → Reached n id

under-some :
    (id : String) (m : List (String × List String))
    → 1 ≤ times_under id m
    → (c : String × List String) × ((i : ℕ) × ((get_elem? m i ≡ some c) × (1 ≤ times_in id c.1)))
unfolding times_under
under-some id [] h = absurd (omega (arith, h))
under-some id ((p, js) ∷ m) h = elim (Bool-cases (leb 1 (times_in id js))) [
  | inl here ↦ ((p, js), (0, (refl, leb→le 1 (times_in id js) here)))
  | inr later ↦
      let (c, (i, (found, inside))) = under-some id m (ground (arith, h, later)) in
      (c, (suc i, (found, inside)))
]

All-at :
    {A : Type 0} (P : A → Type 0) (xs : List A) (i : ℕ) (x : A)
    → All P xs
    → get_elem? xs i ≡ some x
    → P x
All-at P [] i x h e = cc
All-at P (y ∷ ys) zero x h e = subst P (some_injective e) h.0
All-at P (y ∷ ys) (suc i) x h e = All-at P ys i x h.1 e

All-times :
    (P : String → Type 0) (ids : List String) (id : String) → All P ids → 1 ≤ times_in id ids → P id
unfolding times_in
All-times P [] id h k = absurd (omega (arith, k))
All-times P (j ∷ js) id h k = elim (Bool-cases (j == id)) [
  | inl same ↦ subst P ((eq_iff j id).0 same) h.0
  | inr other ↦ All-times P js id h.1 (ground (arith, k, other))
]

-- A session that is in the map stands in runningOrder.
abbrev Ordered : {F B : Type 0} → Scan F B → Type 0
Ordered s = (k : String) → has_session s.sessions k ≡ true → 1 ≤ times_in k s.running_order

has_session-put :
    {A : Type 0} (k id : String) (v : A) (m : List (String × A))
    → has_session (put id v m) k ≡ ((id == k) || has_session m k)
unfolding put
has_session-put k id v [] = refl
has_session-put k id v ((j, u) ∷ m) = elim (Bool-cases (j == id)) [
  | inl same ↦ rw (same, (eq_iff j id).0 same) (ground arith)
  | inr other ↦ rw (other, has_session-put k id v m) (ground arith)
]

put-Ordered :
    {A : Type 0} (id : String) (v : A) (m : List (String × A)) (order : List String)
    → ((k : String) → has_session m k ≡ true → 1 ≤ times_in k order)
    → (k : String) → has_session (put id v m) k ≡ true
    → 1 ≤ times_in k (order ++ (id ∷ []))
unfolding times_in
put-Ordered id v m order o k h = elim (Bool-cases (id == k)) [
  | inl same ↦ ground (arith, times_in-append k order (id ∷ []), same)
  | inr other ↦ ground (
    arith,
    times_in-append k order (id ∷ []),
    o k (ground (arith, has_session-put k id v m, h, other)),
  )
]

-- A tree whose parents rank lower than the sessions under them.
module _ (parent_of : List (String × String)) (runs : String → Bool) (rank : String → ℕ) (n : Nest)
    (order : List String) (each : (id : String) → times_shown id n ≡ times_in id order)
    (placed : Placed parent_of runs n)
    (lower : (id p : String) → shown_under parent_of runs id ≡ some p → rank p < rank id)
    (ordered : (p : String) → runs p ≡ true → 1 ≤ times_in p order) where
  parent-runs :
      (id p : String) (o : Option String) → parent_from parent_of runs id o ≡ some p → runs p ≡ true
  parent-runs id p none h = cc
  parent-runs id p (some q) h = elim (Bool-cases (runs q && not (q == id))) [
    | inl nested ↦
        let same : q ≡ p = some_injective (sym (rw nested refl) ∙ h) in
        subst (λ x. runs x ≡ true) same (ground arith)
    | inr alone ↦ let gone : parent_from parent_of runs id (some q) ≡ none = rw alone refl in cc
  ]

  reaches : (m : ℕ) (id : String) → rank id < m → 1 ≤ times_in id order → Reached n id
  reaches zero id less h = absurd (omega (arith, less))
  reaches (suc m) id less h = elim (Bool-cases (leb 1 (times_in id n.top))) [
    | inl top ↦ at_top (leb→le 1 (times_in id n.top) top)
    | inr under ↦
        let (c, (i, (found, inside))) =
          under-some id n.subagents (ground (arith, each id, h, under)) in
        let here =
          All-times (λ x. shown_under parent_of runs x ≡ some c.0) c.1 id
            (All-at
              (λ (d : String × List String). All (λ x. shown_under parent_of runs x ≡ some d.0) d.1)
              n.subagents i c placed.1 found)
            inside in
        below c.1 i found inside (
          reaches m c.0 (omega (arith, less, lower id c.0 here))
            (ordered c.0 (parent-runs id c.0 _ here)))
  ]

module _ {F B : Type 0} (zero_cost : F) (plus : F → F → F) (turn_cost : Event → F)
    (ratio : ℕ → ℕ → F) (headline : List Event → Option B) (stamp : ℕ → String) (rules : Rules)
    (running_seconds : ℕ) where
  keep_running-Ordered :
      (now : ℕ) (id : String) (turns back : List Event) (s : Scan F B)
      → Ordered s
      → Ordered (
          keep_running zero_cost plus turn_cost ratio headline stamp rules running_seconds now id
            turns back s)
  keep_running-Ordered now id [] back s o = o
  keep_running-Ordered now id (t ∷ ts) [] s o = o
  keep_running-Ordered now id (t ∷ ts) (last ∷ ps) s o =
      if_both Ordered (still_runs running_seconds now last)
        (put-Ordered id _ s.sessions s.running_order o) o

  scan_groups-Ordered :
      (now : ℕ) (gs : List (String × TurnGroup)) (s : Scan F B)
      → Ordered s
      → Ordered
          (scan_groups zero_cost plus turn_cost ratio headline stamp rules running_seconds now gs s)
  unfolding scan_groups
  scan_groups-Ordered now [] s o = o
  scan_groups-Ordered now ((k, g) ∷ gs) s o =
      scan_groups-Ordered now gs
        (scan_group zero_cost plus turn_cost ratio headline stamp rules running_seconds now g s)
        (keep_running-Ordered now g.group_session (filter is_turn (sort_turns g.group_turns))
          (newest_first (filter is_turn (sort_turns g.group_turns)) []) s o)

  scan_events-Ordered :
      (events : List Event) (now : ℕ)
      → Ordered (
          scan_events zero_cost plus turn_cost ratio headline stamp rules running_seconds events
            now)
  unfolding scan_events
  scan_events-Ordered events now =
      scan_groups-Ordered now (sort_days (session_groups events []))
        (no_sessions zero_cost plus turn_cost ratio headline stamp rules running_seconds)
        (λ k h. cc)

  abbrev pub snapshot : List Event → ℕ → Scan F B × Nest
  snapshot = snapshot_sessions zero_cost plus turn_cost ratio headline stamp rules running_seconds

  -- If the parents that are noted for the running sessions make no circle, so that some rank is lower
  -- for the parent that a session is put under, then a running session whose id no other running
  -- session has is shown exactly once in the tree of BuildSnapshot, and a walk from the top comes to it.
  -- Every session is put under the parent that is noted for it, if that is another one and runs too, and
  -- else at the top.
  pub snapshot_sessions-Reached :
      (rank : String → ℕ) (id : String) (events : List Event) (now : ℕ)
      → ((j p : String)
          → shown_under
              (snapshot events now).0.parent_of
              (has_session (snapshot events now).0.sessions)
              j
            ≡ some p
          → rank p < rank j)
      → times_in id (snapshot events now).0.running_order ≡ 1
      → (times_shown id (snapshot events now).1 ≡ 1)
        × (Reached (snapshot events now).1 id
            × Placed
                (snapshot events now).0.parent_of
                (has_session (snapshot events now).0.sessions)
                (snapshot events now).1)
  unfolding snapshot_sessions
  snapshot_sessions-Reached rank id events now lower once =
      let right = λ (j : String).
        snapshot_sessions-NestedRight zero_cost plus turn_cost ratio headline stamp rules
          running_seconds j events now in
      let s =
        scan_events zero_cost plus turn_cost ratio headline stamp rules running_seconds events
          now in
      (
        (right id).0 ∙ once,
        (
          reaches s.parent_of (has_session s.sessions) rank (snapshot events now).1 s.running_order
              (λ j. (right j).0) (right id).1 lower (scan_events-Ordered events now) (suc (rank id))
              id (omega arith) (omega (arith, once)),
          (right id).1,
        ),
      )
