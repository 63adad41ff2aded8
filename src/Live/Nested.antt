-- ===== src/Live/Nested.antt =====
-- Where `BuildSnapshot` places the running sessions.
use text.Mathlib.TextEquality.{eq_iff}
use burnmon.Base.{
  ℕ, ◌+◌, String, Bool, not, ◌&&◌, Option, none, some, List, [], ◌∷◌, ◌++◌, ◌==◌, ◌≡◌, refl, sym,
  ap, ◌∙◌, arith, string_eq, if◌then◌else◌, if_cases, if_both, All, All-append,
}
use burnmon.Schema.{Event}
use burnmon.Agg.{change}
use burnmon.Insight.{Rules}
use burnmon.Live.Snapshot.{
  Scan, Nest, value_at, place, place_all, has_session, scan_events, snapshot_sessions,
}

unfoldable pub times_in : String → List String → ℕ
times_in id [] = 0
times_in id (j ∷ js) = if j == id then 1 + times_in id js else times_in id js

unfoldable pub times_under : String → List (String × List String) → ℕ
unfolding times_in
times_under id [] = 0
times_under id ((p, js) ∷ m) = times_in id js + times_under id m

-- How often a session is shown.
abbrev pub times_shown : String → Nest → ℕ
times_shown id n = times_in id n.top + times_under id n.subagents

pub times_in-append :
    (id : String) (xs ys : List String) → times_in id (xs ++ ys) ≡ times_in id xs + times_in id ys
unfolding times_in
times_in-append id [] ys = omega arith
times_in-append id (x ∷ xs) ys = ground (arith, times_in-append id xs ys)

times_under-change :
    (id p j : String) (m : List (String × List String))
    → times_under id (change [] p (λ js. js ++ j ∷ []) m) ≡ times_under id m + times_in id (j ∷ [])
unfolding change times_under
times_under-change id p j [] = omega arith
times_under-change id p j ((q, js) ∷ m) =
    if_cases (λ l. times_under id l ≡ times_under id ((q, js) ∷ m) + times_in id (j ∷ [])) (q == p)
      (λ same. omega (arith, times_in-append id js (j ∷ [])))
      (λ other. omega (arith, times_under-change id p j m))

module _ (parent_of : List (String × String)) (runs : String → Bool) where
  -- The parent that a session is shown under.
  abbrev pub parent_from : String → Option String → Option String
  parent_from id none = none
  parent_from id (some p) = if runs p && not (p == id) then some p else none

  abbrev pub shown_under : String → Option String
  shown_under id = parent_from id (value_at id parent_of)

  abbrev pub Under : List (String × List String) → Type 0
  Under = All (λ (c : String × List String). All (λ (id : String). shown_under id ≡ some c.0) c.1)

  abbrev pub Placed : Nest → Type 0
  Placed n = All (λ (id : String). shown_under id ≡ none) n.top × Under n.subagents

  change-Under :
      (p j : String) (m : List (String × List String))
      → shown_under j ≡ some p
      → Under m
      → Under (change [] p (λ js. js ++ j ∷ []) m)
  unfolding change
  change-Under p j [] h u = ((h, tt), tt)
  change-Under p j ((q, js) ∷ m) h u =
      if_cases Under (q == p)
        (λ same. (
          All-append (λ (id : String). shown_under id ≡ some q) js (j ∷ []) u.0
              (h ∙ ap some (sym ((eq_iff q p).0 same)), tt),
          u.1,
        ))
        (λ other. (u.0, change-Under p j m h u.1))

  at_top :
      (id j : String) (n : Nest)
      → times_shown id (record n { top = n.top ++ (j ∷ []) })
        ≡ times_shown id n + times_in id (j ∷ [])
  at_top id j n = omega (arith, times_in-append id n.top (j ∷ []))

  place-times :
      (id j : String) (o : Option String) (n : Nest)
      → times_shown id (place runs j o n) ≡ times_shown id n + times_in id (j ∷ [])
  unfolding place
  place-times id j none n = at_top id j n
  place-times id j (some p) n =
      if_both (λ l. times_shown id l ≡ times_shown id n + times_in id (j ∷ []))
        (runs p && not (p == j)) (omega (arith, times_under-change id p j n.subagents))
        (at_top id j n)

  to_top :
      (j : String) (n : Nest)
      → shown_under j ≡ none
      → Placed n
      → Placed (record n { top = n.top ++ (j ∷ []) })
  to_top j n h q =
      (All-append (λ (id : String). shown_under id ≡ none) n.top (j ∷ []) q.0 (h, tt), q.1)

  place-Placed :
      (j : String) (o : Option String) (n : Nest)
      → value_at j parent_of ≡ o
      → Placed n
      → Placed (place runs j o n)
  unfolding place
  place-Placed j none n e q = to_top j n (ap (parent_from j) e) q
  place-Placed j (some p) n e q =
      if_cases Placed (runs p && not (p == j))
        (λ nested. (q.0, change-Under p j n.subagents (ap (parent_from j) e ∙ rw nested refl) q.1))
        (λ alone. to_top j n (ap (parent_from j) e ∙ rw alone refl) q)

  place_all-times :
      (id : String) (js : List String) (n : Nest)
      → times_shown id (place_all parent_of runs js n) ≡ times_shown id n + times_in id js
  unfolding place_all times_in
  place_all-times id [] n = omega arith
  place_all-times id (j ∷ js) n = ground (
    arith,
    place_all-times id js (place runs j (value_at j parent_of) n),
    place-times id j (value_at j parent_of) n,
  )

  place_all-Placed :
      (js : List String) (n : Nest) → Placed n → Placed (place_all parent_of runs js n)
  unfolding place_all
  place_all-Placed [] n q = q
  place_all-Placed (j ∷ js) n q =
      place_all-Placed js (place runs j (value_at j parent_of) n)
        (place-Placed j (value_at j parent_of) n refl q)

abbrev pub NestedRight : {F B : Type 0} → String → Scan F B × Nest → Type 0
NestedRight id (s, n) =
    (times_shown id n ≡ times_in id s.running_order) × Placed s.parent_of (has_session s.sessions) n

module _ {F B : Type 0} (zero_cost : F) (plus : F → F → F) (turn_cost : Event → F)
    (ratio : ℕ → ℕ → F) (headline : List Event → Option B) (stamp : ℕ → String) (rules : Rules)
    (running_seconds : ℕ) where
  -- BuildSnapshot shows each running session as often as it found it: under the parent that is noted for
  -- it, if that is another session and runs too, and else at the top.
  pub snapshot_sessions-NestedRight :
      (id : String) (events : List Event) (now : ℕ)
      → NestedRight id (
          snapshot_sessions zero_cost plus turn_cost ratio headline stamp rules running_seconds
            events now)
  unfolding snapshot_sessions times_under
  snapshot_sessions-NestedRight id events now =
      let s =
        scan_events zero_cost plus turn_cost ratio headline stamp rules running_seconds events
          now in
      (
        omega (
          arith,
          place_all-times s.parent_of (has_session s.sessions) id s.running_order
              (record { top = []; subagents = [] }),
        ),
        place_all-Placed s.parent_of (has_session s.sessions) s.running_order
            (record { top = []; subagents = [] }) (tt, tt),
      )
