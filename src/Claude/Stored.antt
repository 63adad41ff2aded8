-- ===== src/Claude/Stored.antt =====
-- The events of a read as the store sees them: the output of one request.
use burnmon.Base.{
  ℕ, String, Bool, true, false, not, Option, none, some, List, [], ◌∷◌, ◌++◌, ◌≡◌, refl, ◌==◌, ◌∙◌,
  ap, sym, subst, ◌<◌, ◌&&◌, max, lt64, sign_bit, lt64_of_nonneg, string_eq, if◌then◌else◌, if_both,
  Bool-cases, ◌⊎◌, inl, inr, arith, filter, filter-append, any, map, ==_refl, eq_of_==,
}
use burnmon.Schema.{Event, Key, key_eq}
use burnmon.Store.Table.{row, Unique, Absent}
use burnmon.Store.Events.Laws.{best, has_key}
use burnmon.Claude.Lines.{Library, Turn, TurnTools, Reading, turn_key}
use burnmon.Claude.Tools.{has_tools}
use burnmon.Claude.Outputs.{larger, larger-none, larger_assoc, Small, out_of}
use burnmon.Claude.Flags.{flag}
use burnmon.Claude.Parse.{events_of, turn_event, orphan_event, is_orphan}

abbrev pub output_of : Option Event → Option ℕ
output_of none = none
output_of (some e) = some e.output

-- The largest output of some events.
abbrev pub outputs : List Event → Option ℕ
outputs [] = none
outputs (e ∷ es) = larger (some e.output) (outputs es)

outputs-append : (es fs : List Event) → outputs (es ++ fs) ≡ larger (outputs es) (outputs fs)
outputs-append [] fs = refl
outputs-append (e ∷ es) fs =
    ap (larger (some e.output)) (outputs-append es fs)
    ∙ sym (larger_assoc (some e.output) (outputs es) (outputs fs))

Small-larger : (m : ℕ) (b : Option ℕ) → Small (larger (some m) b) → (m < sign_bit) × Small b
Small-larger m none h = (h, tt)
Small-larger m (some n) h = ground arith

-- What the conflict rule of the store keeps has the largest output.
pub best-outputs :
    (o : Option Event) (es : List Event)
    → Small (output_of o)
    → Small (outputs es)
    → output_of (best o es) ≡ larger (output_of o) (outputs es)
unfolding best
best-outputs o [] s h = sym (larger-none (output_of o))
best-outputs none (e ∷ es) s h =
    let (small, rest) = Small-larger e.output (outputs es) h in best-outputs (some e) es small rest
best-outputs (some x) (e ∷ es) s h =
    let (small, rest) = Small-larger e.output (outputs es) h in
    let kept = if lt64 x.output e.output then e else x in
    let top : kept.output ≡ max x.output e.output =
      rw (lt64_of_nonneg x.output e.output s small) (ground arith) in
    best-outputs (some kept) es (subst (λ (n : ℕ). n < sign_bit) (sym top) (ground arith)) rest
    ∙ ap (λ (n : ℕ). larger (some n) (outputs es)) top
    ∙ larger_assoc (some x.output) (some e.output) (outputs es)

module _ (lib : Library) (surface session k : String) (st : Reading) where
  abbrev pub request : Key
  request = record { vendor = "anthropic"; session_id = session; item_id = k }

  turn_event-has_key :
      (t : Turn) → has_key request (turn_event lib surface session st t) ≡ (t.key == k)
  unfolding turn_event
  turn_event-has_key t = rw (==_refl session) refl

  orphan_event-has_key :
      (t : TurnTools) → has_key request (orphan_event surface session st t) ≡ (t.turn == k)
  unfolding orphan_event
  orphan_event-has_key t = rw (==_refl session) refl

  outputs-Absent :
      (x : String) (ts : List Turn)
      → x ≡ k
      → Absent turn_key x ts
      → outputs (filter (has_key request) (map (turn_event lib surface session st) ts)) ≡ none
  outputs-Absent x [] e a = refl
  outputs-Absent x (t ∷ ts) e a =
      rw (turn_event-has_key t, subst (λ (y : String). (t.key == y) ≡ false) e a.0)
        (outputs-Absent x ts e a.1)

  turns-outputs :
      (ts : List Turn)
      → Unique turn_key ts
      → outputs (filter (has_key request) (map (turn_event lib surface session st) ts))
        ≡ out_of (row turn_key k ts)
  unfolding row turn_event
  turns-outputs [] u = refl
  turns-outputs (t ∷ ts) u = elim (Bool-cases (t.key == k)) [
    | inl same ↦
        rw (==_refl session, same, outputs-Absent t.key ts (eq_of_== t.key k same) u.0) refl
    | inr other ↦ rw (==_refl session, other) (turns-outputs ts u.1)
  ]

  -- Whether a turn has the key.
  abbrev has_turn : List Turn → Bool
  has_turn ts = any (λ (c : Turn). c.key == k) ts

  is_orphan-turn :
      (calls : List Turn) (t : TurnTools)
      → (t.turn == k) ≡ true
      → is_orphan calls t ≡ not (has_turn calls)
  unfolding is_orphan
  is_orphan-turn calls t same =
      ap (λ (x : String). not (any (λ (c : Turn). c.key == x) calls)) (eq_of_== t.turn k same)

  -- The events of the orphans among some entries.
  abbrev orphans : List Turn → List TurnTools → List Event
  orphans calls ts =
      filter (has_key request) (map (orphan_event surface session st) (filter (is_orphan calls) ts))

  orphans-step :
      (calls : List Turn) (t : TurnTools) (ts : List TurnTools)
      → outputs (orphans calls (t ∷ ts)) ≡ (
          if is_orphan calls t && t.turn == k
          then larger (some 0) (outputs (orphans calls ts))
          else outputs (orphans calls ts))
  unfolding orphan_event
  orphans-step calls t ts = elim (Bool-cases (is_orphan calls t)) [
    | inr kept ↦ rw kept refl
    | inl alone ↦
        rw (alone, ==_refl session)
          (elim (Bool-cases (t.turn == k)) [ inl same ↦ rw same refl | inr other ↦ rw other refl ])
  ]

  zero-flag : (f : Bool) → larger (some 0) (flag f) ≡ some 0
  zero-flag true = refl
  zero-flag false = refl

  orphans-outputs :
      (calls : List Turn) (ts : List TurnTools)
      → outputs (orphans calls ts) ≡ (if has_turn calls then none else flag (has_tools k ts))
  orphans-outputs calls [] = if_both (λ (x : Option ℕ). none ≡ x) (has_turn calls) refl refl
  orphans-outputs calls (t ∷ ts) = orphans-step calls t ts ∙ elim (Bool-cases (t.turn == k)) [
    | inl same ↦
        rw (same, orphans-outputs calls ts, is_orphan-turn calls t same)
          (elim (Bool-cases (has_turn calls)) [
            | inl known ↦ rw known refl
            | inr new ↦ rw new (zero-flag (has_tools k ts))
          ])
    | inr other ↦
        rw (other, orphans-outputs calls ts)
          (elim (Bool-cases (is_orphan calls t)) [ inl e ↦ rw e refl | inr e ↦ rw e refl ])
  ]

  turn-cases :
      (calls : List Turn)
      → ((has_turn calls ≡ true) × ((c : Turn) × (row turn_key k calls ≡ some c)))
        ⊎ (has_turn calls ≡ false)
  unfolding row
  turn-cases [] = inr refl
  turn-cases (c ∷ cs) = elim (Bool-cases (c.key == k)) [
    | inl same ↦ rw same (inl (refl, (c, refl)))
    | inr other ↦ rw other (turn-cases cs)
  ]

  some-flag : (n : ℕ) (f : Bool) → some n ≡ larger (some n) (flag f)
  some-flag n true = ap some (ground arith)
  some-flag n false = refl

  with-orphans :
      (calls : List Turn) (f : Bool)
      → larger (out_of (row turn_key k calls)) (if has_turn calls then none else flag f)
        ≡ larger (out_of (row turn_key k calls)) (flag f)
  with-orphans calls f = elim (turn-cases calls) [
    | inl (known, (c, found)) ↦ rw (known, found) (some-flag c.out f)
    | inr new ↦ rw new refl
  ]

  -- What a read leaves for the request: the output of its turn, or 0 where it has only tools.
  pub events-outputs :
      Unique turn_key st.calls
      → outputs (filter (has_key request) (events_of lib surface session st))
        ≡ larger (out_of (row turn_key k st.calls)) (flag (has_tools k st.tool_counts))
  unfolding events_of
  events-outputs u =
      let turns = map (turn_event lib surface session st) st.calls in
      let alone =
        map (orphan_event surface session st) (filter (is_orphan st.calls) st.tool_counts) in
      ap outputs (filter-append (has_key request) turns alone)
      ∙ outputs-append (filter (has_key request) turns) (filter (has_key request) alone)
      ∙ rw (turns-outputs st.calls u, orphans-outputs st.calls st.tool_counts)
          (with-orphans st.calls (has_tools k st.tool_counts))
