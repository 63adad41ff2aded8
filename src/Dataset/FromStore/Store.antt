-- ===== src/Dataset/FromStore/Store.antt =====
-- All sessions of a store: `SessionsFromEvents` loses no token.
use burnmon.Base.{
  ℕ, ◌<◌, ◌+◌, suc, String, false, Option, none, some, List, [], ◌∷◌, ◌++◌, ◌==◌, ◌≡◌, refl, sym,
  ap, ◌∙◌, ◌+64◌, add64-zero, regroup, word_mod, is_zero, Bool-cases, inl, inr, string_eq, if_both,
  arith, length, length-append, All, All-append,
}
use burnmon.Schema.{Event}
use burnmon.Agg.{change, sort_days}
use burnmon.Dataset.FromStore.{
  Prices, Session, event_tokens, build_session, group_key, group_events, build_groups,
  sessions_from_events,
}
use burnmon.Dataset.FromStore.Sums.{
  sum_by, sum_by-lt, sum_by-change, sum_by-sort_days, turn_sum, turn_sum-lt, turn_sum-append,
  turn_sum-cons,
}
use burnmon.Dataset.FromStore.Balance.{zero_plus, built_tokens, build_session-tokens, Timed}

-- All elements of all lists.
unfoldable sizes : List (String × List Event) → ℕ
sizes [] = 0
sizes ((k, es) ∷ gs) = length es + sizes gs

sizes-change :
    (k : String) (e : Event) (gs : List (String × List Event))
    → sizes (change [] k (λ xs. xs ++ e ∷ []) gs) ≡ suc (sizes gs)
unfolding sizes change
sizes-change k e [] = refl
sizes-change k e ((j, es) ∷ gs) = elim (Bool-cases (j == k)) [
  | inl same ↦ rw same (omega (arith, length-append es (e ∷ [])))
  | inr other ↦ rw other (omega (arith, sizes-change k e gs))
]

module _ {F : Type 0} (p : Prices F) where
  -- A group that can be built, with all its tokens.
  abbrev Whole : List (String × List Event) → Type 0
  Whole = All (λ (g : String × List Event). Timed p g.1)

  change-Whole :
      (k : String) (e : Event) (gs : List (String × List Event))
      → is_zero e.at ≡ false
      → Whole gs
      → Whole (change [] k (λ xs. xs ++ e ∷ []) gs)
  unfolding change
  change-Whole k e [] timed w = ((timed, tt), tt)
  change-Whole k e ((j, es) ∷ gs) timed w =
      if_both Whole (j == k)
        (All-append (λ (x : Event). is_zero x.at ≡ false) es (e ∷ []) w.0 (timed, tt), w.1)
        (w.0, change-Whole k e gs timed w.1)

  group_events-Whole :
      (es : List Event) (gs : List (String × List Event))
      → Timed p es
      → Whole gs
      → Whole (group_events p es gs)
  unfolding group_events
  group_events-Whole [] gs timed w = w
  group_events-Whole (e ∷ es) gs timed w =
      group_events-Whole es (change [] (group_key p e) (λ xs. xs ++ e ∷ []) gs) timed.1
        (change-Whole (group_key p e) e gs timed.0 w)

  group_events-sizes :
      (es : List Event) (gs : List (String × List Event))
      → sizes (group_events p es gs) ≡ length es + sizes gs
  unfolding group_events
  group_events-sizes [] gs = omega arith
  group_events-sizes (e ∷ es) gs = omega (
    arith,
    group_events-sizes es (change [] (group_key p e) (λ xs. xs ++ e ∷ []) gs),
    sizes-change (group_key p e) e gs,
  )

  group_events-sum :
      (es : List Event) (gs : List (String × List Event))
      → sum_by (turn_sum event_tokens) (group_events p es gs)
        ≡ sum_by (turn_sum event_tokens) gs +64 turn_sum event_tokens es
  unfolding group_events
  group_events-sum [] gs =
      unfold turn_sum in
      sym (add64-zero (sum_by (turn_sum event_tokens) gs) (sum_by-lt (turn_sum event_tokens) gs))
  group_events-sum (e ∷ es) gs =
      let w = turn_sum event_tokens in
      group_events-sum es (change [] (group_key p e) (λ xs. xs ++ e ∷ []) gs)
      ∙ ap (λ n. n +64 w es)
          (sum_by-change w [] (group_key p e) (λ xs. xs ++ e ∷ []) (w (e ∷ [])) gs
            (unfold turn_sum in refl) (λ xs. turn_sum-append event_tokens xs e))
      ∙ regroup (w (e ∷ [])) (sum_by w gs) (w es)
      ∙ ap (λ n. sum_by w gs +64 n) (turn_sum-cons event_tokens e es)

  -- The wrapped sum of the sessions' tokens.
  unfoldable pub session_tokens : List (Session F) → ℕ
  session_tokens [] = 0
  session_tokens (s ∷ ss) = s.tokens +64 session_tokens ss

  abbrev built : List Event → ℕ
  built es = built_tokens p (build_session p es)

  build_groups-tokens :
      (gs : List (String × List Event)) → session_tokens (build_groups p gs) ≡ sum_by built gs
  unfolding build_groups session_tokens sum_by
  build_groups-tokens [] = refl
  build_groups-tokens ((k, es) ∷ gs) = go (build_session p es) (build_groups-tokens gs)
    where
      go :
          (o : Option (Session F))
          → session_tokens (build_groups p gs) ≡ sum_by built gs
          → session_tokens (elim o [ none ↦ build_groups p gs | some s ↦ s ∷ build_groups p gs ])
            ≡ built_tokens p o +64 sum_by built gs
      go none h = h ∙ sym (zero_plus (sum_by built gs) (sum_by-lt built gs))
      go (some s) h = ap (λ n. s.tokens +64 n) h

  built-turn_sum :
      (gs : List (String × List Event))
      → Whole gs
      → sizes gs < word_mod
      → sum_by built gs ≡ sum_by (turn_sum event_tokens) gs
  unfolding sum_by sizes
  built-turn_sum [] w small = refl
  built-turn_sum ((k, es) ∷ gs) w small =
      rw (build_session-tokens p es w.0 (omega arith), built-turn_sum gs w.1 (omega arith)) refl

  -- If every event of a store has a time, and there are fewer than 2^64, the sessions that are rebuilt have together the tokens of
  -- all its turns, however the turns are spread over sessions.
  pub sessions_from_events_total :
      (es : List Event)
      → Timed p es
      → length es < word_mod
      → session_tokens (sessions_from_events p es) ≡ turn_sum event_tokens es
  unfolding sessions_from_events sizes sum_by
  sessions_from_events_total es timed small =
      let gs = group_events p es [] in
      let few : sizes gs < word_mod = omega (arith, group_events-sizes es []) in
      build_groups-tokens (sort_days gs)
      ∙ sum_by-sort_days built gs
      ∙ built-turn_sum gs (group_events-Whole es [] timed tt) few
      ∙ group_events-sum es []
      ∙ zero_plus (turn_sum event_tokens es) (turn_sum-lt event_tokens es)
