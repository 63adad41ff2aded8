-- ===== src/Live/Whole.antt =====
-- `ApplySessionTotals` with `SessionTotals`: the lifetime totals against the stored turns.
use burnmon.Base.{
  ℕ, ◌<◌, String, Bool, true, false, ◌||◌, Option, List, [], ◌∷◌, ◌++◌, ◌==◌, ◌≡◌, refl, sym, ap,
  ◌∙◌, subst, ◌+64◌, +64_assoc, word_mod, +64-lt, add64-zero, any, arith, Bool-cases, inl, inr,
  string_eq,
}
use burnmon.Schema.{Event, value_or_zero}
use burnmon.Store.Lists.{SessionModelTotal, group_all, session_totals}
use burnmon.Live.Lifetime.{
  Running, Run, Runs, run, stop, more, run_keys, runs_keys, pair_key, rows_at, model_tokens,
  Lifetime, no_life, add_model, sum_models, set_lifetime, apply_models, apply_run, apply_runs,
  apply_keyed, apply_session_totals,
}
use burnmon.Live.GroupTotals.{
  joined_key, row_key, sum_at, row_sum, has_row, turns_of, group_all-sum, group_all-has,
  tokens_first, tokens_next,
}
use burnmon.Dataset.FromStore.{event_tokens}

rows_at-some :
    (k : String) (rows : List SessionModelTotal)
    → has_row k rows ≡ true
    → (r : SessionModelTotal) × ((rs : List SessionModelTotal) × (rows_at k rows ≡ r ∷ rs))
rows_at-some k [] h = cc
rows_at-some k (r ∷ rows) h = elim (Bool-cases (row_key r == k)) [
  | inl same ↦ rw same (r, (rows_at k rows, refl))
  | inr other ↦ rw other (rows_at-some k rows (ground arith))
]

-- What the loop over a session's rows adds to a measure.
adds :
    {F : Type 0} (step : SessionModelTotal → Lifetime F → Lifetime F)
    (loop : List SessionModelTotal → Lifetime F → Lifetime F) (m : Lifetime F → ℕ)
    (g : SessionModelTotal → ℕ) (k : String)
    → ((t : Lifetime F) → loop [] t ≡ t)
    → ((r : SessionModelTotal) (rs : List SessionModelTotal) (t : Lifetime F)
        → loop (r ∷ rs) t ≡ loop rs (step r t))
    → ((r : SessionModelTotal) (t : Lifetime F) → m (step r t) ≡ m t +64 g r)
    → (rs : List SessionModelTotal) (t : Lifetime F) → m t < word_mod
    → m (loop (rows_at k rs) t) ≡ m t +64 row_sum g k rs
unfolding row_sum
adds step loop m g k nothing cons adds_one [] t h = ap m (nothing t) ∙ sym (add64-zero (m t) h)
adds step loop m g k nothing cons adds_one (r ∷ rs) t h = elim (Bool-cases (row_key r == k)) [
  | inl same ↦ rw same (
      ap m (cons r (rows_at k rs) t)
      ∙ adds step loop m g k nothing cons adds_one rs (step r t)
          (subst (λ n. n < word_mod) (sym (adds_one r t)) (+64-lt (m t) (g r)))
      ∙ ap (λ n. n +64 row_sum g k rs) (adds_one r t)
      ∙ +64_assoc (m t) (g r) (row_sum g k rs))
  | inr other ↦ rw other (adds step loop m g k nothing cons adds_one rs t h)
]

-- Every session, however deep, has the tokens and the number of its turns.
unfoldable mutual
  pub Totaled : {F B : Type 0} → List Event → Run F B → Type 0
  Totaled ts (run s subs) =
      ((s.tokens ≡ sum_at event_tokens (pair_key s.vendor s.session_id) ts)
        × (s.turn_count ≡ sum_at (λ e. 1) (pair_key s.vendor s.session_id) ts))
      × AllTotaled ts subs

  pub AllTotaled : {F B : Type 0} → List Event → Runs F B → Type 0
  AllTotaled ts stop = Unit
  AllTotaled ts (more r rs) = Totaled ts r × AllTotaled ts rs

-- There is a turn of each session.
abbrev pub AllSeen : List Event → List (String × String) → Type 0
AllSeen ts [] = Unit
AllSeen ts (k ∷ ks) =
    (any (λ (e : Event). joined_key e == pair_key k.0 k.1) ts ≡ true) × AllSeen ts ks

AllSeen-left :
    (ts : List Event) (ks ls : List (String × String)) → AllSeen ts (ks ++ ls) → AllSeen ts ks
AllSeen-left ts [] ls h = tt
AllSeen-left ts (k ∷ ks) ls h = (h.0, AllSeen-left ts ks ls h.1)

AllSeen-right :
    (ts : List Event) (ks ls : List (String × String)) → AllSeen ts (ks ++ ls) → AllSeen ts ls
AllSeen-right ts [] ls h = h
AllSeen-right ts (k ∷ ks) ls h = AllSeen-right ts ks ls h.1

module _ {F B : Type 0} (zero_cost : F) (plus : F → F → F) (event_cost : Event → F)
    (headline : List Event → Option B) (stamp : ℕ → String) (earlier : ℕ → ℕ → Bool)
    (ts : List Event) where
  abbrev rows : List SessionModelTotal
  rows = group_all earlier ts []

  abbrev applied : Running F B → Running F B
  applied s =
      apply_models zero_cost plus event_cost headline stamp
        (rows_at (pair_key s.vendor s.session_id) rows) s

  abbrev life : String → Lifetime F
  life k =
      sum_models zero_cost plus event_cost headline stamp (rows_at k rows)
        (no_life zero_cost plus event_cost headline stamp)

  life-tokens : (k : String) → (life k).life_tokens ≡ sum_at event_tokens k ts
  unfolding sum_models
  life-tokens k =
      adds (add_model zero_cost plus event_cost headline stamp)
        (sum_models zero_cost plus event_cost headline stamp) (λ t. t.life_tokens) model_tokens k
        (λ t. refl) (λ r rs t. refl) (λ r t. refl) rows
        (no_life zero_cost plus event_cost headline stamp) (omega arith)
      ∙ group_all-sum earlier model_tokens event_tokens k tokens_first (tokens_next earlier) ts

  life-turns : (k : String) → (life k).life_turns ≡ sum_at (λ e. 1) k ts
  unfolding sum_models value_or_zero
  life-turns k =
      adds (add_model zero_cost plus event_cost headline stamp)
        (sum_models zero_cost plus event_cost headline stamp) (λ t. t.life_turns) (λ r. r.count) k
        (λ t. refl) (λ r rs t. refl) (λ r t. refl) rows
        (no_life zero_cost plus event_cost headline stamp) (omega arith)
      ∙ group_all-sum earlier (λ r. r.count) (λ e. 1) k (λ e. refl) (λ e r. refl) ts

  applied-is :
      (s : Running F B)
      → any (λ (e : Event). joined_key e == pair_key s.vendor s.session_id) ts ≡ true
      → applied s
        ≡ set_lifetime zero_cost plus event_cost headline stamp
            (life (pair_key s.vendor s.session_id))
            s
  applied-is s seen =
      let k = pair_key s.vendor s.session_id in
      let (r, (rs, found)) =
        rows_at-some k rows (group_all-has earlier k ts [] ∙ ap (λ b. b || false) seen) in
      rw found refl

  applied-keys :
      (s : Running F B) → ((applied s).vendor ≡ s.vendor) × ((applied s).session_id ≡ s.session_id)
  applied-keys s = go (rows_at (pair_key s.vendor s.session_id) rows)
    where
      go :
          (rs : List SessionModelTotal)
          → ((apply_models zero_cost plus event_cost headline stamp rs s).vendor ≡ s.vendor)
            × ((apply_models zero_cost plus event_cost headline stamp rs s).session_id
                ≡ s.session_id)
      go [] = (refl, refl)
      go (r ∷ rs) = (refl, refl)

  mutual
    unfolding apply_run run_keys

    run_keys-apply_run :
        (r : Run F B)
        → run_keys (apply_run zero_cost plus event_cost headline stamp rows r) ≡ run_keys r
    run_keys-apply_run (run s subs) =
        rw ((applied-keys s).0, (applied-keys s).1, runs_keys-apply_runs subs) refl

    runs_keys-apply_runs :
        (rs : Runs F B)
        → runs_keys (apply_runs zero_cost plus event_cost headline stamp rows rs) ≡ runs_keys rs
    runs_keys-apply_runs stop = refl
    runs_keys-apply_runs (more r rs) = rw (run_keys-apply_run r, runs_keys-apply_runs rs)

  mutual
    unfolding apply_run run_keys Totaled

    apply_run-Totaled :
        (r : Run F B)
        → AllSeen ts (run_keys r)
        → Totaled ts (apply_run zero_cost plus event_cost headline stamp rows r)
    apply_run-Totaled (run s subs) seen = rw (applied-is s seen.0) (
      (life-tokens (pair_key s.vendor s.session_id), life-turns (pair_key s.vendor s.session_id)),
      apply_runs-AllTotaled subs seen.1,
    )

    apply_runs-AllTotaled :
        (rs : Runs F B)
        → AllSeen ts (runs_keys rs)
        → AllTotaled ts (apply_runs zero_cost plus event_cost headline stamp rows rs)
    apply_runs-AllTotaled stop seen = tt
    apply_runs-AllTotaled (more r rs) seen = (
      apply_run-Totaled r (AllSeen-left ts (run_keys r) (runs_keys rs) seen),
      apply_runs-AllTotaled rs (AllSeen-right ts (run_keys r) (runs_keys rs) seen),
    )

module _ {F B : Type 0} (zero_cost : F) (plus : F → F → F) (event_cost : Event → F)
    (headline : List Event → Option B) (stamp : ℕ → String) (earlier : ℕ → ℕ → Bool) where
  totals_keyed :
      (ks : List (String × String)) (es : List Event) (ss : Runs F B)
      → runs_keys ss ≡ ks
      → AllSeen (turns_of ks es) (runs_keys ss)
      → AllTotaled
          (turns_of ks es)
          (apply_keyed zero_cost plus event_cost headline stamp ks
            (session_totals earlier ks true es)
            ss).0
        × ((runs_keys
                (apply_keyed zero_cost plus event_cost headline stamp ks
                  (session_totals earlier ks true es)
                  ss).0
              ≡ runs_keys ss)
            × ((apply_keyed zero_cost plus event_cost headline stamp ks
                  (session_totals earlier ks true es)
                  ss).1
                ≡ true))
  unfolding Totaled run_keys session_totals
  totals_keyed [] es stop h seen = (tt, (refl, refl))
  totals_keyed [] es (more (run s subs) ss) h seen = ground (arith, h)
  totals_keyed (k ∷ ks) es ss h seen = (
    apply_runs-AllTotaled zero_cost plus event_cost headline stamp earlier (turns_of (k ∷ ks) es) ss
        seen,
    (
      runs_keys-apply_runs zero_cost plus event_cost headline stamp earlier (turns_of (k ∷ ks) es)
          ss,
      refl,
    ),
  )

  -- If the store's queries do not fail and it holds a turn of each running session, then after
  -- ApplySessionTotals every session and every subagent, however deep, has the tokens and the number of
  -- all its turns in the store, and none is lost or moved. The turns of a session are those of the
  -- sessions asked for whose vendor and id, joined, are its own joined.
  pub apply_session_totals-AllTotaled :
      (es : List Event) (ss : Runs F B)
      → AllSeen (turns_of (runs_keys ss) es) (runs_keys ss)
      → AllTotaled
          (turns_of (runs_keys ss) es)
          (apply_session_totals zero_cost plus event_cost headline stamp
            (λ ks. session_totals earlier ks true es)
            ss).0
        × ((runs_keys
                (apply_session_totals zero_cost plus event_cost headline stamp
                  (λ ks. session_totals earlier ks true es)
                  ss).0
              ≡ runs_keys ss)
            × ((apply_session_totals zero_cost plus event_cost headline stamp
                  (λ ks. session_totals earlier ks true es)
                  ss).1
                ≡ true))
  unfolding apply_session_totals
  apply_session_totals-AllTotaled es ss seen = totals_keyed (runs_keys ss) es ss refl seen
