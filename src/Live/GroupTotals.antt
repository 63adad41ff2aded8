-- ===== src/Live/GroupTotals.antt =====
-- The rows of `SessionTotals` of internal/store/store.go against the events that they sum up.
use text.Mathlib.TextEquality.{eq_iff}
use burnmon.Base.{
  ℕ, ◌<◌, String, Bool, true, false, ◌&&◌, ◌||◌, List, [], ◌∷◌, ◌==◌, ◌≡◌, refl, sym, ap, ◌∙◌,
  ◌+64◌, word_mod, +64-lt, add64-zero, any, filter, arith, string_eq, if_cases,
}
use burnmon.Schema.{Event, is_turn, value_or_zero}
use burnmon.Store.Lists.{
  SessionModelTotal, first_of_group, next_of_group, in_group, group_event, group_all, is_asked,
}
use burnmon.Live.Lifetime.{pair_key, model_tokens}
use burnmon.Dataset.FromStore.{event_tokens}
use burnmon.Dataset.FromStore.Sums.{weight_if}

abbrev pub joined_key : Event → String
joined_key e = pair_key e.vendor e.session_id

abbrev pub row_key : SessionModelTotal → String
row_key r = pair_key r.vendor r.session_id

-- The wrapped sum of a measure over the events of a session, and over the rows of one.
unfoldable pub sum_at : (Event → ℕ) → String → List Event → ℕ
sum_at w k [] = 0
sum_at w k (e ∷ es) = weight_if (joined_key e == k) (w e) (sum_at w k es)

unfoldable pub row_sum : (SessionModelTotal → ℕ) → String → List SessionModelTotal → ℕ
row_sum g k [] = 0
row_sum g k (r ∷ rs) = weight_if (row_key r == k) (g r) (row_sum g k rs)

weight_if-lt : (b : Bool) (n rest : ℕ) → rest < word_mod → weight_if b n rest < word_mod
weight_if-lt true n rest h = +64-lt n rest
weight_if-lt false n rest h = h

row_sum-lt :
    (g : SessionModelTotal → ℕ) (k : String) (rs : List SessionModelTotal)
    → row_sum g k rs < word_mod
unfolding row_sum
row_sum-lt g k [] = omega arith
row_sum-lt g k (r ∷ rs) = weight_if-lt (row_key r == k) (g r) (row_sum g k rs) (row_sum-lt g k rs)

sum_at-lt : (w : Event → ℕ) (k : String) (es : List Event) → sum_at w k es < word_mod
unfolding sum_at
sum_at-lt w k [] = omega arith
sum_at-lt w k (e ∷ es) = weight_if-lt (joined_key e == k) (w e) (sum_at w k es) (sum_at-lt w k es)

-- A row of the group of an event has the event's key.
in_group-key : (e : Event) (r : SessionModelTotal) → in_group e r ≡ true → row_key r ≡ joined_key e
in_group-key e r h =
    let v : (r.vendor == e.vendor) ≡ true = ground arith in
    let i : (r.session_id == e.session_id) ≡ true = ground arith in
    rw ((eq_iff r.vendor e.vendor).0 v, (eq_iff r.session_id e.session_id).0 i) refl

weight_if-add :
    (b : Bool) (n rest extra : ℕ) → weight_if b n rest +64 extra ≡ rest +64 weight_if b n extra
unfolding ◌+64◌
weight_if-add true n rest extra = omega arith
weight_if-add false n rest extra = refl

weight_if-next :
    (b : Bool) (m n rest : ℕ) → weight_if b (m +64 n) rest ≡ weight_if b n (weight_if b m rest)
unfolding ◌+64◌
weight_if-next true m n rest = omega arith
weight_if-next false m n rest = refl

weight_if-swap :
    (a b : Bool) (m n rest : ℕ)
    → weight_if a m (weight_if b n rest) ≡ weight_if b n (weight_if a m rest)
unfolding ◌+64◌
weight_if-swap true true m n rest = omega arith
weight_if-swap true false m n rest = refl
weight_if-swap false b m n rest = refl

module _ (earlier : ℕ → ℕ → Bool) (g : SessionModelTotal → ℕ) (w : Event → ℕ) (k : String)
    (at_first : (e : Event) → g (first_of_group e) +64 0 ≡ w e +64 0)
    (at_next : (e : Event) (r : SessionModelTotal)
      → g (next_of_group earlier e r) ≡ g r +64 w e) where
  one_row : (b : Bool) (e : Event) → weight_if b (g (first_of_group e)) 0 ≡ weight_if b (w e) 0
  one_row true e = at_first e
  one_row false e = refl

  group_event-row_sum :
      (e : Event) (rs : List SessionModelTotal)
      → row_sum g k (group_event earlier e rs)
        ≡ weight_if (joined_key e == k) (w e) (row_sum g k rs)
  unfolding group_event row_sum value_or_zero
  group_event-row_sum e [] = one_row (joined_key e == k) e
  group_event-row_sum e (r ∷ rs) =
      if_cases (λ l. row_sum g k l ≡ weight_if (joined_key e == k) (w e) (row_sum g k (r ∷ rs)))
        (in_group e r)
        (λ same.
          rw (in_group-key e r same, at_next e r)
            (weight_if-next (joined_key e == k) (g r) (w e) (row_sum g k rs)))
        (λ other.
          ap (λ n. weight_if (row_key r == k) (g r) n) (group_event-row_sum e rs)
          ∙ weight_if-swap (row_key r == k) (joined_key e == k) (g r) (w e) (row_sum g k rs))

  group_all-row_sum :
      (es : List Event) (rs : List SessionModelTotal)
      → row_sum g k (group_all earlier es rs) ≡ row_sum g k rs +64 sum_at w k es
  unfolding group_all sum_at
  group_all-row_sum [] rs = sym (add64-zero (row_sum g k rs) (row_sum-lt g k rs))
  group_all-row_sum (e ∷ es) rs =
      group_all-row_sum es (group_event earlier e rs)
      ∙ ap (λ n. n +64 sum_at w k es) (group_event-row_sum e rs)
      ∙ weight_if-add (joined_key e == k) (w e) (row_sum g k rs) (sum_at w k es)

  -- The rows of the query have the sums of the events.
  pub group_all-sum :
      (es : List Event) → 0 +64 row_sum g k (group_all earlier es []) ≡ sum_at w k es
  unfolding row_sum ◌+64◌
  group_all-sum es = omega (arith, group_all-row_sum es [], sum_at-lt w k es)

-- An event of a session leaves a row of it.
abbrev pub has_row : String → List SessionModelTotal → Bool
has_row k = any (λ (r : SessionModelTotal). row_key r == k)

group_event-has :
    (earlier : ℕ → ℕ → Bool) (k : String) (e : Event) (rs : List SessionModelTotal)
    → has_row k (group_event earlier e rs) ≡ ((joined_key e == k) || has_row k rs)
unfolding group_event
group_event-has earlier k e [] = refl
group_event-has earlier k e (r ∷ rs) =
    if_cases (λ l. has_row k l ≡ ((joined_key e == k) || has_row k (r ∷ rs))) (in_group e r)
      (λ same. rw (in_group-key e r same) (ground arith))
      (λ other. rw (group_event-has earlier k e rs) (ground arith))

pub group_all-has :
    (earlier : ℕ → ℕ → Bool) (k : String) (es : List Event) (rs : List SessionModelTotal)
    → has_row k (group_all earlier es rs)
      ≡ (any (λ (e : Event). joined_key e == k) es || has_row k rs)
unfolding group_all
group_all-has earlier k [] rs = refl
group_all-has earlier k (e ∷ es) rs =
    group_all-has earlier k es (group_event earlier e rs)
    ∙ rw (group_event-has earlier k e rs) (ground arith)

pub tokens_first : (e : Event) → model_tokens (first_of_group e) +64 0 ≡ event_tokens e +64 0
unfolding event_tokens ◌+64◌ value_or_zero
tokens_first e = omega arith

pub tokens_next :
    (earlier : ℕ → ℕ → Bool) (e : Event) (r : SessionModelTotal)
    → model_tokens (next_of_group earlier e r) ≡ model_tokens r +64 event_tokens e
unfolding event_tokens ◌+64◌ value_or_zero
tokens_next earlier e r = omega arith

-- The turns of the running sessions.
abbrev pub turns_of : List (String × String) → List Event → List Event
turns_of keys es = filter (λ (e : Event). is_asked keys e && is_turn e) es
