-- ===== src/Dataset/FromStore/Totals.antt =====
-- The tokens of the sessions that `SessionsFromEvents` rebuilds.
use burnmon.Base.{
  ℕ, ◌<◌, String, Bool, true, false, List, [], ◌∷◌, nat_eq, ◌≡◌, refl, sym, ap, ◌∙◌, ◌+64◌,
  +64_assoc, regroup, add64-zero, +64-lt, word_mod, string_eq, arith,
}
use burnmon.Schema.{Event, is_turn, value_or_zero}
use burnmon.Agg.{PerModel}
use burnmon.Dataset.FromStore.{
  Prices, Tally, event_tokens, no_calls, add_call, day_of, count_turn, count_if, add_uses,
  count_events, round_costs,
}
use burnmon.Dataset.FromStore.Sums.{sum_by, sum_by-lt, sum_by-change, weight_if, turn_sum}

module _ {F : Type 0} (p : Prices F) where
  abbrev pub tokens_of : PerModel F → ℕ
  tokens_of m = m.tokens

  abbrev pub calls_of : PerModel F → ℕ
  calls_of m = m.calls

  abbrev pub one : Event → ℕ
  one e = 1

  abbrev all_classes : Tally F → ℕ
  all_classes t = t.sum_fresh +64 t.sum_cache_w +64 t.sum_cache_r +64 t.sum_out

  abbrev used : Event → Tally F → Tally F
  used e t = record t { tool_uses = add_uses e.tools t.tool_uses }

  -- What the loop adds to a sum over one of its maps.
  module _ (g : PerModel F → ℕ) (w : Event → ℕ) (z : g (no_calls p) ≡ 0)
      (h : (e : Event) (m : PerModel F) → g (add_call p e m) ≡ g m +64 w e) where
    per_model-step :
        (b : Bool) (first : String) (e : Event) (t : Tally F) (rest : ℕ)
        → sum_by g (count_if p b first e t).per_model +64 rest
          ≡ sum_by g t.per_model +64 weight_if b (w e) rest
    unfolding count_turn
    per_model-step false first e t rest = refl
    per_model-step true first e t rest =
        ap (λ n. n +64 rest)
          (sum_by-change g (no_calls p) (p.event_label e) (add_call p e) (w e) t.per_model z (h e))
        ∙ regroup (w e) (sum_by g t.per_model) rest

    by_day-step :
        (b : Bool) (first : String) (e : Event) (t : Tally F) (rest : ℕ)
        → sum_by g (count_if p b first e t).by_day +64 rest
          ≡ sum_by g t.by_day +64 weight_if b (w e) rest
    unfolding count_turn
    by_day-step false first e t rest = refl
    by_day-step true first e t rest =
        ap (λ n. n +64 rest)
          (sum_by-change g (no_calls p) (day_of p first e) (add_call p e) (w e) t.by_day z (h e))
        ∙ regroup (w e) (sum_by g t.by_day) rest

    pub per_model-sum :
        (first : String) (es : List Event) (t : Tally F)
        → sum_by g (count_events p first es t).per_model ≡ sum_by g t.per_model +64 turn_sum w es
    unfolding count_events turn_sum
    per_model-sum first [] t = sym (add64-zero (sum_by g t.per_model) (sum_by-lt g t.per_model))
    per_model-sum first (e ∷ es) t =
        per_model-sum first es (count_if p (is_turn e) first e (used e t))
        ∙ per_model-step (is_turn e) first e (used e t) (turn_sum w es)

    pub by_day-sum :
        (first : String) (es : List Event) (t : Tally F)
        → sum_by g (count_events p first es t).by_day ≡ sum_by g t.by_day +64 turn_sum w es
    unfolding count_events turn_sum
    by_day-sum first [] t = sym (add64-zero (sum_by g t.by_day) (sum_by-lt g t.by_day))
    by_day-sum first (e ∷ es) t =
        by_day-sum first es (count_if p (is_turn e) first e (used e t))
        ∙ by_day-step (is_turn e) first e (used e t) (turn_sum w es)

  calls_n-step :
      (b : Bool) (first : String) (e : Event) (t : Tally F) (rest : ℕ)
      → (count_if p b first e t).calls_n +64 rest ≡ t.calls_n +64 weight_if b 1 rest
  unfolding count_turn
  calls_n-step false first e t rest = refl
  calls_n-step true first e t rest = +64_assoc t.calls_n 1 rest

  calls_n-lt :
      (b : Bool) (first : String) (e : Event) (t : Tally F)
      → t.calls_n < word_mod
      → (count_if p b first e t).calls_n < word_mod
  unfolding count_turn
  calls_n-lt false first e t h = h
  calls_n-lt true first e t h = +64-lt t.calls_n 1

  pub calls_n-sum :
      (first : String) (es : List Event) (t : Tally F)
      → t.calls_n < word_mod
      → (count_events p first es t).calls_n ≡ t.calls_n +64 turn_sum one es
  unfolding count_events turn_sum
  calls_n-sum first [] t h = sym (add64-zero t.calls_n h)
  calls_n-sum first (e ∷ es) t h =
      calls_n-sum first es (count_if p (is_turn e) first e (used e t))
        (calls_n-lt (is_turn e) first e (used e t) h)
      ∙ calls_n-step (is_turn e) first e (used e t) (turn_sum one es)

  -- Eight summands, by class and by event.
  add_classes-regroup :
      (a b c d i x y o s : ℕ)
      → ((a +64 i) +64 (b +64 x) +64 (c +64 y) +64 (d +64 o)) +64 s
        ≡ (a +64 b +64 c +64 d) +64 ((i +64 x +64 y +64 o) +64 s)
  unfolding ◌+64◌
  add_classes-regroup a b c d i x y o s = omega arith

  all_classes-step :
      (b : Bool) (first : String) (e : Event) (t : Tally F) (rest : ℕ)
      → all_classes (count_if p b first e t) +64 rest
        ≡ all_classes t +64 weight_if b (event_tokens e) rest
  unfolding count_turn event_tokens
  all_classes-step false first e t rest = refl
  all_classes-step true first e t rest =
      add_classes-regroup t.sum_fresh t.sum_cache_w t.sum_cache_r t.sum_out e.input
        (value_or_zero e.cache_write) (value_or_zero e.cache_read) e.output rest

  pub all_classes-sum :
      (first : String) (es : List Event) (t : Tally F)
      → all_classes (count_events p first es t) ≡ all_classes t +64 turn_sum event_tokens es
  unfolding count_events turn_sum
  all_classes-sum first [] t = sym (
      add64-zero (all_classes t)
        (+64-lt (t.sum_fresh +64 t.sum_cache_w +64 t.sum_cache_r) t.sum_out))
  all_classes-sum first (e ∷ es) t =
      all_classes-sum first es (count_if p (is_turn e) first e (used e t))
      ∙ all_classes-step (is_turn e) first e (used e t) (turn_sum event_tokens es)

  pub round_costs-sum :
      (g : PerModel F → ℕ) (m : List (String × PerModel F))
      → ((x : PerModel F)
          → g (record x { cost = p.round6 x.cost; cost_sub = p.round6 x.cost_sub }) ≡ g x)
      → sum_by g (round_costs p m) ≡ sum_by g m
  unfolding round_costs sum_by
  round_costs-sum g [] h = refl
  round_costs-sum g ((k, x) ∷ m) h = rw (h x, round_costs-sum g m h) refl
