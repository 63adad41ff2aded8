-- ===== src/History/Rows.antt =====
-- The rows of `Build` of internal/history, their sums and their split by agent.
use burnmon.Base.{
  ℕ, String, Bool, true, false, Option, List, [], ◌∷◌, ◌==◌, ◌≡◌, refl, sym, ap, ◌∙◌, ◌+64◌,
  +64_comm, Bool-cases, inl, inr, string_eq, arith,
}
use burnmon.Calendar.{Date}
use burnmon.Schema.{Event, is_turn, value_or_zero}
use burnmon.Agg.{change, sort_days}
use burnmon.Dataset.FromStore.{Prices, event_tokens}
use burnmon.Dataset.FromStore.Sums.{sum_by, sum_by-change, sum_by-sort_days}
use burnmon.History.{
  Filter, Totals, Payload, Pot, Sums, empty_pot, add_to_pot, keeps, bucket_key, add_if, sum_events,
  set_period, vendor_aggs, totals_of, rows_of, build,
}

-- A change that keeps a value of its entry keeps the sum.
sum_by-keep {ℓ} :
    {A : Type ℓ} (g : A → ℕ) (new : A) (k : String) (f : A → A) (m : List (String × A))
    → g new ≡ 0
    → ((a : A) → g (f a) ≡ g a)
    → sum_by g (change new k f m) ≡ sum_by g m
unfolding change sum_by ◌+64◌
sum_by-keep g new k f [] z h = rw (h new, z) refl
sum_by-keep g new k f ((j, a) ∷ m) z h = elim (Bool-cases (j == k)) [
  | inl same ↦ rw (same, h a) refl
  | inr other ↦ rw (other, sum_by-keep g new k f m z h) refl
]

abbrev pub no_sums : Sums
no_sums = record { buckets = []; overall = empty_pot }

-- A value that every event adds to adds up over the buckets to that of the whole.
module _ (g : Pot → ℕ) (w : Event → ℕ) (z : g empty_pot ≡ 0)
    (h : (e : Event) (b : Pot) → g (add_to_pot e b) ≡ g b +64 w e) where
  abbrev Agree : Sums → Type 0
  Agree s = sum_by g s.buckets ≡ g s.overall

  add_if-Agree :
      (b : Bool) (key : String) (e : Event) (s : Sums) → Agree s → Agree (add_if b key e s)
  add_if-Agree false key e s a = a
  add_if-Agree true key e s a =
      sum_by-change g empty_pot key (add_to_pot e) (w e) s.buckets z (h e)
      ∙ ap (λ n. w e +64 n) a
      ∙ +64_comm (w e) (g s.overall)
      ∙ sym (h e s.overall)

  sum_events-Agree :
      (f : Filter) (local : ℕ → Date) (es : List Event) (s : Sums)
      → Agree s
      → Agree (sum_events f local es s)
  unfolding sum_events
  sum_events-Agree f local [] s a = a
  sum_events-Agree f local (e ∷ es) s a =
      sum_events-Agree f local es (add_if (keeps f local e) (bucket_key f.period (local e.at)) e s)
        (add_if-Agree (keeps f local e) (bucket_key f.period (local e.at)) e s a)

abbrev turns_of : Pot → ℕ
turns_of b = b.turn_n

turns-step :
    (key : String) (e : Event) (s : Sums)
    → sum_by turns_of s.buckets ≡ s.overall.turn_n
    → sum_by turns_of (change empty_pot key (add_to_pot e) s.buckets)
      ≡ (add_to_pot e s.overall).turn_n
unfolding add_to_pot
turns-step key e s a = elim (Bool-cases (is_turn e)) [
  | inl t ↦
      sum_by-change turns_of empty_pot key (add_to_pot e) 1 s.buckets refl (λ b. rw t refl)
      ∙ ap (λ n. 1 +64 n) a
      ∙ +64_comm 1 s.overall.turn_n
      ∙ rw t refl
  | inr f ↦
      sum_by-keep turns_of empty_pot key (add_to_pot e) s.buckets refl (λ b. rw f refl)
      ∙ a
      ∙ rw f refl
]

turns-Agree :
    (f : Filter) (local : ℕ → Date) (es : List Event) (s : Sums)
    → sum_by turns_of s.buckets ≡ s.overall.turn_n
    → sum_by turns_of (sum_events f local es s).buckets ≡ (sum_events f local es s).overall.turn_n
unfolding sum_events
turns-Agree f local [] s a = a
turns-Agree f local (e ∷ es) s a = turns-Agree f local es _ (go (keeps f local e))
  where
    go :
        (b : Bool)
        → sum_by turns_of (add_if b (bucket_key f.period (local e.at)) e s).buckets
          ≡ (add_if b (bucket_key f.period (local e.at)) e s).overall.turn_n
    go false = a
    go true = turns-step (bucket_key f.period (local e.at)) e s a

abbrev pub pot_tokens : Pot → ℕ
pot_tokens b = b.sum_fresh +64 b.sum_cache_w +64 b.sum_cache_r +64 b.sum_out

add_four :
    (a b c d i x y o : ℕ)
    → (a +64 i) +64 (b +64 x) +64 (c +64 y) +64 (d +64 o)
      ≡ (a +64 b +64 c +64 d) +64 (i +64 x +64 y +64 o)
unfolding ◌+64◌
add_four a b c d i x y o = omega arith

pub pot_tokens-add_to_pot :
    (e : Event) (b : Pot) → pot_tokens (add_to_pot e b) ≡ pot_tokens b +64 event_tokens e
unfolding add_to_pot event_tokens
pot_tokens-add_to_pot e b =
    add_four b.sum_fresh b.sum_cache_w b.sum_cache_r b.sum_out e.input (value_or_zero e.cache_write)
      (value_or_zero e.cache_read) e.output

module _ {F : Type 0} (p : Prices F) (cost_for_events : List Event → List (Option F)) where
  -- Each sum of the rows is that of the totals.
  abbrev pub AddsUp : Payload F → Type 0
  AddsUp r =
      (sum_by (λ (t : Totals F). t.tokens) r.rows ≡ r.totals.tokens)
      × ((sum_by (λ (t : Totals F). t.turns) r.rows ≡ r.totals.turns)
          × ((sum_by (λ (t : Totals F). t.fresh) r.rows ≡ r.totals.fresh)
              × ((sum_by (λ (t : Totals F). t.cache_w) r.rows ≡ r.totals.cache_w)
                  × ((sum_by (λ (t : Totals F). t.cache_r) r.rows ≡ r.totals.cache_r)
                      × (sum_by (λ (t : Totals F). t.out) r.rows ≡ r.totals.out)))))

  module _ (gt : Totals F → ℕ) (gp : Pot → ℕ)
      (h : (b : Pot)
        → gt (
            totals_of p cost_for_events
              (vendor_aggs p cost_for_events b.vendor_turns b.vendor_tokens)
              b)
          ≡ gp b) where
    unsorted-sum : (m : List (String × Pot)) → sum_by gt (rows_of p cost_for_events m) ≡ sum_by gp m
    unfolding rows_of sum_by
    unsorted-sum [] = refl
    unsorted-sum ((k, b) ∷ m) = rw (h b, unsorted-sum m) refl

    rows_of-sum :
        (m : List (String × Pot))
        → sum_by gt (rows_of p cost_for_events (sort_days m)) ≡ sum_by gp m
    rows_of-sum m = unsorted-sum (sort_days m) ∙ sum_by-sort_days gp m

  -- Whatever the filter, the rows by day, week or month add up to the totals: in the tokens, in each
  -- class of them, and in the turns.
  pub build-AddsUp :
      (es : List Event) (local : ℕ → Date) (f : Filter)
      → AddsUp (build p cost_for_events es local f)
  unfolding build totals_of
  build-AddsUp es local f =
      let s = sum_events (set_period f) local es no_sums in
      (
        rows_of-sum (λ (t : Totals F). t.tokens) pot_tokens (λ b. refl) s.buckets
            ∙ sum_events-Agree pot_tokens event_tokens (unfold ◌+64◌ in refl) pot_tokens-add_to_pot
                (set_period f) local es no_sums (unfold sum_by in unfold ◌+64◌ in refl),
        (
          rows_of-sum (λ (t : Totals F). t.turns) turns_of (λ b. refl) s.buckets
              ∙ turns-Agree (set_period f) local es no_sums (unfold sum_by in refl),
          (
            rows_of-sum (λ (t : Totals F). t.fresh) (λ b. b.sum_fresh) (λ b. refl) s.buckets
                ∙ sum_events-Agree (λ b. b.sum_fresh) (λ e. e.input) refl
                    (λ e b. unfold add_to_pot in refl) (set_period f) local es no_sums
                    (unfold sum_by in refl),
            (
              rows_of-sum (λ (t : Totals F). t.cache_w) (λ b. b.sum_cache_w) (λ b. refl) s.buckets
                  ∙ sum_events-Agree (λ b. b.sum_cache_w) (λ e. value_or_zero e.cache_write) refl
                      (λ e b. unfold add_to_pot in refl) (set_period f) local es no_sums
                      (unfold sum_by in refl),
              (
                rows_of-sum (λ (t : Totals F). t.cache_r) (λ b. b.sum_cache_r) (λ b. refl) s.buckets
                    ∙ sum_events-Agree (λ b. b.sum_cache_r) (λ e. value_or_zero e.cache_read) refl
                        (λ e b. unfold add_to_pot in refl) (set_period f) local es no_sums
                        (unfold sum_by in refl),
                rows_of-sum (λ (t : Totals F). t.out) (λ b. b.sum_out) (λ b. refl) s.buckets
                    ∙ sum_events-Agree (λ b. b.sum_out) (λ e. e.output) refl
                        (λ e b. unfold add_to_pot in refl) (set_period f) local es no_sums
                        (unfold sum_by in refl),
              ),
            ),
          ),
        ),
      )
