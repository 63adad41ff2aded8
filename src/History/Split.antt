-- ===== src/History/Split.antt =====
-- The split of a row by agent.
use burnmon.Base.{
  ℕ, String, Bool, true, false, Option, List, [], ◌∷◌, ◌==◌, ◌≡◌, refl, sym, ap, ◌∙◌, ◌+64◌,
  +64_comm, str_lt, string_eq, if_both, All,
}
use burnmon.Calendar.{Date}
use burnmon.Schema.{Event}
use burnmon.Agg.{change, insert_day, sort_days}
use burnmon.Dataset.FromStore.{Prices, event_tokens}
use burnmon.Dataset.FromStore.Sums.{sum_by, sum_by-change}
use burnmon.History.{
  Filter, Totals, VendorAgg, Pot, Sums, empty_pot, add_to_pot, keeps, bucket_key, add_if,
  sum_events, set_period, vendor_aggs, totals_of, rows_of, build,
}
use burnmon.History.Rows.{pot_tokens, pot_tokens-add_to_pot, no_sums}

-- What holds of each entry of a map.
abbrev Each {ℓ} : {A : Type ℓ} → (A → Type 0) → List (String × A) → Type 0
Each P = All (λ x. P x.1)

Each-change {ℓ} :
    {A : Type ℓ} (P : A → Type 0) (new : A) (k : String) (f : A → A) (m : List (String × A))
    → P new
    → ((a : A) → P a → P (f a))
    → Each P m
    → Each P (change new k f m)
unfolding change
Each-change P new k f [] z h e = (h new z, tt)
Each-change P new k f ((j, a) ∷ m) z h e =
    if_both (Each P) (j == k) (h a e.0, e.1) (e.0, Each-change P new k f m z h e.1)

Each-sort_days {ℓ} :
    {A : Type ℓ} (P : A → Type 0) (m : List (String × A)) → Each P m → Each P (sort_days m)
unfolding sort_days insert_day
Each-sort_days P [] e = tt
Each-sort_days P (d ∷ m) e = insert (sort_days m) (Each-sort_days P m e.1)
  where
    insert : (xs : List (String × _)) → Each P xs → Each P (insert_day d xs)
    insert [] i = (e.0, tt)
    insert (x ∷ xs) i = if_both (Each P) (str_lt x.0 d.0) (i.0, insert xs i.1) (e.0, i)

-- Every event says which agent it is of.
abbrev pub HasAgent : Event → Type 0
HasAgent e = (e.agent == "") ≡ false

abbrev same : ℕ → ℕ
same n = n

abbrev IsSplit : Pot → Type 0
IsSplit b = sum_by same b.vendor_tokens ≡ pot_tokens b

empty_pot-IsSplit : IsSplit empty_pot
unfolding sum_by ◌+64◌
empty_pot-IsSplit = refl

add_to_pot-agents :
    (e : Event) (b : Pot)
    → HasAgent e
    → sum_by same (add_to_pot e b).vendor_tokens ≡ event_tokens e +64 sum_by same b.vendor_tokens
unfolding add_to_pot
add_to_pot-agents e b named = rw named (
    sum_by-change same 0 e.agent (λ n. n +64 event_tokens e) (event_tokens e) b.vendor_tokens refl
      (λ n. refl))

add_to_pot-IsSplit : (e : Event) → HasAgent e → (b : Pot) → IsSplit b → IsSplit (add_to_pot e b)
add_to_pot-IsSplit e named b s =
    add_to_pot-agents e b named
    ∙ ap (λ n. event_tokens e +64 n) s
    ∙ +64_comm (event_tokens e) (pot_tokens b)
    ∙ sym (pot_tokens-add_to_pot e b)

sum_events-IsSplit :
    (f : Filter) (local : ℕ → Date) (es : List Event) (s : Sums)
    → All HasAgent es
    → Each IsSplit s.buckets
    → Each IsSplit (sum_events f local es s).buckets
unfolding sum_events
sum_events-IsSplit f local [] s n i = i
sum_events-IsSplit f local (e ∷ es) s n i =
    sum_events-IsSplit f local es (add_if (keeps f local e) (bucket_key f.period (local e.at)) e s)
      n.1 (go (keeps f local e))
  where
    go : (b : Bool) → Each IsSplit (add_if b (bucket_key f.period (local e.at)) e s).buckets
    go false = i
    go true =
        Each-change IsSplit empty_pot (bucket_key f.period (local e.at)) (add_to_pot e) s.buckets
          empty_pot-IsSplit (add_to_pot-IsSplit e n.0) i

module _ {F : Type 0} (p : Prices F) (cost_for_events : List Event → List (Option F)) where
  vendor_aggs-sum :
      (turns : List (String × List Event)) (m : List (String × ℕ))
      → sum_by (λ (v : VendorAgg F). v.tokens) (vendor_aggs p cost_for_events turns m)
        ≡ sum_by same m
  unfolding vendor_aggs sum_by
  vendor_aggs-sum turns [] = refl
  vendor_aggs-sum turns ((agent, n) ∷ m) = ap (λ t. n +64 t) (vendor_aggs-sum turns m)

  -- The tokens of a row are those of its agents.
  abbrev pub BySplit : Totals F → Type 0
  BySplit t = sum_by (λ (v : VendorAgg F). v.tokens) t.by_vendor ≡ t.tokens

  rows_of-BySplit :
      (m : List (String × Pot)) → Each IsSplit m → Each BySplit (rows_of p cost_for_events m)
  unfolding rows_of totals_of
  rows_of-BySplit [] i = tt
  rows_of-BySplit ((k, b) ∷ m) i =
      (vendor_aggs-sum b.vendor_turns b.vendor_tokens ∙ i.0, rows_of-BySplit m i.1)

  -- Where every event names its agent, the tokens of each row are split without a rest over the
  -- agents, whatever the filter.
  pub build-BySplit :
      (es : List Event) (local : ℕ → Date) (f : Filter)
      → All HasAgent es
      → All (λ (r : String × Totals F). BySplit r.1) (build p cost_for_events es local f).rows
  unfolding build
  build-BySplit es local f named =
      let s = sum_events (set_period f) local es no_sums in
      rows_of-BySplit (sort_days s.buckets) (
        Each-sort_days IsSplit s.buckets
          (sum_events-IsSplit (set_period f) local es no_sums named tt))
