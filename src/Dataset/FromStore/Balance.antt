-- ===== src/Dataset/FromStore/Balance.antt =====
-- One session of `buildSession`: its sums, its models and its days; and all sessions of a store.
use burnmon.Base.{
  ℕ, ◌<◌, String, false, Option, none, some, List, [], ◌∷◌, ◌==◌, nat_eq, ◌≡◌, refl, sym, ap, subst,
  ◌∙◌, ◌+64◌, word_mod, str_lt, is_zero, string_eq, eq_of_==, map, if_both, if_cases, arith, length,
  All,
}
use burnmon.Schema.{Event}
use burnmon.Dataset.FromStore.{
  Prices, Session, event_tokens, add_call, count_events, no_tally, session_of, build_stamped,
  build_session, sort_texts, insert_text, times_of,
}
use burnmon.Dataset.FromStore.Sums.{sum_by, turn_sum, turn_sum-lt, turn_sum-zero}
use burnmon.Dataset.FromStore.Totals.{
  tokens_of, calls_of, one, per_model-sum, by_day-sum, calls_n-sum, all_classes-sum,
  round_costs-sum,
}

pub zero_plus : (n : ℕ) → n < word_mod → 0 +64 n ≡ n
unfolding ◌+64◌
zero_plus n h = omega arith

module _ {F : Type 0} (p : Prices F) where
  -- The session's totals are those of the turns, and so are the sums over its models and its days.
  abbrev pub IsBalanced : List Event → Session F → Type 0
  IsBalanced es s =
      (s.tokens ≡ turn_sum event_tokens es)
      × ((sum_by (tokens_of p) s.models ≡ turn_sum event_tokens es)
          × ((sum_by (tokens_of p) s.daily ≡ turn_sum event_tokens es)
              × ((s.calls ≡ turn_sum (one p) es)
                  × ((sum_by (calls_of p) s.models ≡ turn_sum (one p) es)
                      × (sum_by (calls_of p) s.daily ≡ turn_sum (one p) es)))))

  session_of-IsBalanced :
      (e : Event) (es : List Event) (first : String) (stamps : List String)
      → IsBalanced
          (e ∷ es)
          (session_of p e es first stamps (count_events p first (e ∷ es) (no_tally p)))
  unfolding session_of sum_by add_call ◌+64◌ turn_sum
  session_of-IsBalanced e es first stamps =
      let all = e ∷ es in
      let t = count_events p first all (no_tally p) in
      let tokens = zero_plus (turn_sum event_tokens all) (turn_sum-lt event_tokens all) in
      let calls = zero_plus (turn_sum (one p) all) (turn_sum-lt (one p) all) in
      (
        all_classes-sum p first all (no_tally p) ∙ tokens,
        (
          round_costs-sum p (tokens_of p) t.per_model (λ x. refl)
              ∙ per_model-sum p (tokens_of p) event_tokens refl (λ x m. refl) first all (no_tally p)
              ∙ tokens,
          (
            round_costs-sum p (tokens_of p) t.by_day (λ x. refl)
                ∙ by_day-sum p (tokens_of p) event_tokens refl (λ x m. refl) first all (no_tally p)
                ∙ tokens,
            (
              calls_n-sum p first all (no_tally p) (omega arith) ∙ calls,
              (
                round_costs-sum p (calls_of p) t.per_model (λ x. refl)
                    ∙ per_model-sum p (calls_of p) (one p) refl (λ x m. refl) first all (no_tally p)
                    ∙ calls,
                round_costs-sum p (calls_of p) t.by_day (λ x. refl)
                    ∙ by_day-sum p (calls_of p) (one p) refl (λ x m. refl) first all (no_tally p)
                    ∙ calls,
              ),
            ),
          ),
        ),
      )

  -- What holds of the session, if there is one.
  abbrev IfBuilt : List Event → Option (Session F) → Type 0
  IfBuilt es none = Unit
  IfBuilt es (some s) = IsBalanced es s

  build_stamped-IfBuilt :
      (e : Event) (es : List Event) (stamps : List String)
      → IfBuilt (e ∷ es) (build_stamped p e es stamps)
  build_stamped-IfBuilt e es [] = tt
  build_stamped-IfBuilt e es (first ∷ stamps) =
      if_both (IfBuilt (e ∷ es)) ((count_events p first (e ∷ es) (no_tally p)).calls_n == 0) tt
        (session_of-IsBalanced e es first (first ∷ stamps))

  build_session-IfBuilt : (es : List Event) → IfBuilt es (build_session p es)
  unfolding build_session
  build_session-IfBuilt [] = tt
  build_session-IfBuilt (e ∷ es) =
      build_stamped-IfBuilt e es (sort_texts (map p.stamp (times_of (e ∷ es))))

  -- The session that is built of some events has the tokens and the calls of their turns, split
  -- without a rest over its models and over its days.
  pub build_session-IsBalanced :
      (es : List Event) (s : Session F) → build_session p es ≡ some s → IsBalanced es s
  build_session-IsBalanced es s h = subst (IfBuilt es) h (build_session-IfBuilt es)

  abbrev pub built_tokens : Option (Session F) → ℕ
  built_tokens none = 0
  built_tokens (some s) = s.tokens

  -- Every event has a time.
  abbrev pub Timed : List Event → Type 0
  Timed = All (λ (e : Event). is_zero e.at ≡ false)

  insert_text-cons :
      (s : String) (ts : List String)
      → (x : String) × ((xs : List String) × (insert_text s ts ≡ x ∷ xs))
  unfolding insert_text
  insert_text-cons s [] = (s, ([], refl))
  insert_text-cons s (t ∷ ts) =
      if_both (λ l. (x : String) × ((xs : List String) × (l ≡ x ∷ xs))) (str_lt t s)
        (t, (insert_text s ts, refl)) (s, (t ∷ ts, refl))

  stamped-tokens :
      (e : Event) (es : List Event) (stamps : List String)
      → length (e ∷ es) < word_mod
      → (x : String) (xs : List String) → stamps ≡ x ∷ xs
      → built_tokens (build_stamped p e es stamps) ≡ turn_sum event_tokens (e ∷ es)
  unfolding session_of
  stamped-tokens e es stamps small x xs h =
      ap (λ l. built_tokens (build_stamped p e es l)) h
      ∙ if_cases (λ o. built_tokens o ≡ turn_sum event_tokens (e ∷ es))
          ((count_events p x (e ∷ es) (no_tally p)).calls_n == 0)
          (λ nothing. sym (
            turn_sum-zero event_tokens (e ∷ es) small (
              sym (session_of-IsBalanced e es x []).1.1.1.0
              ∙ eq_of_== (count_events p x (e ∷ es) (no_tally p)).calls_n 0 nothing)))
          (λ some_calls. (session_of-IsBalanced e es x (x ∷ xs)).0)

  -- Where every event has a time, a session that is left out had no turns.
  pub build_session-tokens :
      (es : List Event)
      → Timed es
      → length es < word_mod
      → built_tokens (build_session p es) ≡ turn_sum event_tokens es
  unfolding build_session turn_sum times_of sort_texts
  build_session-tokens [] timed small = refl
  build_session-tokens (e ∷ es) timed small =
      let cons = insert_text-cons (p.stamp e.at) (sort_texts (map p.stamp (times_of es))) in
      stamped-tokens e es (sort_texts (map p.stamp (times_of (e ∷ es)))) small cons.0 cons.1.0
        (rw timed.0 cons.1.1)
