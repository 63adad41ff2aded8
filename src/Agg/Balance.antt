-- ===== src/Agg/Balance.antt =====
-- `Build` of internal/agg: the sums of the months, the weeks and the days.
use burnmon.Base.{
  ℕ, String, Bool, true, false, Option, none, some, List, [], ◌∷◌, map, ◌+64◌, regroup,
  regroup_right, zero_add64, ◌≡◌, refl, sym, ap, ◌∙◌, Bool-cases, inl, inr, ◌==◌, string_eq,
  if◌then◌else◌, str_lt, if_both, nat_eq, length,
}
use burnmon.Calendar.{Date, parse_day, week_key}
use burnmon.Agg.{PerModel, Bucket, Session, change, month_key, sort_days}
use burnmon.Agg.Build.{
  Buckets, Walk, new_bucket, add_calls, count_session, on, on_targets, count_active, visit,
  visit_parsed, visit_days, add_models, add_tools, add_classes, add_splits, seen,
}
use burnmon.Agg.Sessions.{
  finish_session, walk_session, walk_sessions, round_bucket, round_all, build, is_skipped,
}

module _ {F : Type 0} (no_cost : F) (add_cost : F → F → F) (round4 : F → F) where
  -- The wrapped sum of the buckets' tokens.
  unfoldable pub all_tokens : List (String × Bucket F) → ℕ
  all_tokens [] = 0
  all_tokens ((k, b) ∷ m) = b.tokens +64 all_tokens m

  -- A change that adds `n` tokens to its bucket adds them to the whole.
  all_tokens-on :
      (k : String) (f : Bucket F → Bucket F) (n : ℕ) (m : List (String × Bucket F))
      → ((b : Bucket F) → (f b).tokens ≡ b.tokens +64 n)
      → all_tokens (on no_cost add_cost round4 k f m) ≡ n +64 all_tokens m
  unfolding change all_tokens
  all_tokens-on k f n [] h = rw (h (new_bucket no_cost add_cost round4)) (zero_add64 n)
  all_tokens-on k f n ((j, b) ∷ m) h = elim (Bool-cases (j == k)) [
    | inl same ↦ rw (same, h b) (regroup b.tokens n (all_tokens m))
    | inr other ↦ rw (other, all_tokens-on k f n m h) (regroup_right b.tokens n (all_tokens m))
  ]

  add_calls-tokens :
      (surface : String) (v : PerModel F) (c : Bucket F)
      → (add_calls no_cost add_cost round4 surface v c).tokens ≡ c.tokens +64 v.tokens
  unfolding add_calls
  add_calls-tokens surface v c = refl

  count_session-tokens :
      (surface : String) (c : Bucket F)
      → (count_session no_cost add_cost round4 surface c).tokens ≡ c.tokens
  unfolding count_session
  count_session-tokens surface c = refl

  -- The three tables hold the same tokens.
  abbrev pub Balanced : Buckets F → Type 0
  Balanced b = (all_tokens b.months ≡ all_tokens b.days) × (all_tokens b.weeks ≡ all_tokens b.days)

  all_tokens-keep :
      (k : String) (f : Bucket F → Bucket F) (m : List (String × Bucket F))
      → ((b : Bucket F) → (f b).tokens ≡ b.tokens)
      → all_tokens (on no_cost add_cost round4 k f m) ≡ all_tokens m
  unfolding change all_tokens ◌+64◌
  all_tokens-keep k f [] h = rw (h (new_bucket no_cost add_cost round4))
  all_tokens-keep k f ((j, b) ∷ m) h = elim (Bool-cases (j == k)) [
    | inl same ↦ rw (same, h b)
    | inr other ↦ rw (other, all_tokens-keep k f m h)
  ]

  on_targets-Balanced :
      (d : Date) (day : String) (f : Bucket F → Bucket F) (n : ℕ) (b : Buckets F)
      → ((c : Bucket F) → (f c).tokens ≡ c.tokens +64 n)
      → Balanced b
      → Balanced (on_targets no_cost add_cost round4 d day f b)
  unfolding on_targets
  on_targets-Balanced d day f n b h (m, w) = (
    all_tokens-on (month_key d) f n b.months h
        ∙ (ap (λ t. n +64 t) m ∙ sym (all_tokens-on day f n b.days h)),
    all_tokens-on (week_key d) f n b.weeks h
        ∙ (ap (λ t. n +64 t) w ∙ sym (all_tokens-on day f n b.days h)),
  )

  on_targets_keep :
      (d : Date) (day : String) (f : Bucket F → Bucket F) (b : Buckets F)
      → ((c : Bucket F) → (f c).tokens ≡ c.tokens)
      → Balanced b
      → Balanced (on_targets no_cost add_cost round4 d day f b)
  unfolding on_targets
  on_targets_keep d day f b h (m, w) = (
    all_tokens-keep (month_key d) f b.months h ∙ (m ∙ sym (all_tokens-keep day f b.days h)),
    all_tokens-keep (week_key d) f b.weeks h ∙ (w ∙ sym (all_tokens-keep day f b.days h)),
  )

  -- A table changed or not by something that keeps the tokens.
  kept_if :
      (b : Bool) (k : String) (f : Bucket F → Bucket F) (m : List (String × Bucket F))
      → ((c : Bucket F) → (f c).tokens ≡ c.tokens)
      → all_tokens (if b then m else on no_cost add_cost round4 k f m) ≡ all_tokens m
  kept_if true k f m h = refl
  kept_if false k f m h = all_tokens-keep k f m h

  count_active-Balanced :
      (surface : String) (d : Date) (day : String) (w : Walk F)
      → Balanced w.buckets
      → Balanced (count_active no_cost add_cost round4 surface d day w).buckets
  unfolding count_active
  count_active-Balanced surface d day w (m, k) =
      let f = count_session no_cost add_cost round4 surface in
      let keeps : (c : Bucket F) → (f c).tokens ≡ c.tokens = λ c. count_session-tokens surface c in
      let days = sym (all_tokens-keep day f w.buckets.days keeps) in
      (
        kept_if (seen (month_key d) w.seen_months) (month_key d) f w.buckets.months keeps
            ∙ (m ∙ days),
        kept_if (seen (week_key d) w.seen_weeks) (week_key d) f w.buckets.weeks keeps ∙ (k ∙ days),
      )

  visit_parsed-Balanced :
      (surface day : String) (v : PerModel F) (o : Option Date) (w : Walk F)
      → Balanced w.buckets
      → Balanced (visit_parsed no_cost add_cost round4 surface day v o w).buckets
  unfolding visit_parsed visit
  visit_parsed-Balanced surface day v none w h = h
  visit_parsed-Balanced surface day v (some d) w h =
      count_active-Balanced surface d day
        (record w {
          buckets =
              on_targets no_cost add_cost round4 d day (add_calls no_cost add_cost round4 surface v)
                w.buckets;
          first_day = if w.first_day == "" then day else w.first_day;
        })
        (on_targets-Balanced d day (add_calls no_cost add_cost round4 surface v) v.tokens w.buckets
          (λ c. add_calls-tokens surface v c) h)

  visit_days-Balanced :
      (surface cutoff : String) (ds : List (String × PerModel F)) (w : Walk F)
      → Balanced w.buckets
      → Balanced (visit_days no_cost add_cost round4 surface cutoff ds w).buckets
  unfolding visit_days
  visit_days-Balanced surface cutoff [] w h = h
  visit_days-Balanced surface cutoff ((day, v) ∷ ds) w h = visit_days-Balanced surface cutoff ds _ (
      if_both (λ (x : Walk F). Balanced x.buckets) (str_lt day cutoff) h
        (visit_parsed-Balanced surface day v (parse_day day) w h))

  add_models-tokens :
      (ms : List (String × PerModel F)) (c : Bucket F)
      → (add_models no_cost add_cost round4 ms c).tokens ≡ c.tokens
  unfolding add_models
  add_models-tokens [] c = refl
  add_models-tokens ((n, v) ∷ ms) c = add_models-tokens ms _

  add_tools-tokens :
      (ts : List (String × ℕ)) (c : Bucket F)
      → (add_tools no_cost add_cost round4 ts c).tokens ≡ c.tokens
  unfolding add_tools
  add_tools-tokens [] c = refl
  add_tools-tokens (t ∷ ts) c = refl

  add_splits-Balanced :
      (s : Session F) (d : Date) (day : String) (b : Buckets F)
      → Balanced b
      → Balanced (add_splits no_cost add_cost round4 s d day b)
  unfolding add_splits add_classes
  add_splits-Balanced s d day b h =
      let f = add_models no_cost add_cost round4 (sort_days s.models) in
      let c = on_targets no_cost add_cost round4 d day f b in
      let models : Balanced c =
        on_targets_keep d day f b (add_models-tokens (sort_days s.models)) h in
      let g = add_tools no_cost add_cost round4 s.tools in
      let t = if length s.tools == 0 then c else on_targets no_cost add_cost round4 d day g c in
      let tools : Balanced t =
        if_both Balanced (length s.tools == 0) models
          (on_targets_keep d day g c (add_tools-tokens s.tools) models) in
      let classes = add_classes no_cost add_cost round4 s in
      (
        all_tokens-keep (month_key d) classes t.months (λ x. refl) ∙ tools.0,
        all_tokens-keep (week_key d) classes t.weeks (λ x. refl) ∙ tools.1,
      )

  finish_session-Balanced :
      (s : Session F) (day : String) (o : Option Date) (b : Buckets F)
      → Balanced b
      → Balanced (finish_session no_cost add_cost round4 s day o b).0
  unfolding finish_session
  finish_session-Balanced s day none b h = h
  finish_session-Balanced s day (some d) b h =
      if_both (λ (x : Buckets F × Bool). Balanced x.0) (day == "") h
        (add_splits-Balanced s d day b h)

  walk_session-Balanced :
      (cutoff : String) (s : Session F) (b : Buckets F)
      → Balanced b
      → Balanced (walk_session no_cost add_cost round4 cutoff s b).0
  unfolding walk_session
  walk_session-Balanced cutoff s b h =
      let start : Walk F = record {
        buckets = b;
        first_day = "";
        seen_months = [];
        seen_weeks = [];
      } in
      let days = sort_days s.daily in
      let w = visit_days no_cost add_cost round4 s.surface cutoff days start in
      if_both (λ (x : Buckets F × Bool). Balanced x.0) (is_skipped cutoff s) h
        (finish_session-Balanced s w.first_day (parse_day w.first_day) w.buckets
          (visit_days-Balanced s.surface cutoff days start h))

  walk_sessions-Balanced :
      (cutoff : String) (ss : List (Session F)) (b : Buckets F)
      → Balanced b
      → Balanced (walk_sessions no_cost add_cost round4 cutoff ss b).0
  unfolding walk_sessions
  walk_sessions-Balanced cutoff [] b h = h
  walk_sessions-Balanced cutoff (s ∷ ss) b h =
      walk_sessions-Balanced cutoff ss (walk_session no_cost add_cost round4 cutoff s b).0
        (walk_session-Balanced cutoff s b h)

  all_tokens-round :
      (m : List (String × Bucket F))
      → all_tokens (map (round_bucket no_cost add_cost round4) m) ≡ all_tokens m
  unfolding all_tokens round_bucket
  all_tokens-round [] = refl
  all_tokens-round ((k, b) ∷ m) = ap (λ t. b.tokens +64 t) (all_tokens-round m)

  -- Whatever sessions are rolled up, from whatever day on, the tokens of all months, of all weeks
  -- and of all days have the same wrapped sum.
  pub build-Balanced :
      (ss : List (Session F)) (cutoff : String)
      → Balanced (build no_cost add_cost round4 ss cutoff).0
  unfolding build round_all
  build-Balanced ss cutoff =
      let r =
        walk_sessions no_cost add_cost round4 cutoff ss
          (record { months = []; weeks = []; days = [] }) in
      let h =
        walk_sessions-Balanced cutoff ss (record { months = []; weeks = []; days = [] })
          (refl, refl) in
      (
        all_tokens-round r.0.months ∙ (h.0 ∙ sym (all_tokens-round r.0.days)),
        all_tokens-round r.0.weeks ∙ (h.1 ∙ sym (all_tokens-round r.0.days)),
      )
