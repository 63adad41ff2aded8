-- ===== src/Live/Ticker.antt =====
-- The lines of the turn ticker against the turns of the window.
use burnmon.Base.{
  ℕ, suc, ◌+◌, String, none, List, [], ◌∷◌, ◌++◌, ◌==◌, ◌≡◌, refl, ap, ◌∙◌, filter, arith, str_lt,
  ltb, Bool-cases, inl, inr, string_eq, if_both,
}
use burnmon.Schema.{Event, value_or_zero}
use burnmon.Agg.{change}
use burnmon.Insight.{Finding, Rules, analyze, insert_turn, sort_turns}
use burnmon.Live.Chart.{in_window}
use burnmon.Live.Turns.{
  TurnEvent, TurnGroup, new_group, add_turn_to, turn_key_of, group_turns_in, ticker_lines,
  insert_line, sort_lines, lines_of_groups, build_turns, all_turns,
}

-- The sum of a measure over a list.
unfoldable pub total {ℓ} : {A : Type ℓ} → (A → ℕ) → List A → ℕ
total g [] = 0
total g (x ∷ xs) = g x + total g xs

total-append {ℓ} :
    {A : Type ℓ} (g : A → ℕ) (xs ys : List A) → total g (xs ++ ys) ≡ total g xs + total g ys
unfolding total
total-append g [] ys = omega arith
total-append g (x ∷ xs) ys = omega (arith, total-append g xs ys)

-- A line without the number and the finding, which depend on the other turns of its session, and
-- without the names of its group.
unfoldable pub bare : TurnEvent → TurnEvent
bare t = record t { vendor = ""; session_id = ""; turn = 0; finding = none }

-- What the line of a turn says of it.
unfoldable pub shown : (ℕ → String) → Event → TurnEvent
shown stamp e = record {
  vendor = "";
  agent = e.agent;
  session_id = "";
  model = e.model;
  turn = 0;
  at = stamp e.at;
  fresh = e.input;
  cache_write = value_or_zero e.cache_write;
  cache_read = value_or_zero e.cache_read;
  output = e.output;
  finding = none;
}

module _ (stamp : ℕ → String) (g : TurnEvent → ℕ) where
  abbrev line_measure : TurnEvent → ℕ
  line_measure t = g (bare t)

  abbrev turn_measure : Event → ℕ
  turn_measure e = g (shown stamp e)

  unfoldable in_groups : List (String × TurnGroup) → ℕ
  in_groups [] = 0
  in_groups ((k, gr) ∷ gs) = total turn_measure gr.group_turns + in_groups gs

  change-in_groups :
      (k : String) (e : Event) (gs : List (String × TurnGroup))
      → in_groups (change (new_group e) k (add_turn_to e) gs) ≡ turn_measure e + in_groups gs
  unfolding change in_groups total
  change-in_groups k e [] = omega arith
  change-in_groups k e ((j, gr) ∷ gs) = elim (Bool-cases (j == k)) [
    | inl same ↦ rw same (omega (arith, total-append turn_measure gr.group_turns (e ∷ [])))
    | inr other ↦ rw other (omega (arith, change-in_groups k e gs))
  ]

  group_turns_in-total :
      (start now : ℕ) (es : List Event) (gs : List (String × TurnGroup))
      → in_groups (group_turns_in start now es gs)
        ≡ in_groups gs + total turn_measure (filter (in_window start now) es)
  unfolding group_turns_in total
  group_turns_in-total start now [] gs = omega arith
  group_turns_in-total start now (e ∷ es) gs = elim (Bool-cases (in_window start now e)) [
    | inl inside ↦ rw inside (
        omega (
          arith,
          group_turns_in-total start now es
              (change (new_group e) (turn_key_of e) (add_turn_to e) gs),
          change-in_groups (turn_key_of e) e gs,
        ))
    | inr outside ↦ rw outside (group_turns_in-total start now es gs)
  ]

  insert_turn-total :
      (e : Event) (es : List Event)
      → total turn_measure (insert_turn e es) ≡ turn_measure e + total turn_measure es
  unfolding insert_turn total
  insert_turn-total e [] = refl
  insert_turn-total e (x ∷ xs) =
      if_both
        (λ l. total turn_measure l ≡ turn_measure e + (turn_measure x + total turn_measure xs))
        (ltb x.at e.at) (omega (arith, insert_turn-total e xs)) refl

  sort_turns-total : (es : List Event) → total turn_measure (sort_turns es) ≡ total turn_measure es
  unfolding sort_turns total
  sort_turns-total [] = refl
  sort_turns-total (e ∷ es) =
      omega (arith, insert_turn-total e (sort_turns es), sort_turns-total es)

  ticker_lines-total :
      (gr : TurnGroup) (fs : List Finding) (n : ℕ) (es : List Event)
      → total line_measure (ticker_lines stamp gr fs n es) ≡ total turn_measure es
  unfolding ticker_lines total bare shown
  ticker_lines-total gr fs n [] = refl
  ticker_lines-total gr fs n (e ∷ es) =
      ap (λ m. turn_measure e + m) (ticker_lines-total gr fs (suc n) es)

  insert_line-total :
      (t : TurnEvent) (ts : List TurnEvent)
      → total line_measure (insert_line stamp t ts) ≡ line_measure t + total line_measure ts
  unfolding insert_line total
  insert_line-total t [] = refl
  insert_line-total t (x ∷ xs) =
      if_both
        (λ l. total line_measure l ≡ line_measure t + (line_measure x + total line_measure xs))
        (str_lt t.at x.at) (omega (arith, insert_line-total t xs)) refl

  sort_lines-total :
      (ts : List TurnEvent) → total line_measure (sort_lines stamp ts) ≡ total line_measure ts
  unfolding sort_lines total
  sort_lines-total [] = refl
  sort_lines-total (t ∷ ts) =
      omega (arith, insert_line-total t (sort_lines stamp ts), sort_lines-total ts)

  lines_of_groups-total :
      (rules : Rules) (gs : List (String × TurnGroup))
      → total line_measure (lines_of_groups stamp rules gs) ≡ in_groups gs
  unfolding lines_of_groups in_groups total
  lines_of_groups-total rules [] = refl
  lines_of_groups-total rules ((k, gr) ∷ gs) =
      let turns = sort_turns gr.group_turns in
      let fs = analyze rules turns in
      total-append line_measure (ticker_lines stamp gr fs 1 turns) (lines_of_groups stamp rules gs)
      ∙ omega (
        arith,
        ticker_lines-total gr fs 1 turns,
        sort_turns-total gr.group_turns,
        lines_of_groups-total rules gs,
      )

  -- The uncapped ticker has one line for each turn of the window and no other line, with its agent,
  -- model, time and tokens: whatever is measured of these adds up to the same over the lines as over
  -- the turns.
  pub build_turns_complete :
      (rules : Rules) (events : List Event) (start now : ℕ)
      → total (λ (t : TurnEvent). g (bare t)) (all_turns stamp rules events start now)
        ≡ total (λ (e : Event). g (shown stamp e)) (filter (in_window start now) events)
  unfolding build_turns in_groups
  build_turns_complete rules events start now =
      let gs = group_turns_in start now events [] in
      sort_lines-total (lines_of_groups stamp rules gs)
      ∙ lines_of_groups-total rules gs
      ∙ group_turns_in-total start now events []
      ∙ omega arith
