-- ===== src/Live/Detail.antt =====
-- What `BuildTurnDetail` answers.
use burnmon.Base.{
  ℕ, zero, suc, ◌-◌, ◌≤◌, ◌<◌, String, true, false, ◌||◌, Option, none, some, List, [], ◌∷◌, ◌==◌,
  ◌≡◌, refl, sym, subst, ◌⊎◌, inl, inr, ℤ, pos, negsuc, sub_time, ltb, any, filter, length,
  get_elem?, arith, Bool-cases, string_eq, some_injective, if_both, if_cases, All, All-imp, le→leb,
}
use burnmon.Schema.{Event, ToolCall, is_turn}
use burnmon.Insight.{Rules, sort_turns}
use burnmon.Insight.Turns.{Rising, sort_turns-Rising}
use burnmon.Live.Turns.{
  Answer, answer, turn_not_found, not_read, files_from, gap_after, turn_before, build_turn_detail,
}

adjacent :
    (lo i : ℕ) (es : List Event) (a b : Event)
    → Rising lo es
    → get_elem? es i ≡ some a
    → get_elem? es (suc i) ≡ some b
    → a.at ≤ b.at
adjacent lo i [] a b r f g = cc
adjacent lo zero (x ∷ []) a b r f g = cc
adjacent lo zero (x ∷ y ∷ es) a b r f g =
    subst (λ (e : Event). a.at ≤ e.at) (some_injective g)
      (subst (λ (e : Event). e.at ≤ y.at) (some_injective f) r.1.0)
adjacent lo (suc i) (x ∷ es) a b r f g = adjacent x.at i es a b r.1 f g

elem_in : (i : ℕ) (es : List Event) → i < length es → (e : Event) × (get_elem? es i ≡ some e)
elem_in i [] h = absurd (omega arith)
elem_in zero (x ∷ es) h = (x, refl)
elem_in (suc i) (x ∷ es) h = elem_in i es (omega arith)

-- No time is missing or before the one of the turn before.
abbrev pub NotNegative : Option ℤ → Type 0
NotNegative none = Unit
NotNegative (some (pos n)) = Unit
NotNegative (some (negsuc n)) = ⊥

sub_time-NotNegative : (t u : ℕ) → u ≤ t → NotNegative (some (sub_time t u))
unfolding sub_time
sub_time-NotNegative t u h = rw (le→leb u t h) tt

-- No name stands twice.
abbrev pub NoRepeat : List String → Type 0
NoRepeat [] = Unit
NoRepeat (s ∷ ss) = All (λ (t : String). (s == t) ≡ false) ss × NoRepeat ss

abbrev Fresh : List String → List String → Type 0
Fresh seen = All (λ (t : String). any (λ (s : String). s == t) seen ≡ false)

files_from-Fresh : (seen : List String) (cs : List ToolCall) → Fresh seen (files_from seen cs)
unfolding files_from
files_from-Fresh seen [] = tt
files_from-Fresh seen (c ∷ cs) =
    if_cases (Fresh seen) (c.path == "" || any (λ s. s == c.path) seen)
      (λ skipped. files_from-Fresh seen cs)
      (λ kept. (
        ground arith,
        All-imp (files_from (c.path ∷ seen) cs) (λ t h. ground arith)
            (files_from-Fresh (c.path ∷ seen) cs),
      ))

files_from-NoRepeat : (seen : List String) (cs : List ToolCall) → NoRepeat (files_from seen cs)
unfolding files_from
files_from-NoRepeat seen [] = tt
files_from-NoRepeat seen (c ∷ cs) =
    if_both NoRepeat (c.path == "" || any (λ s. s == c.path) seen) (files_from-NoRepeat seen cs) (
      All-imp (files_from (c.path ∷ seen) cs) (λ t h. ground arith)
          (files_from-Fresh (c.path ∷ seen) cs),
      files_from-NoRepeat (c.path ∷ seen) cs,
    )

gap_after-NotNegative :
    (lo n : ℕ) (turns : List Event) (e : Event)
    → Rising lo turns
    → get_elem? turns (n - 1) ≡ some e
    → NotNegative (gap_after e (turn_before n turns))
gap_after-NotNegative lo n turns e r here =
    if_cases (λ o. NotNegative (gap_after e o)) (ltb 1 n) later (λ first. tt)
  where
    from :
        (o : Option Event)
        → ltb 1 n ≡ true
        → get_elem? turns (n - 2) ≡ o
        → NotNegative (gap_after e o)
    from none more h = tt
    from (some a) more h =
        let next : suc (n - 2) ≡ n - 1 = ground arith in
        sub_time-NotNegative e.at a.at (
          adjacent lo (n - 2) turns a e r h
            (subst (λ i. get_elem? turns i ≡ some e) (sym next) here))

    later : ltb 1 n ≡ true → NotNegative (gap_after e (get_elem? turns (n - 2)))
    later more = from (get_elem? turns (n - 2)) more refl

module _ {F : Type 0} (turn_cost : Event → F) (rules : Rules) where
  -- The answer is the turn of that number, counted from the oldest one; there is none exactly for the
  -- other numbers.
  abbrev pub IsRight : ℕ → List Event → Answer F → Type 0
  IsRight n turns (answer d) =
      ((1 ≤ n) × (n ≤ length turns))
      × (((e : Event) × ((get_elem? turns (n - 1) ≡ some e)
              × ((d.at ≡ e.at) × ((d.fresh ≡ e.input) × (d.output ≡ e.output)))))
          × (NotNegative d.gap × NoRepeat d.files))
  IsRight n turns turn_not_found = (n ≡ 0) ⊎ (length turns < n)
  IsRight n turns not_read = ⊥

  -- Where the events and the tool calls can be read, BuildTurnDetail answers for the numbers from 1 to
  -- that of the session's turns and finds no turn of another number. The answer has the time, the fresh
  -- and the output tokens of the turn of that number in the order of time, its gap is not negative, and
  -- none of its files stands twice.
  pub build_turn_detail-IsRight :
      (calls : Event → List ToolCall) (id : String) (n : ℕ) (events : List Event)
      → IsRight n
          (sort_turns (filter is_turn events))
          (build_turn_detail turn_cost rules (λ e. some (calls e)) id n (some events))
  unfolding build_turn_detail
  build_turn_detail-IsRight calls id n events =
      let turns = sort_turns (filter is_turn events) in
      if_cases (IsRight n turns) (ltb n 1 || ltb (length turns) n)
        (λ outside. elim (Bool-cases (ltb n 1)) [
          | inl low ↦ inl (ground arith)
          | inr enough ↦ inr (ground arith)
        ])
        (λ inside.
          let low : 1 ≤ n = ground arith in
          let high : n ≤ length turns = ground arith in
          let (e, here) = elem_in (n - 1) turns (omega arith) in
          rw here (
            (low, high),
            (
              (e, (here, (refl, (refl, refl)))),
              (
                gap_after-NotNegative 0 n turns e (sort_turns-Rising (filter is_turn events)) here,
                files_from-NoRepeat [] (calls e),
              ),
            ),
          ))
