-- ===== src/Insight/Placed.antt =====
-- `Analyze`: where its findings stand and what order they come in.
use burnmon.Base.{
  ℕ, suc, Bool, true, false, not, Option, none, some, List, [], ◌∷◌, ◌++◌, ◌≡◌, refl, ◌+◌, ◌<◌, ◌≤◌,
  ◌⊎◌, ◌-◌, All, ltb, lt64, length, filter, get_elem?, get_last?, if_both, if◌then◌else◌, All-imp,
  Bool-cases, inl, inr, arith, str_lt, drop, ◌||◌,
}
use burnmon.Schema.{Event, is_turn, context_of, value_or_zero}
use mathlib.Core.List.{Perm}
use burnmon.Insight.Turns.{Rising, sort_turns-Rising, sort_turns-perm}
use burnmon.Insight.{
  Rules, Kind, reprefill, compaction, context_runway, expensive_turn, kind_text, Finding, before,
  insert_finding, sort_findings, compaction_findings, compacts, compaction_baseline, reprefills,
  expensive_from, expensive_turns, above_rank, context_runway_of, runway_within, runway_finding,
  all_findings, analyze, sort_turns, turn_total,
}

-- The finding is about the turn that it numbers, of those numbered from `n` on.
abbrev pub Placed : ℕ → List Event → Finding → Type 0
Placed n es f = (i : ℕ) × (e : Event) × (f.turn ≡ n + i) × (get_elem? es i ≡ some e) × (f.at ≡ e.at)

Placed-next :
    (n : ℕ) (e : Event) (es : List Event) (f : Finding) → Placed (suc n) es f → Placed n (e ∷ es) f
Placed-next n e es f (i, x, turn, found, at) = (suc i, x, omega (arith, turn), found, at)

Placed-here :
    (n : ℕ) (e : Event) (es : List Event) (f : Finding)
    → f.turn ≡ n
    → f.at ≡ e.at
    → Placed n (e ∷ es) f
Placed-here n e es f turn at = (0, e, omega (arith, turn), refl, at)

-- A loop that may put one finding of the turn before those of the later turns.
All-step :
    (n : ℕ) (e : Event) (es : List Event) (b : Bool) (f : Finding) (fs : List Finding)
    → f.turn ≡ n
    → f.at ≡ e.at
    → All (Placed (suc n) es) fs
    → All (Placed n (e ∷ es)) (if b then f ∷ fs else fs)
All-step n e es b f fs turn at h =
    let rest = All-imp fs (Placed-next n e es) h in
    if_both (λ (l : List Finding). All (Placed n (e ∷ es)) l) b (Placed-here n e es f turn at, rest)
      rest

All-append : (P : Finding → Type 0) (fs gs : List Finding) → All P fs → All P gs → All P (fs ++ gs)
All-append P [] gs h k = k
All-append P (f ∷ fs) gs h k = (h.0, All-append P fs gs h.1 k)

last-Placed :
    (es : List Event) (l : Event)
    → get_last? es ≡ some l
    → (i : ℕ) × (suc i ≡ length es) × (get_elem? es i ≡ some l)
last-Placed [] l h = cc
last-Placed (e ∷ []) l h = (0, omega arith, h)
last-Placed (e ∷ x ∷ xs) l h =
    let (i, size, found) = last-Placed (x ∷ xs) l h in (suc i, omega (arith, size), found)

module _ (rules : Rules) where
  compaction_findings-Placed :
      (n : ℕ) (earlier es : List Event) → All (Placed n es) (compaction_findings rules n earlier es)
  unfolding compaction_findings
  compaction_findings-Placed n earlier [] = tt
  compaction_findings-Placed n [] (e ∷ es) =
      All-imp (compaction_findings rules (suc n) (e ∷ []) es) (Placed-next n e es)
        (compaction_findings-Placed (suc n) (e ∷ []) es)
  compaction_findings-Placed n (p ∷ ps) (e ∷ es) =
      All-step n e es (compacts rules (compaction_baseline e ps p) (context_of e)) _
        (compaction_findings rules (suc n) (e ∷ p ∷ ps) es) refl refl
        (compaction_findings-Placed (suc n) (e ∷ p ∷ ps) es)

  reprefills-Placed :
      (cs : List Finding) (n : ℕ) (earlier es : List Event)
      → All (Placed n es) (reprefills rules cs n earlier es)
  unfolding reprefills
  reprefills-Placed cs n earlier [] = tt
  reprefills-Placed cs n earlier (e ∷ es) =
      All-step n e es (lt64 rules.reprefill_threshold (value_or_zero e.cache_write)) _
        (reprefills rules cs (suc n) (e ∷ earlier) es) refl refl
        (reprefills-Placed cs (suc n) (e ∷ earlier) es)

  expensive_from-Placed :
      (p n : ℕ) (es : List Event) → All (Placed n es) (expensive_from rules p n es)
  unfolding expensive_from
  expensive_from-Placed p n [] = tt
  expensive_from-Placed p n (e ∷ es) =
      All-step n e es (rules.below p (turn_total e)) _ (expensive_from rules p (suc n) es) refl refl
        (expensive_from-Placed p (suc n) es)

  expensive_turns-Placed : (es : List Event) → All (Placed 1 es) (expensive_turns rules es)
  unfolding expensive_turns
  expensive_turns-Placed es =
      if_both (λ (l : List Finding). All (Placed 1 es) l) (ltb (length es) 2) tt (go _)
    where
      go : (o : Option ℕ) → All (Placed 1 es) (above_rank rules es o)
      go none = tt
      go (some p) = expensive_from-Placed p 1 es

  runway-Placed :
      (es : List Event) (o : Option Event)
      → get_last? es ≡ o
      → All (Placed 1 es) (context_runway_of rules es o)
  unfolding context_runway_of
  runway-Placed es none h = tt
  runway-Placed es (some l) h = within (rules.context_window l.model)
    where
      finding : (o : Option _) → All (Placed 1 es) (runway_finding rules (length es) l o)
      finding none = tt
      finding (some cause) =
          let (i, size, found) = last-Placed es l h in
          ((i, l, omega (arith, size), found, refl), tt)

      within : (o : Option ℕ) → All (Placed 1 es) (runway_within rules es l o)
      within none = tt
      within (some w) =
          if_both (λ (fs : List Finding). All (Placed 1 es) fs)
            (not (lt64 0 w) || ltb (length (drop (length es - 10) es)) 2) tt (finding _)

-- The order of the findings, with the kinds by their place in the order of their names.
abbrev pub kind_rank : Kind → ℕ
kind_rank compaction = 0
kind_rank context_runway = 1
kind_rank expensive_turn = 2
kind_rank reprefill = 3

kind_text-rank : (k l : Kind) → str_lt (kind_text k) (kind_text l) ≡ ltb (kind_rank k) (kind_rank l)
kind_text-rank compaction compaction = refl
kind_text-rank compaction context_runway = refl
kind_text-rank compaction expensive_turn = refl
kind_text-rank compaction reprefill = refl
kind_text-rank context_runway compaction = refl
kind_text-rank context_runway context_runway = refl
kind_text-rank context_runway expensive_turn = refl
kind_text-rank context_runway reprefill = refl
kind_text-rank expensive_turn compaction = refl
kind_text-rank expensive_turn context_runway = refl
kind_text-rank expensive_turn expensive_turn = refl
kind_text-rank expensive_turn reprefill = refl
kind_text-rank reprefill compaction = refl
kind_text-rank reprefill context_runway = refl
kind_text-rank reprefill expensive_turn = refl
kind_text-rank reprefill reprefill = refl

before_asymm : (f g : Finding) → before f g ≡ true → before g f ≡ false
unfolding before
before_asymm f g h = ground (arith, kind_text-rank f.kind g.kind, kind_text-rank g.kind f.kind)

before_not_trans : (f g h : Finding) → before f g ≡ false → before g h ≡ false → before f h ≡ false
unfolding before
before_not_trans f g h p q = ground (
  arith,
  kind_text-rank f.kind g.kind,
  kind_text-rank g.kind h.kind,
  kind_text-rank f.kind h.kind,
)

-- No later finding belongs before an earlier one.
abbrev Settled : List Finding → Type 0
Settled [] = Unit
Settled (f ∷ fs) = All (λ g. before g f ≡ false) fs × Settled fs

All-insert_finding :
    (P : Finding → Type 0) (f : Finding) (fs : List Finding)
    → P f
    → All P fs
    → All P (insert_finding f fs)
unfolding insert_finding
All-insert_finding P f [] h k = (h, tt)
All-insert_finding P f (g ∷ gs) h k =
    if_both (λ (l : List Finding). All P l) (before g f) (k.0, All-insert_finding P f gs h k.1)
      (h, k)

insert_finding-Settled :
    (f : Finding) (fs : List Finding) → Settled fs → Settled (insert_finding f fs)
unfolding insert_finding
insert_finding-Settled f [] s = (tt, tt)
insert_finding-Settled f (g ∷ gs) s = elim (Bool-cases (before g f)) [
  | inl lower ↦ rw lower (
    All-insert_finding (λ h. before h g ≡ false) f gs (before_asymm g f lower) s.0,
    insert_finding-Settled f gs s.1,
  )
  | inr kept ↦ rw kept ((kept, All-imp gs (λ h q. before_not_trans h g f q kept) s.0), s)
]

sort_findings-Settled : (fs : List Finding) → Settled (sort_findings fs)
unfolding sort_findings
sort_findings-Settled [] = tt
sort_findings-Settled (f ∷ fs) =
    insert_finding-Settled f (sort_findings fs) (sort_findings-Settled fs)

All-sort_findings : (P : Finding → Type 0) (fs : List Finding) → All P fs → All P (sort_findings fs)
unfolding sort_findings
All-sort_findings P [] h = tt
All-sort_findings P (f ∷ fs) h =
    All-insert_finding P f (sort_findings fs) h.0 (All-sort_findings P fs h.1)

-- Whether a finding may stand after another: it is about a later turn, or about the same one and the
-- name of its kind is not sooner.
abbrev pub Follows : Finding → Finding → Type 0
Follows g f = (f.turn < g.turn) ⊎ ((f.turn ≡ g.turn) × (kind_rank f.kind ≤ kind_rank g.kind))

abbrev pub InOrder : List Finding → Type 0
InOrder [] = Unit
InOrder (f ∷ fs) = All (λ (g : Finding). Follows g f) fs × InOrder fs

not_before-Follows : (g f : Finding) → before g f ≡ false → Follows g f
unfolding before
not_before-Follows g f h = elim (Bool-cases (ltb f.turn g.turn)) [
  | inl less ↦ inl (ground arith)
  | inr same ↦ inr (ground (arith, kind_text-rank g.kind f.kind))
]

Settled-InOrder : (fs : List Finding) → Settled fs → InOrder fs
Settled-InOrder [] s = tt
Settled-InOrder (f ∷ fs) s =
    (All-imp fs (λ g h. not_before-Follows g f h) s.0, Settled-InOrder fs s.1)

-- The findings of Analyze are in the order of their turns, and those of one turn in the order of the
-- names of their kinds. Each has the number and the time of a turn of the session, where the turns are
-- all that the events hold, numbered from 1 in the order of time.
pub analyze-Placed :
    (rules : Rules) (events : List Event)
    → InOrder (analyze rules events)
      × ((turns : List Event) × (Perm turns (filter is_turn events)
            × (Rising 0 turns × All (Placed 1 turns) (analyze rules events))))
unfolding analyze all_findings
analyze-Placed rules events =
    let turns = sort_turns (filter is_turn events) in
    let cs = compaction_findings rules 1 [] turns in
    let last = get_last? turns in
    (
      Settled-InOrder (analyze rules events)
          (sort_findings-Settled (all_findings rules turns last)),
      (
        turns,
        (
          sort_turns-perm (filter is_turn events),
          (
            sort_turns-Rising (filter is_turn events),
            All-sort_findings (Placed 1 turns) (all_findings rules turns last) (
                All-append (Placed 1 turns) _ (expensive_turns rules turns)
                  (All-append (Placed 1 turns) _ (context_runway_of rules turns last)
                    (All-append (Placed 1 turns) cs (reprefills rules cs 1 [] turns)
                      (compaction_findings-Placed rules 1 [] turns)
                      (reprefills-Placed rules cs 1 [] turns))
                    (runway-Placed rules turns last refl))
                  (expensive_turns-Placed rules turns)),
          ),
        ),
      ),
    )
