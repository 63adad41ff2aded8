-- ===== src/Insight/Turns.antt =====
-- The turns of a session in the order of time.
use mathlib.Core.List.{Perm}
use mathlib.Core.List.Perm
use burnmon.Base.{ℕ, ◌≤◌, List, [], ◌∷◌, ltb, arith, if_cases}
use burnmon.Schema.{Event}
use burnmon.Insight.{insert_turn, sort_turns}

-- The times never go down.
abbrev pub Rising : ℕ → List Event → Type 0
Rising lo [] = Unit
Rising lo (e ∷ es) = (lo ≤ e.at) × Rising e.at es

insert_turn-Rising :
    (lo : ℕ) (e : Event) (es : List Event) → lo ≤ e.at → Rising lo es → Rising lo (insert_turn e es)
unfolding insert_turn
insert_turn-Rising lo e [] h r = (h, tt)
insert_turn-Rising lo e (x ∷ xs) h r =
    if_cases (Rising lo) (ltb x.at e.at)
      (λ later. (r.0, insert_turn-Rising x.at e xs (ground arith) r.1))
      (λ sooner. (h, (ground arith, r.1)))

pub sort_turns-Rising : (es : List Event) → Rising 0 (sort_turns es)
unfolding sort_turns
sort_turns-Rising [] = tt
sort_turns-Rising (e ∷ es) =
    insert_turn-Rising 0 e (sort_turns es) (omega arith) (sort_turns-Rising es)

insert_turn-perm : (e : Event) (es : List Event) → Perm (insert_turn e es) (e ∷ es)
unfolding insert_turn
insert_turn-perm e [] = Perm.rfl
insert_turn-perm e (x ∷ xs) =
    if_cases (λ l. Perm l (e ∷ x ∷ xs)) (ltb x.at e.at)
      (λ later. Perm.trans (Perm.cons x (insert_turn-perm e xs)) (Perm.swap e x xs))
      (λ sooner. Perm.rfl)

-- No turn is lost.
pub sort_turns-perm : (es : List Event) → Perm (sort_turns es) es
unfolding sort_turns
sort_turns-perm [] = Perm.rfl
sort_turns-perm (e ∷ es) =
    Perm.trans (insert_turn-perm e (sort_turns es)) (Perm.cons e (sort_turns-perm es))
