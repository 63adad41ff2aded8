-- ===== src/Dataset/FromStore/Sums.antt =====
-- Sums over the entries of a map, and over the turns of a list of events.
use burnmon.Base.{
  ℕ, ◌<◌, ◌+◌, ◌%◌, suc, String, Bool, true, false, List, [], ◌∷◌, ◌++◌, ◌==◌, ◌≡◌, refl, ap, ◌∙◌,
  ◌+64◌, word_mod, +64-lt, regroup, regroup_right, zero_add64, str_lt, Bool-cases, inl, inr,
  string_eq, if◌then◌else◌, if_both, arith, length,
}
use burnmon.Schema.{Event, is_turn}
use burnmon.Agg.{change, insert_day, sort_days}

unfoldable pub sum_by {ℓ} : {A : Type ℓ} → (A → ℕ) → List (String × A) → ℕ
sum_by g [] = 0
sum_by g ((k, a) ∷ m) = g a +64 sum_by g m

pub sum_by-lt {ℓ} : {A : Type ℓ} (g : A → ℕ) (m : List (String × A)) → sum_by g m < word_mod
unfolding sum_by
sum_by-lt g [] = omega arith
sum_by-lt g ((k, a) ∷ m) = +64-lt (g a) (sum_by g m)

-- A change that adds `n` to its entry adds it to the sum.
pub sum_by-change {ℓ} :
    {A : Type ℓ} (g : A → ℕ) (new : A) (k : String) (f : A → A) (n : ℕ) (m : List (String × A))
    → g new ≡ 0
    → ((a : A) → g (f a) ≡ g a +64 n)
    → sum_by g (change new k f m) ≡ n +64 sum_by g m
unfolding change sum_by
sum_by-change g new k f n [] z h = rw (h new, z) (zero_add64 n)
sum_by-change g new k f n ((j, a) ∷ m) z h = elim (Bool-cases (j == k)) [
  | inl same ↦ rw (same, h a) (regroup (g a) n (sum_by g m))
  | inr other ↦ rw (other, sum_by-change g new k f n m z h) (regroup_right (g a) n (sum_by g m))
]

insert_day-sum {ℓ} :
    {A : Type ℓ} (g : A → ℕ) (d : String × A) (m : List (String × A))
    → sum_by g (insert_day d m) ≡ g d.1 +64 sum_by g m
unfolding insert_day sum_by
insert_day-sum g (j, b) [] = refl
insert_day-sum g (j, b) ((k, a) ∷ m) =
    if_both (λ l. sum_by g l ≡ g b +64 (g a +64 sum_by g m)) (str_lt k j)
      (ap (λ t. g a +64 t) (insert_day-sum g (j, b) m) ∙ regroup_right (g a) (g b) (sum_by g m))
      refl

-- Sorting keeps the sum.
pub sum_by-sort_days {ℓ} :
    {A : Type ℓ} (g : A → ℕ) (m : List (String × A)) → sum_by g (sort_days m) ≡ sum_by g m
unfolding sort_days sum_by
sum_by-sort_days g [] = refl
sum_by-sort_days g ((k, a) ∷ m) =
    insert_day-sum g (k, a) (sort_days m) ∙ ap (λ t. g a +64 t) (sum_by-sort_days g m)

-- The sum over the turns.
abbrev pub weight_if : Bool → ℕ → ℕ → ℕ
weight_if true n rest = n +64 rest
weight_if false n rest = rest

unfoldable pub turn_sum : (Event → ℕ) → List Event → ℕ
turn_sum w [] = 0
turn_sum w (e ∷ es) = weight_if (is_turn e) (w e) (turn_sum w es)

weight_if-lt : (b : Bool) (n rest : ℕ) → rest < word_mod → weight_if b n rest < word_mod
weight_if-lt true n rest h = +64-lt n rest
weight_if-lt false n rest h = h

pub turn_sum-lt : (w : Event → ℕ) (es : List Event) → turn_sum w es < word_mod
unfolding turn_sum
turn_sum-lt w [] = omega arith
turn_sum-lt w (e ∷ es) = weight_if-lt (is_turn e) (w e) (turn_sum w es) (turn_sum-lt w es)

weight_if-zero :
    (b : Bool) (n rest : ℕ) → rest < word_mod → weight_if b n 0 +64 rest ≡ weight_if b n rest
unfolding ◌+64◌
weight_if-zero true n rest h = omega arith
weight_if-zero false n rest h = omega arith

pub turn_sum-cons :
    (w : Event → ℕ) (e : Event) (es : List Event)
    → turn_sum w (e ∷ []) +64 turn_sum w es ≡ turn_sum w (e ∷ es)
unfolding turn_sum
turn_sum-cons w e es = weight_if-zero (is_turn e) (w e) (turn_sum w es) (turn_sum-lt w es)

pub turn_sum-append :
    (w : Event → ℕ) (es : List Event) (e : Event)
    → turn_sum w (es ++ e ∷ []) ≡ turn_sum w es +64 turn_sum w (e ∷ [])
unfolding turn_sum ◌+64◌
turn_sum-append w [] e = elim (Bool-cases (is_turn e)) [
  | inl t ↦ rw t (omega arith)
  | inr f ↦ rw f refl
]
turn_sum-append w (x ∷ es) e = elim (Bool-cases (is_turn x)) [
  | inl t ↦ rw (t, turn_sum-append w es e) (omega arith)
  | inr f ↦ rw (f, turn_sum-append w es e) refl
]

unfoldable turn_count : List Event → ℕ
turn_count [] = 0
turn_count (e ∷ es) = let rest = turn_count es in if is_turn e then suc rest else rest

turn_sum-count : (es : List Event) → turn_sum (λ e. 1) es ≡ turn_count es % word_mod
unfolding turn_sum turn_count ◌+64◌
turn_sum-count [] = refl
turn_sum-count (e ∷ es) = ground (arith, turn_sum-count es)

turn_count-le : (es : List Event) (n : ℕ) → length es < n → turn_count es < n
unfolding turn_count
turn_count-le [] n h = h
turn_count-le (e ∷ es) n h = ground (arith, turn_count-le es (length es + 1))

turn_count-zero : (w : Event → ℕ) (es : List Event) → turn_count es ≡ 0 → turn_sum w es ≡ 0
unfolding turn_sum turn_count
turn_count-zero w [] h = refl
turn_count-zero w (e ∷ es) h = ground (arith, turn_count-zero w es)

-- Where no turn was counted there was none, since a count below 2^64 does not wrap.
pub turn_sum-zero :
    (w : Event → ℕ) (es : List Event)
    → length es < word_mod
    → turn_sum (λ e. 1) es ≡ 0
    → turn_sum w es ≡ 0
turn_sum-zero w es small h =
    let few = turn_count-le es word_mod small in
    turn_count-zero w es (omega (arith, turn_sum-count es))
