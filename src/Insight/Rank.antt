-- ===== src/Insight/Rank.antt =====
-- `expensiveTurns`: how many turns can stand above the rank.
use burnmon.Base.{
  ℕ, zero, suc, Bool, true, false, Option, none, some, List, [], ◌∷◌, ◌≡◌, refl, ◌+◌, ◌-◌, ◌≤◌, ◌∙◌,
  ap, All, ltb, length, filter, map, get_elem?, length-filter-le, some_injective, subst, All-imp,
  Bool-cases, inl, inr, arith, if_both,
}
use burnmon.Schema.{Event}
use burnmon.Insight.{
  Rules, insert_total, sort_totals, clamped_rank, expensive_from, expensive_turns, above_rank,
  turn_total,
}

-- What is used of the order of the totals as floats.
pub record Ordered (below : ℕ → ℕ → Bool) : Type 0 where
  pub asymm : (a b : ℕ) → below a b ≡ true → below b a ≡ false
  pub not_trans : (a b c : ℕ) → below a b ≡ false → below b c ≡ false → below a c ≡ false

module _ (rules : Rules) (order : Ordered rules.below) where
  -- No later total is below an earlier one.
  abbrev pub Sorted : List ℕ → Type 0
  Sorted [] = Unit
  Sorted (x ∷ xs) = All (λ y. rules.below y x ≡ false) xs × Sorted xs

  All-insert_total :
      (P : ℕ → Type 0) (x : ℕ) (xs : List ℕ) → P x → All P xs → All P (insert_total rules x xs)
  unfolding insert_total
  All-insert_total P x [] h k = (h, tt)
  All-insert_total P x (y ∷ ys) h k =
      if_both (λ (l : List ℕ). All P l) (rules.below y x) (k.0, All-insert_total P x ys h k.1)
        (h, k)

  insert_total-Sorted : (x : ℕ) (xs : List ℕ) → Sorted xs → Sorted (insert_total rules x xs)
  unfolding insert_total
  insert_total-Sorted x [] s = (tt, tt)
  insert_total-Sorted x (y ∷ ys) s = elim (Bool-cases (rules.below y x)) [
    | inl lower ↦ rw lower (
      All-insert_total (λ z. rules.below z y ≡ false) x ys (order.asymm y x lower) s.0,
      insert_total-Sorted x ys s.1,
    )
    | inr kept ↦ rw kept ((kept, All-imp ys (λ z h. order.not_trans z y x h kept) s.0), s)
  ]

  sort_totals-Sorted : (xs : List ℕ) → Sorted (sort_totals rules xs)
  unfolding sort_totals
  sort_totals-Sorted [] = tt
  sort_totals-Sorted (x ∷ xs) = insert_total-Sorted x (sort_totals rules xs) (sort_totals-Sorted xs)

  length-filter-insert_total :
      (p : ℕ → Bool) (x : ℕ) (xs : List ℕ)
      → length (filter p (insert_total rules x xs)) ≡ length (filter p (x ∷ xs))
  unfolding insert_total
  length-filter-insert_total p x [] = refl
  length-filter-insert_total p x (y ∷ ys) = ground (arith, length-filter-insert_total p x ys)

  length-filter-sort_totals :
      (p : ℕ → Bool) (xs : List ℕ) → length (filter p (sort_totals rules xs)) ≡ length (filter p xs)
  unfolding sort_totals
  length-filter-sort_totals p [] = refl
  length-filter-sort_totals p (x ∷ xs) =
      length-filter-insert_total p x (sort_totals rules xs)
      ∙ ground (arith, length-filter-sort_totals p xs)

  length-insert_total : (x : ℕ) (xs : List ℕ) → length (insert_total rules x xs) ≡ suc (length xs)
  unfolding insert_total
  length-insert_total x [] = refl
  length-insert_total x (y ∷ ys) = ground (arith, length-insert_total x ys)

  length-sort_totals : (xs : List ℕ) → length (sort_totals rules xs) ≡ length xs
  unfolding sort_totals
  length-sort_totals [] = refl
  length-sort_totals (x ∷ xs) =
      length-insert_total x (sort_totals rules xs) ∙ ap suc (length-sort_totals xs)

  All-get_elem? :
      (P : ℕ → Type 0) (xs : List ℕ) (i p : ℕ) → All P xs → get_elem? xs i ≡ some p → P p
  All-get_elem? P [] i p h e = cc
  All-get_elem? P (x ∷ xs) zero p h e = subst P (some_injective e) h.0
  All-get_elem? P (x ∷ xs) (suc i) p h e = All-get_elem? P xs i p h.1 e

  irrefl : (a : ℕ) → rules.below a a ≡ false
  irrefl a = elim (Bool-cases (rules.below a a)) [ inl e ↦ order.asymm a a e | inr e ↦ e ]

  -- Above the i-th total of a sorted list stand only later ones.
  above-Sorted :
      (xs : List ℕ) (i p : ℕ)
      → Sorted xs
      → get_elem? xs i ≡ some p
      → length (filter (rules.below p) xs) + suc i ≤ length xs
  above-Sorted [] i p s e = cc
  above-Sorted (x ∷ xs) zero p s e =
      rw (subst (λ (y : ℕ). rules.below y x ≡ false) (some_injective e) (irrefl x))
        (ground (arith, length-filter-le (rules.below p) xs))
  above-Sorted (x ∷ xs) (suc i) p s e =
      rw (All-get_elem? (λ y. rules.below y x ≡ false) xs i p s.0 e)
        (ground (arith, above-Sorted xs i p s.1 e))

  length-expensive_from :
      (p n : ℕ) (es : List Event)
      → length (expensive_from rules p n es) ≡ length (filter (rules.below p) (map turn_total es))
  unfolding expensive_from
  length-expensive_from p n [] = refl
  length-expensive_from p n (e ∷ es) = ground (arith, length-expensive_from p (suc n) es)

  length-map_totals : (es : List Event) → length (map turn_total es) ≡ length es
  length-map_totals [] = refl
  length-map_totals (e ∷ es) = ap suc (length-map_totals es)

  clamped_rank-le : (n : ℕ) → clamped_rank rules n ≤ n
  unfolding clamped_rank
  clamped_rank-le n = ground arith

  clamped_rank-pos : (n : ℕ) → 1 ≤ n → 1 ≤ clamped_rank rules n
  unfolding clamped_rank
  clamped_rank-pos n h = ground arith

  above_rank-few :
      (es : List Event) (r : ℕ) (o : Option ℕ)
      → get_elem? (sort_totals rules (map turn_total es)) (r - 1) ≡ o
      → 1 ≤ r
      → r ≤ length es
      → length (above_rank rules es o) + r ≤ length es
  above_rank-few es r none e h k = omega (arith, h, k)
  above_rank-few es r (some p) e h k =
      let sorted = sort_totals rules (map turn_total es) in
      let few = above-Sorted sorted (r - 1) p (sort_totals-Sorted (map turn_total es)) e in
      omega (
        arith,
        h,
        few,
        length-expensive_from p 1 es,
        length-filter-sort_totals (rules.below p) (map turn_total es),
        length-sort_totals (map turn_total es),
        length-map_totals es,
      )

  -- Of n turns no more than n less the rank are called expensive.
  expensive_turns-few :
      (turns : List Event)
      → length (expensive_turns rules turns) + clamped_rank rules (length turns) ≤ length turns
  unfolding expensive_turns
  expensive_turns-few turns = elim (Bool-cases (ltb (length turns) 2)) [
    | inl short ↦ rw short (omega (arith, clamped_rank-le (length turns)))
    | inr enough ↦ rw enough (
        above_rank-few turns (clamped_rank rules (length turns)) _ refl
          (clamped_rank-pos (length turns) (ground arith)) (clamped_rank-le (length turns)))
  ]
