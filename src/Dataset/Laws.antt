-- ===== src/Dataset/Laws.antt =====
-- `dedupeCaseInsensitive`.
use burnmon.Base.{
  ℕ, String, Bool, true, false, not, ◌&&◌, ◌||◌, List, [], ◌∷◌, any, ◌≡◌, refl, ap, ◌∙◌, arith,
  Bool-cases, inl, inr, codes_beq, codes, to_lower,
}
use burnmon.Dataset.{same_lower, dedupe_from, dedupe_case_insensitive}

codes_beq_refl : (s : List ℕ) → codes_beq s s ≡ true
codes_beq_refl [] = refl
codes_beq_refl (x ∷ xs) = ground (arith, codes_beq_refl xs)

eq_of_codes_beq : (s t : List ℕ) → codes_beq s t ≡ true → s ≡ t
eq_of_codes_beq [] [] h = refl
eq_of_codes_beq [] (y ∷ ys) h = ground (arith, h)
eq_of_codes_beq (x ∷ xs) [] h = ground (arith, h)
eq_of_codes_beq (x ∷ xs) (y ∷ ys) h = ground (arith, h, eq_of_codes_beq xs ys)

codes_beq_comm : (s t : List ℕ) → codes_beq s t ≡ codes_beq t s
codes_beq_comm [] [] = refl
codes_beq_comm [] (y ∷ ys) = refl
codes_beq_comm (x ∷ xs) [] = refl
codes_beq_comm (x ∷ xs) (y ∷ ys) = ground (arith, codes_beq_comm xs ys)

abbrev pub has : String → List String → Bool
has s ts = any (λ t. same_lower t s) ts

has_cong : (s t : String) (ts : List String) → same_lower s t ≡ true → has s ts ≡ has t ts
has_cong s t ts h =
    ap (λ k. any (λ u. codes_beq (to_lower (codes u)) k) ts)
      (eq_of_codes_beq (to_lower (codes s)) (to_lower (codes t)) h)

-- No path stands twice, however it is written.
abbrev pub DistinctLower : List String → Type 0
DistinctLower [] = Unit
DistinctLower (s ∷ ss) = (has s ss ≡ false) × DistinctLower ss

-- Of the paths not seen yet, the same ones are there as before.
has-dedupe_from :
    (p : String) (seen ss : List String)
    → has p (dedupe_from seen ss) ≡ (not (has p seen) && has p ss)
unfolding dedupe_from
has-dedupe_from p seen [] = ground arith
has-dedupe_from p seen (s ∷ ss) = elim (Bool-cases (has s seen)) [
  | inl old ↦ rw old (
      has-dedupe_from p seen ss ∙ elim (Bool-cases (same_lower s p)) [
        | inl same ↦ ground (arith, same, has_cong s p seen same, old)
        | inr other ↦ ground (arith, other)
      ])
  | inr new ↦ rw new (
      ap (λ b. same_lower s p || b) (has-dedupe_from p (s ∷ seen) ss)
      ∙ elim (Bool-cases (same_lower s p)) [
        | inl same ↦ ground (arith, same, has_cong s p seen same, new)
        | inr other ↦ ground (arith, other)
      ])
]

dedupe_from-DistinctLower : (seen ss : List String) → DistinctLower (dedupe_from seen ss)
unfolding dedupe_from
dedupe_from-DistinctLower seen [] = tt
dedupe_from-DistinctLower seen (s ∷ ss) = elim (Bool-cases (has s seen)) [
  | inl old ↦ rw old (dedupe_from-DistinctLower seen ss)
  | inr new ↦ rw new (
    ground (arith, has-dedupe_from s (s ∷ seen) ss, codes_beq_refl (to_lower (codes s))),
    dedupe_from-DistinctLower (s ∷ seen) ss,
  )
]

-- Without the duplicates no source stands twice, in whatever case, and a path is one of the sources
-- left, up to case, exactly if it was one of the sources given.
dedupe_complete :
    (ss : List String) (p : String)
    → DistinctLower (dedupe_case_insensitive ss) × (has p (dedupe_case_insensitive ss) ≡ has p ss)
unfolding dedupe_case_insensitive
dedupe_complete ss p = (dedupe_from-DistinctLower [] ss, has-dedupe_from p [] ss)
