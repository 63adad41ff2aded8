-- ===== src/Dataset/FromStore/Active.antt =====
-- The active time of a session.
use burnmon.Base.{
  ℕ, ◌≤◌, ◌+◌, ◌-◌, List, [], ◌∷◌, ◌≡◌, refl, ap, subst, ◌∙◌, ◌+64◌, ltb, min, max, max_duration,
  if_cases, if◌then◌else◌, arith,
}
use burnmon.Dataset.FromStore.{insert_time, sort_times, active_gaps, active_time}

-- The earliest and the latest of some times, in whatever order.
abbrev pub earliest : ℕ → List ℕ → ℕ
earliest t [] = t
earliest t (u ∷ us) = min t (earliest u us)

abbrev pub latest : ℕ → List ℕ → ℕ
latest t [] = t
latest t (u ∷ us) = max t (latest u us)

-- The gaps above the cutoff.
abbrev pub idle_gaps : ℕ → ℕ → List ℕ → ℕ
idle_gaps cutoff t [] = 0
idle_gaps cutoff t (u ∷ us) = (if ltb cutoff (u - t) then u - t else 0) + idle_gaps cutoff u us

abbrev pub idle_time : ℕ → List ℕ → ℕ
idle_time cutoff [] = 0
idle_time cutoff (t ∷ ts) = idle_gaps cutoff t ts

-- The times rise from one to the last.
abbrev Rises : ℕ → ℕ → List ℕ → Type 0
Rises t hi [] = t ≡ hi
Rises t hi (u ∷ us) = (t ≤ u) × Rises u hi us

Rises-le : (t hi : ℕ) (us : List ℕ) → Rises t hi us → t ≤ hi
Rises-le t hi [] r = omega (arith, r)
Rises-le t hi (u ∷ us) r = omega (arith, r.0, Rises-le u hi us r.1)

insert_time-Rises :
    (t hi s : ℕ) (us : List ℕ) → t ≤ s → Rises t hi us → Rises t (max s hi) (insert_time s us)
unfolding insert_time
insert_time-Rises t hi s [] h r = (h, omega (arith, h, r))
insert_time-Rises t hi s (u ∷ us) h r =
    if_cases (Rises t (max s hi)) (ltb u s)
      (λ later. (r.0, insert_time-Rises u hi s us (ground arith) r.1))
      (λ sooner.
        let before : s ≤ u = ground arith in
        let same : hi ≡ max s hi = omega (arith, before, Rises-le u hi us r.1) in
        (h, (before, subst (λ n. Rises u n us) same r.1)))

-- What a sorted list is: its first time is the earliest one, and it rises to the latest.
abbrev Spans : ℕ → ℕ → List ℕ → Type 0
Spans lo hi [] = ⊥
Spans lo hi (t ∷ ts) = (t ≡ lo) × Rises t hi ts

insert_time-Spans :
    (lo hi s : ℕ) (ts : List ℕ) → Spans lo hi ts → Spans (min s lo) (max s hi) (insert_time s ts)
unfolding insert_time
insert_time-Spans lo hi s [] r = absurd r
insert_time-Spans lo hi s (t ∷ ts) r =
    if_cases (Spans (min s lo) (max s hi)) (ltb t s)
      (λ later.
        let before : t ≤ s = ground arith in
        (omega (arith, before, r.0), insert_time-Rises t hi s ts before r.1))
      (λ sooner.
        let before : s ≤ t = ground arith in
        let same : hi ≡ max s hi = omega (arith, before, Rises-le t hi ts r.1) in
        (omega (arith, before, r.0), (before, subst (λ n. Rises t n ts) same r.1)))

sort_times-Spans : (t : ℕ) (ts : List ℕ) → Spans (earliest t ts) (latest t ts) (sort_times (t ∷ ts))
unfolding sort_times insert_time
sort_times-Spans t [] = (refl, refl)
sort_times-Spans t (u ∷ us) =
    insert_time-Spans (earliest u us) (latest u us) t (sort_times (u ∷ us)) (sort_times-Spans u us)

gaps-sum :
    (cutoff t hi : ℕ) (us : List ℕ)
    → Rises t hi us
    → hi - t ≤ max_duration
    → active_gaps cutoff t us + idle_gaps cutoff t us ≡ hi - t
unfolding active_gaps ◌+64◌
gaps-sum cutoff t hi [] r h = omega (arith, r)
gaps-sum cutoff t hi (u ∷ us) r h =
    let up = Rises-le u hi us r.1 in
    let rest = gaps-sum cutoff u hi us r.1 (omega (arith, r.0)) in ground (arith, r.0, up, rest)

-- Where the times lie at most 292 years apart, the active time and the gaps above the cutoff, of the
-- sorted times, add up to what passes between the earliest and the latest of the times, in whatever
-- order these come.
pub active_time-idle_time :
    (cutoff t : ℕ) (ts : List ℕ)
    → latest t ts - earliest t ts ≤ max_duration
    → active_time cutoff (sort_times (t ∷ ts)) + idle_time cutoff (sort_times (t ∷ ts))
      ≡ latest t ts - earliest t ts
unfolding active_time
active_time-idle_time cutoff t ts h = go (sort_times (t ∷ ts)) (sort_times-Spans t ts)
  where
    go :
        (us : List ℕ)
        → Spans (earliest t ts) (latest t ts) us
        → active_time cutoff us + idle_time cutoff us ≡ latest t ts - earliest t ts
    go [] r = absurd r
    go (u ∷ us) r =
        gaps-sum cutoff u (latest t ts) us r.1 (omega (arith, r.0)) ∙ ap (λ n. latest t ts - n) r.0
