-- ===== src/Forecast/Days.antt =====
-- The day loop of internal/forecast/forecast.go: it ends, and the history takes a week.
use burnmon.Base.{
  ℕ, zero, suc, Option, some, List, [], ◌∷◌, ◌≡◌, refl, ◌<◌, ◌≤◌, ltb, lt→ltb, le→ltb, leb→le, ap,
  Bool-cases, inl, inr, All, arith, map,
}
use burnmon.Forecast.{LocalTime, days_through, history_points, day_point, visit_day, over_days}
use burnmon.Store.Daily.{DayTotal}

-- The day that is n days after the one given, by AddDate, and the first n days.
unfoldable pub day_after : LocalTime → ℕ → ℕ → ℕ
day_after cal zero d = d
day_after cal (suc n) d = day_after cal n (cal.forward 1 d)

unfoldable pub days_from : LocalTime → ℕ → ℕ → List ℕ
days_from cal zero d = []
days_from cal (suc n) d = d ∷ days_from cal n (cal.forward 1 d)

-- The list is that of the days up to today, and today's successor is not in it.
abbrev pub UpTo : LocalTime → ℕ → ℕ → Option (List ℕ) → Type 0
UpTo cal d today days =
    (n : ℕ) × ((days ≡ some (days_from cal n d))
      × (All (λ t. t ≤ today) (days_from cal n d) × (today < day_after cal n d)))

-- Where some day of the first k days and the one after them is past today, k + 1 rounds are enough
-- for the loop, and it visits exactly the days from the first one on, in order and each one once, up
-- to the first day that is past today, which it leaves out.
pub days_through-UpTo :
    (cal : LocalTime) (k fuel d today : ℕ)
    → today < day_after cal k d
    → k ≤ fuel
    → UpTo cal d today (days_through cal (suc fuel) d today)
unfolding days_through day_after days_from
days_through-UpTo cal zero fuel d today past enough =
    rw (lt→ltb today d past) (0, (refl, (tt, past)))
days_through-UpTo cal (suc k) zero d today past enough = absurd (omega (arith, enough))
days_through-UpTo cal (suc k) (suc fuel) d today past enough = elim (Bool-cases (ltb today d)) [
  | inl out ↦ rw out (0, (refl, (tt, ground arith)))
  | inr reached ↦
      let (n, (e, (within, over))) =
        days_through-UpTo cal k fuel (cal.forward 1 d) today past (omega (arith, enough)) in
      rw reached (suc n, (ap (visit_day d) e, ((leb→le d today (ground arith), within), over)))
]

-- What is used of AddDate on the midnights of one week, and of their order.
pub record WeekDays (cal : LocalTime) (today : ℕ) : Type 0 where
  pub none_back : cal.back 0 today ≡ today
  pub next : (k : ℕ) → k < 7 → cal.forward 1 (cal.back (suc k) today) ≡ cal.back k today
  pub earlier : (k : ℕ) → cal.back k today ≤ today
  pub later : today < cal.forward 1 today

visit-step :
    (cal : LocalTime) (today k fuel : ℕ) (ds : List ℕ)
    → WeekDays cal today
    → k < 7
    → days_through cal fuel (cal.back k today) today ≡ some ds
    → days_through cal (suc fuel) (cal.back (suc k) today) today
      ≡ some (cal.back (suc k) today ∷ ds)
unfolding days_through
visit-step cal today k fuel ds w h e =
    rw (le→ltb today (cal.back (suc k) today) (w.earlier (suc k)), w.next k h, e) refl

visit-today :
    (cal : LocalTime) (today : ℕ)
    → WeekDays cal today
    → days_through cal 2 (cal.back 0 today) today ≡ some (cal.back 0 today ∷ [])
unfolding days_through
visit-today cal today w =
    rw (w.none_back, le→ltb today today (omega arith), lt→ltb today (cal.forward 1 today) w.later)
      refl

-- The history has the points of today and of the six days before it, in order, the first six days
-- back; the loop takes eight rounds.
history_points-week :
    (cal : LocalTime) (by_day : List DayTotal) (now : ℕ)
    → WeekDays cal (cal.midnight now)
    → history_points cal 8 by_day now
      ≡ some (
          map
            (λ k. day_point cal by_day (cal.back k (cal.midnight now)))
            (6 ∷ 5 ∷ 4 ∷ 3 ∷ 2 ∷ 1 ∷ 0 ∷ []))
unfolding history_points
history_points-week cal by_day now w =
    let today = cal.midnight now in
    ap (over_days (day_point cal by_day)) (
      visit-step cal today 5 7 _ w (omega arith) (
        visit-step cal today 4 6 _ w (omega arith) (
          visit-step cal today 3 5 _ w (omega arith) (
            visit-step cal today 2 4 _ w (omega arith) (
              visit-step cal today 1 3 _ w (omega arith)
                (visit-step cal today 0 2 _ w (omega arith) (visit-today cal today w)))))))
