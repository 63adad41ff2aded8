-- ===== src/VendorStrip/Total.antt =====
-- The Total row of the strip against the events themselves.
use burnmon.Base.{
  ℕ, not, lt→ltb, le→ltb, second, leb, ltb, All, ◌/◌, ◌≤◌, ◌≢◌, ◌⊎◌, Bool, true, false, List, [],
  ◌∷◌, ◌≡◌, refl, ◌==◌, ◌+64◌, ◌∙◌, ap, sym, ◌<◌, word_mod, filter, string_eq, Bool-cases, inl, inr,
  if_both, arith, +64_comm, +64_assoc, +64_swap, +64-lt, add64-zero,
}
use burnmon.Schema.{Event}
use burnmon.Store.Db.{Db, done}
use burnmon.Store.Daily.{row_tokens}
use burnmon.VendorStrip.{
  sooner, VendorStripTotal, StripRow, StripPayload, at_or_after, amount, fresh_total, grown_total,
  add_to_group, group_agents, strip_from, vendor_strip_totals, add_totals, no_total, build_strip,
}

-- The tokens of some events.
unfoldable pub sum_tokens : List Event → ℕ
sum_tokens [] = 0
sum_tokens (e ∷ es) = row_tokens e +64 sum_tokens es

sum_tokens-lt : (es : List Event) → sum_tokens es < word_mod
unfolding sum_tokens
sum_tokens-lt [] = omega arith
sum_tokens-lt (e ∷ es) = +64-lt (row_tokens e) (sum_tokens es)

zero_left : (n : ℕ) → n < word_mod → 0 +64 n ≡ n
unfolding ◌+64◌
zero_left n h = omega arith

-- The sum of one column.
abbrev column : (VendorStripTotal → ℕ) → List VendorStripTotal → ℕ
column f [] = 0
column f (t ∷ ts) = f t +64 column f ts

add_first : (a c n : ℕ) → (a +64 n) +64 c ≡ (a +64 c) +64 n
add_first a c n = +64_swap a n c

add_later : (a c n : ℕ) → a +64 (c +64 n) ≡ (a +64 c) +64 n
add_later a c n = sym (+64_assoc a c n)

-- What the loop of Build adds up.
add_totals-columns :
    (ts : List VendorStripTotal) (r : StripRow)
    → r.today < word_mod
    → r.week < word_mod
    → r.month < word_mod
    → ((add_totals ts r).today ≡ r.today +64 column (λ t. t.today) ts)
      × ((add_totals ts r).week ≡ r.week +64 column (λ t. t.week) ts)
      × ((add_totals ts r).month ≡ r.month +64 column (λ t. t.month) ts)
unfolding add_totals
add_totals-columns [] r d w m =
    (sym (add64-zero r.today d), sym (add64-zero r.week w), sym (add64-zero r.month m))
add_totals-columns (t ∷ ts) r d w m =
    let next = record r {
      today = r.today +64 t.today;
      week = r.week +64 t.week;
      month = r.month +64 t.month;
    } in
    let (a, b, c) =
      add_totals-columns ts next (+64-lt r.today t.today) (+64-lt r.week t.week)
        (+64-lt r.month t.month) in
    (
      a ∙ +64_assoc r.today t.today (column (λ t. t.today) ts),
      b ∙ +64_assoc r.week t.week (column (λ t. t.week) ts),
      c ∙ +64_assoc r.month t.month (column (λ t. t.month) ts),
    )

module _ (earlier : ℕ → ℕ → Bool) where
  sum_amounts : ℕ → List Event → ℕ
  sum_amounts p [] = 0
  sum_amounts p (e ∷ es) = amount earlier p e +64 sum_amounts p es

  module _ (day week month : ℕ) (f : VendorStripTotal → ℕ) (p : ℕ)
      (fresh : (e : Event) → f (fresh_total earlier day week month e) ≡ 0 +64 amount earlier p e)
      (grown : (e : Event) (t : VendorStripTotal)
        → f (grown_total earlier day week month e t) ≡ f t +64 amount earlier p e) where
    -- A column whose cells grow by the amounts of one period grows by them.
    column-add_to_group :
        (e : Event) (ts : List VendorStripTotal)
        → column f (add_to_group earlier day week month e ts) ≡ column f ts +64 amount earlier p e
    unfolding add_to_group
    column-add_to_group e [] =
        ap (λ n. n +64 0) (fresh e)
        ∙ add64-zero (0 +64 amount earlier p e) (+64-lt 0 (amount earlier p e))
    column-add_to_group e (t ∷ ts) = elim (Bool-cases (t.agent == e.agent)) [
      | inl same ↦ rw (same, grown e t) (add_first (f t) (column f ts) (amount earlier p e))
      | inr other ↦
          rw (other, column-add_to_group e ts) (add_later (f t) (column f ts) (amount earlier p e))
    ]

    column-group_agents :
        (es : List Event) (ts : List VendorStripTotal)
        → column f (group_agents earlier day week month es ts) +64 0
          ≡ column f ts +64 sum_amounts p es
    unfolding group_agents sum_amounts
    column-group_agents [] ts = refl
    column-group_agents (e ∷ es) ts =
        column-group_agents es (add_to_group earlier day week month e ts)
        ∙ ap (λ n. n +64 sum_amounts p es) (column-add_to_group e ts)
        ∙ +64_assoc (column f ts) (amount earlier p e) (sum_amounts p es)

  -- Each of the events that is in the period is among those that the query reads.
  abbrev Covers : ℕ → ℕ → List Event → Type 0
  Covers from p [] = Unit
  Covers from p (e ∷ es) =
      ((earlier e.at from ≡ false) ⊎ (earlier e.at p ≡ true)) × Covers from p es

  amount-in : (p : ℕ) (e : Event) → earlier e.at p ≡ false → amount earlier p e ≡ row_tokens e
  unfolding amount
  amount-in p e h = rw h refl

  amount-out : (p : ℕ) (e : Event) → earlier e.at p ≡ true → amount earlier p e ≡ 0
  unfolding amount
  amount-out p e h = rw h refl

  sum_amounts-filter :
      (from p : ℕ) (es : List Event)
      → Covers from p es
      → sum_amounts p (filter (at_or_after earlier from) es)
        ≡ sum_tokens (filter (at_or_after earlier p) es)
  unfolding sum_amounts sum_tokens
  sum_amounts-filter from p [] c = refl
  sum_amounts-filter from p (e ∷ es) c = elim (Bool-cases (earlier e.at p)) [
    | inr inside ↦
        let read : earlier e.at from ≡ false = ground (arith, c.0, inside) in
        rw (inside, read, amount-in p e inside)
          (ap (λ n. row_tokens e +64 n) (sum_amounts-filter from p es c.1))
    | inl outside ↦ rw outside (elim (Bool-cases (earlier e.at from)) [
      | inl unread ↦ rw unread (sum_amounts-filter from p es c.1)
      | inr seen ↦
          rw (seen, amount-out p e outside, sum_amounts-filter from p es c.1)
            (zero_left (sum_tokens (filter (at_or_after earlier p) es))
              (sum_tokens-lt (filter (at_or_after earlier p) es)))
    ])
  ]

  column-lt : (f : VendorStripTotal → ℕ) (ts : List VendorStripTotal) → column f ts < word_mod
  column-lt f [] = omega arith
  column-lt f (t ∷ ts) = +64-lt (f t) (column f ts)

  -- One column of the grouped rows sums up to the tokens of its period.
  column-tokens :
      (day week month : ℕ) (f : VendorStripTotal → ℕ) (from p : ℕ) (es : List Event)
      → ((e : Event) → f (fresh_total earlier day week month e) ≡ 0 +64 amount earlier p e)
      → ((e : Event) (t : VendorStripTotal)
          → f (grown_total earlier day week month e t) ≡ f t +64 amount earlier p e)
      → Covers from p es
      → 0
          +64 column f
              (group_agents earlier day week month (filter (at_or_after earlier from) es) [])
        ≡ sum_tokens (filter (at_or_after earlier p) es)
  column-tokens day week month f from p es fresh grown c =
      let read = filter (at_or_after earlier from) es in
      +64_comm 0 (column f (group_agents earlier day week month read []))
      ∙ column-group_agents day week month f p fresh grown read []
      ∙ ap (λ n. 0 +64 n) (sum_amounts-filter from p es c)
      ∙ zero_left (sum_tokens (filter (at_or_after earlier p) es))
          (sum_tokens-lt (filter (at_or_after earlier p) es))

  build_strip-Total :
      (day week month : ℕ) (db : Db)
      → Covers (strip_from day week month) day db.events
      → Covers (strip_from day week month) week db.events
      → Covers (strip_from day week month) month db.events
      → (p : StripPayload) × ((build_strip earlier false day week month db ≡ done p)
          × ((p.total.today ≡ sum_tokens (filter (at_or_after earlier day) db.events))
              × ((p.total.week ≡ sum_tokens (filter (at_or_after earlier week) db.events))
                  × (p.total.month ≡ sum_tokens (filter (at_or_after earlier month) db.events)))))
  unfolding build_strip vendor_strip_totals
  build_strip-Total day week month db d w m =
      let from = strip_from day week month in
      let ts =
        group_agents earlier day week month (filter (at_or_after earlier from) db.events) [] in
      let (a, b, c) = add_totals-columns ts no_total (omega arith) (omega arith) (omega arith) in
      (
        _,
        (
          refl,
          (
            a
                ∙ column-tokens day week month (λ t. t.today) from day db.events (λ e. refl)
                    (λ e t. refl) d,
            (
              b
                  ∙ column-tokens day week month (λ t. t.week) from week db.events (λ e. refl)
                      (λ e t. refl) w,
              c
                  ∙ column-tokens day week month (λ t. t.month) from month db.events (λ e. refl)
                      (λ e t. refl) m,
            ),
          ),
        ),
      )

  -- The texts of two instants before `era`, the end of the years of four digits, stand in the order of
  -- the seconds that the instants lie in.
  abbrev pub BySecond : ℕ → Type 0
  BySecond era =
      (a b : ℕ)
      → a < era
      → b < era
      → a / second < b / second
      → (earlier a b ≡ true) × (earlier b a ≡ false)

  -- No event lies in the second of the moment.
  abbrev pub Apart : ℕ → ℕ → List Event → Type 0
  Apart era p = All (λ (e : Event). (e.at < era) × (e.at / second ≢ p / second))

  text_order :
      (era p : ℕ) (e : Event)
      → BySecond era
      → p < era
      → (e.at < era) × (e.at / second ≢ p / second)
      → earlier e.at p ≡ ltb e.at p
  text_order era p e by h apart = elim (Bool-cases (ltb (e.at / second) (p / second))) [
    | inl below ↦
        let (sooner, _) = by e.at p apart.0 h (ground arith) in
        let less : e.at < p = ground arith in sooner ∙ sym (lt→ltb e.at p less)
    | inr above ↦
        let least : e.at / second ≢ p / second = apart.1 in
        let up : p / second < e.at / second = ground (arith, least) in
        let (_, later) = by p e.at h apart.0 up in
        let more : p ≤ e.at = omega (arith, up) in later ∙ sym (le→ltb e.at p more)
  ]

  filter-since :
      (era p : ℕ) (es : List Event)
      → BySecond era
      → p < era
      → Apart era p es
      → filter (at_or_after earlier p) es ≡ filter (λ (e : Event). leb p e.at) es
  filter-since era p [] by h apart = refl
  filter-since era p (e ∷ es) by h apart =
      let same : not (earlier e.at p) ≡ leb p e.at =
        ap not (text_order era p e by h apart.0) ∙ ground arith in
      rw (same, filter-since era p es by h apart.1) refl

  Covers-since :
      (era from p : ℕ) (es : List Event)
      → BySecond era
      → from ≤ p
      → from < era
      → p < era
      → Apart era from es
      → Apart era p es
      → Covers from p es
  Covers-since era from p [] by le f h near apart = tt
  Covers-since era from p (e ∷ es) by le f h near apart = (
    elim (Bool-cases (ltb e.at from)) [
      | inl less ↦ inr (text_order era p e by h apart.0 ∙ lt→ltb e.at p (ground (arith, le)))
      | inr kept ↦ inl (text_order era from e by f near.0 ∙ kept)
    ],
    Covers-since era from p es by le f h near.1 apart.1,
  )

  -- The earliest of three moments is one of them.
  strip_from-cases :
      (P : ℕ → Type 0) (day week month : ℕ)
      → P day
      → P week
      → P month
      → P (strip_from day week month)
  unfolding strip_from
  strip_from-cases P day week month d w m =
      if_both P (ltb month (sooner day week)) m (if_both P (ltb week day) w d)

  strip_from-le :
      (day week month : ℕ)
      → (strip_from day week month ≤ day)
        × ((strip_from day week month ≤ week) × (strip_from day week month ≤ month))
  unfolding strip_from
  strip_from-le day week month = ground arith

  -- Where the texts of two instants stand in the order of their seconds, and no event lies in the
  -- second in which the day, the week or the month starts: if the query does not fail, Build returns a
  -- payload, and the Total row of it has the tokens of all events since the start of the day, of the
  -- week and of the month, whatever their agents.
  pub build_strip-Since :
      (era day week month : ℕ) (db : Db)
      → BySecond era
      → (day < era) × ((week < era) × (month < era))
      → Apart era day db.events
      → Apart era week db.events
      → Apart era month db.events
      → (p : StripPayload) × ((build_strip earlier false day week month db ≡ done p)
          × ((p.total.today ≡ sum_tokens (filter (λ (e : Event). leb day e.at) db.events))
              × ((p.total.week ≡ sum_tokens (filter (λ (e : Event). leb week e.at) db.events))
                  × (p.total.month
                      ≡ sum_tokens (filter (λ (e : Event). leb month e.at) db.events)))))
  build_strip-Since era day week month db by h d w m =
      let from = strip_from day week month in
      let start : from < era = strip_from-cases (λ t. t < era) day week month h.0 h.1.0 h.1.1 in
      let near = strip_from-cases (λ t. Apart era t db.events) day week month d w m in
      let le = strip_from-le day week month in
      let (p, (is, (a, (b, c)))) =
        build_strip-Total day week month db
          (Covers-since era from day db.events by le.0 start h.0 near d)
          (Covers-since era from week db.events by le.1.0 start h.1.0 near w)
          (Covers-since era from month db.events by le.1.1 start h.1.1 near m) in
      (
        p,
        (
          is,
          (
            a ∙ ap sum_tokens (filter-since era day db.events by h.0 d),
            (
              b ∙ ap sum_tokens (filter-since era week db.events by h.1.0 w),
              c ∙ ap sum_tokens (filter-since era month db.events by h.1.1 m),
            ),
          ),
        ),
      )
