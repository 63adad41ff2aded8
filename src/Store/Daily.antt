-- ===== src/Store/Daily.antt =====
-- `dailyTokenTotals` of internal/store/store.go: the tokens of each local day.
-- `earlier` is the order of the stored texts of two instants and `date` the local day of one,
-- both the work of packages outside the repository. The sum of a row is taken on int64, which is
-- SQLite's as long as it does not leave it.
use burnmon.Base.{
  ℕ, String, Bool, not, ◌&&◌, ◌||◌, ◌==◌, ◌+64◌, List, [], ◌∷◌, filter, is_zero, string_eq,
  if◌then◌else◌,
}
use burnmon.Schema.{Event, is_turn, value_or_zero}
use burnmon.Store.Db.{Db, Outcome, done, failed, query_failed}

-- DailyTokenTotal
pub record DayTotal : Type 0 where
  pub date : String
  pub tokens : ℕ

unfoldable pub row_tokens : Event → ℕ
unfolding value_or_zero
row_tokens e = e.input +64 value_or_zero e.cache_write +64 value_or_zero e.cache_read +64 e.output

-- byDay[day] += tokens, with a new day last in `order`.
unfoldable pub add_day : String → ℕ → List DayTotal → List DayTotal
add_day day n [] = record { date = day; tokens = 0 +64 n } ∷ []
add_day day n (d ∷ ds) =
    if d.date == day then record d { tokens = d.tokens +64 n } ∷ ds else d ∷ add_day day n ds

module _ (earlier : ℕ → ℕ → Bool) (date : ℕ → String) where
  unfoldable pub in_range : ℕ → ℕ → Event → Bool
  in_range from to e = not (earlier e.at from) && is_turn e && (is_zero to || earlier e.at to)

  -- ORDER BY at ASC
  unfoldable pub insert_at : Event → List Event → List Event
  insert_at e [] = e ∷ []
  insert_at e (x ∷ xs) = if earlier x.at e.at then x ∷ insert_at e xs else e ∷ x ∷ xs

  unfoldable pub sort_at : List Event → List Event
  unfolding insert_at
  sort_at [] = []
  sort_at (e ∷ es) = insert_at e (sort_at es)

  unfoldable pub bucket_days : List Event → List DayTotal → List DayTotal
  unfolding add_day row_tokens
  bucket_days [] acc = acc
  bucket_days (e ∷ es) acc = bucket_days es (add_day (date e.at) (row_tokens e) acc)

  -- A `to` that is the zero time sets no upper bound.
  unfoldable pub daily_token_totals : Bool → ℕ → ℕ → Db → Outcome (List DayTotal)
  unfolding in_range sort_at bucket_days
  daily_token_totals fails from to db =
      if fails
      then failed query_failed
      else done (bucket_days (sort_at (filter (in_range from to) db.events)) [])
