-- ===== src/Agg.antt =====
-- internal/agg/agg.go: the sessions rolled up into buckets by month, week and day; and ToolGroup of
-- internal/scan/types.go. A map of Go is a list of its pairs, which a range visits in that order;
-- the source sorts the keys wherever the order matters. Costs are floating point: their zero, their
-- sum and `round4` are parameters. A text's length and prefix are counted in characters, of which
-- the dates here have one per byte.
pub mod Build
pub mod Sessions
pub mod Balance
mod Tests
use Prim.Native.String.{◌++◌ as join}
use burnmon.Base.{
  ℕ, zero, suc, ◌+◌, String, Bool, true, false, not, ◌&&◌, ◌||◌, Option, none, some, List, [], ◌∷◌,
  ◌++◌, any, map, length, get_last?, str_lt, ltb, ◌+64◌, ◌==◌, string_eq, if◌then◌else◌, codes,
}
use burnmon.Calendar.{Date, parse_day, week_key, year_text, pad_two}

pub record PerModel (F : Type 0) : Type 0 where
  pub calls : ℕ
  pub tokens : ℕ
  pub cost : F
  pub cost_sub : F

-- SurfaceAgg.
pub record SurfaceAgg (F : Type 0) : Type 0 where
  pub calls : ℕ
  pub tokens : ℕ
  pub cost : F
  pub cost_sub : F
  pub sessions : ℕ

pub record ToolAgg : Type 0 where
  pub calls : ℕ
  pub sessions : ℕ

pub record Bucket (F : Type 0) : Type 0 where
  pub calls : ℕ
  pub tokens : ℕ
  pub cost : F
  pub cost_sub : F
  pub sessions : ℕ
  pub fresh : ℕ
  pub cache_w : ℕ
  pub cache_r : ℕ
  pub out : ℕ
  pub by_surface : List (String × SurfaceAgg F)
  pub by_model : List (String × PerModel F)
  pub by_tool : List (String × ToolAgg)

-- The fields of scan.Session that `Build` reads.
pub record Session (F : Type 0) : Type 0 where
  pub surface : String
  pub start : String
  pub finish : String
  pub fresh : ℕ
  pub cache_w : ℕ
  pub cache_r : ℕ
  pub out : ℕ
  pub models : List (String × PerModel F)
  pub tools : List (String × ℕ)
  pub daily : List (String × PerModel F)

-- m[k], made if it is new, and changed.
unfoldable pub change {ℓ} :
    {A : Type ℓ} → A → String → (A → A) → List (String × A) → List (String × A)
change new k f [] = (k, f new) ∷ []
change new k f ((j, a) ∷ m) = if j == k then (j, f a) ∷ m else (j, a) ∷ change new k f m

-- strings.HasPrefix and what follows the prefix.
abbrev pub after_prefix : String → String → Option String
after_prefix String.[] s = some s
after_prefix (String.◌∷◌ p ps) String.[] = none
after_prefix (String.◌∷◌ p ps) (String.◌∷◌ c s) =
    let rest = after_prefix ps s in
    if String.◌∷◌ p String.[] == String.◌∷◌ c String.[] then rest else none

-- What stands before "__", or everything.
abbrev pub before_bars : String → String
before_bars String.[] = String.[]
before_bars (String.◌∷◌ c s) =
    let rest = before_bars s in
    elim (after_prefix "__" (String.◌∷◌ c s)) [ some r ↦ String.[] | none ↦ String.◌∷◌ c rest ]

unfoldable pub tool_group : String → String
tool_group name = elim (after_prefix "mcp__" name) [
  | some rest ↦ before_bars rest
  | none ↦ elim (after_prefix "skill:" name) [ some rest ↦ rest | none ↦ "(built in)" ]
]

unfoldable pub month_key : Date → String
month_key d = join (year_text d.year) (join "-" (pad_two d.month))

-- sort.Strings
unfoldable pub insert_day {ℓ} : {A : Type ℓ} → String × A → List (String × A) → List (String × A)
insert_day d [] = d ∷ []
insert_day d (e ∷ es) = if str_lt e.0 d.0 then e ∷ insert_day d es else d ∷ e ∷ es

unfoldable pub sort_days {ℓ} : {A : Type ℓ} → List (String × A) → List (String × A)
unfolding insert_day
sort_days [] = []
sort_days (d ∷ ds) = insert_day d (sort_days ds)

abbrev pub prefix : ℕ → String → String
prefix zero s = String.[]
prefix (suc n) String.[] = String.[]
prefix (suc n) (String.◌∷◌ c s) = String.◌∷◌ c (prefix n s)

abbrev pub too_short : String → Bool
too_short s = ltb (length (codes s)) 10
