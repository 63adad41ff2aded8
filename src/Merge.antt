-- ===== src/Merge.antt =====
-- internal/merge/merge.go: export files combined into totals per client, vendor and week.
-- A map of Go is an association list, and the index maps with their slices are lists of groups in
-- first-seen order. A row's costs, which Merge does not read, are left out.
pub mod Groups
pub mod Sorted
pub mod Totals
mod Tests
use burnmon.Base.{
  ℕ, String, Bool, true, false, Option, none, some, List, [], ◌∷◌, ◌++◌, ◌+64◌, ◌==◌, nat_eq,
  string_eq, if◌then◌else◌, any,
}
use burnmon.Calendar.{week_of_day}
use Groups.{Group, add_tokens, sort_groups}

-- internal/export's Row.
pub record Row : Type 0 where
  pub day : String
  pub owner : String
  pub client : String
  pub vendor : String
  pub model : String
  pub input : ℕ
  pub cache_write : ℕ
  pub cache_read : ℕ
  pub output : ℕ
  pub reasoning : ℕ

pub record Doc : Type 0 where
  pub schema : ℕ
  pub label : String
  pub rows : List Row

pub record Merged : Type 0 where
  pub schema : ℕ
  pub labels : List String
  pub by_client : List Group
  pub by_vendor : List Group
  pub by_week : List Group

pub data Error : Type 0 where
  no_files : Error
  schema_mismatch : String → ℕ → String → ℕ → Error

pub data Result : Type 0 where
  ok : Merged → Result
  err : Error → Result

unfoldable pub tokens : Row → ℕ
tokens r = r.input +64 r.cache_write +64 r.cache_read +64 r.output +64 r.reasoning

-- The group keys of a row.
unfoldable pub client_key : Row → String
client_key r = if r.client == "" then "unassigned" else r.client

abbrev pub vendor_key : Row → String
vendor_key r = r.vendor

unfoldable pub row_week : Row → String
unfolding week_of_day
row_week r = week_of_day r.day

-- The variables of the loop.
pub record Tally : Type 0 where
  pub labels : List String
  pub clients : List Group
  pub vendors : List Group
  pub weeks : List Group

abbrev pub empty_tally : Tally
empty_tally = record { labels = []; clients = []; vendors = []; weeks = [] }

unfoldable pub add_row : String → Row → Tally → Tally
add_row label r t = record t {
  clients = add_tokens (client_key r) label (tokens r) t.clients;
  vendors = add_tokens (vendor_key r) label (tokens r) t.vendors;
  weeks = add_tokens (row_week r) label (tokens r) t.weeks;
}

unfoldable pub add_rows : String → List Row → Tally → Tally
add_rows label [] t = t
add_rows label (r ∷ rs) t = add_rows label rs (add_row label r t)

unfoldable pub see_label : String → List String → List String
see_label l ls = if any (λ m. m == l) ls then ls else ls ++ l ∷ []

unfoldable pub add_docs : List Doc → Tally → Tally
add_docs [] t = t
add_docs (d ∷ ds) t =
    add_docs ds (add_rows d.label d.rows (record t { labels = see_label d.label t.labels }))

-- The first document whose schema is another one.
unfoldable pub mismatch : ℕ → List Doc → Option Doc
mismatch s [] = none
mismatch s (d ∷ ds) = if d.schema == s then mismatch s ds else some d

unfoldable pub finish : ℕ → Tally → Merged
finish schema t = record {
  schema = schema;
  labels = t.labels;
  by_client = sort_groups t.clients;
  by_vendor = sort_groups t.vendors;
  by_week = sort_groups t.weeks;
}

-- After the schema check: refused at the first document of another schema, or merged.
unfoldable pub unless_mismatch : Doc → List Doc → Option Doc → Result
unfolding finish
unless_mismatch d ds (some other) = err (schema_mismatch d.label d.schema other.label other.schema)
unless_mismatch d ds none = ok (finish d.schema (add_docs (d ∷ ds) empty_tally))

unfoldable pub merge : List Doc → Result
unfolding unless_mismatch
merge [] = err no_files
merge (d ∷ ds) = unless_mismatch d ds (mismatch d.schema ds)
