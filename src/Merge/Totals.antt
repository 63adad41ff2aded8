-- ===== src/Merge/Totals.antt =====
-- What the merged document says: its cells, its totals and its order, against the documents.
use burnmon.Base.{
  ℕ, String, true, false, none, some, List, [], ◌∷◌, ◌++◌, ◌+64◌, +64_comm, ◌==◌, nat_eq, string_eq,
  if◌then◌else◌, map, filter, ◌≡◌, refl, ◌∙◌, arith, Bool-cases, inl, inr,
}
use burnmon.Merge.{
  Row, Doc, Result, ok, err, schema_mismatch, tokens, client_key, vendor_key, row_week, Tally,
  empty_tally, add_row, add_rows, see_label, add_docs, mismatch, finish, unless_mismatch, merge,
}
use burnmon.Merge.Groups.{
  Group, add_tokens, sort_groups, cell, cell-add_tokens, cell-sort_groups, grand_total,
  grand_total-add_tokens, grand_total-sort_groups,
}
use burnmon.Merge.Sorted.{Distinct, Ascending, add_tokens-Distinct, sort_groups-Ascending}

-- The wrapped sum of the numbers, from a start.
abbrev pub sum_from : ℕ → List ℕ → ℕ
sum_from acc [] = acc
sum_from acc (n ∷ ns) = sum_from (acc +64 n) ns

-- The token counts of the rows of one group, in the documents of one label.
abbrev pub rows_of : (Row → String) → String → List Row → List ℕ
rows_of key name rows = map tokens (filter (λ r. key r == name) rows)

abbrev pub tokens_of : (Row → String) → String → String → List Doc → List ℕ
tokens_of key name label [] = []
tokens_of key name label (d ∷ ds) =
    (if d.label == label then rows_of key name d.rows else []) ++ tokens_of key name label ds

abbrev pub all_tokens : List Doc → List ℕ
all_tokens [] = []
all_tokens (d ∷ ds) = map tokens d.rows ++ all_tokens ds

-- One breakdown alone.
unfoldable collect_rows : (Row → String) → String → List Row → List Group → List Group
collect_rows key l [] gs = gs
collect_rows key l (r ∷ rs) gs = collect_rows key l rs (add_tokens (key r) l (tokens r) gs)

unfoldable collect : (Row → String) → List Doc → List Group → List Group
unfolding collect_rows
collect key [] gs = gs
collect key (d ∷ ds) gs = collect key ds (collect_rows key d.label d.rows gs)

unfoldable labels_of : List Doc → List String → List String
labels_of [] ls = ls
labels_of (d ∷ ds) ls = labels_of ds (see_label d.label ls)

add_rows-collect_rows :
    (l : String) (rs : List Row) (t : Tally)
    → add_rows l rs t ≡ record t {
      clients = collect_rows client_key l rs t.clients;
      vendors = collect_rows vendor_key l rs t.vendors;
      weeks = collect_rows row_week l rs t.weeks;
    }
unfolding add_rows add_row collect_rows
add_rows-collect_rows l [] t = refl
add_rows-collect_rows l (r ∷ rs) t = add_rows-collect_rows l rs (add_row l r t)

add_docs-collect :
    (ds : List Doc) (t : Tally)
    → add_docs ds t ≡ record {
      labels = labels_of ds t.labels;
      clients = collect client_key ds t.clients;
      vendors = collect vendor_key ds t.vendors;
      weeks = collect row_week ds t.weeks;
    }
unfolding add_docs collect labels_of
add_docs-collect [] t = refl
add_docs-collect (d ∷ ds) t =
    let t' = record t { labels = see_label d.label t.labels } in
    rw (add_rows-collect_rows d.label d.rows t') (
      add_docs-collect ds (record t' {
        clients = collect_rows client_key d.label d.rows t.clients;
        vendors = collect_rows vendor_key d.label d.rows t.vendors;
        weeks = collect_rows row_week d.label d.rows t.weeks;
      }))

sum_from-++ : (acc : ℕ) (ms ns : List ℕ) → sum_from acc (ms ++ ns) ≡ sum_from (sum_from acc ms) ns
sum_from-++ acc [] ns = refl
sum_from-++ acc (m ∷ ms) ns = sum_from-++ (acc +64 m) ms ns

cell-collect_rows :
    (key : Row → String) (a j l : String) (rs : List Row) (gs : List Group)
    → cell a j (collect_rows key l rs gs)
      ≡ sum_from (cell a j gs) (if l == j then rows_of key a rs else [])
unfolding collect_rows
cell-collect_rows key a j l [] gs = ground arith
cell-collect_rows key a j l (r ∷ rs) gs =
    cell-collect_rows key a j l rs (add_tokens (key r) l (tokens r) gs)
    ∙ rw (cell-add_tokens a j (key r) l (tokens r) gs) (elim (Bool-cases (key r == a)) [
      | inl e ↦ rw e (elim (Bool-cases (l == j)) [ inl f ↦ rw f | inr f ↦ rw f ])
      | inr e ↦ rw e
    ])

cell-collect :
    (key : Row → String) (a j : String) (ds : List Doc) (gs : List Group)
    → cell a j (collect key ds gs) ≡ sum_from (cell a j gs) (tokens_of key a j ds)
unfolding collect
cell-collect key a j [] gs = refl
cell-collect key a j (d ∷ ds) gs = rw (
  cell-collect key a j ds (collect_rows key d.label d.rows gs),
  cell-collect_rows key a j d.label d.rows gs,
  sum_from-++ (cell a j gs) (if d.label == j then rows_of key a d.rows else [])
      (tokens_of key a j ds),
)

grand_total-collect_rows :
    (key : Row → String) (l : String) (rs : List Row) (gs : List Group)
    → grand_total (collect_rows key l rs gs) ≡ sum_from (grand_total gs) (map tokens rs)
unfolding collect_rows
grand_total-collect_rows key l [] gs = refl
grand_total-collect_rows key l (r ∷ rs) gs = rw (
  grand_total-collect_rows key l rs (add_tokens (key r) l (tokens r) gs),
  grand_total-add_tokens (key r) l (tokens r) gs,
  +64_comm (tokens r) (grand_total gs),
)

grand_total-collect :
    (key : Row → String) (ds : List Doc) (gs : List Group)
    → grand_total (collect key ds gs) ≡ sum_from (grand_total gs) (all_tokens ds)
unfolding collect
grand_total-collect key [] gs = refl
grand_total-collect key (d ∷ ds) gs = rw (
  grand_total-collect key ds (collect_rows key d.label d.rows gs),
  grand_total-collect_rows key d.label d.rows gs,
  sum_from-++ (grand_total gs) (map tokens d.rows) (all_tokens ds),
)

collect_rows-Distinct :
    (key : Row → String) (l : String) (rs : List Row) (gs : List Group)
    → Distinct gs
    → Distinct (collect_rows key l rs gs)
unfolding collect_rows
collect_rows-Distinct key l [] gs d = d
collect_rows-Distinct key l (r ∷ rs) gs d =
    collect_rows-Distinct key l rs (add_tokens (key r) l (tokens r) gs)
      (add_tokens-Distinct (key r) l (tokens r) gs d)

collect-Distinct :
    (key : Row → String) (ds : List Doc) (gs : List Group)
    → Distinct gs
    → Distinct (collect key ds gs)
unfolding collect
collect-Distinct key [] gs p = p
collect-Distinct key (d ∷ ds) gs p =
    collect-Distinct key ds (collect_rows key d.label d.rows gs)
      (collect_rows-Distinct key d.label d.rows gs p)

-- What a breakdown by `key` must say.
abbrev pub Breakdown : (Row → String) → List Doc → List Group → Type 0
Breakdown key ds gs =
    ((a j : String) → cell a j gs ≡ sum_from 0 (tokens_of key a j ds))
    × ((grand_total gs ≡ sum_from 0 (all_tokens ds)) × Ascending gs)

sort_groups-collect-Breakdown :
    (key : Row → String) (ds : List Doc) → Breakdown key ds (sort_groups (collect key ds []))
unfolding cell grand_total
sort_groups-collect-Breakdown key ds = (
  λ a j. cell-sort_groups a j (collect key ds []) ∙ cell-collect key a j ds [],
  (
    grand_total-sort_groups (collect key ds []) ∙ grand_total-collect key ds [],
    sort_groups-Ascending (collect key ds []) (collect-Distinct key ds [] tt),
  ),
)

merge_ok :
    (d : Doc) (ds : List Doc)
    → mismatch d.schema ds ≡ none
    → merge (d ∷ ds)
      ≡ ok (
          finish d.schema (record {
            labels = labels_of (d ∷ ds) [];
            clients = collect client_key (d ∷ ds) [];
            vendors = collect vendor_key (d ∷ ds) [];
            weeks = collect row_week (d ∷ ds) [];
          }))
unfolding merge unless_mismatch
merge_ok d ds h = rw (h, add_docs-collect (d ∷ ds) empty_tally)

abbrev pub SameSchema : ℕ → List Doc → Type 0
SameSchema s [] = Unit
SameSchema s (d ∷ ds) = ((d.schema == s) ≡ true) × SameSchema s ds

mismatch-none : (s : ℕ) (ds : List Doc) → SameSchema s ds → mismatch s ds ≡ none
unfolding mismatch
mismatch-none s [] h = refl
mismatch-none s (d ∷ ds) h = rw h.0 (mismatch-none s ds h.1)

-- The documents that Merge accepts are merged into the three breakdowns.
abbrev pub Complete : List Doc → Result → Type 0
Complete ds (err e) = ⊥
Complete ds (ok m) =
    Breakdown client_key ds m.by_client
    × (Breakdown vendor_key ds m.by_vendor × Breakdown row_week ds m.by_week)

-- Documents of one schema merge, and in each of the breakdowns by client, by vendor and by week
-- a cell is the wrapped sum of the tokens of the rows with that key in the documents of that
-- label, the totals sum up to the tokens of all rows, and the groups ascend strictly by name.
pub merge-Complete :
    (d : Doc) (ds : List Doc) → SameSchema d.schema ds → Complete (d ∷ ds) (merge (d ∷ ds))
unfolding finish
merge-Complete d ds h = rw (merge_ok d ds (mismatch-none d.schema ds h)) (
  sort_groups-collect-Breakdown client_key (d ∷ ds),
  (
    sort_groups-collect-Breakdown vendor_key (d ∷ ds),
    sort_groups-collect-Breakdown row_week (d ∷ ds),
  ),
)

mismatch_found :
    (s : ℕ) (ds es : List Doc) (e : Doc)
    → SameSchema s ds
    → (e.schema == s) ≡ false
    → mismatch s (ds ++ e ∷ es) ≡ some e
unfolding mismatch
mismatch_found s [] es e h k = rw k
mismatch_found s (d ∷ ds) es e h k = rw h.0 (mismatch_found s ds es e h.1 k)

-- The first document whose schema differs from that of the first one is refused, and the error
-- names both.
merge_refuses :
    (d e : Doc) (ds es : List Doc)
    → SameSchema d.schema ds
    → (e.schema == d.schema) ≡ false
    → merge (d ∷ (ds ++ e ∷ es)) ≡ err (schema_mismatch d.label d.schema e.label e.schema)
unfolding merge unless_mismatch
merge_refuses d e ds es h k = rw (mismatch_found d.schema ds es e h k)
