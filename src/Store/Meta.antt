-- ===== src/Store/Meta.antt =====
-- `Meta` and `SetMeta`: the values that the program keeps under a name, and `SetCursor` beside them.
use burnmon.Base.{
  String, Bool, false, Option, none, some, ◌≡◌, refl, ◌==◌, ◌∙◌, ap, sym, Bool-cases, inl, inr,
  string_eq, if◌then◌else◌, eq_of_==,
}
use burnmon.Store.Db.{Db, MetaRow, Error, statement_failed, Outcome, done, failed, query_failed}
use burnmon.Store.Table.{row, upsert, row-upsert, row-key, resolved}

abbrev pub meta_name : MetaRow → String
meta_name r = r.name

-- Whether the query fails for another reason than a missing row; none is no error and not found.
unfoldable pub meta : Bool → String → Db → Outcome (Option MetaRow)
unfolding row
meta fails k db = if fails then failed query_failed else done (row meta_name k db.meta)

abbrev pub resolve_meta : MetaRow → MetaRow → MetaRow
resolve_meta old new = record old { value = new.value }

unfoldable pub set_meta : Bool → MetaRow → Db → Db × Option Error
unfolding upsert
set_meta fails r db =
    if fails
    then (db, some statement_failed)
    else (record db { meta = upsert meta_name resolve_meta r db.meta }, none)

resolved-meta :
    (r : MetaRow) (o : Option MetaRow)
    → ((x : MetaRow) → o ≡ some x → x.name ≡ r.name)
    → resolved resolve_meta r o ≡ r
resolved-meta r none h = refl
resolved-meta r (some x) h = ap (λ n. record r { name = n }) (h x refl)

-- The value that SetMeta stores under a name is the one that Meta reads back, and every other name
-- reads as before.
pub meta-set_meta :
    (k : String) (r : MetaRow) (db : Db)
    → meta false k (set_meta false r db).0
      ≡ (if r.name == k then done (some r) else meta false k db)
unfolding meta set_meta
meta-set_meta k r db =
    ap done (row-upsert meta_name resolve_meta (λ x s e. refl) k r db.meta)
    ∙ elim (Bool-cases (r.name == k)) [
      | inl same ↦ rw same (
          ap (λ v. done (some v))
            (resolved-meta r (row meta_name k db.meta)
              (λ x found. row-key meta_name k db.meta x found ∙ sym (eq_of_== r.name k same))))
      | inr other ↦ rw other refl
    ]
