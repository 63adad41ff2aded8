-- ===== src/Dataset/Ingest/Again.antt =====
-- `ingest`: a second pass over the same file.
use burnmon.Base.{
  ℕ, String, Bool, length, map, true, false, Option, none, some, List, ◌≡◌, refl, sym, ap, ◌∙◌,
  subst, ◌⊎◌, arith, Bool-cases, Option-cases, inl, inr, nat_eq, string_eq, ==_refl,
}
use burnmon.Paths.{Os}
use burnmon.Store.Db.{Db, CursorRow, Error}
use burnmon.Store.Table.{row, resolved, row-upsert}
use burnmon.Store.Cursors.{cursor, set_cursor, cursor_path, resolve_cursor}
use burnmon.Dataset.{adapter_for_path}
use burnmon.Dataset.Ingest.{
  Stat, Parsed, World, Plan, skip, read_from, plan, fully_read, and_then, store_parsed,
  store_events, store_calls, batches, store_read, read_file, follow, ingest_with, ingest_file,
  assign,
}
use burnmon.Dataset.Ingest.Batches.{and_then-ok}

abbrev ended : String → ℕ → ℕ → ℕ → CursorRow
ended p m s n = record { path = p; offset = n; mtime = m; size = s }

resolved-fully_read :
    (p : String) (m s n : ℕ) (old : Option CursorRow)
    → n ≡ s
    → fully_read (resolved resolve_cursor (ended p m s n) old) (m, s) ≡ true
unfolding fully_read
resolved-fully_read p m s n none h = ground (arith, h)
resolved-fully_read p m s n (some old) h = ground (arith, h)

-- A cursor of the path that covers the file.
abbrev Covered : String → ℕ → ℕ → Db → Type 0
Covered p m s db = (c : CursorRow) × ((cursor p db ≡ some c) × (fully_read c (m, s) ≡ true))

set_cursor-Covered :
    (fails : Bool) (p : String) (m s n : ℕ) (db : Db)
    → n ≡ s
    → (set_cursor fails (ended p m s n) db).1 ≡ none
    → Covered p m s (set_cursor fails (ended p m s n) db).0
unfolding set_cursor cursor
set_cursor-Covered true p m s n db e h = ground (arith, h)
set_cursor-Covered false p m s n db e h =
    let old = row cursor_path p db.cursors in
    (
      resolved resolve_cursor (ended p m s n) old,
      (
        row-upsert cursor_path resolve_cursor (λ x r e. refl) p (ended p m s n) db.cursors
            ∙ rw (==_refl p),
        resolved-fully_read p m s n old e,
      ),
    )

plan-cases : (pl : Plan) → (pl ≡ skip) ⊎ ((o : ℕ) × (pl ≡ read_from o))
plan-cases skip = inl refl
plan-cases (read_from o) = inr (o, refl)

plan_unlisted : (slow : Bool) (known : Option CursorRow) → plan slow known none ≡ skip
unfolding plan
plan_unlisted slow none = refl
plan_unlisted slow (some c) = refl

plan_covered :
    (slow : Bool) (c : CursorRow) (st : Stat)
    → fully_read c st ≡ true
    → plan slow (some c) (some st) ≡ skip
unfolding plan
plan_covered slow c st h = ground (arith, h)

module _ (w : World) (slow : Bool) (a p : String) where
  -- One round, of a file with an adapter whose cursor can be read.
  abbrev round : Db → (Db × Option Error) × Bool
  round db = follow w (plan slow (cursor p db) (w.stat p)) (w.stat p) a p db

  abbrev Quiet : Db → Type 0
  Quiet db = round db ≡ ((db, none), false)

  Quiet-of_skip : (db : Db) → plan slow (cursor p db) (w.stat p) ≡ skip → Quiet db
  unfolding follow
  Quiet-of_skip db h = rw h

  Quiet-of_Covered : (m s : ℕ) (db : Db) → w.stat p ≡ some (m, s) → Covered p m s db → Quiet db
  Quiet-of_Covered m s db st (c, (known, full)) =
      Quiet-of_skip db (rw (known, st) (plan_covered slow c (m, s) full))

  Quiet-again : (db : Db) → Quiet db → Quiet (round db).0.0
  Quiet-again db e =
      subst (λ (x : (Db × Option Error) × Bool). round x.0.0 ≡ ((x.0.0, none), false)) (sym e) e

  store_parsed-Covered :
      (m s : ℕ) (r : Parsed) (db : Db)
      → r.1.1 ≡ s
      → (store_parsed w p (m, s) r db).1 ≡ none
      → Covered p m s (store_parsed w p (m, s) r db).0
  unfolding store_parsed
  store_parsed-Covered m s (es, (cs, n)) db n_is_s ok =
      let calls =
        and_then (store_events (w.event_faults p) 0 (batches (length es) (map (assign w) es)) db)
          (store_calls (w.call_faults p) 0 (batches (length cs) cs)) in
      let last = set_cursor (w.set_cursor_fails p) (ended p m s n) in
      let reached = and_then-ok calls last ok in
      let set_ok : (last calls.0).1 ≡ none = ap (λ r. r.1) (sym reached.1) ∙ ok in
      subst (λ (r : Db × Option Error). Covered p m s r.0) (sym reached.1)
        (set_cursor-Covered (w.set_cursor_fails p) p m s n calls.0 n_is_s set_ok)

  store_read-Covered :
      (m s o : ℕ) (r : Option Parsed) (db : Db)
      → ((q : Parsed) → r ≡ some q → q.1.1 ≡ s)
      → (store_read w p (m, s) o r db).0.1 ≡ none
      → (store_read w p (m, s) o r db ≡ ((db, none), false))
        ⊎ Covered p m s (store_read w p (m, s) o r db).0.0
  unfolding store_read
  store_read-Covered m s o none db whole ok = inl refl
  store_read-Covered m s o (some r) db whole ok =
      inr (store_parsed-Covered m s r db (whole r refl) ok)

  round-Quiet :
      (db : Db)
      → ((o m s : ℕ) (r : Parsed) → w.stat p ≡ some (m, s) → w.parse a p o ≡ some r → r.1.1 ≡ s)
      → (round db).0.1 ≡ none
      → Quiet (round db).0.0
  unfolding follow read_file
  round-Quiet db whole ok = elim (Option-cases (w.stat p)) [
    | inl gone ↦ Quiet-again db (Quiet-of_skip db (rw gone (plan_unlisted slow (cursor p db))))
    | inr ((m, s), st) ↦ elim (plan-cases (plan slow (cursor p db) (w.stat p))) [
      | inl skipped ↦ Quiet-again db (Quiet-of_skip db skipped)
      | inr (o, reads) ↦
          let same : round db ≡ store_read w p (m, s) o (w.parse a p o) db = rw (reads, st) in
          let read_ok : (store_read w p (m, s) o (w.parse a p o) db).0.1 ≡ none =
            ap (λ r. r.0.1) (sym same) ∙ ok in
          elim (store_read-Covered m s o (w.parse a p o) db (λ q e. whole o m s q st e) read_ok) [
            | inl unparsed ↦ Quiet-again db (same ∙ unparsed)
            | inr covered ↦
                Quiet-of_Covered m s (round db).0.0 st (
                  subst (λ (x : (Db × Option Error) × Bool). Covered p m s x.0.0) (sym same)
                    covered)
          ]
    ]
  ]

-- The adapters' reads of the file all end where the file does.
abbrev pub ReadsToEnd : World → String → Type 0
ReadsToEnd w p =
    (a : String) (o m s : ℕ) (r : Parsed)
    → w.stat p ≡ some (m, s)
    → w.parse a p o ≡ some r
    → r.1.1 ≡ s

ingest_with-Quiet :
    (w : World) (slow : Bool) (adapter : Option String) (p : String) (db : Db)
    → ReadsToEnd w p
    → (ingest_with w false slow adapter p db).0.1 ≡ none
    → ingest_with w false slow adapter p (ingest_with w false slow adapter p db).0.0
      ≡ (((ingest_with w false slow adapter p db).0.0, none), false)
unfolding ingest_with
ingest_with-Quiet w slow none p db whole ok = refl
ingest_with-Quiet w slow (some a) p db whole ok = elim (Bool-cases (w.cursor_fails p)) [
  | inl fails ↦ ground (arith, ok, fails)
  | inr fine ↦
      let same : (d : Db) → ingest_with w false slow (some a) p d ≡ round w slow a p d =
        λ d. rw fine in
      let round_ok : (round w slow a p db).0.1 ≡ none = ap (λ r. r.0.1) (sym (same db)) ∙ ok in
      same (ingest_with w false slow (some a) p db).0.0
      ∙ subst (λ (x : (Db × Option Error) × Bool). round w slow a p x.0.0 ≡ ((x.0.0, none), false))
          (sym (same db)) (round-Quiet w slow a p db (whole a) round_ok)
]

-- If the adapters read the file to its end and a pass over the file meets no error, then a second
-- pass that is not forced, the file being as it was, changes nothing, meets no error and does not
-- report the file as live.
pub ingest_file_again :
    (w : World) (os : Os) (roots : List (String × List String)) (slow : String → Bool) (p : String)
    (db : Db)
    → ReadsToEnd w p
    → (ingest_file w os roots false slow p db).0.1 ≡ none
    → ingest_file w os roots false slow p (ingest_file w os roots false slow p db).0.0
      ≡ (((ingest_file w os roots false slow p db).0.0, none), false)
unfolding ingest_file
ingest_file_again w os roots slow p db whole ok =
    ingest_with-Quiet w (slow p) (adapter_for_path os p roots) p db whole ok
