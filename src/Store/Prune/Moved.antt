-- ===== src/Store/Prune/Moved.antt =====
-- A transcript that was moved to another folder.
use burnmon.Base.{
  filter-filter, String, true, false, not, ◌&&◌, none, List, [], ◌∷◌, ◌≡◌, ◌≢◌, refl, ◌∙◌, ap, ◌==◌,
  string_eq, filter, any, arith, Bool-cases, inl, inr, eq_of_==,
}
use text.Mathlib.TextEquality.{eq_iff}
use burnmon.Paths.{Os, session_id_from_path}
use burnmon.Store.Db.{Db, CursorRow, Faults}
use burnmon.Store.Cursors.{cursor, cursor_path}
use burnmon.Store.Table.{row}
use burnmon.Store.Prune.{kept, stale_paths, delete_events_for_other_paths}
use burnmon.Store.Prune.Laws.{owned_by, any-stale_paths, delete_events_for_other_paths_exact}

exactly :
    (os : Os) (f : Faults) (keep : List String) (db : Db)
    → (delete_events_for_other_paths os f keep db).1 ≡ none
    → (delete_events_for_other_paths os f keep db).0 ≡ record db {
      events = filter (λ e. not (owned_by os (stale_paths keep db.cursors) e.session_id)) db.events;
      cursors = filter (λ c. kept keep c.path) db.cursors;
    }
exactly os f keep db h = ground (arith, delete_events_for_other_paths_exact os f keep db)

row-kept :
    (keep : List String) (q : String)
    → kept keep q ≡ true
    → (cs : List CursorRow)
    → row cursor_path q (filter (λ c. kept keep c.path) cs) ≡ row cursor_path q cs
unfolding row
row-kept keep q h [] = refl
row-kept keep q h (c ∷ cs) = elim (Bool-cases (c.path == q)) [
  | inl same ↦ ground (arith, same, ap (kept keep) (eq_of_== c.path q same), row-kept keep q h cs)
  | inr other ↦ ground (arith, other, row-kept keep q h cs)
]

owned_by-named :
    (os : Os) (p : String) (ps : List String)
    → any (λ q. p == q) ps ≡ true
    → (session_id_from_path os p == "") ≡ false
    → owned_by os ps (session_id_from_path os p) ≡ true
owned_by-named os p [] h named = h
owned_by-named os p (q ∷ ps) h named = elim (Bool-cases (p == q)) [
  | inl same ↦
      let e = eq_of_== p q same in
      ground (
        arith,
        ap (session_id_from_path os) e,
        eq_iff (session_id_from_path os p) (session_id_from_path os q),
      )
  | inr other ↦ ground (arith, owned_by-named os p ps)
]

filter-nothing {ℓ} : {A : Type ℓ} (xs : List A) → filter (λ _. false) xs ≡ []
filter-nothing [] = refl
filter-nothing (x ∷ xs) = filter-nothing xs

owned_by-new :
    (os : Os) (keep : List String) (old new : String) (db : Db)
    → any (λ c. c.path == old) db.cursors ≡ true
    → kept keep old ≡ false
    → session_id_from_path os old ≡ session_id_from_path os new
    → session_id_from_path os new ≢ ""
    → owned_by os (stale_paths keep db.cursors) (session_id_from_path os new) ≡ true
owned_by-new os keep old new db was gone same named = rw (← same) (
    owned_by-named os old (stale_paths keep db.cursors)
      (ground (arith, any-stale_paths keep db.cursors old))
      (ground (arith, eq_iff (session_id_from_path os old) "")))

not_both :
    (os : Os) (ps : List String) (new : String)
    → owned_by os ps (session_id_from_path os new) ≡ true
    → (sid : String) → false ≡ (not (owned_by os ps sid) && sid == session_id_from_path os new)
not_both os ps new h sid = elim (Bool-cases (sid == session_id_from_path os new)) [
  | inl same ↦ rw (eq_of_== sid _ same, h)
  | inr other ↦ ground (arith, other)
]

-- A moved transcript: if a forgotten file and a listed file give the same session id, a successful
-- call deletes every event of that session and leaves the listed file's cursor as it was.
pub moved_transcript_loses_events :
    (os : Os) (f : Faults) (keep : List String) (old new : String) (db : Db)
    → any (λ c. c.path == old) db.cursors ≡ true
    → kept keep old ≡ false
    → kept keep new ≡ true
    → session_id_from_path os old ≡ session_id_from_path os new
    → session_id_from_path os new ≢ ""
    → (delete_events_for_other_paths os f keep db).1 ≡ none
    → (cursor new (delete_events_for_other_paths os f keep db).0 ≡ cursor new db)
      × (filter
            (λ e. e.session_id == session_id_from_path os new)
            (delete_events_for_other_paths os f keep db).0.events
          ≡ [])
unfolding cursor
moved_transcript_loses_events os f keep old new db was gone listed same named done =
    let owned = owned_by-new os keep old new db was gone same named in
    rw (exactly os f keep db done) (
      row-kept keep new listed db.cursors,
      filter-filter _ _ (λ _. false) db.events (λ ev. not_both os _ new owned ev.session_id)
          ∙ filter-nothing db.events,
    )
