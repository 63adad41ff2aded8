-- ===== src/Store/Prune/Laws.antt =====
-- `DeleteEventsForOtherPaths`: what it keeps of each table.
use burnmon.Base.{
  sym, ℕ, suc, String, Bool, true, false, not, ◌&&◌, ◌||◌, none, some, List, [], ◌∷◌, ◌≡◌, ◌≢◌,
  refl, ◌⊎◌, inl, inr, ap, ◌==◌, string_eq, filter, filter-filter, filter-all, filter-cong, any,
  arith, Bool-cases, eq_of_==, ==_comm, All,
}
use text.Mathlib.TextEquality.{eq_iff}
use burnmon.Paths.{Os, session_id_from_path}
use burnmon.Schema.{Event}
use burnmon.Store.Db.{Db, CursorRow, Faults}
use burnmon.Store.Prune.{
  kept, stale_paths, delete_session, forget, forget_all, delete_stale,
  delete_events_for_other_paths,
}

-- The session belongs to one of the paths.
abbrev pub owned_by : Os → List String → String → Bool
owned_by os [] sid = false
owned_by os (p ∷ ps) sid =
    (not (session_id_from_path os p == "") && sid == session_id_from_path os p)
    || owned_by os ps sid

-- What a successful call leaves: a filter of each table.
abbrev pub pruned : Os → List String → Db → Db
pruned os ps db = record db {
  events = filter (λ e. not (owned_by os ps e.session_id)) db.events;
  cursors = filter (λ c. not (any (λ p. c.path == p) ps)) db.cursors;
}

events-forget :
    (os : Os) (p : String) (ps : List String) (db : Db)
    → filter (λ e. not (owned_by os ps e.session_id)) (forget os p db).events
      ≡ filter (λ e. not (owned_by os (p ∷ ps) e.session_id)) db.events
unfolding forget delete_session
events-forget os p ps db = elim (Bool-cases (session_id_from_path os p == "")) [
  | inl unnamed ↦ rw unnamed
  | inr named ↦ rw named (
      filter-filter (λ (e : Event). not (e.session_id == session_id_from_path os p))
        (λ e. not (owned_by os ps e.session_id))
        (λ e. not (e.session_id == session_id_from_path os p || owned_by os ps e.session_id))
        db.events (λ e. ground arith))
]

cursors-forget :
    (os : Os) (p : String) (ps : List String) (db : Db)
    → filter (λ c. not (any (λ q. c.path == q) ps)) (forget os p db).cursors
      ≡ filter (λ c. not (any (λ q. c.path == q) (p ∷ ps))) db.cursors
unfolding forget
cursors-forget os p ps db =
    filter-filter (λ (c : CursorRow). not (c.path == p)) (λ c. not (any (λ q. c.path == q) ps))
      (λ c. not (any (λ q. c.path == q) (p ∷ ps))) db.cursors (λ c. ground arith)

pruned-forget :
    (os : Os) (p : String) (ps : List String) (db : Db)
    → pruned os ps (forget os p db) ≡ pruned os (p ∷ ps) db
unfolding forget
pruned-forget os p ps db j = record {
  events = events-forget os p ps db j;
  tool_calls = db.tool_calls;
  cursors = cursors-forget os p ps db j;
  meta = db.meta;
  forecast_scores = db.forecast_scores;
}

pruned-nil : (os : Os) (db : Db) → db ≡ pruned os [] db
pruned-nil os db j = record {
  events = sym (filter-all (λ (e : Event). true) db.events (λ e. refl)) j;
  tool_calls = db.tool_calls;
  cursors = sym (filter-all (λ (c : CursorRow). true) db.cursors (λ c. refl)) j;
  meta = db.meta;
  forecast_scores = db.forecast_scores;
}

forget_all-pruned :
    (os : Os) (f : Faults) (i : ℕ) (ps : List String) (db : Db)
    → (forget_all os f i ps db ≡ none) ⊎ (forget_all os f i ps db ≡ some (pruned os ps db))
unfolding forget_all
forget_all-pruned os f i [] db = inr (ap some (pruned-nil os db))
forget_all-pruned os f i (p ∷ ps) db = elim (Bool-cases (f.exec i)) [
  | inl fails ↦ inl (rw fails)
  | inr runs ↦
      rw (runs, ← pruned-forget os p ps db) (forget_all-pruned os f (suc i) ps (forget os p db))
]

pub any-stale_paths :
    (keep : List String) (cs : List CursorRow) (q : String)
    → any (λ p. q == p) (stale_paths keep cs) ≡ (not (kept keep q) && any (λ c. c.path == q) cs)
unfolding stale_paths
any-stale_paths keep [] q = ground arith
any-stale_paths keep (x ∷ xs) q = elim (Bool-cases (x.path == q)) [
  | inl same ↦ ground (
    arith,
    same,
    ==_comm q x.path,
    ap (kept keep) (eq_of_== x.path q same),
    any-stale_paths keep xs q,
  )
  | inr other ↦ ground (arith, ==_comm q x.path, any-stale_paths keep xs q)
]

module _ (keep : List String) where
  -- In the table itself a path is stale exactly if it is not kept.
  stale_iff :
      (all : List CursorRow) (cs : List CursorRow)
      → All (λ c. any (λ d. d.path == c.path) all ≡ true) cs
      → All (λ c. not (any (λ p. c.path == p) (stale_paths keep all)) ≡ kept keep c.path) cs
  stale_iff all [] h = tt
  stale_iff all (c ∷ cs) h = (ground (arith, any-stale_paths keep all c.path), stale_iff all cs h.1)

pub own_path :
    (x : CursorRow) (all cs : List CursorRow)
    → All (λ c. any (λ d. d.path == c.path) all ≡ true) cs
    → All (λ c. any (λ d. d.path == c.path) (x ∷ all) ≡ true) cs
own_path x all [] h = tt
own_path x all (c ∷ cs) h = (ground arith, own_path x all cs h.1)

pub All-own_path : (cs : List CursorRow) → All (λ c. any (λ d. d.path == c.path) cs ≡ true) cs
All-own_path [] = tt
All-own_path (c ∷ cs) = (ground (arith, eq_iff c.path c.path), own_path c cs cs (All-own_path cs))

delete_stale-pruned :
    (os : Os) (f : Faults) (ps : List String) (db : Db)
    → (((delete_stale os f ps db).1 ≡ none) × ((delete_stale os f ps db).0 ≡ pruned os ps db))
      ⊎ (((delete_stale os f ps db).1 ≢ none) × ((delete_stale os f ps db).0 ≡ db))
unfolding delete_stale
delete_stale-pruned os f [] db = inl (refl, pruned-nil os db)
delete_stale-pruned os f (p ∷ ps) db = ground (arith, forget_all-pruned os f 0 (p ∷ ps) db)

-- On success exactly the cursors of listed files stay, each as it was, and exactly the events of
-- sessions that no forgotten file is named after; the tool calls and the other tables stay. On an
-- error nothing changes.
pub delete_events_for_other_paths_exact :
    (os : Os) (f : Faults) (keep : List String) (db : Db)
    → (((delete_events_for_other_paths os f keep db).1 ≡ none)
        × ((delete_events_for_other_paths os f keep db).0 ≡ record db {
          events =
              filter (λ e. not (owned_by os (stale_paths keep db.cursors) e.session_id)) db.events;
          cursors = filter (λ c. kept keep c.path) db.cursors;
        }))
      ⊎ (((delete_events_for_other_paths os f keep db).1 ≢ none)
          × ((delete_events_for_other_paths os f keep db).0 ≡ db))
unfolding delete_events_for_other_paths
delete_events_for_other_paths_exact os f keep db =
    rw
      (← filter-cong _ _ db.cursors
        (stale_iff keep db.cursors db.cursors (All-own_path db.cursors)))
      (ground (arith, delete_stale-pruned os f (stale_paths keep db.cursors) db))
