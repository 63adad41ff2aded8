-- ===== src/Store/Repair/Reset.antt =====
-- `ResetCollapsedCodexSessions`: the rows and cursors that it removes, and the counts it returns.
mod Rows
mod Cursors
use burnmon.Base.{
  string_eq, ℕ, ◌+◌, String, true, not, none, some, List, [], ◌∷◌, length, ◌≡◌, refl, sym, ap,
  subst, ◌∙◌, ◌⊎◌, inl, inr, filter, filter-all, arith, if_both,
}
use burnmon.Paths.{Os}
use burnmon.Schema.{Event}
use burnmon.Store.Db.{Db, CursorRow, Faults, Outcome, done, failed, transact, settle-cases}
use burnmon.Store.Repair.{
  is_collapsed, collapsed_sessions, collapsed_paths, reset_body, reset_sessions,
  reset_collapsed_codex_sessions,
}
use burnmon.Store.Repair.Reset.Rows.{spared, length-split, delete_collapsed-spared, filter-spared}
use burnmon.Store.Repair.Reset.Cursors.{
  is_reset, delete_cursors-kept, filter-cursors-kept, length-collapsed_paths,
}

-- The database without the collapsed rows and without the cursors named after the sessions.
abbrev pub without_collapsed : Os → List String → Db → Db
without_collapsed os sids db = record db {
  events = filter (λ e. not (is_collapsed e)) db.events;
  cursors = filter (λ c. not (is_reset os sids c)) db.cursors;
}

-- What a call leaves and answers.
abbrev pub ResetOf : Os → List String → Db → Db × Outcome (ℕ × ℕ) → Type 0
ResetOf os sids db (db', failed e) = db' ≡ db
ResetOf os sids db (db', done (n, m)) =
    (db' ≡ without_collapsed os sids db)
    × ((n ≡ length (filter is_collapsed db.events))
        × (m ≡ length (filter (is_reset os sids) db.cursors)))

counted :
    (n : ℕ) (t : List Event)
    → n + length (filter (λ e. not (is_collapsed e)) t) ≡ 0 + length t
    → n ≡ length (filter is_collapsed t)
counted n t h = omega (arith, length-split is_collapsed t)

module _ (os : Os) (f : Faults) (db : Db) where
  reset_body-exact :
      (sids : List String)
      → collapsed_sessions db.events ≡ sids
      → (reset_body f sids (collapsed_paths os sids db.cursors) db ≡ none)
        ⊎ ((r : Db × (ℕ × ℕ)) × ((reset_body f sids (collapsed_paths os sids db.cursors) db
                ≡ some r)
              × ResetOf os sids db (r.0, done r.1)))
  unfolding reset_body
  reset_body-exact sids h =
      let ps = collapsed_paths os sids db.cursors in
      let left = filter-spared sids db.events h in
      elim (delete_collapsed-spared f 0 sids db.events 0) [
        | inl e ↦ inl (rw (e, reset_body))
        | inr (n, (e, count)) ↦ elim (delete_cursors-kept f (length sids) ps db.cursors 0) [
          | inl d ↦ inl (rw (e, d, reset_body))
          | inr d ↦ inr (
            (without_collapsed os sids db, (n, 0 + length ps)),
            (
              rw (e, d, left, filter-cursors-kept os sids db.cursors, reset_body),
              (
                refl,
                (
                  counted n db.events (ap (λ t. n + length t) (sym left) ∙ count),
                  omega (arith, length-collapsed_paths os sids db.cursors),
                ),
              ),
            ),
          )
        ]
      ]

  nothing_collapsed : collapsed_sessions db.events ≡ [] → ResetOf os [] db (db, done (0, 0))
  nothing_collapsed h =
      let whole : filter (λ e. not (is_collapsed e)) db.events ≡ db.events =
        sym (filter-spared [] db.events h) ∙ filter-all (spared []) db.events (λ e. refl) in
      (
        λ j. record {
          events = sym whole j;
          tool_calls = db.tool_calls;
          cursors = sym (filter-all (λ (c : CursorRow). true) db.cursors (λ c. refl)) j;
          meta = db.meta;
          forecast_scores = db.forecast_scores;
        },
        (
          counted 0 db.events (ap (λ t. 0 + length t) whole),
          omega (
            arith,
            length-split (is_reset os []) db.cursors,
            ap length (filter-all (λ (c : CursorRow). true) db.cursors (λ c. refl)),
          ),
        ),
      )

  of_body :
      (sids ps : List String) (x : Db × (ℕ × ℕ))
      → reset_body f sids ps db ≡ some x
      → (reset_body f sids ps db ≡ none)
        ⊎ ((r : Db × (ℕ × ℕ)) × ((reset_body f sids ps db ≡ some r)
              × ResetOf os sids db (r.0, done r.1)))
      → ResetOf os sids db (x.0, done x.1)
  of_body sids ps x k (inl e) = ground (arith, k, e)
  of_body sids ps x k (inr (r, (e, p))) =
      let same : r ≡ x = ground (arith, k, e) in
      subst (λ (y : Db × (ℕ × ℕ)). ResetOf os sids db (y.0, done y.1)) same p

  reset_sessions-exact :
      (sids : List String)
      → collapsed_sessions db.events ≡ sids
      → ResetOf os sids db (reset_sessions os f sids db)
  unfolding reset_sessions transact
  reset_sessions-exact [] h = nothing_collapsed h
  reset_sessions-exact (s ∷ ss) h =
      let ps = collapsed_paths os (s ∷ ss) db.cursors in
      if_both (ResetOf os (s ∷ ss) db) f.requery refl (
        settle-cases (ResetOf os (s ∷ ss) db) f.begin f.commit db (reset_body f (s ∷ ss) ps db)
          (λ e. refl) (λ x k. of_body (s ∷ ss) ps x k (reset_body-exact (s ∷ ss) h)))

  -- On success exactly the collapsed rows of Codex are gone, and exactly the cursors of the files
  -- named after such a row's session, and the counts returned are those of both; on an error
  -- nothing changes.
  pub reset_collapsed_exact :
      ResetOf os (collapsed_sessions db.events) db (reset_collapsed_codex_sessions os f db)
  unfolding reset_collapsed_codex_sessions
  reset_collapsed_exact =
      if_both (ResetOf os (collapsed_sessions db.events) db) f.query refl
        (reset_sessions-exact (collapsed_sessions db.events) refl)
