-- ===== src/Store/Repair/Reown.antt =====
-- `ReownEvents` over a table whose keys differ.
use burnmon.Base.{
  ℕ, suc, String, true, false, none, some, List, [], ◌∷◌, map, ◌≡◌, refl, sym, ap, ◌∙◌, ◌⊎◌, inl,
  inr, ◌==◌, string_eq, filter, length, arith, Bool-cases, eq_of_==, ==_refl, ==_comm, if_both,
}
use burnmon.Schema.{Event, Key, event_key, key_eq}
use burnmon.Store.Db.{Db, Faults, Outcome, done, failed, settle-cases, transact}
use burnmon.Store.Table.{Absent, Unique}
use burnmon.Store.Repair.{
  owned, needs_reown, update_owner, exec_reown, reown_body, reown_updates, reown_events,
}

module _ (owner_for client_for : String → String) where
  unfoldable update_all : List Event → List Event → List Event
  update_all [] t = t
  update_all (u ∷ us) t = update_all us (update_owner owner_for client_for u t)

  exec_reown-update_all :
      (f : Faults) (i : ℕ) (us t : List Event)
      → (exec_reown owner_for client_for f i us t ≡ none)
        ⊎ (exec_reown owner_for client_for f i us t ≡ some (update_all us t))
  unfolding exec_reown update_all
  exec_reown-update_all f i [] t = inr refl
  exec_reown-update_all f i (u ∷ us) t =
      ground (arith, exec_reown-update_all f (suc i) us (update_owner owner_for client_for u t))

  update_owner-Absent :
      (u : Event) (t : List Event)
      → Absent event_key (event_key u) t
      → update_owner owner_for client_for u t ≡ t
  unfolding update_owner
  update_owner-Absent u [] a = refl
  update_owner-Absent u (e ∷ es) a = rw (a.0, update_owner-Absent u es a.1)

  -- No update is for the row.
  update_all-cons :
      (us : List Event) (e : Event) (t : List Event)
      → Absent event_key (event_key e) us
      → update_all us (e ∷ t) ≡ e ∷ update_all us t
  unfolding update_all update_owner
  update_all-cons [] e t a = refl
  update_all-cons (u ∷ us) e t a =
      rw (==_comm (event_key e) (event_key u) ∙ a.0)
        (update_all-cons us e (update_owner owner_for client_for u t) a.1)

  Absent-filter :
      (k : Key) (t : List Event)
      → Absent event_key k t
      → Absent event_key k (filter (needs_reown owner_for client_for) t)
  Absent-filter k [] a = tt
  Absent-filter k (e ∷ es) a = elim (Bool-cases (needs_reown owner_for client_for e)) [
    | inl n ↦ rw n (a.0, Absent-filter k es a.1)
    | inr n ↦ rw n (Absent-filter k es a.1)
  ]

  -- A row that needs no update has the owner and client already.
  owned_already :
      (e : Event) → needs_reown owner_for client_for e ≡ false → e ≡ owned owner_for client_for e
  owned_already e n =
      let same_owner : (owner_for e.project == e.owner) ≡ true = ground (arith, n) in
      let same_client : (client_for e.project == e.client) ≡ true = ground (arith, n) in
      rw (
        eq_of_== (owner_for e.project) e.owner same_owner,
        eq_of_== (client_for e.project) e.client same_client,
      )

  update_all-owned :
      (t : List Event)
      → Unique event_key t
      → update_all (filter (needs_reown owner_for client_for) t) t
        ≡ map (owned owner_for client_for) t
  unfolding update_all update_owner
  update_all-owned [] u = refl
  update_all-owned (e ∷ es) u = elim (Bool-cases (needs_reown owner_for client_for e)) [
    | inl n ↦
        let us = filter (needs_reown owner_for client_for) es in
        let own = owned owner_for client_for e in
        let step : update_owner owner_for client_for e (e ∷ es) ≡ own ∷ es =
          rw (==_refl (event_key e), update_owner-Absent e es u.0) in
        rw n (
          ap (update_all us) step
          ∙ (update_all-cons us own es (Absent-filter (event_key e) es u.0)
              ∙ ap (λ t. own ∷ t) (update_all-owned es u.1)))
    | inr n ↦
        let us = filter (needs_reown owner_for client_for) es in
        rw n (
          update_all-cons us e es (Absent-filter (event_key e) es u.0)
          ∙ (ap (λ t. e ∷ t) (update_all-owned es u.1)
              ∙ ap (λ x. x ∷ map (owned owner_for client_for) es) (owned_already e n)))
  ]

  -- What a call leaves and answers.
  abbrev pub ReownOf : Db → Db × Outcome ℕ → Type 0
  ReownOf db (db', failed e) = db' ≡ db
  ReownOf db (db', done n) =
      (db' ≡ record db { events = map (owned owner_for client_for) db.events })
      × (n ≡ length (filter (needs_reown owner_for client_for) db.events))

  module _ (f : Faults) (db : Db) (unique : Unique event_key db.events) where
    reown_body-owned :
        (us : List Event) (x : Db × ℕ)
        → filter (needs_reown owner_for client_for) db.events ≡ us
        → reown_body owner_for client_for f us db ≡ some x
        → ReownOf db (x.0, done x.1)
    unfolding reown_body
    reown_body-owned us x h k =
        let all : update_all us db.events ≡ map (owned owner_for client_for) db.events =
          ap (λ vs. update_all vs db.events) (sym h) ∙ update_all-owned db.events unique in
        elim (exec_reown-update_all f 0 us db.events) [
          | inl e ↦ ground (arith, e, k)
          | inr e ↦ ground (arith, e, k, all, h)
        ]

    reown_updates-owned :
        (us : List Event)
        → filter (needs_reown owner_for client_for) db.events ≡ us
        → ReownOf db (reown_updates owner_for client_for f us db)
    unfolding reown_updates transact update_all
    reown_updates-owned [] h = (
      ap (λ t. record db { events = t })
          (ap (λ vs. update_all vs db.events) (sym h) ∙ update_all-owned db.events unique),
      ap length (sym h),
    )
    reown_updates-owned (u ∷ us) h =
        settle-cases (ReownOf db) f.begin f.commit db
          (reown_body owner_for client_for f (u ∷ us) db) (λ e. refl)
          (λ x k. reown_body-owned (u ∷ us) x h k)

    -- In a table whose keys differ, every event gets the owner and the client that the rules give
    -- its project, nothing else changes, and the count is that of the rows that differed; on an
    -- error nothing changes.
    pub reown_exact : ReownOf db (reown_events owner_for client_for f db)
    unfolding reown_events
    reown_exact =
        if_both (ReownOf db) f.query refl
          (reown_updates-owned (filter (needs_reown owner_for client_for) db.events) refl)
