-- ===== src/Store/Events/Laws.antt =====
-- What a batch of `UpsertEvents` leaves, against a specification that looks at one key only.
use burnmon.Base.{
  not, lt64_irrefl, lt64_asymm, lt64_not_trans, ==_refl, ◌≢◌, ℕ, suc, Bool, true, false, Option,
  none, some, List, [], ◌∷◌, ◌≡◌, refl, ◌⊎◌, inl, inr, ◌==◌, lt64, if◌then◌else◌, filter, All,
  arith, Bool-cases, Option-cases, ◌∙◌,
}
use burnmon.Schema.{Event, Key, event_key, key_eq}
use burnmon.Store.Db.{Db, Faults}
use burnmon.Store.Table.{row, resolved, row-upsert, upsert-Unique, Unique}
use burnmon.Store.Events.{resolve_event, upsert_event, exec_events, upsert_events}

pub resolve_event-key :
    (x r : Event) → event_key x ≡ event_key r → event_key (resolve_event x r) ≡ event_key x
unfolding resolve_event
resolve_event-key x r h = ground (arith)

-- The batch, with no failure.
unfoldable pub upsert_all : List Event → List Event → List Event
upsert_all [] t = t
upsert_all (e ∷ es) t = upsert_all es (upsert_event e t)

-- The specification: of the stored row and the events of one key, in order, the first one with
-- the largest output.
unfoldable pub best : Option Event → List Event → Option Event
best o [] = o
best none (e ∷ es) = best (some e) es
best (some x) (e ∷ es) = best (some (if lt64 x.output e.output then e else x)) es

abbrev pub has_key : Key → Event → Bool
has_key k e = event_key e == k

pub row-upsert_event :
    (k : Key) (e : Event) (t : List Event)
    → row event_key k (upsert_event e t) ≡ (
        if has_key k e
        then some (resolved resolve_event e (row event_key k t))
        else row event_key k t)
unfolding upsert_event
row-upsert_event k e t = row-upsert event_key resolve_event resolve_event-key k e t

best-step :
    (k : Key) (e : Event) (es t : List Event)
    → best (row event_key k (upsert_event e t)) (filter (has_key k) es)
      ≡ best (row event_key k t) (filter (has_key k) (e ∷ es))
unfolding best resolve_event
best-step k e es t = rw (row-upsert_event k e t) (elim (Bool-cases (has_key k e)) [
  | inl same ↦ rw same (elim (Option-cases (row event_key k t)) [
    | inl missing ↦ rw missing
    | inr (x, stored) ↦ rw stored
  ])
  | inr other ↦ rw other
])

-- The stored row of a key is the best of what was stored and what the batch holds for the key.
pub row-upsert_all :
    (k : Key) (es : List Event) (t : List Event)
    → row event_key k (upsert_all es t) ≡ best (row event_key k t) (filter (has_key k) es)
unfolding upsert_all best
row-upsert_all k [] t = refl
row-upsert_all k (e ∷ es) t = row-upsert_all k es (upsert_event e t) ∙ best-step k e es t

pub upsert_all-Unique :
    (es : List Event) (t : List Event) → Unique event_key t → Unique event_key (upsert_all es t)
unfolding upsert_all upsert_event
upsert_all-Unique [] t u = u
upsert_all-Unique (e ∷ es) t u =
    upsert_all-Unique es (upsert_event e t)
      (upsert-Unique event_key resolve_event resolve_event-key e t u)

exec_events-upsert_all :
    (f : Faults) (i : ℕ) (es t : List Event)
    → (exec_events f i es t ≡ none) ⊎ (exec_events f i es t ≡ some (upsert_all es t))
unfolding exec_events upsert_all
exec_events-upsert_all f i [] t = inr refl
exec_events-upsert_all f i (e ∷ es) t =
    ground (arith, exec_events-upsert_all f (suc i) es (upsert_event e t))

-- A batch is stored whole, or an error is returned and no table changes.
pub upsert_events_atomic :
    (f : Faults) (es : List Event) (db : Db)
    → (((upsert_events f es db).1 ≡ none)
        × ((upsert_events f es db).0 ≡ record db { events = upsert_all es db.events }))
      ⊎ (((upsert_events f es db).1 ≢ none) × ((upsert_events f es db).0 ≡ db))
unfolding upsert_events upsert_all
upsert_events_atomic f [] db = inl (refl, refl)
upsert_events_atomic f (e ∷ es) db = ground (arith, exec_events-upsert_all f 0 (e ∷ es) db.events)

covers : Option Event → ℕ → Bool
covers none n = false
covers (some x) n = not (lt64 x.output n)

-- The event has a row whose output is not smaller.
abbrev Settled : List Event → Event → Type 0
Settled t e = covers (row event_key (event_key e) t) e.output ≡ true

upsert_event_noop : (e : Event) (t : List Event) → Settled t e → upsert_event e t ≡ t
unfolding covers upsert_event row
upsert_event_noop e [] h = cc
upsert_event_noop e (x ∷ xs) h = ground (arith, upsert_event_noop e xs)

covers-resolved :
    (o : Option Event) (e : Event) → covers (some (resolved resolve_event e o)) e.output ≡ true
unfolding covers resolve_event
covers-resolved none e = rw (lt64_irrefl e.output)
covers-resolved (some x) e = ground (arith, lt64_irrefl e.output)

covers-resolved_mono :
    (o : Option Event) (e : Event) (n : ℕ)
    → covers o n ≡ true
    → covers (some (resolved resolve_event e o)) n ≡ true
unfolding covers resolve_event
covers-resolved_mono none e n h = cc
covers-resolved_mono (some x) e n h =
    ground (arith, lt64_asymm x.output e.output, lt64_not_trans e.output x.output n)

upsert_event-Settled : (e : Event) (t : List Event) → Settled (upsert_event e t) e
upsert_event-Settled e t =
    rw (row-upsert_event (event_key e) e t, ==_refl (event_key e))
      (covers-resolved (row event_key (event_key e) t) e)

upsert_event-Settled_other :
    (e d : Event) (t : List Event) → Settled t d → Settled (upsert_event e t) d
upsert_event-Settled_other e d t h =
    rw (row-upsert_event (event_key d) e t) (elim (Bool-cases (has_key (event_key d) e)) [
      | inl same ↦ rw same (covers-resolved_mono (row event_key (event_key d) t) e d.output h)
      | inr other ↦ rw other h
    ])

upsert_all-Settled :
    (es : List Event) (d : Event) (t : List Event) → Settled t d → Settled (upsert_all es t) d
unfolding upsert_all
upsert_all-Settled [] d t h = h
upsert_all-Settled (e ∷ es) d t h =
    upsert_all-Settled es d (upsert_event e t) (upsert_event-Settled_other e d t h)

-- Every event of the batch is settled afterwards.
upsert_all-All-Settled : (es : List Event) (t : List Event) → All (Settled (upsert_all es t)) es
unfolding upsert_all
upsert_all-All-Settled [] t = tt
upsert_all-All-Settled (e ∷ es) t = (
  upsert_all-Settled es e (upsert_event e t) (upsert_event-Settled e t),
  upsert_all-All-Settled es (upsert_event e t),
)

upsert_all_noop : (es : List Event) (t : List Event) → All (Settled t) es → upsert_all es t ≡ t
unfolding upsert_all
upsert_all_noop [] t a = refl
upsert_all_noop (e ∷ es) t a = rw (upsert_event_noop e t a.0) (upsert_all_noop es t a.1)

upsert_all_idem :
    (es : List Event) (t : List Event) → upsert_all es (upsert_all es t) ≡ upsert_all es t
upsert_all_idem es t = upsert_all_noop es (upsert_all es t) (upsert_all-All-Settled es t)

-- Storing a batch again after it was stored changes nothing, whether or not the second call fails:
-- a transcript may be read again from its start.
pub upsert_events_again :
    (f g : Faults) (es : List Event) (db : Db)
    → (upsert_events f es db).1 ≡ none
    → (upsert_events g es (upsert_events f es db).0).0 ≡ (upsert_events f es db).0
upsert_events_again f g es db h = ground (
  arith,
  upsert_events_atomic f es db,
  upsert_events_atomic g es (upsert_events f es db).0,
  upsert_all_idem es db.events,
)

-- After a batch is stored, the row of every key is the best of the row before and the batch's
-- events of that key, in order: the first one with the largest output. No key has two rows.
pub upsert_events-best :
    (f : Faults) (es : List Event) (db : Db) (k : Key)
    → Unique event_key db.events
    → (upsert_events f es db).1 ≡ none
    → (row event_key k (upsert_events f es db).0.events
        ≡ best (row event_key k db.events) (filter (has_key k) es))
      × Unique event_key (upsert_events f es db).0.events
upsert_events-best f es db k u h =
    let e : (upsert_events f es db).0 ≡ record db { events = upsert_all es db.events } =
      ground (arith, upsert_events_atomic f es db) in
    rw e (row-upsert_all k es db.events, upsert_all-Unique es db.events u)
