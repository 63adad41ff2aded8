-- ===== src/Dataset/Ingest/Batches.antt =====
-- `ingest`: the batches of events.
use burnmon.Base.{
  ℕ, zero, suc, ◌≤◌, Option, none, some, List, [], ◌∷◌, ◌++◌, length, take, drop, ◌≡◌, refl, sym,
  ap, ◌∙◌, arith, inl, inr,
}
use burnmon.Schema.{Event}
use burnmon.Store.Db.{Db, Faults, Error}
use burnmon.Store.Events.{upsert_events}
use burnmon.Store.Events.Laws.{upsert_all, upsert_events_atomic}
use burnmon.Dataset.Ingest.{upsert_batch, batches, and_then, store_events}

unfoldable pub concat {ℓ} : {A : Type ℓ} → List (List A) → List A
concat [] = []
concat (xs ∷ xss) = xs ++ concat xss

take-drop {ℓ} : {A : Type ℓ} (n : ℕ) (xs : List A) → take n xs ++ drop n xs ≡ xs
take-drop zero [] = refl
take-drop zero (x ∷ xs) = refl
take-drop (suc n) [] = refl
take-drop (suc n) (x ∷ xs) = ap (λ ys. x ∷ ys) (take-drop n xs)

length-drop_le {ℓ} : {A : Type ℓ} (n : ℕ) (xs : List A) → length (drop n xs) ≤ length xs
length-drop_le zero [] = omega arith
length-drop_le zero (x ∷ xs) = omega arith
length-drop_le (suc n) [] = omega arith
length-drop_le (suc n) (x ∷ xs) = omega (arith, length-drop_le n xs)

-- With enough fuel the batches are the whole list.
pub concat-batches {ℓ} :
    {A : Type ℓ} (fuel : ℕ) (xs : List A) → length xs ≤ fuel → concat (batches fuel xs) ≡ xs
unfolding concat batches
concat-batches zero [] h = refl
concat-batches zero (x ∷ xs) h = ground (arith, h)
concat-batches (suc fuel) [] h = refl
concat-batches (suc fuel) (x ∷ xs) h =
    let rest = drop upsert_batch (x ∷ xs) in
    let shorter : length rest ≤ fuel = omega (arith, length-drop_le 999 xs, h) in
    ap (λ ys. take upsert_batch (x ∷ xs) ++ ys) (concat-batches fuel rest shorter)
    ∙ take-drop upsert_batch (x ∷ xs)

upsert_all-++ :
    (xs ys : List Event) (t : List Event)
    → upsert_all (xs ++ ys) t ≡ upsert_all ys (upsert_all xs t)
unfolding upsert_all
upsert_all-++ [] ys t = refl
upsert_all-++ (x ∷ xs) ys t = upsert_all-++ xs ys _

pub and_then-ok :
    (r : Db × Option Error) (k : Db → Db × Option Error)
    → (and_then r k).1 ≡ none
    → (r.1 ≡ none) × (and_then r k ≡ k r.0)
unfolding and_then
and_then-ok (db, none) k h = (refl, refl)
and_then-ok (db, some e) k h = ground (arith, h)

stored :
    (f : Faults) (b : List Event) (db : Db)
    → (upsert_events f b db).1 ≡ none
    → (upsert_events f b db).0 ≡ record db { events = upsert_all b db.events }
stored f b db h = elim (upsert_events_atomic f b db) [
  | inl (ok, whole) ↦ whole
  | inr (bad, same) ↦ elim (bad h) [ ]
]

-- If no batch fails, every event is stored in order, as if in one batch.
pub store_events-all :
    (f : ℕ → Faults) (i : ℕ) (bs : List (List Event)) (db : Db)
    → (store_events f i bs db).1 ≡ none
    → (store_events f i bs db).0 ≡ record db { events = upsert_all (concat bs) db.events }
unfolding store_events and_then concat upsert_all
store_events-all f i [] db h = refl
store_events-all f i (b ∷ bs) db h =
    let first = and_then-ok (upsert_events (f i) b db) (store_events f (suc i) bs) h in
    let next = (upsert_events (f i) b db).0 in
    let rest_ok : (store_events f (suc i) bs next).1 ≡ none = ap (λ r. r.1) (sym first.1) ∙ h in
    ap (λ r. r.0) first.1
    ∙ (store_events-all f (suc i) bs next rest_ok
        ∙ rw (stored (f i) b db first.0)
            (ap (λ t. record db { events = t }) (sym (upsert_all-++ b (concat bs) db.events))))

-- Storing the events of a file in batches of 1,000 stores each of them, in order, as one batch of
-- all of them would, if no batch fails.
pub batches_store_all :
    (f : ℕ → Faults) (es : List Event) (db : Db)
    → (store_events f 0 (batches (length es) es) db).1 ≡ none
    → (store_events f 0 (batches (length es) es) db).0
      ≡ record db { events = upsert_all es db.events }
batches_store_all f es db h =
    store_events-all f 0 (batches (length es) es) db h
    ∙ ap (λ xs. record db { events = upsert_all xs db.events })
        (concat-batches (length es) es (omega arith))
