-- ===== src/Watch/Laws/Looks.antt =====
-- The loop of `pollTailOnce`, entry by entry.
use burnmon.Base.{
  nat_eq, string_eq, ℕ, suc, ◌≤◌, String, false, not, Option, none, some, List, [], ◌∷◌, length,
  length-filter-le, map, ◌==◌, ◌≡◌, refl, sym, ap, subst, ◌∙◌, arith, Bool-cases, Option-cases, inl,
  inr, All, ==_refl, ==_comm,
}
use burnmon.Watch.{
  TailEntry, tail_cap, live, candidates, moved_size, look, update_entry, report, poll_each, is_idle,
}

abbrev Apart : String → List TailEntry → Type 0
Apart p = All (λ e. (e.path == p) ≡ false)

-- No path is tailed twice.
abbrev pub Distinct : List TailEntry → Type 0
Distinct [] = Unit
Distinct (e ∷ es) = Apart e.path es × Distinct es

-- The entry's size is the file's, or the file cannot be read.
abbrev Settled : (String → Option ℕ) → TailEntry → Type 0
Settled size_of e = moved_size (size_of e.path) e.size ≡ none

moved_size_again :
    (n : Option ℕ) (m : Option ℕ) (k : ℕ) → moved_size n m ≡ some k → moved_size n (some k) ≡ none
unfolding moved_size
moved_size_again none m k h = refl
moved_size_again (some n) none k h = ground arith
moved_size_again (some n) (some m) k h = ground arith

update_entry-Apart :
    (now : ℕ) (c : TailEntry) (m : Option ℕ) (es : List TailEntry)
    → Apart c.path es
    → update_entry now c m es ≡ es
unfolding update_entry
update_entry-Apart now c none es a = refl
update_entry-Apart now c (some n) [] a = refl
update_entry-Apart now c (some n) (e ∷ es) a = rw (a.0, update_entry-Apart now c (some n) es a.1)

-- What the loop leaves of an entry.
unfoldable pub seen : ℕ → Option ℕ → TailEntry → TailEntry
seen now none e = e
seen now (some n) e = look now n e.size e

update_entry-head :
    (now : ℕ) (c : TailEntry) (m : Option ℕ) (es : List TailEntry)
    → update_entry now c m (c ∷ es) ≡ seen now m c ∷ es
unfolding update_entry seen
update_entry-head now c none es = refl
update_entry-head now c (some n) es = rw (==_refl c.path)

update_entry-cons :
    (now : ℕ) (c : TailEntry) (m : Option ℕ) (e : TailEntry) (es : List TailEntry)
    → (e.path == c.path) ≡ false
    → update_entry now c m (e ∷ es) ≡ e ∷ update_entry now c m es
unfolding update_entry
update_entry-cons now c none e es h = refl
update_entry-cons now c (some n) e es h = rw h

poll_each-cons :
    (now : ℕ) (size_of : String → Option ℕ) (cs : List TailEntry) (e : TailEntry)
    (es : List TailEntry)
    → Apart e.path cs
    → (poll_each now size_of cs (e ∷ es)).0 ≡ e ∷ (poll_each now size_of cs es).0
unfolding poll_each
poll_each-cons now size_of [] e es a = refl
poll_each-cons now size_of (c ∷ cs) e es a =
    let m = moved_size (size_of c.path) c.size in
    rw (update_entry-cons now c m e es (==_comm e.path c.path ∙ a.0))
      (poll_each-cons now size_of cs e (update_entry now c m es) a.1)

look-path : (now n : ℕ) (m : Option ℕ) (e : TailEntry) → (look now n m e).path ≡ e.path
unfolding look
look-path now n none e = refl
look-path now n (some k) e = refl

look-size : (now n : ℕ) (m : Option ℕ) (e : TailEntry) → (look now n m e).size ≡ some n
unfolding look
look-size now n none e = refl
look-size now n (some k) e = refl

seen-path : (now : ℕ) (m : Option ℕ) (e : TailEntry) → (seen now m e).path ≡ e.path
unfolding seen
seen-path now none e = refl
seen-path now (some n) e = look-path now n e.size e

-- A loop over all entries looks at each.
pub poll_each-all :
    (now : ℕ) (size_of : String → Option ℕ) (es : List TailEntry)
    → Distinct es
    → (poll_each now size_of es es).0
      ≡ map (λ e. seen now (moved_size (size_of e.path) e.size) e) es
unfolding poll_each
poll_each-all now size_of [] d = refl
poll_each-all now size_of (e ∷ es) d =
    let m = moved_size (size_of e.path) e.size in
    rw (update_entry-head now e m es) (
      poll_each-cons now size_of es (seen now m e) es
        (subst (λ p. Apart p es) (sym (seen-path now m e)) d.0)
      ∙ ap (λ t. seen now m e ∷ t) (poll_each-all now size_of es d.1))

-- Nothing is reported of settled entries.
pub poll_each-Settled :
    (now : ℕ) (size_of : String → Option ℕ) (cs tail : List TailEntry)
    → All (Settled size_of) cs
    → (poll_each now size_of cs tail).1 ≡ []
unfolding poll_each update_entry report
poll_each-Settled now size_of [] tail h = refl
poll_each-Settled now size_of (c ∷ cs) tail h = rw h.0 (poll_each-Settled now size_of cs tail h.1)

seen-Settled :
    (now : ℕ) (size_of : String → Option ℕ) (e : TailEntry)
    → Settled size_of (seen now (moved_size (size_of e.path) e.size) e)
unfolding seen
seen-Settled now size_of e = elim (Option-cases (moved_size (size_of e.path) e.size)) [
  | inl h ↦ rw h h
  | inr (k, h) ↦
      rw (h, look-path now k e.size e, look-size now k e.size e)
        (moved_size_again (size_of e.path) e.size k h)
]

pub map-seen-Settled :
    (now : ℕ) (size_of : String → Option ℕ) (es : List TailEntry)
    → All (Settled size_of) (map (λ e. seen now (moved_size (size_of e.path) e.size) e) es)
map-seen-Settled now size_of [] = tt
map-seen-Settled now size_of (e ∷ es) =
    (seen-Settled now size_of e, map-seen-Settled now size_of es)

pub All-live :
    (later : ℕ) (size_of : String → Option ℕ) (es : List TailEntry)
    → All (Settled size_of) es
    → All (Settled size_of) (live later es)
unfolding live
All-live later size_of [] h = tt
All-live later size_of (e ∷ es) h = elim (Bool-cases (is_idle later e)) [
  | inl old ↦ rw old (All-live later size_of es h.1)
  | inr new ↦ rw new (h.0, All-live later size_of es h.1)
]

pub length-live : (later : ℕ) (es : List TailEntry) → length (live later es) ≤ length es
unfolding live
length-live later es = length-filter-le (λ e. not (is_idle later e)) es

pub length-seen :
    (now : ℕ) (size_of : String → Option ℕ) (es : List TailEntry)
    → length (map (λ e. seen now (moved_size (size_of e.path) e.size) e) es) ≡ length es
length-seen now size_of [] = refl
length-seen now size_of (e ∷ es) = ap suc (length-seen now size_of es)

pub candidates_small : (es : List TailEntry) → length es ≤ tail_cap → candidates es ≡ es
unfolding candidates
candidates_small es h = ground arith

Apart-live : (now : ℕ) (p : String) (es : List TailEntry) → Apart p es → Apart p (live now es)
unfolding live
Apart-live now p [] a = tt
Apart-live now p (e ∷ es) a = elim (Bool-cases (is_idle now e)) [
  | inl old ↦ rw old (Apart-live now p es a.1)
  | inr new ↦ rw new (a.0, Apart-live now p es a.1)
]

pub Distinct-live : (now : ℕ) (es : List TailEntry) → Distinct es → Distinct (live now es)
unfolding live
Distinct-live now [] d = tt
Distinct-live now (e ∷ es) d = elim (Bool-cases (is_idle now e)) [
  | inl old ↦ rw old (Distinct-live now es d.1)
  | inr new ↦ rw new (Apart-live now e.path es d.0, Distinct-live now es d.1)
]
