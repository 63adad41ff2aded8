-- ===== src/Watch/Laws.antt =====
-- `pollTailOnce`: what a tick reports, and what the next one finds.
mod Looks
use burnmon.Base.{
  nat_eq, string_eq, ℕ, zero, suc, ◌≤◌, String, Bool, true, false, not, ◌&&◌, ◌||◌, Option, none,
  some, List, [], ◌∷◌, length, take, any, map, ◌==◌, ◌≡◌, refl, ◌∙◌, arith,
}
use burnmon.Watch.{
  TailEntry, Watcher, tail_cap, live, candidates, sort_recent, moved_size, update_entry, report,
  poll_each, poll_tail_once, is_idle,
}
use burnmon.Watch.Laws.Looks.{
  Distinct, seen, poll_each-all, poll_each-Settled, map-seen-Settled, All-live, length-live,
  length-seen, candidates_small, Distinct-live,
}

-- As long as the cap is not reached and the sizes stay, a tick after a tick reports nothing: each
-- change of size is reported once.
pub poll_quiet :
    (now later : ℕ) (size_of : String → Option ℕ) (w : Watcher)
    → Distinct w.tail
    → length (live now w.tail) ≤ tail_cap
    → (poll_tail_once later size_of (poll_tail_once now size_of w).0).1 ≡ []
unfolding poll_tail_once
poll_quiet now later size_of w d h =
    let es = live now w.tail in
    let looked = map (λ e. seen now (moved_size (size_of e.path) e.size) e) es in
    let left : (poll_each now size_of (candidates es) es).0 ≡ looked =
      rw (candidates_small es h) (poll_each-all now size_of es (Distinct-live now w.tail d)) in
    let small : length (live later looked) ≤ tail_cap =
      omega (arith, length-live later looked, length-seen now size_of es, h) in
    rw (left, candidates_small (live later looked) small)
      (poll_each-Settled later size_of (live later looked) (live later looked)
        (All-live later size_of looked (map-seen-Settled now size_of es)))

-- The file can be read and its size is not the one last seen.
abbrev pub is_other : Option ℕ → Option ℕ → Bool
is_other none old = false
is_other (some n) none = true
is_other (some n) (some m) = not (n == m)

abbrev pub has_moved : (String → Option ℕ) → TailEntry → Bool
has_moved size_of e = is_other (size_of e.path) e.size

any-report :
    (p q : String) (n old : Option ℕ) (ps : List String)
    → any (λ r. r == p) (report q (moved_size n old) ps)
      ≡ (q == p && is_other n old || any (λ r. r == p) ps)
unfolding report moved_size
any-report p q none old ps = ground arith
any-report p q (some n) none ps = ground arith
any-report p q (some n) (some m) ps = ground arith

any-poll_each :
    (now : ℕ) (size_of : String → Option ℕ) (p : String) (cs tail : List TailEntry)
    → any (λ q. q == p) (poll_each now size_of cs tail).1
      ≡ any (λ e. e.path == p && has_moved size_of e) cs
unfolding poll_each
any-poll_each now size_of p [] tail = refl
any-poll_each now size_of p (c ∷ cs) tail =
    let m = moved_size (size_of c.path) c.size in
    any-report p c.path (size_of c.path) c.size
      (poll_each now size_of cs (update_entry now c m tail)).1
    ∙ rw (any-poll_each now size_of p cs (update_entry now c m tail))

any-live :
    (now : ℕ) (f : TailEntry → Bool) (es : List TailEntry)
    → any f (live now es) ≡ any (λ e. not (is_idle now e) && f e) es
unfolding live
any-live now f [] = refl
any-live now f (e ∷ es) = ground (arith, any-live now f es)

-- Below the cap a tick reports exactly the files that were active in the last hour, can be read,
-- and have another size than the one last seen.
pub poll_reports :
    (now : ℕ) (size_of : String → Option ℕ) (w : Watcher) (p : String)
    → length (live now w.tail) ≤ tail_cap
    → any (λ q. q == p) (poll_tail_once now size_of w).1
      ≡ any (λ e. not (is_idle now e) && (e.path == p && has_moved size_of e)) w.tail
unfolding poll_tail_once
poll_reports now size_of w p h = rw (candidates_small (live now w.tail) h) (
    any-poll_each now size_of p (live now w.tail) (live now w.tail)
    ∙ any-live now (λ e. e.path == p && has_moved size_of e) w.tail)

length-report :
    (p : String) (m : Option ℕ) (ps : List String) → length (report p m ps) ≤ suc (length ps)
unfolding report
length-report p none ps = omega arith
length-report p (some n) ps = omega arith

length-poll_each :
    (now : ℕ) (size_of : String → Option ℕ) (cs tail : List TailEntry)
    → length (poll_each now size_of cs tail).1 ≤ length cs
unfolding poll_each
length-poll_each now size_of [] tail = omega arith
length-poll_each now size_of (c ∷ cs) tail =
    let m = moved_size (size_of c.path) c.size in
    let rest = poll_each now size_of cs (update_entry now c m tail) in
    omega (
      arith,
      length-report c.path m rest.1,
      length-poll_each now size_of cs (update_entry now c m tail),
    )

length-take_le {ℓ} : {A : Type ℓ} (n : ℕ) (xs : List A) → length (take n xs) ≤ n
length-take_le zero [] = omega arith
length-take_le (suc n) [] = omega arith
length-take_le zero (x ∷ xs) = omega arith
length-take_le (suc n) (x ∷ xs) = omega (arith, length-take_le n xs)

length-candidates : (es : List TailEntry) → length (candidates es) ≤ tail_cap
unfolding candidates
length-candidates es = ground (arith, length-take_le tail_cap (sort_recent es))

-- However many files are tailed, a tick reports 50 at most.
poll_bounded :
    (now : ℕ) (size_of : String → Option ℕ) (w : Watcher)
    → length (poll_tail_once now size_of w).1 ≤ 50
unfolding poll_tail_once
poll_bounded now size_of w =
    let es = live now w.tail in
    omega (arith, length-poll_each now size_of (candidates es) es, length-candidates es)
