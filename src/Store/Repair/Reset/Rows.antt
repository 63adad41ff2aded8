-- ===== src/Store/Repair/Reset/Rows.antt =====
-- The rows that `ResetCollapsedCodexSessions` removes.
use burnmon.Base.{
  string_eq, ℕ, suc, ◌+◌, String, Bool, not, ◌&&◌, ◌||◌, none, some, List, [], ◌∷◌, length, ◌≡◌,
  refl, sym, ap, subst, ◌⊎◌, inl, inr, ◌==◌, filter, filter-filter, filter-all, filter-cong, any,
  arith, Bool-cases, eq_of_==, All,
}
use text.Mathlib.TextEquality.{eq_iff}
use burnmon.Schema.{Event}
use burnmon.Store.Db.{Faults}
use burnmon.Store.Repair.{
  is_collapsed, is_collapsed_of, add_once, collapsed_sessions, delete_collapsed,
}

-- No session of the list owns the row as its collapsed one.
abbrev pub spared : List String → Event → Bool
spared sids e = not (any (λ s. is_collapsed_of s e) sids)

pub length-split {ℓ} :
    {A : Type ℓ} (p : A → Bool) (xs : List A)
    → length (filter p xs) + length (filter (λ x. not (p x)) xs) ≡ length xs
length-split p [] = refl
length-split p (x ∷ xs) = ground (arith, length-split p xs)

pub delete_collapsed-spared :
    (f : Faults) (i : ℕ) (sids : List String) (t : List Event) (n : ℕ)
    → (delete_collapsed f i sids t n ≡ none)
      ⊎ ((m : ℕ) × ((delete_collapsed f i sids t n ≡ some (filter (spared sids) t, m))
            × (m + length (filter (spared sids) t) ≡ n + length t)))
unfolding delete_collapsed
delete_collapsed-spared f i [] t n =
    let same : filter (spared []) t ≡ t = filter-all (spared []) t (λ e. refl) in
    inr (n, (rw same, rw same))
delete_collapsed-spared f i (s ∷ ss) t n = elim (Bool-cases (f.exec i)) [
  | inl fails ↦ inl (rw fails)
  | inr runs ↦
      let left = filter (λ e. not (is_collapsed_of s e)) t in
      let both : filter (spared ss) left ≡ filter (spared (s ∷ ss)) t =
        filter-filter (λ e. not (is_collapsed_of s e)) (spared ss) (spared (s ∷ ss)) t
          (λ e. ground arith) in
      let split = length-split (is_collapsed_of s) t in
      elim (delete_collapsed-spared f (suc i) ss left (n + length (filter (is_collapsed_of s) t))) [
        | inl e ↦ inl (rw (runs, e))
        | inr (m, (e, count)) ↦ inr (m, (rw (runs, e, both), ground (arith, both, split, count)))
      ]
]

-- Of the rows in the table itself, the collapsed ones are those that some session owns.
any-is_collapsed_of :
    (sids : List String) (e : Event)
    → any (λ s. is_collapsed_of s e) sids ≡ (is_collapsed e && any (λ s. s == e.session_id) sids)
any-is_collapsed_of [] e = ground arith
any-is_collapsed_of (s ∷ ss) e =
    ground (arith, eq_iff e.session_id s, eq_iff s e.session_id, any-is_collapsed_of ss e)

any-add_once :
    (s t : String) (ss : List String)
    → any (λ u. u == t) (add_once s ss) ≡ (s == t || any (λ u. u == t) ss)
unfolding add_once
any-add_once s t ss = elim (Bool-cases (any (λ u. u == s) ss)) [
  | inl old ↦ rw old (elim (Bool-cases (s == t)) [
    | inl e ↦ ground (arith, e, ap (λ v. any (λ u. u == v) ss) (eq_of_== s t e), old)
    | inr e ↦ rw e
  ])
  | inr new ↦ rw new
]

abbrev Listed : List String → List Event → Type 0
Listed sids = All (λ e. (is_collapsed e && any (λ s. s == e.session_id) sids) ≡ is_collapsed e)

Listed-add_once :
    (s : String) (sids : List String) (es : List Event)
    → Listed sids es
    → Listed (add_once s sids) es
Listed-add_once s sids [] h = tt
Listed-add_once s sids (e ∷ es) h =
    (ground (arith, h.0, any-add_once s e.session_id sids), Listed-add_once s sids es h.1)

collapsed_sessions-Listed : (es : List Event) → Listed (collapsed_sessions es) es
unfolding collapsed_sessions
collapsed_sessions-Listed [] = tt
collapsed_sessions-Listed (e ∷ es) = elim (Bool-cases (is_collapsed e)) [
  | inl is ↦
      let old = collapsed_sessions es in
      let next : collapsed_sessions (e ∷ es) ≡ add_once e.session_id old = rw is in
      subst (λ ss. Listed ss (e ∷ es)) (sym next)
        (
          ground
              (arith, any-add_once e.session_id e.session_id old, eq_iff e.session_id e.session_id),
          Listed-add_once e.session_id old es (collapsed_sessions-Listed es),
        )
  | inr isnt ↦
      let next : collapsed_sessions (e ∷ es) ≡ collapsed_sessions es = rw isnt in
      subst (λ ss. Listed ss (e ∷ es)) (sym next)
        (ground (arith, isnt), collapsed_sessions-Listed es)
]

-- The rows that stay are those that are not collapsed ones.
spared-collapsed_sessions :
    (sids : List String) (es : List Event)
    → Listed sids es
    → All (λ e. spared sids e ≡ not (is_collapsed e)) es
spared-collapsed_sessions sids [] h = tt
spared-collapsed_sessions sids (e ∷ es) h =
    (ground (arith, h.0, any-is_collapsed_of sids e), spared-collapsed_sessions sids es h.1)

pub filter-spared :
    (sids : List String) (t : List Event)
    → collapsed_sessions t ≡ sids
    → filter (spared sids) t ≡ filter (λ e. not (is_collapsed e)) t
filter-spared sids t h =
    filter-cong _ _ t
      (spared-collapsed_sessions sids t (subst (λ ss. Listed ss t) h (collapsed_sessions-Listed t)))
