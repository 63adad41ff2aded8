-- ===== src/Store/Repair/Reset/Cursors.antt =====
-- The cursors that `ResetCollapsedCodexSessions` removes.
use burnmon.Base.{
  string_eq, ℕ, suc, ◌+◌, String, Bool, true, not, ◌&&◌, none, some, List, [], ◌∷◌, length, ◌≡◌,
  refl, ap, ◌⊎◌, inl, inr, ◌==◌, filter, filter-filter, filter-all, filter-cong, any, arith,
  Bool-cases, eq_of_==, ==_comm, All,
}
use burnmon.Paths.{Os, session_id_from_path}
use burnmon.Store.Db.{CursorRow, Faults}
use burnmon.Store.Prune.Laws.{All-own_path}
use burnmon.Store.Repair.{collapsed_paths, delete_cursors}

abbrev pub is_reset : Os → List String → CursorRow → Bool
is_reset os sids c = any (λ s. s == session_id_from_path os c.path) sids

pub delete_cursors-kept :
    (f : Faults) (i : ℕ) (ps : List String) (t : List CursorRow) (n : ℕ)
    → (delete_cursors f i ps t n ≡ none)
      ⊎ (delete_cursors f i ps t n
          ≡ some (filter (λ c. not (any (λ p. c.path == p) ps)) t, n + length ps))
unfolding delete_cursors
delete_cursors-kept f i [] t n =
    let same : filter (λ (c : CursorRow). true) t ≡ t = filter-all (λ c. true) t (λ c. refl) in
    inr (rw same (ap (λ k. some (t, k)) (omega arith)))
delete_cursors-kept f i (p ∷ ps) t n = elim (Bool-cases (f.exec i)) [
  | inl fails ↦ inl (rw fails)
  | inr runs ↦
      let left = filter (λ c. not (c.path == p)) t in
      let both : filter (λ c. not (any (λ q. c.path == q) ps)) left
          ≡ filter (λ c. not (any (λ q. c.path == q) (p ∷ ps))) t =
        filter-filter (λ (c : CursorRow). not (c.path == p)) (λ c. not (any (λ q. c.path == q) ps))
          (λ c. not (any (λ q. c.path == q) (p ∷ ps))) t (λ c. ground arith) in
      let more : suc n + length ps ≡ n + suc (length ps) = omega arith in
      elim (delete_cursors-kept f (suc i) ps left (suc n)) [
        | inl e ↦ inl (rw (runs, e))
        | inr e ↦ inr (rw (runs, e, both, more))
      ]
]

any-collapsed_paths :
    (os : Os) (sids : List String) (cs : List CursorRow) (q : String)
    → any (λ p. q == p) (collapsed_paths os sids cs)
      ≡ (any (λ s. s == session_id_from_path os q) sids && any (λ c. c.path == q) cs)
unfolding collapsed_paths
any-collapsed_paths os sids [] q = ground arith
any-collapsed_paths os sids (x ∷ xs) q = elim (Bool-cases (x.path == q)) [
  | inl same ↦ ground (
    arith,
    same,
    ==_comm q x.path,
    ap (λ p. any (λ s. s == session_id_from_path os p) sids) (eq_of_== x.path q same),
    any-collapsed_paths os sids xs q,
  )
  | inr other ↦ ground (arith, ==_comm q x.path, any-collapsed_paths os sids xs q)
]

cursors-kept :
    (os : Os) (sids : List String) (all cs : List CursorRow)
    → All (λ c. any (λ d. d.path == c.path) all ≡ true) cs
    → All
        (λ c. not (any (λ p. c.path == p) (collapsed_paths os sids all)) ≡ not (is_reset os sids c))
        cs
cursors-kept os sids all [] h = tt
cursors-kept os sids all (c ∷ cs) h =
    (ground (arith, h.0, any-collapsed_paths os sids all c.path), cursors-kept os sids all cs h.1)

pub filter-cursors-kept :
    (os : Os) (sids : List String) (t : List CursorRow)
    → filter (λ c. not (any (λ p. c.path == p) (collapsed_paths os sids t))) t
      ≡ filter (λ c. not (is_reset os sids c)) t
filter-cursors-kept os sids t = filter-cong _ _ t (cursors-kept os sids t t (All-own_path t))

pub length-collapsed_paths :
    (os : Os) (sids : List String) (cs : List CursorRow)
    → length (collapsed_paths os sids cs) ≡ length (filter (is_reset os sids) cs)
unfolding collapsed_paths
length-collapsed_paths os sids [] = refl
length-collapsed_paths os sids (c ∷ cs) = ground (arith, length-collapsed_paths os sids cs)
