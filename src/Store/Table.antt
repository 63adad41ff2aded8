-- ===== src/Store/Table.antt =====
-- A table with a primary key, as the list of its rows: SQLite's INSERT ... ON CONFLICT DO UPDATE
-- and DELETE, over the key of a row.
use burnmon.Base.{
  ==_comm, any, All-append, ◌++◌, ◌||◌, map, ap, sym, Bool, true, some_injective, ◌∙◌, Bool-cases,
  inl, inr, false, Option, none, some, List, [], ◌∷◌, ◌≡◌, refl, ◌==◌, Eq, arith, if◌then◌else◌,
  All,
}

-- What DO UPDATE or the plain insert leaves under the key.
abbrev pub resolved : {R : Type 0} → (R → R → R) → R → Option R → R
resolved resolve r none = r
resolved resolve r (some x) = resolve x r

module _ {R : Type 0} {K : Type 0} ⦃e : Eq K⦄ (key : R → K) where
  -- The row with the key, if there is one.
  unfoldable pub row : K → List R → Option R
  row k [] = none
  row k (x ∷ xs) = if key x == k then some x else row k xs

  -- `resolve old new` is what DO UPDATE leaves of the stored row.
  unfoldable pub upsert : (R → R → R) → R → List R → List R
  upsert resolve r [] = r ∷ []
  upsert resolve r (x ∷ xs) = if key x == key r then resolve x r ∷ xs else x ∷ upsert resolve r xs

  -- No two rows share a key.
  abbrev pub Absent : K → List R → Type 0
  Absent k = All (λ x. (key x == k) ≡ false)

  abbrev pub Unique : List R → Type 0
  Unique [] = Unit
  Unique (x ∷ xs) = Absent (key x) xs × Unique xs

  pub Unique-append :
      (xs ys : List R) → Unique xs → Unique ys → All (λ x. Absent (key x) ys) xs → Unique (xs ++ ys)
  Unique-append [] ys u v a = v
  Unique-append (x ∷ xs) ys u v a =
      (All-append (λ y. (key y == key x) ≡ false) xs ys u.0 a.0, Unique-append xs ys u.1 v a.1)

  pub row-key : (k : K) (t : List R) (x : R) → row k t ≡ some x → key x ≡ k
  unfolding row
  row-key k [] x found = cc
  row-key k (y ∷ ys) x found = go (key y == k) refl found (row-key k ys x)
    where
      go :
          (b : Bool)
          → (key y == k) ≡ b
          → (if b then some y else row k ys) ≡ some x
          → (row k ys ≡ some x → key x ≡ k)
          → key x ≡ k
      go true same h rest = ap key (sym (some_injective h)) ∙ (e.beq_iff (key y) k).0 same
      go false other h rest = rest h

  -- A change of every row that keeps the keys changes the row of a key.
  pub row-map :
      (f : R → R) (k : K) (t : List R) (old : R)
      → ((x : R) → key (f x) ≡ key x)
      → row k t ≡ some old
      → row k (map f t) ≡ some (f old)
  unfolding row
  row-map f k [] old h found = cc
  row-map f k (x ∷ xs) old h found =
      let same : (key (f x) == k) ≡ (key x == k) = ap (λ (y : K). y == k) (h x) in
      rw same (go (key x == k) found (row-map f k xs old h))
    where
      go :
          (b : Bool)
          → (if b then some x else row k xs) ≡ some old
          → (row k xs ≡ some old → row k (map f xs) ≡ some (f old))
          → (if b then some (f x) else row k (map f xs)) ≡ some (f old)
      go true e rest = ap (λ (y : R). some (f y)) (some_injective e)
      go false e rest = rest e

  module _ (resolve : R → R → R)
      (keeps : (x r : R) → key x ≡ key r → key (resolve x r) ≡ key x) where
    -- After an upsert the row of the key is the resolved one, and all others are as before.
    pub row-upsert :
        (k : K) (r : R) (t : List R)
        → row k (upsert resolve r t)
          ≡ (if key r == k then some (resolved resolve r (row k t)) else row k t)
    unfolding row upsert
    row-upsert k r [] = refl
    row-upsert k r (x ∷ xs) = ground (
      arith,
      keeps x r,
      e.beq_iff (key x) k,
      e.beq_iff (key r) k,
      e.beq_iff (key x) (key r),
      row-upsert k r xs,
    )

    Absent-upsert :
        (k : K) (r : R) (t : List R)
        → (key r == k) ≡ false
        → Absent k t
        → Absent k (upsert resolve r t)
    unfolding upsert
    Absent-upsert k r [] h a = (h, tt)
    Absent-upsert k r (x ∷ xs) h a = elim (Bool-cases (key x == key r)) [
      | inl same ↦ rw same (rw (keeps x r ((e.beq_iff (key x) (key r)).0 same)) (a.0, a.1))
      | inr other ↦ rw other (a.0, Absent-upsert k r xs h a.1)
    ]

    pub upsert-Unique : (r : R) (t : List R) → Unique t → Unique (upsert resolve r t)
    unfolding upsert
    upsert-Unique r [] u = (tt, tt)
    upsert-Unique r (x ∷ xs) u = elim (Bool-cases (key x == key r)) [
      | inl same ↦ rw same (rw (keeps x r ((e.beq_iff (key x) (key r)).0 same)) (u.0, u.1))
      | inr other ↦
          rw other (
            Absent-upsert (key x) r xs (==_comm (key r) (key x) ∙ other) u.0,
            upsert-Unique r xs u.1,
          )
    ]

    -- A key has a row afterwards if it had one or is the one of the row.
    pub any-upsert :
        (k : K) (r : R) (t : List R)
        → any (λ x. key x == k) (upsert resolve r t) ≡ (any (λ x. key x == k) t || key r == k)
    unfolding upsert
    any-upsert k r [] = ground arith
    any-upsert k r (x ∷ xs) = ground (
      arith,
      keeps x r,
      e.beq_iff (key x) k,
      e.beq_iff (key r) k,
      e.beq_iff (key x) (key r),
      any-upsert k r xs,
    )
