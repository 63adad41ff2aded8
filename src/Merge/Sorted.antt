-- ===== src/Merge/Sorted.antt =====
-- The order of the breakdowns of `Merge`.
use burnmon.Base.{
  ℕ, String, true, false, List, [], ◌∷◌, ◌≡◌, ◌∙◌, ◌==◌, string_eq, str_lt, All, arith, Bool-cases,
  inl, inr, codes, codes_lt_trans, str_lt_total, ==_comm,
}
use text.Mathlib.TextEquality.{eq_iff}
use burnmon.Merge.Groups.{Group, bump_group, add_tokens, insert_group, sort_groups}

abbrev Fresh : String → List Group → Type 0
Fresh n = All (λ g. (g.name == n) ≡ false)

abbrev pub Distinct : List Group → Type 0
Distinct [] = Unit
Distinct (g ∷ gs) = Fresh g.name gs × Distinct gs

abbrev Above : String → List Group → Type 0
Above n = All (λ g. str_lt n g.name ≡ true)

-- Every group comes before all that follow it.
abbrev pub Ascending : List Group → Type 0
Ascending [] = Unit
Ascending (g ∷ gs) = Above g.name gs × Ascending gs

Fresh-add_tokens :
    (a name l : String) (n : ℕ) (gs : List Group)
    → (name == a) ≡ false
    → Fresh a gs
    → Fresh a (add_tokens name l n gs)
unfolding add_tokens bump_group
Fresh-add_tokens a name l n [] h f = (h, tt)
Fresh-add_tokens a name l n (g ∷ gs) h f = elim (Bool-cases (g.name == name)) [
  | inl same ↦ rw same (f.0, f.1)
  | inr other ↦ rw other (f.0, Fresh-add_tokens a name l n gs h f.1)
]

pub add_tokens-Distinct :
    (name l : String) (n : ℕ) (gs : List Group) → Distinct gs → Distinct (add_tokens name l n gs)
unfolding add_tokens bump_group
add_tokens-Distinct name l n [] d = (tt, tt)
add_tokens-Distinct name l n (g ∷ gs) d = elim (Bool-cases (g.name == name)) [
  | inl same ↦ rw same (d.0, d.1)
  | inr other ↦ rw other (
    Fresh-add_tokens g.name name l n gs (==_comm name g.name ∙ other) d.0,
    add_tokens-Distinct name l n gs d.1,
  )
]

All-insert_group :
    (P : Group → Type 0) (g : Group) (gs : List Group) → P g → All P gs → All P (insert_group g gs)
unfolding insert_group
All-insert_group P g [] p a = (p, tt)
All-insert_group P g (h ∷ hs) p a = elim (Bool-cases (str_lt h.name g.name)) [
  | inl before ↦ rw before (a.0, All-insert_group P g hs p a.1)
  | inr here ↦ rw here (p, a)
]

Above-weaken : (m n : String) (gs : List Group) → str_lt m n ≡ true → Above n gs → Above m gs
Above-weaken m n [] h a = tt
Above-weaken m n (g ∷ gs) h a =
    (codes_lt_trans (codes m) (codes n) (codes g.name) h a.0, Above-weaken m n gs h a.1)

before_of_not_after :
    (g h : Group)
    → str_lt h.name g.name ≡ false
    → (h.name == g.name) ≡ false
    → str_lt g.name h.name ≡ true
before_of_not_after g h here other = elim (Bool-cases (str_lt g.name h.name)) [
  | inl e ↦ e
  | inr e ↦ ground (arith, str_lt_total g.name h.name, eq_iff h.name g.name)
]

insert_group-Ascending :
    (g : Group) (gs : List Group) → Fresh g.name gs → Ascending gs → Ascending (insert_group g gs)
unfolding insert_group
insert_group-Ascending g [] f a = (tt, tt)
insert_group-Ascending g (h ∷ hs) f a = elim (Bool-cases (str_lt h.name g.name)) [
  | inl before ↦ rw before (
    All-insert_group (λ k. str_lt h.name k.name ≡ true) g hs before a.0,
    insert_group-Ascending g hs f.1 a.1,
  )
  | inr here ↦
      let first : str_lt g.name h.name ≡ true = before_of_not_after g h here f.0 in
      rw here ((first, Above-weaken g.name h.name hs first a.0), a)
]

Fresh-sort_groups : (n : String) (gs : List Group) → Fresh n gs → Fresh n (sort_groups gs)
unfolding sort_groups
Fresh-sort_groups n [] f = tt
Fresh-sort_groups n (g ∷ gs) f =
    All-insert_group (λ k. (k.name == n) ≡ false) g (sort_groups gs) f.0
      (Fresh-sort_groups n gs f.1)

pub sort_groups-Ascending : (gs : List Group) → Distinct gs → Ascending (sort_groups gs)
unfolding sort_groups
sort_groups-Ascending [] d = tt
sort_groups-Ascending (g ∷ gs) d =
    insert_group-Ascending g (sort_groups gs) (Fresh-sort_groups g.name gs d.0)
      (sort_groups-Ascending gs d.1)
