-- ===== src/Merge/Groups.antt =====
-- ClientTotal, VendorTotal and WeekTotal, which have one shape: the group's key, its tokens by
-- label, and their sum; and the tables of such groups.
use burnmon.Base.{
  ℕ, String, false, ◌&&◌, List, [], ◌∷◌, ◌+64◌, regroup, regroup_right, zero_add64, codes,
  codes_lt_irrefl, ◌∙◌, ◌≡◌, refl, ◌==◌, string_eq, if◌then◌else◌, str_lt, arith, Bool-cases, inl,
  inr,
}
use text.Mathlib.TextEquality.{eq_iff}

pub record Group : Type 0 where
  pub name : String
  pub by_label : List (String × ℕ)
  pub total : ℕ

-- m[label] += n
unfoldable pub bump : String → ℕ → List (String × ℕ) → List (String × ℕ)
bump l n [] = (l, 0 +64 n) ∷ []
bump l n ((k, v) ∷ m) = if k == l then (k, v +64 n) ∷ m else (k, v) ∷ bump l n m

unfoldable pub bump_group : String → ℕ → Group → Group
bump_group l n g = record g { by_label = bump l n g.by_label; total = g.total +64 n }

-- The group of the name, made if it is new, gets the tokens.
unfoldable pub add_tokens : String → String → ℕ → List Group → List Group
unfolding bump_group
add_tokens name l n [] = bump_group l n (record { name = name; by_label = []; total = 0 }) ∷ []
add_tokens name l n (g ∷ gs) =
    if g.name == name then bump_group l n g ∷ gs else g ∷ add_tokens name l n gs

-- sort.Slice by the name. The names differ, so that every sort gives this order.
unfoldable pub insert_group : Group → List Group → List Group
insert_group g [] = g ∷ []
insert_group g (h ∷ hs) = if str_lt h.name g.name then h ∷ insert_group g hs else g ∷ h ∷ hs

unfoldable pub sort_groups : List Group → List Group
unfolding insert_group
sort_groups [] = []
sort_groups (g ∷ gs) = insert_group g (sort_groups gs)

-- What a table says of a group and a label: 0 where it has no such entry.
unfoldable pub at_label : String → List (String × ℕ) → ℕ
at_label l [] = 0
at_label l ((k, v) ∷ m) = if k == l then v else at_label l m

unfoldable pub cell : String → String → List Group → ℕ
unfolding at_label
cell name l [] = 0
cell name l (g ∷ gs) = if g.name == name then at_label l g.by_label else cell name l gs

pub at_label-bump :
    (j l : String) (n : ℕ) (m : List (String × ℕ))
    → at_label j (bump l n m) ≡ (if l == j then at_label j m +64 n else at_label j m)
unfolding at_label bump
at_label-bump j l n [] = ground arith
at_label-bump j l n ((k, v) ∷ m) =
    ground (arith, eq_iff k l, eq_iff k j, eq_iff l j, at_label-bump j l n m)

pub cell-add_tokens :
    (a j name l : String) (n : ℕ) (gs : List Group)
    → cell a j (add_tokens name l n gs)
      ≡ (if name == a && l == j then cell a j gs +64 n else cell a j gs)
unfolding cell add_tokens bump_group at_label
cell-add_tokens a j name l n [] = ground (arith, at_label-bump j l n [])
cell-add_tokens a j name l n (g ∷ gs) = ground (
  arith,
  eq_iff g.name name,
  eq_iff g.name a,
  eq_iff name a,
  at_label-bump j l n g.by_label,
  cell-add_tokens a j name l n gs,
)

-- The sum of the groups' totals.
unfoldable pub grand_total : List Group → ℕ
grand_total [] = 0
grand_total (g ∷ gs) = g.total +64 grand_total gs

pub grand_total-add_tokens :
    (name l : String) (n : ℕ) (gs : List Group)
    → grand_total (add_tokens name l n gs) ≡ n +64 grand_total gs
unfolding grand_total add_tokens bump_group
grand_total-add_tokens name l n [] = zero_add64 n
grand_total-add_tokens name l n (g ∷ gs) = elim (Bool-cases (g.name == name)) [
  | inl same ↦ rw same (regroup g.total n (grand_total gs))
  | inr other ↦
      rw (other, grand_total-add_tokens name l n gs) (regroup_right g.total n (grand_total gs))
]

str_lt_irrefl : (s : String) → str_lt s s ≡ false
str_lt_irrefl s = codes_lt_irrefl (codes s)

-- Sorting moves no cell, since a group only passes one of another name.
cell-insert_group :
    (a j : String) (g : Group) (gs : List Group) → cell a j (insert_group g gs) ≡ cell a j (g ∷ gs)
unfolding cell insert_group
cell-insert_group a j g [] = refl
cell-insert_group a j g (h ∷ hs) =
    ground (arith, cell-insert_group a j g hs, eq_iff h.name a, eq_iff g.name a, str_lt_irrefl a)

pub cell-sort_groups : (a j : String) (gs : List Group) → cell a j (sort_groups gs) ≡ cell a j gs
unfolding sort_groups cell
cell-sort_groups a j [] = refl
cell-sort_groups a j (g ∷ gs) =
    cell-insert_group a j g (sort_groups gs) ∙ ground (arith, cell-sort_groups a j gs)

grand_total-insert_group :
    (g : Group) (gs : List Group) → grand_total (insert_group g gs) ≡ g.total +64 grand_total gs
unfolding grand_total insert_group
grand_total-insert_group g [] = refl
grand_total-insert_group g (h ∷ hs) = elim (Bool-cases (str_lt h.name g.name)) [
  | inl before ↦
      rw (before, grand_total-insert_group g hs) (regroup_right h.total g.total (grand_total hs))
  | inr here ↦ rw here
]

pub grand_total-sort_groups : (gs : List Group) → grand_total (sort_groups gs) ≡ grand_total gs
unfolding grand_total sort_groups
grand_total-sort_groups [] = refl
grand_total-sort_groups (g ∷ gs) =
    grand_total-insert_group g (sort_groups gs) ∙ rw (grand_total-sort_groups gs)
