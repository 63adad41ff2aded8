-- ===== src/Claude/Outputs.antt =====
-- The outputs of the lines of one request: the largest one is what the read keeps.
use burnmon.Base.{
  ℕ, String, Bool, true, false, Option, none, some, List, [], ◌∷◌, ◌++◌, ◌≡◌, refl, ◌==◌, ◌∙◌, ap,
  sym, subst, ◌<◌, ◌||◌, max, lt64, sign_bit, lt64_of_nonneg, length, string_eq, if◌then◌else◌,
  if_both, Bool-cases, inl, inr, arith, All,
}
use burnmon.Store.Table.{row, row-upsert, resolved}
use burnmon.Claude.Json.{Fields, as_object, lookup, has_text, no_entries, text_at}
use burnmon.Claude.Lines.{
  Library, Turn, Reading, own_key, or_else, read_line, usage_turn, usage_with, add_turn, turn_key,
  resolve_turn,
}
use burnmon.Claude.Turns.{line_turn, message_turn, read_line-calls}
use burnmon.Claude.Parse.{Line, read_lines}

-- The larger of two outputs, where there are any.
abbrev pub larger : Option ℕ → Option ℕ → Option ℕ
larger none b = b
larger (some m) none = some m
larger (some m) (some n) = some (max m n)

pub larger-none : (a : Option ℕ) → larger a none ≡ a
larger-none none = refl
larger-none (some m) = refl

pub larger_assoc : (a b c : Option ℕ) → larger (larger a b) c ≡ larger a (larger b c)
larger_assoc none b c = refl
larger_assoc (some m) none c = refl
larger_assoc (some m) (some n) none = refl
larger_assoc (some m) (some n) (some l) = ap some (ground arith)

pub larger_comm : (a b : Option ℕ) → larger a b ≡ larger b a
larger_comm none none = refl
larger_comm none (some n) = refl
larger_comm (some m) none = refl
larger_comm (some m) (some n) = ap some (ground arith)

-- A count that is no negative int64.
abbrev pub Small : Option ℕ → Type 0
Small none = Unit
Small (some n) = n < sign_bit

pub larger-Small : (a b : Option ℕ) → Small a → Small b → Small (larger a b)
larger-Small none b h k = k
larger-Small (some m) none h k = h
larger-Small (some m) (some n) h k = ground arith

abbrev pub out_of : Option Turn → Option ℕ
out_of none = none
out_of (some t) = some t.out

-- The turn, if it is of the request.
abbrev pub of_key : String → Option Turn → Option Turn
of_key k none = none
of_key k (some t) = if t.key == k then some t else none

-- The output that a line adds for the request `k`.
unfoldable pub line_out : Library → String → Option Fields → Option ℕ
line_out lib k none = none
line_out lib k (some obj) = out_of (of_key k (line_turn lib obj 0))

unfoldable pub lines_out : Library → String → List Line → Option ℕ
lines_out lib k [] = none
lines_out lib k (l ∷ ls) = larger (line_out lib k l.decoded) (lines_out lib k ls)

pub lines_out-append :
    (lib : Library) (k : String) (ls ms : List Line)
    → lines_out lib k (ls ++ ms) ≡ larger (lines_out lib k ls) (lines_out lib k ms)
unfolding lines_out
lines_out-append lib k [] ms = refl
lines_out-append lib k (l ∷ ls) ms =
    ap (larger (line_out lib k l.decoded)) (lines_out-append lib k ls ms)
    ∙ sym (larger_assoc (line_out lib k l.decoded) (lines_out lib k ls) (lines_out lib k ms))

-- No line of the request has a negative output.
abbrev pub AllSmall : Library → String → List Line → Type 0
AllSmall lib k = All (λ (l : Line). Small (line_out lib k l.decoded))

resolve_turn-out :
    (x t : Turn) → x.out < sign_bit → t.out < sign_bit → (resolve_turn x t).out ≡ max x.out t.out
unfolding resolve_turn
resolve_turn-out x t h k = rw (lt64_of_nonneg t.out x.out k h) (ground arith)

pub resolve_turn-key : (x t : Turn) → x.key ≡ t.key → (resolve_turn x t).key ≡ x.key
unfolding resolve_turn
resolve_turn-key x t e = if_both (λ (y : Turn). y.key ≡ x.key) (lt64 t.out x.out) refl (sym e)

module _ (lib : Library) (k : String) (named : (n : ℕ) → (lib.row_name n == k) ≡ false) where
  or_else-key :
      (m n : ℕ) (o : Option String)
      → (or_else o (lib.row_name m) == k) ≡ (or_else o (lib.row_name n) == k)
  or_else-key m n none = named m ∙ sym (named n)
  or_else-key m n (some s) = refl

  out_if :
      (b : Bool) (t u : Turn)
      → t.out ≡ u.out
      → out_of (if b then some t else none) ≡ out_of (if b then some u else none)
  out_if true t u e = ap some e
  out_if false t u e = refl

  -- Which output a line adds for the request does not depend on the turns before it.
  usage_with-of_key :
      (obj msg : Fields) (o : Option Fields) (m n : ℕ)
      → out_of (of_key k (usage_with lib obj msg o m))
        ≡ out_of (of_key k (usage_with lib obj msg o n))
  usage_with-of_key obj msg none m n = refl
  usage_with-of_key obj msg (some usage) m n =
      let model = text_at "model" msg in
      elim (Bool-cases (no_entries usage || model == "" || model == "<synthetic>")) [
        | inl e ↦ rw e refl
        | inr e ↦
            rw (e, or_else-key m n (own_key obj))
              (out_if (or_else (own_key obj) (lib.row_name n) == k) _ _ refl)
      ]

  message_turn-of_key :
      (obj : Fields) (o : Option Fields) (m n : ℕ)
      → out_of (of_key k (message_turn lib obj o m)) ≡ out_of (of_key k (message_turn lib obj o n))
  unfolding usage_turn
  message_turn-of_key obj none m n = refl
  message_turn-of_key obj (some msg) m n =
      usage_with-of_key obj msg (as_object (lookup "usage" msg)) m n

  line_turn-of_key :
      (obj : Fields) (m n : ℕ)
      → out_of (of_key k (line_turn lib obj m)) ≡ out_of (of_key k (line_turn lib obj n))
  unfolding line_turn
  line_turn-of_key obj m n = elim (Bool-cases (has_text "type" "assistant" obj)) [
    | inl e ↦ rw e (message_turn-of_key obj (as_object (lookup "message" obj)) m n)
    | inr e ↦ rw e refl
  ]

  resolved-out :
      (t : Turn) (o : Option Turn)
      → t.out < sign_bit
      → Small (out_of o)
      → out_of (some (resolved resolve_turn t o)) ≡ larger (out_of o) (some t.out)
  resolved-out t none h s = refl
  resolved-out t (some x) h s = ap some (resolve_turn-out x t s h)

  add_found-out :
      (b : Bool) (t : Turn) (o : Option Turn)
      → Small (out_of (if b then some t else none))
      → Small (out_of o)
      → out_of (if b then some (resolved resolve_turn t o) else o)
        ≡ larger (out_of o) (out_of (if b then some t else none))
  add_found-out true t o h s = resolved-out t o h s
  add_found-out false t o h s = sym (larger-none (out_of o))

  add_turn-out :
      (o : Option Turn) (calls : List Turn)
      → Small (out_of (of_key k o))
      → Small (out_of (row turn_key k calls))
      → out_of (row turn_key k (add_turn o calls))
        ≡ larger (out_of (row turn_key k calls)) (out_of (of_key k o))
  add_turn-out none calls h s = sym (larger-none (out_of (row turn_key k calls)))
  add_turn-out (some t) calls h s =
      ap out_of (row-upsert turn_key resolve_turn resolve_turn-key k t calls)
      ∙ add_found-out (t.key == k) t (row turn_key k calls) h s

  read_line-out :
      (o : Option Fields) (st : Reading)
      → Small (line_out lib k o)
      → Small (out_of (row turn_key k st.calls))
      → out_of (row turn_key k (read_line lib o st).calls)
        ≡ larger (out_of (row turn_key k st.calls)) (line_out lib k o)
  unfolding line_out read_line
  read_line-out none st h s = sym (larger-none (out_of (row turn_key k st.calls)))
  read_line-out (some obj) st h s =
      let same = line_turn-of_key obj 0 (length st.calls) in
      ap (λ (ts : List Turn). out_of (row turn_key k ts)) (read_line-calls lib obj st)
      ∙ add_turn-out (line_turn lib obj (length st.calls)) st.calls
          (subst (λ (x : Option ℕ). Small x) same h) s
      ∙ ap (larger (out_of (row turn_key k st.calls))) (sym same)

  -- After a number of lines the request has the largest output of them and of what was there.
  pub read_lines-out :
      (ls : List Line) (st : Reading)
      → AllSmall lib k ls
      → Small (out_of (row turn_key k st.calls))
      → out_of (row turn_key k (read_lines lib ls st).calls)
        ≡ larger (out_of (row turn_key k st.calls)) (lines_out lib k ls)
  unfolding read_lines lines_out
  read_lines-out [] st h s = sym (larger-none (out_of (row turn_key k st.calls)))
  read_lines-out (l ∷ ls) st h s =
      let st' = read_line lib l.decoded st in
      let e = read_line-out l.decoded st h.0 s in
      let small =
        subst (λ (x : Option ℕ). Small x) (sym e)
          (larger-Small (out_of (row turn_key k st.calls)) (line_out lib k l.decoded) s h.0) in
      read_lines-out ls st' h.1 small
      ∙ ap (λ (x : Option ℕ). larger x (lines_out lib k ls)) e
      ∙ larger_assoc (out_of (row turn_key k st.calls)) (line_out lib k l.decoded)
          (lines_out lib k ls)
