-- ===== src/Claude/Flags.antt =====
-- The turns and the tool counts after a number of lines.
use burnmon.Base.{
  ℕ, String, Bool, true, false, Option, none, some, List, [], ◌∷◌, ◌++◌, ◌≡◌, refl, ◌==◌, ◌∙◌, ap,
  sym, subst, ◌||◌, length, string_eq,
}
use burnmon.Schema.{key_eq}
use burnmon.Store.Table.{Unique, upsert-Unique}
use burnmon.Claude.Json.{Fields}
use burnmon.Claude.Lines.{Library, Turn, Reading, read_line, add_turn, turn_key, resolve_turn}
use burnmon.Claude.Turns.{line_turn, read_line-calls}
use burnmon.Claude.Tools.{line_tools, has_tools, read_line-has_tools}
use burnmon.Claude.Outputs.{larger, larger-none, larger_assoc, resolve_turn-key}
use burnmon.Claude.Parse.{Line, read_lines}

-- The turns of a read have different keys.
add_turn-Unique :
    (o : Option Turn) (calls : List Turn)
    → Unique turn_key calls
    → Unique turn_key (add_turn o calls)
add_turn-Unique none calls u = u
add_turn-Unique (some t) calls u = upsert-Unique turn_key resolve_turn resolve_turn-key t calls u

read_line-Unique :
    (lib : Library) (o : Option Fields) (st : Reading)
    → Unique turn_key st.calls
    → Unique turn_key (read_line lib o st).calls
unfolding read_line
read_line-Unique lib none st u = u
read_line-Unique lib (some obj) st u =
    subst (λ (ts : List Turn). Unique turn_key ts) (sym (read_line-calls lib obj st))
      (add_turn-Unique (line_turn lib obj (length st.calls)) st.calls u)

pub read_lines-Unique :
    (lib : Library) (ls : List Line) (st : Reading)
    → Unique turn_key st.calls
    → Unique turn_key (read_lines lib ls st).calls
unfolding read_lines
read_lines-Unique lib [] st u = u
read_lines-Unique lib (l ∷ ls) st u =
    read_lines-Unique lib ls (read_line lib l.decoded st) (read_line-Unique lib l.decoded st u)

-- A zero-token event counts as an output of 0.
abbrev pub flag : Bool → Option ℕ
flag true = some 0
flag false = none

pub flag_or : (a b : Bool) → flag (a || b) ≡ larger (flag a) (flag b)
flag_or true true = refl
flag_or true false = refl
flag_or false b = refl

unfoldable pub line_flag : String → Option Fields → Option ℕ
line_flag k none = none
line_flag k (some obj) = flag (line_tools k obj)

unfoldable pub lines_flag : String → List Line → Option ℕ
lines_flag k [] = none
lines_flag k (l ∷ ls) = larger (line_flag k l.decoded) (lines_flag k ls)

pub lines_flag-append :
    (k : String) (ls ms : List Line)
    → lines_flag k (ls ++ ms) ≡ larger (lines_flag k ls) (lines_flag k ms)
unfolding lines_flag
lines_flag-append k [] ms = refl
lines_flag-append k (l ∷ ls) ms =
    ap (larger (line_flag k l.decoded)) (lines_flag-append k ls ms)
    ∙ sym (larger_assoc (line_flag k l.decoded) (lines_flag k ls) (lines_flag k ms))

module _ (lib : Library) (k : String) (named : (n : ℕ) → (lib.tool_row_name n == k) ≡ false) where
  read_line-flag :
      (o : Option Fields) (st : Reading)
      → flag (has_tools k (read_line lib o st).tool_counts)
        ≡ larger (flag (has_tools k st.tool_counts)) (line_flag k o)
  unfolding line_flag read_line
  read_line-flag none st = sym (larger-none (flag (has_tools k st.tool_counts)))
  read_line-flag (some obj) st =
      ap flag (read_line-has_tools lib k named obj st)
      ∙ flag_or (has_tools k st.tool_counts) (line_tools k obj)

  pub read_lines-flag :
      (ls : List Line) (st : Reading)
      → flag (has_tools k (read_lines lib ls st).tool_counts)
        ≡ larger (flag (has_tools k st.tool_counts)) (lines_flag k ls)
  unfolding read_lines lines_flag
  read_lines-flag [] st = sym (larger-none (flag (has_tools k st.tool_counts)))
  read_lines-flag (l ∷ ls) st =
      read_lines-flag ls (read_line lib l.decoded st)
      ∙ ap (λ (x : Option ℕ). larger x (lines_flag k ls)) (read_line-flag l.decoded st)
      ∙ larger_assoc (flag (has_tools k st.tool_counts)) (line_flag k l.decoded) (lines_flag k ls)
