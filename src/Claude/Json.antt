-- ===== src/Claude/Json.antt =====
-- What encoding/json gives the adapters, and the helpers of internal/adapter/claude/claude.go that
-- read it. An object has each name once.
use Prim.Native.String.{◌++◌ as join}
use burnmon.Base.{
  ℕ, String, Bool, true, false, not, ◌&&◌, ◌||◌, Option, none, some, List, [], ◌∷◌, ◌+◌, ◌==◌,
  ◌+64◌, map, ltb, nat_beq, codes, has_prefix, to_lower, string_eq, if◌then◌else◌,
}

-- A float64 as its bit pattern, with the 64-bit pattern of what `int64(f)` makes of it.
pub record Number : Type 0 where
  pub float : ℕ
  pub whole : ℕ

mutual
  pub data Json : Type 0 where
    null : Json
    bool : Bool → Json
    number : Number → Json
    text : String → Json
    array : Items → Json
    object : Fields → Json

  pub data Items : Type 0 where
    no_items : Items
    item : Json → Items → Items

  pub data Fields : Type 0 where
    no_fields : Fields
    field : String → Json → Fields → Fields

-- `obj[name]`, null where it is missing.
unfoldable pub lookup : String → Fields → Json
lookup name no_fields = null
lookup name (field n v fs) = let rest = lookup name fs in if n == name then v else rest

-- `v.(string)`, `v.(map[string]any)` and `v.([]any)`.
abbrev pub as_text : Json → Option String
as_text (text s) = some s
as_text null = none
as_text (bool b) = none
as_text (number n) = none
as_text (array xs) = none
as_text (object fs) = none

abbrev pub as_object : Json → Option Fields
as_object (object fs) = some fs
as_object (text s) = none
as_object null = none
as_object (bool b) = none
as_object (number n) = none
as_object (array xs) = none

abbrev pub as_array : Json → Option Items
as_array (array xs) = some xs
as_array (text s) = none
as_array null = none
as_array (bool b) = none
as_array (number n) = none
as_array (object fs) = none

abbrev pub or_empty : Option String → String
or_empty none = ""
or_empty (some s) = s

-- `s, _ := obj[name].(string)`
unfoldable pub text_at : String → Fields → String
unfolding lookup
text_at name fs = or_empty (as_text (lookup name fs))

-- `s, ok := obj[name].(string); ok && s != ""`
abbrev pub unless_empty : String → Option String
unless_empty s = if s == "" then none else some s

-- `obj[name] == value`
unfoldable pub has_text : String → String → Fields → Bool
unfolding lookup
has_text name value fs = elim (as_text (lookup name fs)) [ none ↦ false | some s ↦ s == value ]

abbrev pub no_entries : Fields → Bool
no_entries no_fields = true
no_entries (field n v fs) = false

-- asInt
abbrev pub as_int : Json → ℕ
as_int (number n) = n.whole
as_int (text s) = 0
as_int null = 0
as_int (bool b) = 0
as_int (array xs) = 0
as_int (object fs) = 0

unfoldable pub int_at : String → Fields → ℕ
unfolding lookup
int_at name fs = as_int (lookup name fs)

-- `len(s)`: the bytes of its UTF-8.
unfoldable pub rune_bytes : ℕ → ℕ
rune_bytes c = if ltb c 0x80 then 1 else if ltb c 0x800 then 2 else if ltb c 0x10000 then 3 else 4

unfoldable pub count_bytes : List ℕ → ℕ
unfolding rune_bytes
count_bytes [] = 0
count_bytes (c ∷ cs) = rune_bytes c + count_bytes cs

unfoldable pub byte_length : String → ℕ
unfolding count_bytes
byte_length s = count_bytes (codes s)

-- The texts of the blocks, and of the plain strings where `plain` says so.
unfoldable pub texts : Items → List String
unfolding has_text lookup
texts no_items = []
texts (item (text s) xs) = s ∷ texts xs
texts (item (object fs) xs) =
    let rest = texts xs in
    if has_text "type" "text" fs
    then elim (as_text (lookup "text" fs)) [ none ↦ rest | some t ↦ t ∷ rest ]
    else rest
texts (item null xs) = texts xs
texts (item (bool b) xs) = texts xs
texts (item (number n) xs) = texts xs
texts (item (array ys) xs) = texts xs

-- strings.Join(parts, " ")
unfoldable pub join_spaces : List String → String
join_spaces [] = ""
join_spaces (s ∷ []) = s
join_spaces (s ∷ t ∷ ss) = join s (join " " (join_spaces (t ∷ ss)))

-- extractText
unfoldable pub extract_text : Json → String
unfolding texts join_spaces
extract_text (text s) = s
extract_text (array xs) = join_spaces (texts xs)
extract_text null = ""
extract_text (bool b) = ""
extract_text (number n) = ""
extract_text (object fs) = ""

unfoldable pub sum_text_bytes : Items → ℕ
unfolding lookup byte_length
sum_text_bytes no_items = 0
sum_text_bytes (item (object fs) xs) =
    let rest = sum_text_bytes xs in
    elim (as_text (lookup "text" fs)) [ none ↦ rest | some t ↦ byte_length t +64 rest ]
sum_text_bytes (item (text s) xs) = sum_text_bytes xs
sum_text_bytes (item null xs) = sum_text_bytes xs
sum_text_bytes (item (bool b) xs) = sum_text_bytes xs
sum_text_bytes (item (number n) xs) = sum_text_bytes xs
sum_text_bytes (item (array ys) xs) = sum_text_bytes xs

-- contentByteLen
unfoldable pub content_byte_len : Json → ℕ
unfolding sum_text_bytes byte_length
content_byte_len (text s) = byte_length s
content_byte_len (array xs) = sum_text_bytes xs
content_byte_len null = 0
content_byte_len (bool b) = 0
content_byte_len (number n) = 0
content_byte_len (object fs) = 0

-- skillTag, where a nil input is the object with no names.
unfoldable pub skill_tag : String → Fields → String
unfolding text_at
skill_tag name input =
    let skill = text_at "skill" input in
    if name == "Skill" && not (skill == "") then join "skill:" skill else name

-- filePathFromInput
unfoldable pub file_path_from_input : Fields → String
unfolding text_at
file_path_from_input input =
    let p = text_at "file_path" input in if p == "" then text_at "notebook_path" input else p

-- strings.Contains
unfoldable pub contains : List ℕ → List ℕ → Bool
contains s [] = has_prefix s []
contains s (c ∷ cs) = has_prefix s (c ∷ cs) || contains s cs

unfoldable pub slash_lower : String → List ℕ
slash_lower p = to_lower (map (λ c. if nat_beq c b'\\' then b'/' else c) (codes p))

-- classifySurface
unfoldable pub classify_surface : String → String → String
unfolding contains slash_lower
classify_surface path cwd =
    let p = slash_lower path in
    let c = slash_lower cwd in
    if contains (codes "local-agent-mode-sessions") p
      || contains (codes "local-agent-mode-sessions") c
    then "desktop"
    else if contains (codes ".worktrees") c && contains (codes "sprint") c
    then "code_agent"
    else "cli"

-- agentFor
unfoldable pub agent_for : String → String
agent_for surface = if surface == "desktop" || surface == "cowork" then "cowork" else "claude-code"
