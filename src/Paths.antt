-- ===== src/Paths.antt =====
-- `sessionIDFromPath` of internal/store/store.go, and the parts of Go's path/filepath that it
-- calls, for absolute paths (a drive-relative path such as `C:name` is not modelled).
use Prim.Native.Char.{code}
use burnmon.Base.{ℕ, String, Bool, false, ◌||◌, ◌≡◌, refl, if◌then◌else◌, nat_beq}

pub data Os : Type 0 where
  windows unix : Os

abbrev pub is_sep : Os → ℕ → Bool
is_sep windows c = nat_beq c b'/' || nat_beq c b'\\'
is_sep unix c = nat_beq c b'/'

abbrev pub root : Os → String
root windows = "\\"
root unix = "/"

abbrev pub holds : (ℕ → Bool) → String → Bool
holds p String.[] = false
holds p (String.◌∷◌ c s) = p (code c) || holds p s

-- Without the separators at the end.
unfoldable pub strip_end : Os → String → String
strip_end os String.[] = String.[]
strip_end os (String.◌∷◌ c s) =
    let rest = strip_end os s in
    elim rest [
      | String.[] ↦ if is_sep os (code c) then String.[] else String.◌∷◌ c String.[]
      | String.◌∷◌ d r ↦ String.◌∷◌ c (String.◌∷◌ d r)
    ]

-- What follows the last separator.
unfoldable pub last_segment : Os → String → String
last_segment os String.[] = String.[]
last_segment os (String.◌∷◌ c s) =
    let rest = last_segment os s in
    if holds (is_sep os) s then rest else if is_sep os (code c) then s else String.◌∷◌ c s

-- filepath.Base
unfoldable pub base_name : Os → String → String
unfolding strip_end last_segment
base_name os String.[] = "."
base_name os (String.◌∷◌ c s) = elim (strip_end os (String.◌∷◌ c s)) [
  | String.[] ↦ root os
  | String.◌∷◌ d r ↦ last_segment os (String.◌∷◌ d r)
]

-- strings.TrimSuffix(base, filepath.Ext(base)): what stands before the last dot.
unfoldable pub drop_ext : String → String
drop_ext String.[] = String.[]
drop_ext (String.◌∷◌ c s) =
    let rest = drop_ext s in
    if holds (nat_beq b'.') s
    then String.◌∷◌ c rest
    else if nat_beq b'.' (code c)
    then String.[]
    else String.◌∷◌ c s

unfoldable pub session_id_from_path : Os → String → String
unfolding base_name drop_ext
session_id_from_path os path = drop_ext (base_name os path)

session_id_test : session_id_from_path windows "C:\\logs\\a.b\\rollout-7.jsonl" ≡ "rollout-7"
unfolding session_id_from_path
session_id_test = refl
