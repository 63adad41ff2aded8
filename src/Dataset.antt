-- ===== src/Dataset.antt =====
-- internal/dataset/dataset.go: which adapter owns a file, the lists of paths compared without
-- case, the sessions that are counted once, and `ingest` (Dataset/Ingest).
-- A map of Go with string keys is a list of pairs, or the list of its true keys.
pub mod Ingest
pub mod FromStore
pub mod Laws
mod Tests
use Prim.Native.String.{◌++◌ as join}
use burnmon.Base.{
  ℕ, ◌-◌, String, Bool, true, false, not, ◌&&◌, ◌||◌, Option, none, some, List, [], ◌∷◌, any, find?,
  map, length, filter, str_lt, ◌==◌, nat_eq, string_eq, if◌then◌else◌, codes, codes_beq, has_prefix,
  to_lower,
}
use burnmon.Paths.{Os, root}

-- Below one of the roots, or the root itself; `os.PathSeparator` is that of the system.
unfoldable pub is_under : Os → String → String → Bool
unfolding to_lower
is_under os path r =
    let lp = to_lower (codes path) in
    let lr = to_lower (codes r) in
    codes_beq lp lr
    || has_prefix (to_lower (codes (join r (root os)))) lp
    || has_prefix (to_lower (codes (join r "/"))) lp

-- `roots[name]`
unfoldable pub roots_of : String → List (String × List String) → List String
roots_of name [] = []
roots_of name ((k, rs) ∷ m) = if k == name then rs else roots_of name m

-- The registered adapters, and the first one with a root above the path.
abbrev pub adapters : List String
adapters = "claude" ∷ "codex" ∷ []

unfoldable pub owner_of : Os → String → List (String × List String) → List String → Option String
unfolding is_under roots_of
owner_of os path roots [] = none
owner_of os path roots (a ∷ rest) =
    if any (is_under os path) (roots_of a roots) then some a else owner_of os path roots rest

-- With no roots known the Claude adapter owns every file that no other one does.
unfoldable pub or_claude : List (String × List String) → Option String → Option String
or_claude roots (some a) = some a
or_claude [] none = some "claude"
or_claude (m ∷ roots) none = none

unfoldable pub adapter_for_path : Os → String → List (String × List String) → Option String
unfolding owner_of or_claude
adapter_for_path os path roots = or_claude roots (owner_of os path roots adapters)

abbrev pub same_lower : String → String → Bool
same_lower a b = codes_beq (to_lower (codes a)) (to_lower (codes b))

unfoldable pub subtract_case_insensitive : List String → List String → List String
unfolding to_lower
subtract_case_insensitive paths remove = filter (λ a. not (any (λ r. same_lower r a) remove)) paths

-- `seen` holds the paths kept so far.
unfoldable pub dedupe_from : List String → List String → List String
unfolding to_lower
dedupe_from seen [] = []
dedupe_from seen (s ∷ ss) =
    let rest = dedupe_from seen ss in
    let more = dedupe_from (s ∷ seen) ss in
    if any (λ t. same_lower t s) seen then rest else s ∷ more

unfoldable pub dedupe_case_insensitive : List String → List String
unfolding dedupe_from
dedupe_case_insensitive ss = dedupe_from [] ss

unfoldable pub files_under_any : Os → List String → List String → List String
unfolding is_under
files_under_any os files roots = filter (λ f. any (is_under os f) roots) files

-- The fields of scan.Session that make the key of `dedupSessions`, and the id.
pub record Session : Type 0 where
  pub session_id : String
  pub vendor : String
  pub start : String
  pub finish : String
  pub calls : ℕ
  pub out : ℕ
  pub cache_r : ℕ

-- `format` is the text of an int64, strconv.FormatInt(n, 10).
unfoldable pub session_key : (ℕ → String) → Session → String
session_key format s = join s.vendor (
    join "|" (
      join s.start (
        join "|" (
          join s.finish (
            join "|" (
              join (format s.calls)
                (join "|" (join (format s.out) (join "|" (format s.cache_r))))))))))

-- best[key] = s, if there is none or its id sorts after that of `s`.
unfoldable pub keep_best : (ℕ → String) → Session → List Session → List Session
unfolding session_key
keep_best format s [] = s ∷ []
keep_best format s (t ∷ ts) =
    if session_key format t == session_key format s
    then (if str_lt s.session_id t.session_id then s else t) ∷ ts
    else t ∷ keep_best format s ts

unfoldable pub best_sessions : (ℕ → String) → List Session → List Session → List Session
unfolding keep_best
best_sessions format best [] = best
best_sessions format best (s ∷ ss) = best_sessions format (keep_best format s best) ss

unfoldable pub dedup_sessions : (ℕ → String) → List Session → List Session × ℕ
unfolding best_sessions
dedup_sessions format ss = let kept = best_sessions format [] ss in (kept, length ss - length kept)
