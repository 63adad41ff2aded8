-- ===== src/Watch.antt =====
-- internal/watch/tail.go: the poll of recently active transcripts; and internal/scan/filter.go,
-- which says what a transcript is. The Go map of tailed files is a list in the order in which a
-- range visits it; a failed stat is `none`.
pub mod Laws
mod Tests
use Prim.Native.String.{◌++◌ as join}
use burnmon.Base.{
  ℕ, ◌*◌, String, Bool, true, false, not, ◌&&◌, ◌||◌, Option, none, some, List, [], ◌∷◌, map,
  length, take, filter, any, ltb, nat_beq, ◌==◌, nat_eq, string_eq, if◌then◌else◌, codes, codes_beq,
  has_prefix, to_lower, second, minute, sub_time, dur_gt, dur_ge, after,
}

-- strings.ReplaceAll(path, `\`, "/") and strings.ToLower
unfoldable pub slashed : String → List ℕ
unfolding to_lower
slashed p = to_lower (map (λ c. if nat_beq c b'\\' then b'/' else c) (codes p))

-- strings.Split(p, "/"): the first segment and the others.
unfoldable pub split_slash : List ℕ → List ℕ × List (List ℕ)
split_slash [] = ([], [])
split_slash (c ∷ s) =
    let rest = split_slash s in
    if nat_beq c b'/' then ([], rest.0 ∷ rest.1) else (c ∷ rest.0, rest.1)

-- The last segment is not audit.jsonl, and none before it is a scratch folder.
unfoldable pub segments_ok : List ℕ → List (List ℕ) → Bool
segments_ok s [] = not (codes_beq s (codes "audit.jsonl"))
segments_ok s (t ∷ ts) =
    not (codes_beq s (codes "outputs")) && not (codes_beq s (codes "uploads")) && segments_ok t ts

unfoldable pub has_suffix : List ℕ → List ℕ → Bool
has_suffix p [] = codes_beq p []
has_suffix p (c ∷ s) = codes_beq p (c ∷ s) || has_suffix p s

unfoldable pub is_transcript_path : String → Bool
unfolding slashed split_slash segments_ok has_suffix
is_transcript_path path =
    let p = slashed path in
    let segs = split_slash p in has_suffix (codes ".jsonl") p && segments_ok segs.0 segs.1

abbrev pub tail_window : ℕ
tail_window = 60 * minute

abbrev pub tail_cap : ℕ
tail_cap = 50

abbrev pub tail_cap_log_every : ℕ
tail_cap_log_every = 10 * minute

-- `tailEntry` and its key; `none` is the size -1.
pub record TailEntry : Type 0 where
  pub path : String
  pub active : ℕ
  pub size : Option ℕ

-- The fields of `Watcher` that the tail poll uses.
pub record Watcher : Type 0 where
  pub tail : List TailEntry
  pub native_roots : List String
  pub cap_logged : ℕ

-- `separator` is the system's, `clean` is filepath.Clean.
unfoldable pub under_native_root : String → (String → String) → List String → String → Bool
unfolding to_lower
under_native_root separator clean roots path =
    any
      (λ r.
        has_prefix (to_lower (codes (join (clean r) separator))) (to_lower (codes (clean path))))
      roots

unfoldable pub set_active : ℕ → String → List TailEntry → List TailEntry
set_active now p [] = record { path = p; active = now; size = none } ∷ []
set_active now p (e ∷ es) =
    if e.path == p then record e { active = now } ∷ es else e ∷ set_active now p es

unfoldable pub track : String → (String → String) → ℕ → String → Watcher → Watcher
unfolding set_active is_transcript_path under_native_root
track separator clean now p w =
    if not (is_transcript_path p) || not (under_native_root separator clean w.native_roots p)
    then w
    else record w { tail = set_active now p w.tail }

unfoldable pub seed_tail : String → (String → String) → ℕ → List String → Watcher → Watcher
unfolding track
seed_tail separator clean now [] w = w
seed_tail separator clean now (p ∷ ps) w =
    seed_tail separator clean now ps (track separator clean now p w)

-- now.Sub(e.active) > tailWindow
unfoldable pub is_idle : ℕ → TailEntry → Bool
is_idle now e = dur_gt (sub_time now e.active) tail_window

unfoldable pub live : ℕ → List TailEntry → List TailEntry
unfolding is_idle
live now es = filter (λ e. not (is_idle now e)) es

-- sort.Slice by the time of activity, the newest first. The order of equal times is not fixed.
unfoldable pub insert_recent : TailEntry → List TailEntry → List TailEntry
insert_recent e [] = e ∷ []
insert_recent e (h ∷ hs) = if after h.active e.active then h ∷ insert_recent e hs else e ∷ h ∷ hs

unfoldable pub sort_recent : List TailEntry → List TailEntry
unfolding insert_recent
sort_recent [] = []
sort_recent (e ∷ es) = insert_recent e (sort_recent es)

unfoldable pub candidates : List TailEntry → List TailEntry
unfolding sort_recent
candidates es = if ltb tail_cap (length es) then take tail_cap (sort_recent es) else es

-- The size read now, if it is to be reported: the read worked and the size is another one.
unfoldable pub moved_size : Option ℕ → Option ℕ → Option ℕ
moved_size none old = none
moved_size (some n) none = some n
moved_size (some n) (some m) = if n == m then none else some n

-- The first look at a file is no sign of life.
unfoldable pub look : ℕ → ℕ → Option ℕ → TailEntry → TailEntry
look now n none e = record e { size = some n }
look now n (some m) e = record e { size = some n; active = now }

unfoldable pub update_entry : ℕ → TailEntry → Option ℕ → List TailEntry → List TailEntry
unfolding look
update_entry now c none es = es
update_entry now c (some n) [] = []
update_entry now c (some n) (e ∷ es) =
    if e.path == c.path then look now n c.size e ∷ es else e ∷ update_entry now c (some n) es

unfoldable pub report : String → Option ℕ → List String → List String
report p none ps = ps
report p (some n) ps = p ∷ ps

-- The loop over the candidates: the tail, and the paths that onChange is called with.
unfoldable pub poll_each :
    ℕ → (String → Option ℕ) → List TailEntry → List TailEntry → List TailEntry × List String
unfolding update_entry report moved_size
poll_each now size_of [] tail = (tail, [])
poll_each now size_of (c ∷ cs) tail =
    let m = moved_size (size_of c.path) c.size in
    let rest = poll_each now size_of cs (update_entry now c m tail) in
    (rest.0, report c.path m rest.1)

unfoldable pub poll_tail_once : ℕ → (String → Option ℕ) → Watcher → Watcher × List String
unfolding poll_each candidates live
poll_tail_once now size_of w =
    let es = live now w.tail in
    let r = poll_each now size_of (candidates es) es in
    (
      record w {
        tail = r.0;
        cap_logged =
            if ltb tail_cap (length es) && dur_ge (sub_time now w.cap_logged) tail_cap_log_every
            then now
            else w.cap_logged;
      },
      r.1,
    )
