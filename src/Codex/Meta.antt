-- ===== src/Codex/Meta.antt =====
-- The helpers of internal/adapter/codex/codex.go: what a rollout's own lines say of the session, and
-- the key of a line.
use Prim.Native.String.{◌++◌ as join}
use burnmon.Base.{
  ℕ, ◌*◌, String, Bool, false, not, ◌&&◌, ◌||◌, Option, none, some, List, [], ◌∷◌, ◌==◌, ◌+64◌,
  codes, to_lower, second, string_eq, if◌then◌else◌,
}
use burnmon.Claude.Json.{
  Json, null, bool, number, text, array, object, Fields, lookup, as_object, text_at,
  content_byte_len, contains,
}

-- What the adapter asks of Go: json.Unmarshal of a text that is an object, time.Parse of
-- RFC3339Nano, strconv.FormatInt in base ten, and the order of floats.
pub record Decoders : Type 0 where
  pub unmarshal : String → Option Fields
  pub parse_stamp : String → Option ℕ
  pub format_int : ℕ → String
  pub float_lt : ℕ → ℕ → Bool
  pub float_le : ℕ → ℕ → Bool

-- `m[name].(map[string]any)`, nil where `m` is.
unfoldable pub object_at : String → Option Fields → Option Fields
unfolding lookup
object_at name none = none
object_at name (some fs) = as_object (lookup name fs)

-- asFloat, with what `int64(f)` makes of it.
abbrev pub float_of : Json → Option ℕ
float_of (number n) = some n.float
float_of (text s) = none
float_of null = none
float_of (bool b) = none
float_of (array xs) = none
float_of (object fs) = none

abbrev pub whole_of : Json → Option ℕ
whole_of (number n) = some n.whole
whole_of (text s) = none
whole_of null = none
whole_of (bool b) = none
whole_of (array xs) = none
whole_of (object fs) = none

-- classifySurface, without its log.
unfoldable pub originator_surface : String → String
unfolding contains to_lower
originator_surface originator =
    let o = to_lower (codes originator) in
    if contains (codes "vscode") o
    then "vscode"
    else if contains (codes "desktop") o
    then "desktop"
    else if contains (codes "tui") o || contains (codes "cli") o
    then "cli"
    else "unknown"

-- 360 as a float64.
abbrev pub six_hours : ℕ
six_hours = 0x4076800000000000

abbrev pub in_six_hours : Decoders → Option ℕ → Bool
in_six_hours d none = false
in_six_hours d (some wm) = d.float_lt 0 wm && d.float_le wm six_hours

-- looks5h
unfoldable pub looks_5h : Decoders → Option Fields → Bool
unfolding lookup
looks_5h d none = false
looks_5h d (some w) = in_six_hours d (float_of (lookup "window_minutes" w))

abbrev pub first_window : Option Fields → Option Fields → Option Fields
first_window none secondary = secondary
first_window (some w) secondary = some w

unfoldable pub rate_limit_window : Decoders → Fields → Option Fields
unfolding object_at looks_5h
rate_limit_window d rl =
    let primary = object_at "primary" (some rl) in
    let secondary = object_at "secondary" (some rl) in
    if looks_5h d primary
    then primary
    else if looks_5h d secondary
    then secondary
    else first_window primary secondary

-- readSessionMeta
pub record SessionMeta : Type 0 where
  pub meta_cwd : String
  pub meta_surface : String
  pub meta_sub_run : Bool

unfoldable pub read_session_meta : Fields → SessionMeta
unfolding text_at originator_surface
read_session_meta payload =
    let source = text_at "thread_source" payload in
    record {
      meta_cwd = text_at "cwd" payload;
      meta_surface = originator_surface (text_at "originator" payload);
      meta_sub_run = not (source == "") && not (source == "user");
    }

-- The results of scanHeaderMeta.
pub record Header : Type 0 where
  pub head_cwd : String
  pub head_surface : String
  pub head_model : String
  pub head_sub_run : Bool

abbrev pub no_header : Header
no_header = record {
  head_cwd = "";
  head_surface = "unknown";
  head_model = "";
  head_sub_run = false;
}

abbrev pub header_meta : Option Fields → Header → Header
header_meta none h = h
header_meta (some payload) h =
    let m = read_session_meta payload in
    record h { head_cwd = m.meta_cwd; head_surface = m.meta_surface; head_sub_run = m.meta_sub_run }

abbrev pub header_model : Option Fields → Header → Header
header_model none h = h
header_model (some payload) h =
    let m = text_at "model" payload in
    if h.head_sub_run || m == "" then h else record h { head_model = m }

unfoldable pub header_line : Option Fields → Header → Header
unfolding text_at object_at read_session_meta
header_line none h = h
header_line (some obj) h =
    if text_at "type" obj == "session_meta"
    then header_meta (object_at "payload" (some obj)) h
    else if text_at "type" obj == "turn_context"
    then header_model (object_at "payload" (some obj)) h
    else h

-- scanHeaderMeta, of the lines that the first 64 KiB decode to.
unfoldable pub scan_header_meta : List (Option Fields) → Header → Header
unfolding header_line
scan_header_meta [] h = h
scan_header_meta (o ∷ os) h = scan_header_meta os (header_line o h)

-- filePathFromArgs, of what the text decodes to.
abbrev pub path_of_args : Option Fields → String
path_of_args none = ""
path_of_args (some obj) =
    let p = text_at "file_path" obj in if p == "" then text_at "path" obj else p

unfoldable pub file_path_from_args : Decoders → String → String
unfolding text_at
file_path_from_args d raw = path_of_args (d.unmarshal raw)

-- toolCallOutputBytes: a text's bytes, or those of the texts of a list's blocks.
abbrev pub tool_call_output_bytes : Json → ℕ
tool_call_output_bytes output = content_byte_len output

abbrev pub keyed_by : Decoders → String → ℕ → Option ℕ → String
keyed_by d session start (some ordinal) = join session (join ":" (d.format_int ordinal))
keyed_by d session start none = join session (join ":b" (d.format_int start))

-- requestID
unfoldable pub request_id_of : Decoders → String → Fields → ℕ → String
unfolding lookup
request_id_of d session obj start = keyed_by d session start (whole_of (lookup "ordinal" obj))

abbrev pub time_or_zero : Option ℕ → ℕ
time_or_zero none = 0
time_or_zero (some t) = t

unfoldable pub stamp_time : Decoders → String → ℕ
stamp_time d ts = if ts == "" then 0 else time_or_zero (d.parse_stamp ts)

-- time.Unix(s, 0), for times from the year 1 on.
unfoldable pub unix_time : ℕ → ℕ
unix_time s = second * (s +64 62135596800)
