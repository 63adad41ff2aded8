-- ===== src/Claude/Cloud.antt =====
-- internal/adapter/claude/cloud.go: the drop files of Cowork (Cloud) sessions, and `Parse` of
-- internal/adapter/claude/claude.go, which reads them or a transcript. Decoding a line into a row is a
-- parameter: a line that is no JSON of that form is `none`.
use burnmon.Base.{
  ℕ, String, Bool, true, false, not, ◌&&◌, Option, none, some, List, [], ◌∷◌, ◌==◌, string_eq,
  codes, codes_beq, has_prefix, if◌then◌else◌,
}
use burnmon.Schema.{Event}
use burnmon.Paths.{Os}
use burnmon.Watch.{slashed, split_slash, has_suffix}
use burnmon.Claude.Lines.{Library}
use burnmon.Claude.Parse.{Line, Parsed, or_zero_time, when_positive, parse_transcript}

-- A .jsonl directly in a cloud folder of a .burnmon folder.
unfoldable pub is_drop : List (List ℕ) → Bool
unfolding has_suffix
is_drop [] = false
is_drop (a ∷ []) = false
is_drop (a ∷ b ∷ []) = false
is_drop (a ∷ b ∷ c ∷ []) =
    has_suffix (codes ".jsonl") c && codes_beq b (codes "cloud") && codes_beq a (codes ".burnmon")
is_drop (a ∷ b ∷ c ∷ d ∷ ss) = is_drop (b ∷ c ∷ d ∷ ss)

-- IsCloudDropPath
unfoldable pub is_cloud_drop_path : String → Bool
unfolding slashed split_slash is_drop
is_cloud_drop_path path = let segs = split_slash (slashed path) in is_drop (segs.0 ∷ segs.1)

pub record CloudRow : Type 0 where
  pub source : String
  pub ts : String
  pub session_id : String
  pub request_id : String
  pub message_id : String
  pub model : String
  pub input_tokens : ℕ
  pub output_tokens : ℕ
  pub cache_creation : ℕ
  pub cache_read : ℕ

abbrev pub cloud_key : CloudRow → String
cloud_key r = if r.request_id == "" then r.message_id else r.request_id

-- Whether the row becomes an event.
abbrev pub is_cloud_turn : CloudRow → Bool
is_cloud_turn r =
    has_prefix (codes "burnmon-cloud") (codes r.source)
    && not (r.session_id == "")
    && not (cloud_key r == "")

abbrev pub cloud_event : Library → CloudRow → Event
cloud_event lib r = record {
  vendor = "anthropic";
  agent = "cowork-cloud";
  surface = "cloud";
  session_id = r.session_id;
  request_id = cloud_key r;
  parent_id = "";
  at = or_zero_time (lib.parse_time r.ts);
  model = r.model;
  project = "";
  owner = "";
  client = "";
  title = "";
  input = r.input_tokens;
  cache_write = when_positive r.cache_creation;
  cache_read = when_positive r.cache_read;
  output = r.output_tokens;
  reasoning = none;
  vendor_cost = none;
  window_used = none;
  window_reset = none;
  tools = [];
}

unfoldable pub cloud_events : Library → List (Option CloudRow) → List Event
cloud_events lib [] = []
cloud_events lib (none ∷ rs) = cloud_events lib rs
cloud_events lib (some r ∷ rs) =
    let rest = cloud_events lib rs in if is_cloud_turn r then cloud_event lib r ∷ rest else rest

-- A drop file: whether Open and Stat succeed, its rows, whether the scanner ends without an error, and
-- its size.
pub record DropFile : Type 0 where
  pub opens : Bool
  pub rows : List (Option CloudRow)
  pub scans : Bool
  pub size : ℕ

unfoldable pub parse_cloud_drop : Library → DropFile → Parsed
unfolding cloud_events
parse_cloud_drop lib f =
    if f.opens && f.scans
    then record { events = cloud_events lib f.rows; tool_calls = []; offset = f.size; ok = true }
    else record { events = []; tool_calls = []; offset = 0; ok = false }

-- Parse: a path is read as a drop file, or as a transcript.
unfoldable pub parse : Library → Os → String → ℕ → Bool → List Line → DropFile → Parsed
unfolding is_cloud_drop_path parse_cloud_drop parse_transcript
parse lib os path from read_fails ls drop =
    if is_cloud_drop_path path
    then parse_cloud_drop lib drop
    else parse_transcript lib os path from read_fails ls
