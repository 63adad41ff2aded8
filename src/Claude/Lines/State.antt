-- ===== src/Claude/Lines/State.antt =====
-- The variables of the loop of `Parse` in internal/adapter/claude/claude.go, and the key of a line.
-- A map of the code is a list of its entries in the order in which they first came.
use burnmon.Base.{ℕ, String, Option, none, some, List, [], ◌==◌, string_eq, if◌then◌else◌}
use burnmon.Claude.Json.{Fields, text_at, unless_empty}

-- The code outside the repository's reach of this model: cleanTitle's regular expressions, the
-- length of json.Marshal's text, time.Parse of RFC3339Nano, and the texts of
-- fmt.Sprintf("_row%d", n) and fmt.Sprintf("_toolrow%d", n).
pub record Library : Type 0 where
  pub clean_title : String → String
  pub marshal_length : Fields → ℕ
  pub parse_time : String → Option ℕ
  pub row_name : ℕ → String
  pub tool_row_name : ℕ → String

-- `turn`
pub record Turn : Type 0 where
  pub key : String
  pub ts : String
  pub model : String
  pub fresh : ℕ
  pub cache_w : ℕ
  pub cache_r : ℕ
  pub out : ℕ

-- pendingToolCall, with the id it is filed under.
pub record PendingCall : Type 0 where
  pub id : String
  pub turn : String
  pub tool : String
  pub at : String
  pub input_bytes : ℕ
  pub result_bytes : Option ℕ
  pub path : String

pub record ToolCount : Type 0 where
  pub tool : String
  pub count : ℕ

-- An entry of `toolCounts`.
pub record TurnTools : Type 0 where
  pub turn : String
  pub counts : List ToolCount

pub record LateResult : Type 0 where
  pub call_id : String
  pub result_bytes : ℕ

-- The variables of the loop: `calls` is the map together with `order`.
pub record Reading : Type 0 where
  pub cwd : String
  pub title : String
  pub calls : List Turn
  pub tool_counts : List TurnTools
  pub pending_calls : List PendingCall
  pub tool_call_order : List String
  pub late_results : List LateResult
  pub row_idx : ℕ

abbrev pub new_reading : Reading
new_reading = record {
  cwd = "";
  title = "";
  calls = [];
  tool_counts = [];
  pending_calls = [];
  tool_call_order = [];
  late_results = [];
  row_idx = 0;
}

-- `requestId`, or else `uuid`, where it is a text that is not empty.
unfoldable pub own_key : Fields → Option String
unfolding text_at
own_key obj =
    let id = text_at "requestId" obj in
    if id == "" then unless_empty (text_at "uuid" obj) else some id

abbrev pub or_else : Option String → String → String
or_else none s = s
or_else (some k) s = k
