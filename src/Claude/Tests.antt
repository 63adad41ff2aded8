-- ===== src/Claude/Tests.antt =====
-- A transcript of one streamed request with two tools, read at once and in two passes.
use burnmon.Base.{
  ℕ, String, true, none, false, some, List, [], ◌∷◌, ◌++◌, ◌≡◌, refl, map, string_eq, arith, lt64,
}
use burnmon.Paths.{unix}
use burnmon.Schema.{Event, event_key, key_eq}
use burnmon.Store.Table.{row, Unique}
use burnmon.Store.Events.Laws.{upsert_all}
use burnmon.Claude.Json.{text, number, array, object, no_items, item, no_fields, field}
use burnmon.Claude.Lines.{Library, usage_turn}
use burnmon.Claude.Turns.{line_turn}
use burnmon.Claude.Outputs.{AllSmall, Small, line_out}
use burnmon.Store.Events.{upsert_event}
use burnmon.Claude.Parse.{Line, parse_transcript}
use burnmon.Claude.Cloud.{CloudRow, DropFile, is_cloud_drop_path, parse}
use burnmon.Claude.Distinct.{parse-Unique}
use burnmon.Claude.Split.{parse-split, stored_key}
use burnmon.Claude.Stored.{output_of}

abbrev library : Library
library = record {
  clean_title = λ s. s;
  marshal_length = λ fs. 2;
  parse_time = λ s. some 7;
  row_name = λ n. "_row";
  tool_row_name = λ n. "_toolrow";
}

-- A line of the request with one tool and the output so far.
abbrev tool_line : String → String → ℕ → Line
tool_line id tool out = record {
  bytes = 100;
  decoded = some (
      field "type" (text "assistant") (
        field "requestId" (text "req_1") (
          field "timestamp" (text "2026-10-01T00:00:00Z") (
            field "message"
              (object (
                field "model" (text "claude") (
                  field "content"
                    (array (
                      item
                        (object (
                          field "type" (text "tool_use")
                            (field "name" (text tool) (field "id" (text id) no_fields))))
                        no_items))
                    (field "usage"
                      (object (
                        field "input_tokens"
                          (number (record { float = 0x4008000000000000; whole = 3 }))
                          (field "output_tokens" (number (record { float = 0; whole = out }))
                            no_fields)))
                      no_fields))))
              no_fields))));
}

abbrev first_line : List Line
first_line = tool_line "t1" "Bash" 5 ∷ []

abbrev second_line : List Line
second_line = tool_line "t2" "Read" 5 ∷ []

abbrev path : String
path = "/home/me/s1.jsonl"

program : Unit {0}
unfolding parse_transcript upsert_all upsert_event row lt64 line_out line_turn usage_turn
program = tt

abbrev tools_of_events : List Event → List (List (String × ℕ))
tools_of_events es = map (λ (e : Event). e.tools) es

reads_both_tools :
    tools_of_events (parse_transcript library unix path 0 false (first_line ++ second_line)).events
    ≡ (("Bash", 1) ∷ ("Read", 1) ∷ []) ∷ []
unfolding program
reads_both_tools = refl

-- The second pass has as much output as the first one, and the store keeps the row of the first.
split_read_loses_a_tool :
    tools_of_events (
      upsert_all
        (parse_transcript library unix path 100 false second_line).events
        (upsert_all (parse_transcript library unix path 0 false first_line).events []))
    ≡ (("Bash", 1) ∷ []) ∷ []
unfolding program
split_read_loses_a_tool = refl

first-AllSmall : AllSmall library "req_1" first_line
unfolding program
first-AllSmall = (omega arith, tt)

second-AllSmall : AllSmall library "req_1" second_line
unfolding program
second-AllSmall = (omega arith, tt)

nothing-Small : Small (output_of (row event_key (stored_key unix path "req_1") []))
unfolding program
nothing-Small = tt

parse-split_example :
    output_of (
      row event_key (stored_key unix path "req_1") (
        upsert_all
          (parse_transcript library unix path
            (parse_transcript library unix path 0 false first_line).offset
            false
            second_line).events
          (upsert_all (parse_transcript library unix path 0 false first_line).events [])))
    ≡ output_of (
        row event_key (stored_key unix path "req_1") (
          upsert_all
            (parse_transcript library unix path 0 false (first_line ++ second_line)).events
            []))
parse-split_example =
    parse-split library unix path "req_1" (λ n. refl) (λ n. refl) 0 first_line second_line []
      first-AllSmall second-AllSmall nothing-Small

abbrev cloud_row : String → CloudRow
cloud_row model = record {
  source = "burnmon-cloud/1";
  ts = "2026-10-12T08:00:00Z";
  session_id = "c1";
  request_id = "";
  message_id = "msg_1";
  model = model;
  input_tokens = 3;
  output_tokens = 5;
  cache_creation = 0;
  cache_read = 7;
}

-- A drop with one row twice, and a line that is no row.
abbrev drop_file : DropFile
drop_file = record {
  opens = true;
  rows = some (cloud_row "claude") ∷ none ∷ some (cloud_row "claude") ∷ [];
  scans = true;
  size = 300;
}

transcript : is_cloud_drop_path path ≡ false
unfolding is_cloud_drop_path
transcript = refl

parse-Unique_example :
    Unique event_key (parse library unix path 0 false (first_line ++ second_line) drop_file).events
parse-Unique_example =
    parse-Unique library unix path 0 false (first_line ++ second_line) drop_file transcript

reads_the_drop :
    map
      (λ (e : Event). e.output)
      (parse library unix "/home/u/.BurnMon/cloud/latest.jsonl" 40 false [] drop_file).events
    ≡ 5 ∷ 5 ∷ []
unfolding parse lt64
reads_the_drop = refl
