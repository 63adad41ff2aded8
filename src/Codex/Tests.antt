-- ===== src/Codex/Tests.antt =====
-- A rollout of a session that changes its model, and one of a sub-run.
use burnmon.Base.{
  ℕ, zero, suc, String, false, Option, none, some, List, [], ◌∷◌, ◌++◌, ◌≡◌, refl, ◌∙◌, ap, map,
  sym, string_eq, arith, lt64, ◌+64◌, ltb, codes, length, All,
}
use burnmon.Paths.{unix}
use burnmon.Schema.{Event, event_key, key_eq}
use burnmon.Store.Table.{Unique}
use burnmon.Claude.Json.{text, number, object, no_fields, field, Fields, Json}
use burnmon.Claude.Parse.{Line}
use burnmon.Codex.Meta.{Decoders, read_session_meta, object_at}
use burnmon.Codex.Lines.{usage_event}
use burnmon.Codex.Parse.{parse}
use burnmon.Codex.Usage.{usages, parse-usages}
use burnmon.Codex.Keys.{Injective, parse-Plain-Unique}
use burnmon.Codex.Identified.{parse-IsFiled, IsFiled}

-- Unary texts stand for the decimal ones.
abbrev tally : ℕ → String
tally zero = String.[]
tally (suc n) = String.◌∷◌ "i" (tally n)

abbrev decoders : Decoders
decoders = record {
  unmarshal = λ s. none;
  parse_stamp = λ s. some 7;
  format_int = tally;
  float_lt = ltb;
  float_le = λ a b. false;
}

tally-length : (n : ℕ) → length (codes (tally n)) ≡ n
tally-length zero = refl
tally-length (suc n) = ap suc (tally-length n)

tally-Injective : Injective decoders
tally-Injective m n h = sym (tally-length m) ∙ ap (λ s. length (codes s)) h ∙ tally-length n

abbrev of_kind : String → Fields → Fields
of_kind kind payload = field "type" (text kind) (field "payload" (object payload) no_fields)

abbrev line_of : Fields → Line
line_of fs = record { bytes = 3; decoded = some fs }

abbrev session_meta : String → Fields
session_meta source = of_kind "session_meta" (
    field "cwd" (text "/work")
      (field "originator" (text "codex-tui") (field "thread_source" (text source) no_fields)))

abbrev turn_context : String → Fields
turn_context model = of_kind "turn_context" (field "model" (text model) no_fields)

abbrev count_of : ℕ → Json
count_of n = number (record { float = 0; whole = n })

abbrev usage : ℕ → Fields
usage n = of_kind "event_msg" (
    field "type" (text "token_count") (
      field "info"
        (object (
          field "last_token_usage"
            (object (
              field "input_tokens" (count_of n) (
                field "cached_input_tokens" (count_of 2)
                  (field "output_tokens" (count_of 1) no_fields))))
            no_fields))
        no_fields))

abbrev path : String
path = "/home/me/s.jsonl"

abbrev opening : List Line
opening = line_of (turn_context "a") ∷ line_of (usage 5) ∷ []

abbrev rest : List Line
rest = line_of (usage 6) ∷ line_of (turn_context "b") ∷ []

program : Unit {0}
unfolding parse usage_event read_session_meta object_at lt64 ◌+64◌
program = tt

abbrev models : List Event → List String
models es = map (λ (e : Event). e.model) es

abbrev titles : List Event → List String
titles es = map (λ (e : Event). e.title) es

abbrev header : List (Option Fields)
header = map (λ (l : Line). l.decoded) (opening ++ rest)

one_read_models :
    models (parse decoders unix path [] 0 false (opening ++ rest)).events ≡ "a" ∷ "a" ∷ []
unfolding program
one_read_models = refl

-- The header reaches past the offset, to a model that the session takes up only later.
resumed_read_models : models (parse decoders unix path header 6 false rest).events ≡ "b" ∷ []
unfolding program
resumed_read_models = refl

abbrev sub_run : List Line
sub_run = line_of (session_meta "guardian_review") ∷ line_of (turn_context "codex-auto-review") ∷ []

one_read_title :
    titles (parse decoders unix path [] 0 false (sub_run ++ line_of (usage 5) ∷ [])).events
    ≡ "codex-auto-review" ∷ []
unfolding program
one_read_title = refl

-- The header gives no title.
resumed_read_title :
    titles
      (parse decoders unix path
        (map (λ (l : Line). l.decoded) sub_run)
        6
        false
        (line_of (usage 5) ∷ [])).events
    ≡ "" ∷ []
unfolding program
resumed_read_title = refl

parse-usages_example :
    usages (parse decoders unix path [] 0 false (opening ++ rest)).events
    ≡ usages (parse decoders unix path [] 0 false opening).events
      ++ usages
          (parse decoders unix path header
            (parse decoders unix path [] 0 false opening).offset
            false
            rest).events
parse-usages_example = parse-usages decoders unix path [] [] header 0 opening rest

parse-Plain-Unique_example :
    Unique event_key (parse decoders unix path [] 0 false (opening ++ rest)).events
unfolding program
parse-Plain-Unique_example =
    parse-Plain-Unique decoders unix path [] 0 (opening ++ rest) tally-Injective
      ((omega arith, refl), ((omega arith, refl), ((omega arith, refl), ((omega arith, refl), tt))))

abbrev meta_payload : Fields
meta_payload =
    field "cwd" (text "/work")
      (field "originator" (text "codex-tui") (field "thread_source" (text "user") no_fields))

parse-IsFiled_example :
    All
      (IsFiled (read_session_meta meta_payload))
      (parse decoders unix path [] 0 false (line_of (session_meta "user") ∷ opening)).events
    × All
        (IsFiled (read_session_meta meta_payload))
        (parse decoders unix path (some (session_meta "user") ∷ header) 9 false rest).events
unfolding program
parse-IsFiled_example =
    parse-IsFiled meta_payload (session_meta "user") (refl, (refl, refl)) decoders unix path header
      3 9 opening rest (omega arith) (refl, (refl, (refl, (refl, tt)))) (refl, (refl, tt))
      (refl, (refl, tt))
