-- ===== src/VendorStrip/Tests.antt =====
-- The strip of three events of two agents, one of them of the day before.
use burnmon.Base.{
  ℕ, ◌*◌, ◌/◌, second, leb, Bool, String, false, none, [], ◌∷◌, ◌≡◌, filter, ltb, arith,
}
use burnmon.Schema.{Event}
use burnmon.Store.Db.{Db, done}
use burnmon.VendorStrip.{StripPayload, build_strip}
use burnmon.VendorStrip.Total.{sum_tokens, build_strip-Since}

abbrev used : String → ℕ → ℕ → Event
used agent at output = record {
  vendor = "v";
  agent = agent;
  surface = "cli";
  session_id = "s";
  request_id = "r";
  parent_id = "";
  at = at;
  model = "m";
  project = "";
  owner = "";
  client = "";
  title = "";
  input = 10;
  cache_write = none;
  cache_read = none;
  output = output;
  reasoning = none;
  vendor_cost = none;
  window_used = none;
  window_reset = none;
  tools = [];
}

abbrev strip_db : Db
strip_db = record {
  events =
      used "codex" (12 * second) 1
      ∷ used "claude-code" (3 * second) 2
      ∷ used "codex" (11 * second) 3
      ∷ [];
  tool_calls = [];
  cursors = [];
  meta = [];
  forecast_scores = [];
}

-- An order of the texts that tells nothing within a second.
abbrev by_second : ℕ → ℕ → Bool
by_second a b = ltb (a / second) (b / second)

build_strip-Since_example :
    (p : StripPayload) × ((build_strip by_second false
          (10 * second)
          (2 * second)
          (5 * second)
          strip_db
        ≡ done p)
      × ((p.total.today
            ≡ sum_tokens (filter (λ (e : Event). leb (10 * second) e.at) strip_db.events))
          × ((p.total.week
                ≡ sum_tokens (filter (λ (e : Event). leb (2 * second) e.at) strip_db.events))
              × (p.total.month
                  ≡ sum_tokens (filter (λ (e : Event). leb (5 * second) e.at) strip_db.events)))))
build_strip-Since_example =
    build_strip-Since by_second (400 * second) (10 * second) (2 * second) (5 * second) strip_db
      (λ a b h k less. (ground arith, ground arith)) (omega arith, (omega arith, omega arith))
      ((omega arith, omega arith), ((omega arith, omega arith), ((omega arith, omega arith), tt)))
      ((omega arith, omega arith), ((omega arith, omega arith), ((omega arith, omega arith), tt)))
      ((omega arith, omega arith), ((omega arith, omega arith), ((omega arith, omega arith), tt)))
