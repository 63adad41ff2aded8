-- ===== src/VendorStrip.antt =====
-- internal/vendorstrip/vendorstrip.go: the token totals of each agent, with `VendorStripTotals` of
-- internal/store/store.go. `earlier` is the order of the stored texts of two instants, RFC3339Nano in
-- UTC without trailing zeros, which is not the order of time within one second. The credits of Copilot
-- plans are not modelled, and sums are taken on int64, which SQLite's are as long as they stay in it.
pub mod Total
mod Tests
use burnmon.Base.{
  ℕ, String, Bool, not, List, [], ◌∷◌, ◌==◌, ◌+64◌, filter, map, ltb, str_lt, string_eq,
  if◌then◌else◌,
}
use burnmon.Schema.{Event}
use burnmon.Store.Db.{Db, Outcome, done, failed, query_failed}
use burnmon.Store.Daily.{row_tokens}

pub record VendorStripTotal : Type 0 where
  pub agent : String
  pub today : ℕ
  pub week : ℕ
  pub month : ℕ

-- The Row of the payload.
pub record StripRow : Type 0 where
  pub agent : String
  pub agent_label : String
  pub today : ℕ
  pub week : ℕ
  pub month : ℕ

-- The earliest of the three.
abbrev pub sooner : ℕ → ℕ → ℕ
sooner from t = if ltb t from then t else from

unfoldable pub strip_from : ℕ → ℕ → ℕ → ℕ
strip_from day week month = sooner (sooner day week) month

module _ (earlier : ℕ → ℕ → Bool) where
  abbrev pub at_or_after : ℕ → Event → Bool
  at_or_after t e = not (earlier e.at t)

  -- CASE WHEN at >= ? THEN ... ELSE 0 END
  unfoldable pub amount : ℕ → Event → ℕ
  unfolding row_tokens
  amount t e = if at_or_after t e then row_tokens e else 0

  abbrev pub fresh_total : ℕ → ℕ → ℕ → Event → VendorStripTotal
  fresh_total day week month e = record {
    agent = e.agent;
    today = 0 +64 amount day e;
    week = 0 +64 amount week e;
    month = 0 +64 amount month e;
  }

  abbrev pub grown_total : ℕ → ℕ → ℕ → Event → VendorStripTotal → VendorStripTotal
  grown_total day week month e t = record t {
    today = t.today +64 amount day e;
    week = t.week +64 amount week e;
    month = t.month +64 amount month e;
  }

  -- One row of the query in its group.
  unfoldable pub add_to_group : ℕ → ℕ → ℕ → Event → List VendorStripTotal → List VendorStripTotal
  unfolding amount
  add_to_group day week month e [] = fresh_total day week month e ∷ []
  add_to_group day week month e (t ∷ ts) =
      if t.agent == e.agent
      then grown_total day week month e t ∷ ts
      else t ∷ add_to_group day week month e ts

  unfoldable pub group_agents :
      ℕ → ℕ → ℕ → List Event → List VendorStripTotal → List VendorStripTotal
  unfolding add_to_group
  group_agents day week month [] ts = ts
  group_agents day week month (e ∷ es) ts =
      group_agents day week month es (add_to_group day week month e ts)

  unfoldable pub vendor_strip_totals : Bool → ℕ → ℕ → ℕ → Db → Outcome (List VendorStripTotal)
  unfolding group_agents strip_from
  vendor_strip_totals fails day week month db =
      if fails
      then failed query_failed
      else done (
          group_agents day week month (filter (at_or_after (strip_from day week month)) db.events)
            [])

-- AgentLabel
unfoldable pub agent_label_of : String → String
agent_label_of agent =
    if agent == "claude-code"
    then "Claude Code"
    else if agent == "cowork"
    then "Cowork"
    else if agent == "cowork-cloud"
    then "Cowork (Cloud)"
    else if agent == "codex"
    then "Codex"
    else if agent == "hermes"
    then "Hermes"
    else if agent == "copilot-cli"
    then "Copilot CLI"
    else if agent == "copilot-vscode"
    then "Copilot (VS Code)"
    else agent

unfoldable pub strip_row : VendorStripTotal → StripRow
unfolding agent_label_of
strip_row t = record {
  agent = t.agent;
  agent_label = agent_label_of t.agent;
  today = t.today;
  week = t.week;
  month = t.month;
}

-- The loop's `total += t`.
unfoldable pub add_totals : List VendorStripTotal → StripRow → StripRow
add_totals [] total = total
add_totals (t ∷ ts) total = add_totals ts (record total {
  today = total.today +64 t.today;
  week = total.week +64 t.week;
  month = total.month +64 t.month;
})

unfoldable pub insert_row : StripRow → List StripRow → List StripRow
insert_row r [] = r ∷ []
insert_row r (x ∷ xs) =
    if str_lt x.agent_label r.agent_label then x ∷ insert_row r xs else r ∷ x ∷ xs

-- sort.Slice by label; the order of equal labels is not fixed.
unfoldable pub sort_rows : List StripRow → List StripRow
unfolding insert_row
sort_rows [] = []
sort_rows (r ∷ rs) = insert_row r (sort_rows rs)

pub record StripPayload : Type 0 where
  pub rows : List StripRow
  pub total : StripRow

abbrev pub no_total : StripRow
no_total = record { agent = ""; agent_label = ""; today = 0; week = 0; month = 0 }

abbrev pub payload_of : Outcome (List VendorStripTotal) → Outcome StripPayload
payload_of (failed e) = failed e
payload_of (done ts) = done (record {
  rows = sort_rows (map strip_row ts);
  total = record (add_totals ts no_total) { agent_label = "Total" };
})

-- Build, from the three boundaries.
unfoldable pub build_strip : (ℕ → ℕ → Bool) → Bool → ℕ → ℕ → ℕ → Db → Outcome StripPayload
unfolding vendor_strip_totals sort_rows strip_row add_totals
build_strip earlier fails day week month db =
    payload_of (vendor_strip_totals earlier fails day week month db)
