-- ===== src/Merge/Tests.antt =====
-- Two exports of one week merged.
use burnmon.Base.{ℕ, String, [], ◌∷◌, ◌≡◌, refl, ◌+64◌}
use burnmon.Merge.{
  Row, Doc, Result, ok, err, merge, mismatch, add_docs, add_rows, add_row, client_key, tokens,
}
use burnmon.Merge.Groups.{cell, sort_groups, add_tokens, bump}
use burnmon.Merge.Totals.{Complete, merge-Complete}

abbrev work : String → ℕ → Row
work client n = record {
  day = "2026-09-28";
  owner = "";
  client = client;
  vendor = "anthropic";
  model = "claude";
  input = n;
  cache_write = 0;
  cache_read = 2;
  output = 1;
  reasoning = 0;
}

abbrev laptop : Doc
laptop = record { schema = 1; label = "laptop"; rows = work "acme" 10 ∷ work "" 20 ∷ [] }

abbrev desktop : Doc
desktop = record { schema = 1; label = "desktop"; rows = work "acme" 30 ∷ [] }

abbrev old : Doc
old = record desktop { schema = 0 }

-- The cell of a client and a label in a result.
abbrev client_cell : String → String → Result → ℕ
client_cell a j (err e) = 0
client_cell a j (ok m) = cell a j m.by_client

cell_test : client_cell "acme" "desktop" (merge (laptop ∷ desktop ∷ [])) ≡ 33
unfolding merge cell mismatch sort_groups add_docs add_rows add_row add_tokens client_key bump ◌+64◌
    tokens
cell_test = refl

merge-Complete_example : Complete (laptop ∷ desktop ∷ []) (merge (laptop ∷ desktop ∷ []))
merge-Complete_example = merge-Complete laptop (desktop ∷ []) (refl, tt)
