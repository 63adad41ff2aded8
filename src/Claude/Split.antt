-- ===== src/Claude/Split.antt =====
-- A transcript that is read in two passes, against one read of the whole.
use burnmon.Base.{
  ℕ, String, Bool, true, false, Option, none, some, List, [], ◌∷◌, ◌++◌, ◌≡◌, refl, ◌==◌, ◌∙◌, ap,
  sym, subst, ◌+◌, string_eq, arith, filter,
}
use burnmon.Schema.{Event, Key, event_key, key_eq}
use burnmon.Paths.{Os, session_id_from_path}
use burnmon.Store.Table.{row}
use burnmon.Store.Events.Laws.{has_key, upsert_all, row-upsert_all}
use burnmon.Claude.Json.{Fields, classify_surface}
use burnmon.Claude.Tools.{line_tools}
use burnmon.Claude.Lines.{Library, new_reading}
use burnmon.Claude.Outputs.{
  larger, larger_assoc, larger_comm, Small, larger-Small, lines_out, lines_out-append, line_out,
  AllSmall, read_lines-out,
}
use burnmon.Claude.Flags.{
  flag, line_flag, lines_flag, lines_flag-append, read_lines-Unique, read_lines-flag,
}
use burnmon.Claude.Stored.{output_of, outputs, best-outputs, events-outputs}
use burnmon.Claude.Parse.{Line, read_lines, parse_transcript, advance}

advance-append : (n : ℕ) (ls ms : List Line) → advance n (ls ++ ms) ≡ advance (advance n ls) ms
unfolding advance
advance-append n [] ms = refl
advance-append n (l ∷ ls) ms = advance-append (n + l.bytes) ls ms

-- Two reads that do not fail, the second from the offset that the first returned, end where one
-- read of all the lines ends.
parse_transcript-offset :
    (lib : Library) (os : Os) (path : String) (from : ℕ) (ls ms : List Line)
    → (parse_transcript lib os path
        (parse_transcript lib os path from false ls).offset
        false
        ms).offset
      ≡ (parse_transcript lib os path from false (ls ++ ms)).offset
unfolding parse_transcript
parse_transcript-offset lib os path from ls ms = sym (advance-append from ls ms)

flag-Small : (b : Bool) → Small (flag b)
flag-Small true = omega arith
flag-Small false = tt

line_flag-Small : (k : String) (o : Option Fields) → Small (line_flag k o)
unfolding line_flag
line_flag-Small k none = tt
line_flag-Small k (some obj) = flag-Small (line_tools k obj)

lines_flag-Small : (k : String) (ls : List Line) → Small (lines_flag k ls)
unfolding lines_flag
lines_flag-Small k [] = tt
lines_flag-Small k (l ∷ ls) =
    larger-Small (line_flag k l.decoded) (lines_flag k ls) (line_flag-Small k l.decoded)
      (lines_flag-Small k ls)

lines_out-Small :
    (lib : Library) (k : String) (ls : List Line) → AllSmall lib k ls → Small (lines_out lib k ls)
unfolding lines_out
lines_out-Small lib k [] h = tt
lines_out-Small lib k (l ∷ ls) h =
    larger-Small (line_out lib k l.decoded) (lines_out lib k ls) h.0 (lines_out-Small lib k ls h.1)

AllSmall-append :
    (lib : Library) (k : String) (ls ms : List Line)
    → AllSmall lib k ls
    → AllSmall lib k ms
    → AllSmall lib k (ls ++ ms)
AllSmall-append lib k [] ms h g = g
AllSmall-append lib k (l ∷ ls) ms h g = (h.0, AllSmall-append lib k ls ms h.1 g)

larger-middle :
    (a f b g : Option ℕ) → larger (larger a f) (larger b g) ≡ larger (larger a b) (larger f g)
larger-middle a f b g =
    larger_assoc a f (larger b g)
    ∙ ap (larger a) (
        sym (larger_assoc f b g)
        ∙ ap (λ (x : Option ℕ). larger x g) (larger_comm f b)
        ∙ larger_assoc b f g)
    ∙ sym (larger_assoc a b (larger f g))

-- The key of a request in the store.
abbrev pub stored_key : Os → String → String → Key
stored_key os path k = record {
  vendor = "anthropic";
  session_id = session_id_from_path os path;
  item_id = k;
}

module _ (lib : Library) (os : Os) (path k : String)
    (row_named : (n : ℕ) → (lib.row_name n == k) ≡ false)
    (tool_named : (n : ℕ) → (lib.tool_row_name n == k) ≡ false) where
  abbrev lines_top : List Line → Option ℕ
  lines_top ls = larger (lines_out lib k ls) (lines_flag k ls)

  parse_transcript-outputs :
      (from : ℕ) (ls : List Line)
      → AllSmall lib k ls
      → outputs (
          filter
            (has_key (stored_key os path k))
            (parse_transcript lib os path from false ls).events)
        ≡ lines_top ls
  unfolding parse_transcript
  parse_transcript-outputs from ls h =
      let st = read_lines lib ls new_reading in
      let surface = classify_surface path st.cwd in
      events-outputs lib surface (session_id_from_path os path) k st
        (read_lines-Unique lib ls new_reading tt)
      ∙ rw
          (
            read_lines-out lib k row_named ls new_reading h tt,
            read_lines-flag lib k tool_named ls new_reading,
          )
          refl

  -- The stored output of the request after the events of a read.
  store-outputs :
      (from : ℕ) (ls : List Line) (t : List Event)
      → AllSmall lib k ls
      → Small (output_of (row event_key (stored_key os path k) t))
      → output_of (
          row event_key
            (stored_key os path k)
            (upsert_all (parse_transcript lib os path from false ls).events t))
        ≡ larger (output_of (row event_key (stored_key os path k) t)) (lines_top ls)
  store-outputs from ls t h s =
      let key = stored_key os path k in
      let es = (parse_transcript lib os path from false ls).events in
      let top = parse_transcript-outputs from ls h in
      let small =
        larger-Small (lines_out lib k ls) (lines_flag k ls) (lines_out-Small lib k ls h)
          (lines_flag-Small k ls) in
      ap output_of (row-upsert_all key es t)
      ∙ best-outputs (row event_key key t) (filter (has_key key) es) s
          (subst (λ (x : Option ℕ). Small x) (sym top) small)
      ∙ ap (larger (output_of (row event_key key t))) top

  -- A request whose lines carry an id has the same output in the store whether its transcript was
  -- read at once or in two passes, the second from where the first one ended.
  pub parse-split :
      (from : ℕ) (ls ms : List Line) (t : List Event)
      → AllSmall lib k ls
      → AllSmall lib k ms
      → Small (output_of (row event_key (stored_key os path k) t))
      → let first = parse_transcript lib os path from false ls in
        let second = parse_transcript lib os path first.offset false ms in
        let whole = parse_transcript lib os path from false (ls ++ ms) in
        output_of (
          row event_key
            (stored_key os path k)
            (upsert_all second.events (upsert_all first.events t)))
        ≡ output_of (row event_key (stored_key os path k) (upsert_all whole.events t))
  parse-split from ls ms t h g s =
      let first = parse_transcript lib os path from false ls in
      let o = output_of (row event_key (stored_key os path k) t) in
      let once = store-outputs from ls t h s in
      let small = larger-Small o (lines_top ls) s (
        larger-Small (lines_out lib k ls) (lines_flag k ls) (lines_out-Small lib k ls h)
          (lines_flag-Small k ls)) in
      store-outputs first.offset ms (upsert_all first.events t) g
        (subst (λ (x : Option ℕ). Small x) (sym once) small)
      ∙ ap (λ (x : Option ℕ). larger x (lines_top ms)) once
      ∙ larger_assoc o (lines_top ls) (lines_top ms)
      ∙ ap (larger o) (
          larger-middle (lines_out lib k ls) (lines_flag k ls) (lines_out lib k ms)
            (lines_flag k ms)
          ∙ rw (sym (lines_out-append lib k ls ms), sym (lines_flag-append k ls ms)) refl)
      ∙ sym (store-outputs from (ls ++ ms) t (AllSmall-append lib k ls ms h g) s)
