-- ===== src/Codex/Keys.antt =====
-- The keys that the store files a rollout's events under.
use text.Mathlib.TextLemmas.{append_cancel_left}
use burnmon.Base.{
  ℕ, ◌<◌, ◌≤◌, String, false, Option, none, some, List, [], ◌∷◌, ◌+◌, ◌≡◌, refl, ◌==◌, ◌∙◌, ap, sym,
  subst, string_eq, Bool-cases, inl, inr, ◌⊎◌, All, All-imp, All-append, arith, eq_of_==,
}
use burnmon.Schema.{Event, Key, event_key, key_eq}
use burnmon.Paths.{Os, session_id_from_path}
use burnmon.Store.Table.{Unique, Absent, Unique-append}
use burnmon.Claude.Json.{Fields, lookup, text_at, has_text}
use burnmon.Claude.Parse.{Line}
use burnmon.Codex.Meta.{Decoders, object_at, whole_of, keyed_by, request_id_of}
use burnmon.Codex.Lines.{start_with, add_usage, token_count, usage_event, read_rollout_line}
use burnmon.Codex.Usage.{
  usage_of, usages, blank, set_session_meta-events, set_turn_context-events, response_item-events,
  line_usages, read_rollout-usages,
}
use burnmon.Codex.Parse.{parse, header_at}

-- A line of a current build, which has no ordinal.
abbrev pub NoOrdinal : Option Fields → Type 0
NoOrdinal none = Unit
NoOrdinal (some obj) = whole_of (lookup "ordinal" obj) ≡ none

-- Lines of a file, none of them with an ordinal.
abbrev pub Plain : List Line → Type 0
Plain = All (λ (l : Line). (0 < l.bytes) × NoOrdinal l.decoded)

-- strconv.FormatInt writes different numbers differently.
abbrev pub Injective : Decoders → Type 0
Injective d = (m n : ℕ) → d.format_int m ≡ d.format_int n → m ≡ n

usages-Unique : (es : List Event) → Unique event_key (usages es) → Unique event_key es
unfolding usage_of
usages-Unique [] u = tt
usages-Unique (e ∷ es) u = (back es u.0, usages-Unique es u.1)
  where
    back :
        (fs : List Event)
        → Absent event_key (event_key e) (usages fs)
        → Absent event_key (event_key e) fs
    back [] a = tt
    back (f ∷ fs) a = (a.0, back fs a.1)

module _ (d : Decoders) (session : String) where
  abbrev key_at : ℕ → Key
  key_at n = record { vendor = "openai"; session_id = session; item_id = keyed_by d session n none }

  -- Not more than one event, under the key of the line's offset.
  abbrev OneAt : ℕ → List Event → Type 0
  OneAt start es = (es ≡ []) ⊎ ((e : Event) × ((es ≡ e ∷ []) × (event_key e ≡ key_at start)))

  nothing-OneAt : (start : ℕ) (es : List Event) → es ≡ [] → OneAt start (usages es)
  nothing-OneAt start es none_new = inl (ap usages none_new)

  add_usage-OneAt :
      (start : ℕ) (obj payload : Fields) (o : Option Fields)
      → whole_of (lookup "ordinal" obj) ≡ none
      → OneAt start (usages (add_usage d session start obj payload o blank).events)
  unfolding usage_of usage_event request_id_of
  add_usage-OneAt start obj payload none h = inl refl
  add_usage-OneAt start obj payload (some last) h = inr (
    usage_of (usage_event d session start obj payload last blank),
    (
      refl,
      ap
          (λ o. record {
            vendor = "openai";
            session_id = session;
            item_id = keyed_by d session start o;
          })
          h,
    ),
  )

  token_count-OneAt :
      (start : ℕ) (obj : Fields) (o : Option Fields)
      → whole_of (lookup "ordinal" obj) ≡ none
      → OneAt start (usages (token_count d session start obj o blank).events)
  token_count-OneAt start obj none h = inl refl
  token_count-OneAt start obj (some payload) h =
      elim (Bool-cases (has_text "type" "token_count" payload)) [
        | inl e ↦ rw e (
            add_usage-OneAt start obj payload
              (object_at "last_token_usage" (object_at "info" (some payload))) h)
        | inr e ↦ rw e (inl refl)
      ]

  line-OneAt :
      (start : ℕ) (o : Option Fields)
      → NoOrdinal o
      → OneAt start (usages (read_rollout_line d session start o blank).events)
  unfolding read_rollout_line
  line-OneAt start none h = inl refl
  line-OneAt start (some obj) h =
      let kind = text_at "type" obj in
      let payload = object_at "payload" (some obj) in
      elim (Bool-cases (kind == "session_meta")) [
        | inl e ↦ rw e (nothing-OneAt start _ (set_session_meta-events payload blank))
        | inr n1 ↦ elim (Bool-cases (kind == "turn_context")) [
          | inl e ↦ rw (n1, e) (nothing-OneAt start _ (set_turn_context-events payload blank))
          | inr n2 ↦ elim (Bool-cases (kind == "response_item")) [
            | inl e ↦
                rw (n1, n2, e) (nothing-OneAt start _ (response_item-events d obj payload blank))
            | inr n3 ↦ elim (Bool-cases (kind == "event_msg")) [
              | inl e ↦ rw (n1, n2, n3, e) (token_count-OneAt start obj payload h)
              | inr n4 ↦ rw (n1, n2, n3, n4) (inl refl)
            ]
          ]
        ]
      ]

  key_at-apart : Injective d → (m n : ℕ) → n < m → (key_at m == key_at n) ≡ false
  key_at-apart inj m n h = elim (Bool-cases (key_at m == key_at n)) [
    | inl e ↦
        let same : m ≡ n = inj m n (
          append_cancel_left ":b" _ _ (
            append_cancel_left session _ _
              (ap (λ (k : Key). k.item_id) (eq_of_== (key_at m) (key_at n) e)))) in
        absurd (omega arith)
    | inr e ↦ e
  ]

  -- Every event has the key of a line at or after the offset.
  abbrev From : ℕ → Event → Type 0
  From lo e = (n : ℕ) × ((lo ≤ n) × (event_key e ≡ key_at n))

  one-From : (start : ℕ) (es : List Event) → OneAt start es → All (From start) es
  one-From start es (inl e) = subst (All (From start)) (sym e) tt
  one-From start es (inr (e, (same, k))) =
      subst (All (From start)) (sym same) ((start, (omega arith, k)), tt)

  one-Unique : (start : ℕ) (es : List Event) → OneAt start es → Unique event_key es
  one-Unique start es (inl e) = subst (Unique event_key) (sym e) tt
  one-Unique start es (inr (e, (same, k))) = subst (Unique event_key) (sym same) (tt, tt)

  From-weaken : (lo hi : ℕ) (es : List Event) → lo ≤ hi → All (From hi) es → All (From lo) es
  From-weaken lo hi es h a = All-imp es (λ e f. (f.0, (omega arith, f.1.1))) a

  line_usages-From :
      (start : ℕ) (ls : List Line) → Plain ls → All (From start) (line_usages d session start ls)
  unfolding line_usages
  line_usages-From start [] p = tt
  line_usages-From start (l ∷ ls) p =
      let new = usages (read_rollout_line d session start l.decoded blank).events in
      All-append (From start) new (line_usages d session (start + l.bytes) ls)
        (one-From start new (line-OneAt start l.decoded p.0.1))
        (From-weaken start (start + l.bytes) (line_usages d session (start + l.bytes) ls)
          (omega arith) (line_usages-From (start + l.bytes) ls p.1))

  later-Absent :
      Injective d
      → (start hi : ℕ) (fs : List Event) (e : Event) → start < hi
      → event_key e ≡ key_at start
      → All (From hi) fs
      → Absent event_key (event_key e) fs
  later-Absent inj start hi [] e h k a = tt
  later-Absent inj start hi (f ∷ fs) e h k a =
      let at = a.0.1.1 in
      (
        ap (λ (x : Key). x == event_key e) at
            ∙ ap (λ (x : Key). key_at a.0.0 == x) k
            ∙ key_at-apart inj a.0.0 start (omega (arith, a.0.1.0)),
        later-Absent inj start hi fs e h k a.1,
      )

  one-Absent :
      Injective d
      → (start hi : ℕ) (es fs : List Event) → start < hi
      → OneAt start es
      → All (From hi) fs
      → All (λ (e : Event). Absent event_key (event_key e) fs) es
  one-Absent inj start hi es fs h (inl e) a =
      subst (All (λ (x : Event). Absent event_key (event_key x) fs)) (sym e) tt
  one-Absent inj start hi es fs h (inr (e, (same, k))) a =
      subst (All (λ (x : Event). Absent event_key (event_key x) fs)) (sym same)
        (later-Absent inj start hi fs e h k a, tt)

  line_usages-Unique :
      Injective d
      → (start : ℕ) (ls : List Line) → Plain ls
      → Unique event_key (line_usages d session start ls)
  unfolding line_usages
  line_usages-Unique inj start [] p = tt
  line_usages-Unique inj start (l ∷ ls) p =
      let new = usages (read_rollout_line d session start l.decoded blank).events in
      let rest = line_usages d session (start + l.bytes) ls in
      let one = line-OneAt start l.decoded p.0.1 in
      Unique-append event_key new rest (one-Unique start new one)
        (line_usages-Unique inj (start + l.bytes) ls p.1)
        (one-Absent inj start (start + l.bytes) new rest (omega (arith, p.0.0)) one
          (line_usages-From (start + l.bytes) ls p.1))

-- If FormatInt writes different numbers differently, and no line has an ordinal, the events of a
-- read have different keys in the store.
pub parse-Plain-Unique :
    (d : Decoders) (os : Os) (path : String) (header : List (Option Fields)) (from : ℕ)
    (ls : List Line)
    → Injective d
    → Plain ls
    → Unique event_key (parse d os path header from false ls).events
unfolding parse
parse-Plain-Unique d os path header from ls inj p =
    let session = session_id_from_path os path in
    usages-Unique _ (
      subst (Unique event_key)
        (sym (read_rollout-usages d session from ls (start_with (header_at from header))))
        (line_usages-Unique d session inj from ls p))
