-- ===== src/Store/ToolCalls/Laws.antt =====
-- `UpsertToolCalls`: the result that a key has before and after a batch.
use mathlib.Core.Option
use burnmon.Base.{
  ap, ℕ, suc, Bool, true, false, not, Option, none, some, List, [], ◌∷◌, ◌≡◌, ◌≢◌, refl, ◌⊎◌, inl,
  inr, ◌∙◌, ◌++◌, ◌&&◌, ◌==◌, string_eq, if◌then◌else◌, arith, Bool-cases,
}
use burnmon.Schema.{ToolCall, Key, call_key, key_eq, key_beq_iff}
use burnmon.Store.Db.{Db, Faults}
use burnmon.Store.Table.{row, resolved, row-upsert}
use burnmon.Store.ToolCalls.{
  resolve_call, fill, fill_result, apply_late, apply_call, exec_calls, upsert_tool_calls,
}

pub resolve_call-key :
    (x r : ToolCall) → call_key x ≡ call_key r → call_key (resolve_call x r) ≡ call_key x
unfolding resolve_call
resolve_call-key x r h = refl

unfoldable pub apply_all : List ToolCall → List ToolCall → List ToolCall
apply_all [] t = t
apply_all (c ∷ cs) t = apply_all cs (apply_call c t)

row-fill_result :
    (n : ℕ) (k j : Key) (t : List ToolCall)
    → row call_key j (fill_result n k t)
      ≡ (if k == j then Option.map (fill n) (row call_key j t) else row call_key j t)
unfolding row fill_result
row-fill_result n k j [] = ground arith
row-fill_result n k j (c ∷ t) = ground (
  arith,
  key_beq_iff (call_key c) k,
  key_beq_iff (call_key c) j,
  key_beq_iff k j,
  row-fill_result n k j t,
)

-- The result that is known of a key.
abbrev pub result_of : Option ToolCall → Option ℕ
result_of none = none
result_of (some c) = c.result_bytes

-- What one row does to the stored call of its own key.
pub late_fill : Option ℕ → Option ToolCall → Option ToolCall
late_fill none o = o
late_fill (some n) o = Option.map (fill n) o

pub track : ToolCall → Option ToolCall → Option ToolCall
track c o = if c.tool == "" then late_fill c.result_bytes o else some (resolved resolve_call c o)

row-apply_late :
    (r : Option ℕ) (j k : Key) (t : List ToolCall)
    → row call_key k (apply_late r j t)
      ≡ (if j == k then late_fill r (row call_key k t) else row call_key k t)
unfolding apply_late late_fill
row-apply_late none j k t = ground arith
row-apply_late (some n) j k t = row-fill_result n j k t

pub row-apply_call :
    (k : Key) (c : ToolCall) (t : List ToolCall)
    → row call_key k (apply_call c t)
      ≡ (if call_key c == k then track c (row call_key k t) else row call_key k t)
unfolding apply_call track
row-apply_call k c t = elim (Bool-cases (c.tool == "")) [
  | inl late ↦ rw late (row-apply_late c.result_bytes (call_key c) k t)
  | inr full ↦ rw full (row-upsert call_key resolve_call resolve_call-key k c t)
]

track_keeps :
    (c : ToolCall) (o : Option ToolCall) → result_of o ≢ none → result_of (track c o) ≢ none
unfolding track late_fill fill resolve_call
track_keeps c o h = ground arith

apply_all_keeps :
    (k : Key) (cs t : List ToolCall)
    → result_of (row call_key k t) ≢ none
    → result_of (row call_key k (apply_all cs t)) ≢ none
unfolding apply_all
apply_all_keeps k [] t h = h
apply_all_keeps k (c ∷ cs) t h = apply_all_keeps k cs (apply_call c t) (
    rw (row-apply_call k c t) (elim (Bool-cases (call_key c == k)) [
      | inl same ↦ rw same (track_keeps c (row call_key k t) h)
      | inr other ↦ rw other h
    ]))

exec_calls-apply_all :
    (f : Faults) (i : ℕ) (cs t : List ToolCall)
    → (exec_calls f i cs t ≡ none) ⊎ (exec_calls f i cs t ≡ some (apply_all cs t))
unfolding exec_calls apply_all
exec_calls-apply_all f i [] t = inr refl
exec_calls-apply_all f i (c ∷ cs) t =
    ground (arith, exec_calls-apply_all f (suc i) cs (apply_call c t))

-- A batch is stored whole, or an error is returned and no table changes.
upsert_tool_calls_atomic :
    (f : Faults) (cs : List ToolCall) (db : Db)
    → (((upsert_tool_calls f cs db).1 ≡ none)
        × ((upsert_tool_calls f cs db).0 ≡ record db { tool_calls = apply_all cs db.tool_calls }))
      ⊎ (((upsert_tool_calls f cs db).1 ≢ none) × ((upsert_tool_calls f cs db).0 ≡ db))
unfolding upsert_tool_calls apply_all
upsert_tool_calls_atomic f [] db = inl (refl, refl)
upsert_tool_calls_atomic f (c ∷ cs) db =
    ground (arith, exec_calls-apply_all f 0 (c ∷ cs) db.tool_calls)

-- A result that is recorded is never wiped back to unknown, whatever batch follows and whether or
-- not it fails.
pub upsert_tool_calls_keeps_result :
    (f : Faults) (cs : List ToolCall) (db : Db) (k : Key)
    → result_of (row call_key k db.tool_calls) ≢ none
    → result_of (row call_key k (upsert_tool_calls f cs db).0.tool_calls) ≢ none
upsert_tool_calls_keeps_result f cs db k h = elim (upsert_tool_calls_atomic f cs db) [
  | inl (_, stored) ↦ rw stored (apply_all_keeps k cs db.tool_calls h)
  | inr (_, kept) ↦ rw kept h
]

abbrev pub elsewhere : Key → List ToolCall → Bool
elsewhere k [] = true
elsewhere k (c ∷ cs) = not (call_key c == k) && elsewhere k cs

apply_all-elsewhere :
    (k : Key) (cs t : List ToolCall)
    → elsewhere k cs ≡ true
    → row call_key k (apply_all cs t) ≡ row call_key k t
unfolding apply_all
apply_all-elsewhere k [] t h = refl
apply_all-elsewhere k (c ∷ cs) t h =
    ground (arith, row-apply_call k c t, apply_all-elsewhere k cs (apply_call c t))

-- The one row of a key in a batch decides.
row-apply_all_one :
    (k : Key) (cs : List ToolCall) (c : ToolCall) (ds t : List ToolCall)
    → (call_key c == k) ≡ true
    → elsewhere k cs ≡ true
    → elsewhere k ds ≡ true
    → row call_key k (apply_all (cs ++ c ∷ ds) t) ≡ track c (row call_key k t)
unfolding apply_all
row-apply_all_one k [] c ds t own h e =
    apply_all-elsewhere k ds (apply_call c t) e ∙ row-apply_call k c t ∙ rw own
row-apply_all_one k (b ∷ cs) c ds t own h e =
    row-apply_all_one k cs c ds (apply_call b t) own (ground arith) e
    ∙ ap (track c) (ground (arith, row-apply_call k b t))

stored_calls :
    (f : Faults) (cs : List ToolCall) (db db' : Db)
    → upsert_tool_calls f cs db ≡ (db', none)
    → db'.tool_calls ≡ apply_all cs db.tool_calls
stored_calls f cs db db' h = ground (arith, upsert_tool_calls_atomic f cs db)

track_open : (c : ToolCall) → (c.tool == "") ≡ false → track c none ≡ some c
unfolding track
track_open c h = rw h

track_late :
    (c r : ToolCall) (n : ℕ)
    → (r.tool == "") ≡ true
    → r.result_bytes ≡ some n
    → c.result_bytes ≡ none
    → track r (some c) ≡ some (record c { result_bytes = some n })
unfolding track late_fill fill
track_late c r n h e o = rw (h, e, o)

-- A call whose key is not yet stored, with no result, in a batch that holds no other row of its key: if
-- the next batch that is stored holds a result-only row for it, and no other row of the key, and
-- neither batch fails, then the stored row is that call with the result, and nothing else of it
-- changes.
pub late_result_lands :
    (f g : Faults) (k : Key) (before between again after : List ToolCall) (c r : ToolCall) (n : ℕ)
    (db db₁ db₂ : Db)
    → ((call_key c == k) ≡ true) × ((c.tool == "") ≡ false) × (c.result_bytes ≡ none)
    → ((call_key r == k) ≡ true) × ((r.tool == "") ≡ true) × (r.result_bytes ≡ some n)
    → (elsewhere k before ≡ true) × (elsewhere k between ≡ true)
    → (elsewhere k again ≡ true) × (elsewhere k after ≡ true)
    → row call_key k db.tool_calls ≡ none
    → upsert_tool_calls f (before ++ c ∷ between) db ≡ (db₁, none)
    → upsert_tool_calls g (again ++ r ∷ after) db₁ ≡ (db₂, none)
    → row call_key k db₂.tool_calls ≡ some (record c { result_bytes = some n })
late_result_lands f g k before between again after c r n db db₁ db₂ call late own own' fresh ok₁
      ok₂ =
    let first : row call_key k db₁.tool_calls ≡ some c =
      rw (stored_calls f (before ++ c ∷ between) db db₁ ok₁) (
        row-apply_all_one k before c between db.tool_calls call.0 own.0 own.1
        ∙ ap (track c) fresh
        ∙ track_open c call.1) in
    rw (stored_calls g (again ++ r ∷ after) db₁ db₂ ok₂) (
      row-apply_all_one k again r after db₁.tool_calls late.0 own'.0 own'.1
      ∙ ap (track r) first
      ∙ track_late c r n late.1 late.2 call.2)
