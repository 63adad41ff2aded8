-- ===== src/Live/Staged.antt =====
-- `ApplyStages` over the tree of sessions.
use burnmon.Base.{
  ◌≤◌, ◌⊎◌, inl, inr, sym, after, ℕ, suc, Bool, true, false, ◌&&◌, ◌==◌, String, Option, none, some,
  List, [], ◌∷◌, get_last?, get_elem?, ltb, ◌≡◌, refl, ap, arith, All, All-imp, if_cases,
  if◌then◌else◌, string_eq,
}
use burnmon.Schema.{Event, ToolCall}
use burnmon.Stage.{Result, classify}
use burnmon.Live.Trail.{
  SessionInfo, Session, Sessions, node, nil, cons, latest_of, in_latest_turn, last_compaction,
  newer, latest_call, stage_input, set_stage, apply_stage, apply_stages_to, keys_of, session_keys,
  apply_stages_keyed, apply_stages,
}

abbrev pub is_call_of : String → String → ToolCall → Bool
is_call_of vendor sid c = c.vendor == vendor && c.session_id == sid

-- It is a call of the session, and no call of the session has a greater time.
abbrev pub IsNewest : (ℕ → ℕ) → String → String → List ToolCall → Option ToolCall → Type 0
IsNewest julianday vendor sid calls none =
    All (λ (d : ToolCall). is_call_of vendor sid d ≡ false) calls
IsNewest julianday vendor sid calls (some c) =
    ((i : ℕ) × (get_elem? calls i ≡ some c))
    × ((is_call_of vendor sid c ≡ true)
        × All
            (λ (d : ToolCall).
              ltb (julianday c.at) (julianday d.at) && is_call_of vendor sid d ≡ false)
            calls)

-- None of the times is later, and it is one of them, or 0.
abbrev pub IsLatest : ℕ → List ℕ → Type 0
IsLatest t us = All (λ u. u ≤ t) us × ((t ≡ 0) ⊎ ((i : ℕ) × (get_elem? us i ≡ some t)))

-- The session and its subagents all have a stage, that of `classify` with a newest call.
unfoldable mutual
  pub Staged : (ℕ → ℕ) → ℕ → List ToolCall → Session → Type 0
  Staged julianday now calls (node s subs) =
      ((c : Option ToolCall) × (IsNewest julianday s.vendor s.session_id calls c
          × ((s.stage ≡ some (classify (stage_input now s c)))
              × IsLatest (stage_input now s c).compacted_at s.compactions)))
      × AllStaged julianday now calls subs

  pub AllStaged : (ℕ → ℕ) → ℕ → List ToolCall → Sessions → Type 0
  AllStaged julianday now calls nil = Unit
  AllStaged julianday now calls (cons s ss) =
      Staged julianday now calls s × AllStaged julianday now calls ss

IsNewest-step :
    (julianday : ℕ → ℕ) (vendor sid : String) (c : ToolCall) (cs : List ToolCall)
    (o : Option ToolCall)
    → IsNewest julianday vendor sid cs o
    → IsNewest julianday vendor sid
        (c ∷ cs)
        (if is_call_of vendor sid c then some (newer julianday c o) else o)
unfolding newer
IsNewest-step julianday vendor sid c cs none h =
    if_cases (IsNewest julianday vendor sid (c ∷ cs)) (is_call_of vendor sid c)
      (λ own. ((0, refl), (own, (ground arith, All-imp cs (λ d k. rw k (ground arith)) h))))
      (λ other. (other, h))
IsNewest-step julianday vendor sid c cs (some d) h =
    if_cases (IsNewest julianday vendor sid (c ∷ cs)) (is_call_of vendor sid c)
      (λ own.
        if_cases (λ (b : ToolCall). IsNewest julianday vendor sid (c ∷ cs) (some b))
          (ltb (julianday c.at) (julianday d.at))
          (λ less. ((suc h.0.0, h.0.1), (h.1.0, (ground arith, h.1.1))))
          (λ kept. ((0, refl), (own, (ground arith, All-imp cs (λ x k. ground arith) h.1.1)))))
      (λ other. ((suc h.0.0, h.0.1), (h.1.0, (rw other (ground arith), h.1.1))))

latest_call-IsNewest :
    (julianday : ℕ → ℕ) (vendor sid : String) (calls : List ToolCall)
    → IsNewest julianday vendor sid calls (latest_call julianday vendor sid calls)
unfolding latest_call
latest_call-IsNewest julianday vendor sid [] = tt
latest_call-IsNewest julianday vendor sid (c ∷ cs) =
    IsNewest-step julianday vendor sid c cs (latest_call julianday vendor sid cs)
      (latest_call-IsNewest julianday vendor sid cs)

last_compaction-le :
    (t : ℕ) (us : List ℕ) → (t ≤ last_compaction t us) × All (λ u. u ≤ last_compaction t us) us
unfolding last_compaction
last_compaction-le t [] = (omega arith, tt)
last_compaction-le t (u ∷ us) =
    if_cases (λ m. (t ≤ last_compaction m us) × All (λ x. x ≤ last_compaction m us) (u ∷ us))
      (after u t)
      (λ later. let (up, rest) = last_compaction-le u us in (ground (arith, up, later), (up, rest)))
      (λ sooner.
        let (up, rest) = last_compaction-le t us in (up, (ground (arith, up, sooner), rest)))

last_compaction-among :
    (t : ℕ) (us : List ℕ)
    → (last_compaction t us ≡ t) ⊎ ((i : ℕ) × (get_elem? us i ≡ some (last_compaction t us)))
unfolding last_compaction
last_compaction-among t [] = inl refl
last_compaction-among t (u ∷ us) =
    if_cases
      (λ m.
        (last_compaction m us ≡ t)
        ⊎ ((i : ℕ) × (get_elem? (u ∷ us) i ≡ some (last_compaction m us))))
      (after u t)
      (λ later. elim (last_compaction-among u us) [
        | inl same ↦ inr (0, ap some (sym same))
        | inr (i, found) ↦ inr (suc i, found)
      ])
      (λ sooner. elim (last_compaction-among t us) [
        | inl same ↦ inl same
        | inr (i, found) ↦ inr (suc i, found)
      ])

compacted-IsLatest :
    (now : ℕ) (s : SessionInfo) (c : Option ToolCall)
    → IsLatest (stage_input now s c).compacted_at s.compactions
unfolding stage_input
compacted-IsLatest now s none =
    ((last_compaction-le 0 s.compactions).1, last_compaction-among 0 s.compactions)
compacted-IsLatest now s (some c) =
    ((last_compaction-le 0 s.compactions).1, last_compaction-among 0 s.compactions)

-- The input of `classify` does not depend on the stage that the session had.
latest_of_again :
    (o : Option Event) (s : SessionInfo) (r : Option Result) (c : ToolCall)
    → latest_of o (record s { stage = r }) c ≡ latest_of o s c
unfolding latest_of
latest_of_again none s r c = refl
latest_of_again (some t) s r c = refl

in_latest_turn_again :
    (s : SessionInfo) (r : Option Result) (c : ToolCall)
    → in_latest_turn (record s { stage = r }) c ≡ in_latest_turn s c
unfolding in_latest_turn
in_latest_turn_again s r c = latest_of_again (get_last? s.turns) s r c

stage_input_again :
    (now : ℕ) (s : SessionInfo) (r : Option Result) (c : Option ToolCall)
    → stage_input now (record s { stage = r }) c ≡ stage_input now s c
unfolding stage_input
stage_input_again now s r none = refl
stage_input_again now s r (some c) = rw (in_latest_turn_again s r c)

set_stage-staged :
    (julianday : ℕ → ℕ) (now : ℕ) (calls : List ToolCall) (s : SessionInfo)
    → (set_stage julianday now calls s).stage
      ≡ some (
          classify (
            stage_input now
              (set_stage julianday now calls s)
              (latest_call julianday s.vendor s.session_id calls)))
unfolding set_stage
set_stage-staged julianday now calls s = rw (
    stage_input_again now s
      (some (classify (stage_input now s (latest_call julianday s.vendor s.session_id calls))))
      (latest_call julianday s.vendor s.session_id calls))

mutual
  unfolding apply_stage set_stage Staged

  apply_stage-Staged :
      (julianday : ℕ → ℕ) (now : ℕ) (calls : List ToolCall) (s : Session)
      → Staged julianday now calls (apply_stage julianday now calls s)
  apply_stage-Staged julianday now calls (node s subs) = (
    (
      latest_call julianday s.vendor s.session_id calls,
      (
        latest_call-IsNewest julianday s.vendor s.session_id calls,
        (
          set_stage-staged julianday now calls s,
          compacted-IsLatest now (set_stage julianday now calls s)
              (latest_call julianday s.vendor s.session_id calls),
        ),
      ),
    ),
    apply_stages_to-AllStaged julianday now calls subs,
  )

  apply_stages_to-AllStaged :
      (julianday : ℕ → ℕ) (now : ℕ) (calls : List ToolCall) (ss : Sessions)
      → AllStaged julianday now calls (apply_stages_to julianday now calls ss)
  apply_stages_to-AllStaged julianday now calls nil = tt
  apply_stages_to-AllStaged julianday now calls (cons s ss) =
      (apply_stage-Staged julianday now calls s, apply_stages_to-AllStaged julianday now calls ss)

mutual
  unfolding apply_stage keys_of set_stage

  keys_of-apply_stage :
      (julianday : ℕ → ℕ) (now : ℕ) (calls : List ToolCall) (s : Session)
      → keys_of (apply_stage julianday now calls s) ≡ keys_of s
  keys_of-apply_stage julianday now calls (node s subs) =
      ap (λ ks. (s.vendor, s.session_id) ∷ ks)
        (session_keys-apply_stages_to julianday now calls subs)

  session_keys-apply_stages_to :
      (julianday : ℕ → ℕ) (now : ℕ) (calls : List ToolCall) (ss : Sessions)
      → session_keys (apply_stages_to julianday now calls ss) ≡ session_keys ss
  session_keys-apply_stages_to julianday now calls nil = refl
  session_keys-apply_stages_to julianday now calls (cons s ss) = rw (
    keys_of-apply_stage julianday now calls s,
    session_keys-apply_stages_to julianday now calls ss,
  )

staged_keyed :
    (ks : List (String × String)) (julianday : ℕ → ℕ) (now : ℕ) (calls : List ToolCall)
    (ss : Sessions)
    → session_keys ss ≡ ks
    → AllStaged julianday now calls (apply_stages_keyed ks julianday now (some calls) ss).0
      × (session_keys (apply_stages_keyed ks julianday now (some calls) ss).0 ≡ session_keys ss)
unfolding apply_stages_keyed Staged keys_of
staged_keyed [] julianday now calls nil h = (tt, refl)
staged_keyed [] julianday now calls (cons (node s subs) ss) h = ground (arith, h)
staged_keyed (k ∷ ks) julianday now calls ss h = (
  apply_stages_to-AllStaged julianday now calls ss,
  session_keys-apply_stages_to julianday now calls ss,
)

-- If the tool calls can be read, every session and every subagent, however deep, gets the stage that
-- its turns, its compactions and its newest tool call give, and the ids of the sessions stay in place.
-- The newest call is one with the vendor and the id of the session whose julianday no other one of
-- these exceeds; there is none only if the session has no call. The time of the compactions is that of
-- the latest one, or 0.
pub apply_stages_all :
    (julianday : ℕ → ℕ) (now : ℕ) (calls : List ToolCall) (ss : Sessions)
    → AllStaged julianday now calls (apply_stages julianday now (some calls) ss).0
      × (session_keys (apply_stages julianday now (some calls) ss).0 ≡ session_keys ss)
unfolding apply_stages
apply_stages_all julianday now calls ss = staged_keyed (session_keys ss) julianday now calls ss refl
