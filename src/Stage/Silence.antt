-- ===== src/Stage/Silence.antt =====
-- `Classify` while nothing new is seen.
use burnmon.Base.{
  if◌then◌else◌, not, ◌&&◌, is_zero, dur_lt, dur_ge, sub_time, ℕ, ◌≤◌, ◌<◌, Bool, true, false, ◌≡◌,
  refl, ◌⊎◌, arith, String, dur_lt-sub_time, dur_ge-sub_time, max_duration,
}
use burnmon.Stage.{
  Stage, arriving, reading, fetching, planning, coding, running, thinking, delegating, waiting,
  dormant, compacting, Input, room_of, tool_stage, with_tool, by_trail, classify, last_seen,
  arrival_window, compact_window, idle_cutoff, think_after, stuck_tool_after,
}

-- How far a session has gone quiet.
pub rank : Stage → ℕ
rank arriving = 0
rank compacting = 1
rank reading = 2
rank fetching = 2
rank planning = 2
rank coding = 2
rank running = 2
rank delegating = 2
rank thinking = 3
rank waiting = 4
rank dormant = 5

abbrev pub at_time : ℕ → Input → Input
at_time t i = record i { now = t }

rank-room_of : (t : _) → (rank (room_of t) ≡ 2) ⊎ (room_of t ≡ waiting)
unfolding rank room_of
rank-room_of t = ground arith

-- A room that a tool can lead to.
abbrev pub IsRoom : Stage → Type 0
IsRoom s = (rank s ≡ 2) ⊎ (s ≡ waiting)

tool_stage-IsRoom : (tool : String) → IsRoom (tool_stage tool)
unfolding tool_stage
tool_stage-IsRoom tool = rank-room_of _

last_seen-at_time : (t : ℕ) (i : Input) → last_seen (at_time t i) ≡ last_seen i
unfolding last_seen
last_seen-at_time t i = refl

rank-with_tool :
    (s : Stage) (i : Input) (t : ℕ)
    → IsRoom s
    → i.now ≤ t
    → (rank (with_tool s i).stage ≤ rank (with_tool s (at_time t i)).stage)
      × (2 ≤ rank (with_tool s i).stage)
      × (rank (with_tool s i).stage ≤ 4)
unfolding with_tool rank
rank-with_tool s i t h le = ground (
  arith,
  last_seen-at_time t i,
  dur_ge-sub_time i.now (last_seen i) stuck_tool_after,
  dur_ge-sub_time t (last_seen i) stuck_tool_after,
  dur_ge-sub_time i.now (last_seen i) think_after,
  dur_ge-sub_time t (last_seen i) think_after,
)

rank-by_trail :
    (i : Input) (t : ℕ)
    → i.now ≤ t
    → (rank (by_trail i).stage ≤ rank (by_trail (at_time t i)).stage)
      × (2 ≤ rank (by_trail i).stage)
      × (rank (by_trail i).stage ≤ 4)
unfolding by_trail rank
rank-by_trail i t le = ground (
  arith,
  last_seen-at_time t i,
  dur_ge-sub_time i.now (last_seen i) stuck_tool_after,
  dur_ge-sub_time t (last_seen i) stuck_tool_after,
  rank-with_tool (tool_stage i.last_tool) i t (tool_stage-IsRoom i.last_tool) le,
)

-- The ladder of `classify` over its three tests.
ladder : Bool → Bool → Bool → Stage → Stage
ladder a b c x = if a then arriving else if b then compacting else if c then dormant else x

-- A window of a time that was seen.
within : ℕ → ℕ → ℕ → Bool
within now seen w = not (is_zero seen) && dur_lt (sub_time now seen) w

within_shrinks :
    (now t seen w : ℕ)
    → w ≤ max_duration
    → 0 < w
    → now ≤ t
    → within t seen w ≡ true
    → within now seen w ≡ true
unfolding within
within_shrinks now t seen w h k le m =
    ground (arith, dur_lt-sub_time now seen w h k, dur_lt-sub_time t seen w h k)

classify-ladder :
    (i : Input)
    → (classify i).stage
      ≡ ladder
          (within i.now i.start arrival_window)
          (within i.now i.compacted_at compact_window)
          (dur_ge (sub_time i.now (last_seen i)) idle_cutoff)
          (by_trail i).stage
unfolding classify ladder within
classify-ladder i = ground arith

rank-ladder :
    (a b c a' b' c' : Bool) (x x' : Stage)
    → (a' ≡ true → a ≡ true)
    → (b' ≡ true → b ≡ true)
    → (c ≡ true → c' ≡ true)
    → (2 ≤ rank x) × (rank x ≤ 4)
    → rank x ≤ rank x'
    → rank (ladder a b c x) ≤ rank (ladder a' b' c' x')
unfolding ladder rank
rank-ladder true b c true b' c' x x' p q r h k = omega arith
rank-ladder true b c false true c' x x' p q r h k = omega arith
rank-ladder true b c false false true x x' p q r h k = omega arith
rank-ladder true b c false false false x x' p q r h k = omega arith
rank-ladder false b c true b' c' x x' p q r h k = cc (p refl)
rank-ladder false true c false true c' x x' p q r h k = omega arith
rank-ladder false true c false false true x x' p q r h k = omega arith
rank-ladder false true c false false false x x' p q r h k = omega arith
rank-ladder false false c false true c' x x' p q r h k = cc (q refl)
rank-ladder false false true false false true x x' p q r h k = omega arith
rank-ladder false false true false false false x x' p q r h k = cc (r refl)
rank-ladder false false false false false true x x' p q r h k = omega arith
rank-ladder false false false false false false x x' p q r h k = k

-- While a session's trail does not change, its stage never goes back: from arriving and compacting
-- to a tool's room, thinking, waiting and dormant.
pub classify_forward :
    (i : Input) (t : ℕ) → i.now ≤ t → rank (classify i).stage ≤ rank (classify (at_time t i)).stage
classify_forward i t le =
    let (on, low, high) = rank-by_trail i t le in
    let e = last_seen-at_time t i in
    rw (classify-ladder i, classify-ladder (at_time t i))
      (rank-ladder _ _ _ _ _ _ _ _
        (within_shrinks i.now t i.start arrival_window (omega arith) (omega arith) le)
        (within_shrinks i.now t i.compacted_at compact_window (omega arith) (omega arith) le)
        (λ q. ground (
          arith,
          q,
          e,
          dur_ge-sub_time i.now (last_seen i) idle_cutoff,
          dur_ge-sub_time t (last_seen i) idle_cutoff,
        ))
        (low, high) on)
