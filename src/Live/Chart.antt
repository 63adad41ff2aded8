-- ===== src/Live/Chart.antt =====
-- `buildChart` and the window of `BuildSnapshot`. A turn's
-- cost, which internal/pricing computes in floating point, and the sum of costs are parameters.
use burnmon.Base.{
  ℕ, zero, suc, ◌+◌, ◌-◌, ◌*◌, ◌/◌, ◌%◌, ◌≤◌, ◌<◌, min, String, Bool, true, false, not, ◌&&◌, List,
  [], ◌∷◌, length, ltb, ◌==◌, string_eq, if◌then◌else◌, ◌+64◌, second, minute, max_duration,
  is_zero, after, ◌≡◌, refl, sym, subst, ap, ◌⊎◌, inl, inr, arith,
}
use burnmon.Schema.{Event, is_turn, value_or_zero}

pub record ClassCounts : Type 0 where
  pub fresh : ℕ
  pub cache_write : ℕ
  pub cache_read : ℕ
  pub output : ℕ

pub record Bucket (F : Type 0) : Type 0 where
  pub at : ℕ
  pub by_session : List (String × ClassCounts)
  pub cost : F

abbrev pub chart_window : ℕ
chart_window = 30 * minute

-- now.Truncate(width), moved up to the next slot unless it is `now`.
unfoldable pub window_end : ℕ → ℕ → ℕ
window_end now width = let t = now - now % width in if ltb t now then t + width else t

unfoldable pub window_start : ℕ → ℕ → ℕ
unfolding window_end
window_start now width = window_end now width - chart_window

-- The turns that the chart, the ticker and the two maps take.
unfoldable pub in_window : ℕ → ℕ → Event → Bool
unfolding is_turn
in_window start now e =
    is_turn e && not (is_zero e.at) && not (ltb e.at start) && not (after e.at now)

-- int(e.At.Sub(windowStart) / slotWidth), for a time not before the start.
unfoldable pub slot_index : ℕ → ℕ → ℕ → ℕ
slot_index start width at = min (at - start) max_duration / width

abbrev pub no_counts : ClassCounts
no_counts = record { fresh = 0; cache_write = 0; cache_read = 0; output = 0 }

unfoldable pub add_event : Event → ClassCounts → ClassCounts
unfolding value_or_zero
add_event e c = record {
  fresh = c.fresh +64 e.input;
  cache_write = c.cache_write +64 value_or_zero e.cache_write;
  cache_read = c.cache_read +64 value_or_zero e.cache_read;
  output = c.output +64 e.output;
}

-- b.BySession[e.SessionID] = cc
unfoldable pub count_event : Event → List (String × ClassCounts) → List (String × ClassCounts)
unfolding add_event
count_event e [] = (e.session_id, add_event e no_counts) ∷ []
count_event e ((s, c) ∷ m) =
    if s == e.session_id then (s, add_event e c) ∷ m else (s, c) ∷ count_event e m

module _ {F : Type 0} (no_cost : F) (add_cost : F → F → F) (turn_cost : Event → F) where
  unfoldable pub empty_slots : ℕ → ℕ → ℕ → List (Bucket F)
  empty_slots at width zero = []
  empty_slots at width (suc n) =
      record { at = at; by_session = []; cost = no_cost } ∷ empty_slots (at + width) width n

  -- slots[i] gets the event; past the last slot nothing happens.
  unfoldable pub fill_slot : ℕ → Event → List (Bucket F) → List (Bucket F)
  unfolding count_event
  fill_slot i e [] = []
  fill_slot zero e (b ∷ bs) =
      record b { by_session = count_event e b.by_session; cost = add_cost b.cost (turn_cost e) }
      ∷ bs
  fill_slot (suc i) e (b ∷ bs) = b ∷ fill_slot i e bs

  unfoldable pub fill_slots : ℕ → ℕ → ℕ → List Event → List (Bucket F) → List (Bucket F)
  unfolding fill_slot in_window slot_index
  fill_slots start now width [] bs = bs
  fill_slots start now width (e ∷ es) bs =
      fill_slots start now width es
        (if in_window start now e then fill_slot (slot_index start width e.at) e bs else bs)

  unfoldable pub build_chart : List Event → ℕ → ℕ → ℕ → List (Bucket F)
  unfolding fill_slots empty_slots
  build_chart es start now width =
      fill_slots start now width es (empty_slots start width (chart_window / width))

  length-empty_slots : (at width n : ℕ) → length (empty_slots at width n) ≡ n
  unfolding empty_slots
  length-empty_slots at width zero = refl
  length-empty_slots at width (suc n) = ap suc (length-empty_slots (at + width) width n)

  length-fill_slot :
      (i : ℕ) (e : Event) (bs : List (Bucket F)) → length (fill_slot i e bs) ≡ length bs
  unfolding fill_slot
  length-fill_slot i e [] = refl
  length-fill_slot zero e (b ∷ bs) = refl
  length-fill_slot (suc i) e (b ∷ bs) = ap suc (length-fill_slot i e bs)

  -- Past the last slot an event is dropped.
  fill_slot_past :
      (i : ℕ) (e : Event) (bs : List (Bucket F)) → length bs ≤ i → fill_slot i e bs ≡ bs
  unfolding fill_slot
  fill_slot_past i e [] h = refl
  fill_slot_past zero e (b ∷ bs) h = ground (arith, h)
  fill_slot_past (suc i) e (b ∷ bs) h = ap (λ t. b ∷ t) (fill_slot_past i e bs (omega (arith, h)))

-- The width of a slot: one minute on the Now page, ten seconds in the monitor view.
abbrev pub IsWidth : ℕ → Type 0
IsWidth width = (width ≡ minute) ⊎ (width ≡ 10 * second)

-- The slot of a time in the half hour after `start`.
abbrev SlotCovers : ℕ → ℕ → ℕ → Type 0
SlotCovers start at width =
    (slot_index start width at < chart_window / width)
    × ((start + slot_index start width at * width ≤ at)
        × (at < start + slot_index start width at * width + width))

minute_covers : (start at : ℕ) → start ≤ at → at < start + chart_window → SlotCovers start at minute
unfolding slot_index
minute_covers start at h k = (omega arith, (omega arith, omega arith))

ten_seconds_covers :
    (start at : ℕ) → start ≤ at → at < start + chart_window → SlotCovers start at (10 * second)
unfolding slot_index
ten_seconds_covers start at h k = (omega arith, (omega arith, omega arith))

covers :
    (width start at : ℕ)
    → IsWidth width
    → start ≤ at
    → at < start + chart_window
    → SlotCovers start at width
covers width start at (inl e) h k = subst (SlotCovers start at) (sym e) (minute_covers start at h k)
covers width start at (inr e) h k =
    subst (SlotCovers start at) (sym e) (ten_seconds_covers start at h k)

end_minute : (now : ℕ) → now ≤ window_end now minute
unfolding window_end
end_minute now = ground arith

end_ten_seconds : (now : ℕ) → now ≤ window_end now (10 * second)
unfolding window_end
end_ten_seconds now = ground arith

reaches_now : (now width : ℕ) → IsWidth width → now ≤ window_end now width
reaches_now now width (inl e) = subst (λ w. now ≤ window_end now w) (sym e) (end_minute now)
reaches_now now width (inr e) = subst (λ w. now ≤ window_end now w) (sym e) (end_ten_seconds now)

-- The chart reaches `now`, and a turn from its start up to, but not at, its end falls into the slot
-- that covers the turn's time, which is one of the chart's; for slots of a minute or ten seconds,
-- and from half an hour after the zero time on.
slot_covers :
    (now width at : ℕ)
    → IsWidth width
    → chart_window ≤ now
    → window_start now width ≤ at
    → at < window_end now width
    → (now ≤ window_end now width)
      × ((slot_index (window_start now width) width at < chart_window / width)
          × ((window_start now width + slot_index (window_start now width) width at * width ≤ at)
              × (at
                  < window_start now width
                    + slot_index (window_start now width) width at * width
                    + width)))
unfolding window_start
slot_covers now width at w late above below =
    let reach = reaches_now now width w in
    (
      reach,
      covers width (window_end now width - chart_window) at w above
          (omega (arith, below, late, reach)),
    )

past_minute : (start : ℕ) → chart_window / minute ≤ slot_index start minute (start + chart_window)
unfolding slot_index
past_minute start = omega arith

past_ten_seconds :
    (start : ℕ)
    → chart_window / (10 * second) ≤ slot_index start (10 * second) (start + chart_window)
unfolding slot_index
past_ten_seconds start = omega arith

past_end :
    (width start : ℕ)
    → IsWidth width
    → chart_window / width ≤ slot_index start width (start + chart_window)
past_end width start (inl e) =
    subst (λ w. chart_window / w ≤ slot_index start w (start + chart_window)) (sym e)
      (past_minute start)
past_end width start (inr e) =
    subst (λ w. chart_window / w ≤ slot_index start w (start + chart_window)) (sym e)
      (past_ten_seconds start)

module _ {F : Type 0} (no_cost : F) (add_cost : F → F → F) (turn_cost : Event → F) where
  -- Past the last slot an event changes nothing, whether or not it is in the window.
  unplaced :
      (b : Bool) (i : ℕ) (e : Event) (bs : List (Bucket F))
      → length bs ≤ i
      → (if b then fill_slot no_cost add_cost turn_cost i e bs else bs) ≡ bs
  unplaced true i e bs h = fill_slot_past no_cost add_cost turn_cost i e bs h
  unplaced false i e bs h = refl

  -- A turn at the very end of a chart with slots of a minute or ten seconds, where `now` may be, is
  -- in no slot: the chart is the one without it.
  end_turn_dropped :
      (start now width : ℕ) (e : Event) (es : List Event)
      → IsWidth width
      → e.at ≡ start + chart_window
      → build_chart no_cost add_cost turn_cost (e ∷ es) start now width
        ≡ build_chart no_cost add_cost turn_cost es start now width
  unfolding build_chart fill_slots
  end_turn_dropped start now width e es w at_end =
      let slots = empty_slots no_cost add_cost turn_cost start width (chart_window / width) in
      let past : length slots ≤ slot_index start width e.at = omega (
        arith,
        length-empty_slots no_cost add_cost turn_cost start width (chart_window / width),
        subst (λ t. chart_window / width ≤ slot_index start width t) (sym at_end)
            (past_end width start w),
      ) in
      ap (fill_slots no_cost add_cost turn_cost start now width es)
        (unplaced (in_window start now e) (slot_index start width e.at) e slots past)
