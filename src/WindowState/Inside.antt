-- ===== src/WindowState/Inside.antt =====
-- A restored window against the work area of its monitor.
use burnmon.Base.{
  ℕ, Bool, true, false, not, ◌||◌, Option, none, some, ◌≡◌, refl, ◌==◌, ◌+◌, ◌%◌, ◌^◌, ◌<◌, ◌/◌,
  string_eq, arith, if◌then◌else◌, some_injective, eq_of_==, subst,
}
use burnmon.WindowState.{
  Rect, Monitor, Window, add32, sub32, lt32, clamp_size, clamp_start, clamp_window, on_monitor,
  load_window_state,
}

-- A coordinate between -2^29 and 2^29, as its pattern.
abbrev pub Moderate : ℕ → Type 0
Moderate a = ((a + 2 ^ 29) % 2 ^ 32 < 2 ^ 30) × (a < 2 ^ 32)

clamp_size-fits :
    (size lo hi : ℕ)
    → Moderate lo
    → Moderate hi
    → lt32 hi lo ≡ false
    → lt32 0 size ≡ true
    → size < 2 ^ 32
    → lt32 (sub32 hi lo) (clamp_size size lo hi) ≡ false
unfolding clamp_size lt32 sub32
clamp_size-fits size lo hi l h o p s = ground arith

clamp_start-after :
    (x size lo hi : ℕ)
    → Moderate x
    → Moderate lo
    → Moderate hi
    → lt32 hi lo ≡ false
    → size < 2 ^ 31
    → lt32 (sub32 hi lo) size ≡ false
    → lt32 (clamp_start x size lo hi) lo ≡ false
unfolding clamp_start lt32 sub32 add32
clamp_start-after x size lo hi m l h o s f = ground arith

clamp_start-before :
    (x size lo hi : ℕ)
    → Moderate x
    → Moderate lo
    → Moderate hi
    → lt32 hi lo ≡ false
    → size < 2 ^ 31
    → lt32 (sub32 hi lo) size ≡ false
    → lt32 hi (add32 (clamp_start x size lo hi) size) ≡ false
unfolding clamp_start lt32 sub32 add32
clamp_start-before x size lo hi m l h o s f = ground arith

clamp_size-lt :
    (size lo hi : ℕ)
    → Moderate lo
    → Moderate hi
    → lt32 hi lo ≡ false
    → lt32 0 size ≡ true
    → size < 2 ^ 32
    → clamp_size size lo hi < 2 ^ 31
unfolding clamp_size lt32 sub32
clamp_size-lt size lo hi l h o p s = ground arith

-- The interval from `x`, of that size, lies between the ends.
abbrev pub Within : ℕ → ℕ → ℕ → ℕ → Type 0
Within x size lo hi = (lt32 x lo ≡ false) × (lt32 hi (add32 x size) ≡ false)

axis-Within :
    (x size lo hi : ℕ)
    → Moderate x
    → Moderate lo
    → Moderate hi
    → lt32 hi lo ≡ false
    → lt32 0 size ≡ true
    → size < 2 ^ 32
    → Within (clamp_start x (clamp_size size lo hi) lo hi) (clamp_size size lo hi) lo hi
axis-Within x size lo hi m l h o p s =
    let small = clamp_size-lt size lo hi l h o p s in
    let fits = clamp_size-fits size lo hi l h o p s in
    let z = clamp_size size lo hi in
    (
      clamp_start-after x z lo hi m l h o small fits,
      clamp_start-before x z lo hi m l h o small fits,
    )

-- A rectangle with its corners in order.
abbrev pub Proper : Rect → Type 0
Proper r =
    (Moderate r.left × Moderate r.right × (lt32 r.right r.left ≡ false))
    × (Moderate r.top × Moderate r.bottom × (lt32 r.bottom r.top ≡ false))

abbrev pub Contained : Rect → Window → Type 0
Contained r w = Within w.x w.width r.left r.right × Within w.y w.height r.top r.bottom

-- A window that was saved by the program: its fields are int32s, its position a moderate one.
abbrev pub Saved : Window → Type 0
Saved w = (Moderate w.x × Moderate w.y) × ((w.width < 2 ^ 32) × (w.height < 2 ^ 32))

clamp_window-Contained :
    (r : Rect) (w : Window)
    → Proper r
    → Saved w
    → lt32 0 w.width ≡ true
    → lt32 0 w.height ≡ true
    → Contained r (clamp_window r w)
unfolding clamp_window
clamp_window-Contained r w ((l, rt, lr), (t, b, tb)) ((mx, my), (sw, sh)) pw ph = (
  axis-Within w.x w.width r.left r.right mx l rt lr pw sw,
  axis-Within w.y w.height r.top r.bottom my t b tb ph sh,
)

on_monitor-Contained :
    (w out : Window) (o : Option Monitor)
    → ((m : Monitor) → o ≡ some m → Proper m.work)
    → Saved w
    → lt32 0 w.width ≡ true
    → lt32 0 w.height ≡ true
    → on_monitor w o ≡ some out
    → (m : Monitor) × ((o ≡ some m) × ((m.device ≡ w.monitor) × Contained m.work out))
on_monitor-Contained w out none pr sv pw ph e = cc
on_monitor-Contained w out (some m) pr sv pw ph e =
    go (not (m.device == w.monitor) || w.monitor == "") refl e
  where
    go :
        (b : Bool)
        → (not (m.device == w.monitor) || w.monitor == "") ≡ b
        → (if b then none else some (clamp_window m.work w)) ≡ some out
        → (k : Monitor) × ((some m ≡ some k) × ((k.device ≡ w.monitor) × Contained k.work out))
    go true bad h = cc
    go false good h =
        let same : clamp_window m.work w ≡ out = some_injective h in
        let named : (m.device == w.monitor) ≡ true = ground (arith, good) in
        (
          m,
          (
            refl,
            (
              eq_of_== m.device w.monitor named,
              subst (λ (x : Window). Contained m.work x) same
                  (clamp_window-Contained m.work w (pr m refl) sv pw ph),
            ),
          ),
        )

-- A window that loadWindowState restores lies within the work area of a monitor of the saved name, the one
-- at the centre of the saved window; if the work areas and the saved position are moderate.
pub load_window_state-Contained :
    (monitor_at : ℕ → ℕ → Option Monitor) (w out : Window)
    → ((x y : ℕ) (m : Monitor) → monitor_at x y ≡ some m → Proper m.work)
    → Saved w
    → load_window_state monitor_at (some w) ≡ some out
    → (m : Monitor) × ((monitor_at (add32 w.x (w.width / 2)) (add32 w.y (w.height / 2)) ≡ some m)
        × ((m.device ≡ w.monitor) × Contained m.work out))
unfolding load_window_state
load_window_state-Contained monitor_at w out pr sv e =
    go (not (lt32 0 w.width) || not (lt32 0 w.height)) refl e
  where
    go :
        (b : Bool)
        → (not (lt32 0 w.width) || not (lt32 0 w.height)) ≡ b
        → (if b
            then none
            else on_monitor w (monitor_at (add32 w.x (w.width / 2)) (add32 w.y (w.height / 2))))
          ≡ some out
        → (m : Monitor) × ((monitor_at (add32 w.x (w.width / 2)) (add32 w.y (w.height / 2))
              ≡ some m)
            × ((m.device ≡ w.monitor) × Contained m.work out))
    go true bad h = cc
    go false good h =
        let pw : lt32 0 w.width ≡ true = ground (arith, good) in
        let ph : lt32 0 w.height ≡ true = ground (arith, good) in
        on_monitor-Contained w out (monitor_at (add32 w.x (w.width / 2)) (add32 w.y (w.height / 2)))
          (λ m found. pr _ _ m found) sv pw ph h
