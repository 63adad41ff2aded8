-- ===== src/WindowState.antt =====
-- `loadWindowState` of cmd/burnmon-dev/windowstate.go. An int32 is its 32-bit pattern. What the file
-- decodes to and which monitor covers a point are parameters.
pub mod Inside
mod Tests
use burnmon.Base.{
  ℕ, String, Bool, true, false, not, ◌&&◌, ◌||◌, Option, none, some, ◌==◌, ◌+◌, ◌-◌, ◌/◌, ◌%◌, ◌^◌,
  ltb, string_eq, if◌then◌else◌,
}

-- int32
unfoldable pub add32 : ℕ → ℕ → ℕ
add32 a b = (a + b) % 2 ^ 32

unfoldable pub sub32 : ℕ → ℕ → ℕ
sub32 a b = (a + 2 ^ 32 - b % 2 ^ 32) % 2 ^ 32

unfoldable pub lt32 : ℕ → ℕ → Bool
lt32 a b = ltb ((a + 2 ^ 31) % 2 ^ 32) ((b + 2 ^ 31) % 2 ^ 32)

-- rect32
pub record Rect : Type 0 where
  pub left : ℕ
  pub top : ℕ
  pub right : ℕ
  pub bottom : ℕ

-- The work area and the device name of MONITORINFOEXW.
pub record Monitor : Type 0 where
  pub work : Rect
  pub device : String

-- windowState
pub record Window : Type 0 where
  pub x : ℕ
  pub y : ℕ
  pub width : ℕ
  pub height : ℕ
  pub maximized : Bool
  pub monitor : String

-- `if maxW := hi - lo; size > maxW`
unfoldable pub clamp_size : ℕ → ℕ → ℕ → ℕ
unfolding lt32 sub32
clamp_size size lo hi = if lt32 (sub32 hi lo) size then sub32 hi lo else size

-- `if x < lo`, and then `if x+size > hi`, for a size that was clamped.
unfoldable pub clamp_start : ℕ → ℕ → ℕ → ℕ → ℕ
unfolding lt32 sub32 add32
clamp_start x size lo hi =
    let moved = if lt32 x lo then lo else x in
    if lt32 hi (add32 moved size) then sub32 hi size else moved

unfoldable pub clamp_window : Rect → Window → Window
unfolding clamp_size clamp_start
clamp_window work st =
    let width = clamp_size st.width work.left work.right in
    let height = clamp_size st.height work.top work.bottom in
    record st {
      x = clamp_start st.x width work.left work.right;
      y = clamp_start st.y height work.top work.bottom;
      width = width;
      height = height;
    }

abbrev pub on_monitor : Window → Option Monitor → Option Window
on_monitor st none = none
on_monitor st (some m) =
    if not (m.device == st.monitor) || st.monitor == "" then none else some (clamp_window m.work st)

-- A width of 0 or below is refused, so that `st.Width/2` is the quotient of a positive number.
abbrev pub restore : (ℕ → ℕ → Option Monitor) → Option Window → Option Window
restore monitor_at none = none
restore monitor_at (some st) =
    if not (lt32 0 st.width) || not (lt32 0 st.height)
    then none
    else on_monitor st (monitor_at (add32 st.x (st.width / 2)) (add32 st.y (st.height / 2)))

unfoldable pub load_window_state : (ℕ → ℕ → Option Monitor) → Option Window → Option Window
unfolding lt32 add32 clamp_window
load_window_state monitor_at saved = restore monitor_at saved
