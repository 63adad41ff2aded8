-- ===== src/WindowState/Tests.antt =====
-- A window that was saved on a larger screen.
use burnmon.Base.{false, Option, some, some_injective, subst, ◌≡◌, refl, ◌-◌, ◌^◌, arith}
use burnmon.WindowState.{Monitor, Window, load_window_state, lt32}
use burnmon.WindowState.Inside.{Proper, Saved, Contained, load_window_state-Contained}

abbrev small_screen : Monitor
small_screen = record {
  work = record { left = 0; top = 0; right = 1280; bottom = 680 };
  device = "DISPLAY1";
}

abbrev saved_window : Window
saved_window = record {
  x = 2 ^ 32 - 10;
  y = 300;
  width = 1600;
  height = 500;
  maximized = false;
  monitor = "DISPLAY1";
}

abbrev restored : Window
restored = record saved_window { x = 0; y = 180; width = 1280 }

restores : load_window_state (λ x y. some small_screen) (some saved_window) ≡ some restored
unfolding load_window_state
restores = refl

screen-Proper :
    (m : Monitor) → ◌≡◌ {A = Option Monitor} (some small_screen) (some m) → Proper m.work
unfolding lt32
screen-Proper m e =
    subst (λ (k : Monitor). Proper k.work) (some_injective e)
      ((
        ((omega arith, omega arith), (omega arith, omega arith), refl),
        ((omega arith, omega arith), (omega arith, omega arith), refl),
      ))

saved_window-Saved : Saved saved_window
saved_window-Saved =
    (((omega arith, omega arith), (omega arith, omega arith)), (omega arith, omega arith))

load_window_state-Contained_example :
    (m : Monitor) × ((◌≡◌ {A = Option Monitor} (some small_screen) (some m))
      × ((m.device ≡ "DISPLAY1") × Contained m.work restored))
load_window_state-Contained_example =
    load_window_state-Contained (λ x y. some small_screen) saved_window restored
      (λ x y m e. screen-Proper m e) saved_window-Saved restores
