-- ===== src/Base/Time.antt =====
-- time.Time as nanoseconds since Go's zero time, so that 0 is the time that `IsZero` reports.
-- A duration is an int64 of nanoseconds; `Sub` saturates at its ends.
use Prim.Native.Nat.{ℕ, ◌+◌, ◌-◌, ◌*◌, ◌^◌, ◌≤◌, ◌<◌, min}
use mathlib.Core.Bool.{Bool, true, false}
use mathlib.Core.Path.{◌≡◌}
use native.Mathlib.Omega.{arith}
use burnmon.Base.Tests.{ltb, leb, nat_beq, if◌then◌else◌}

-- `negsuc n` is -(n + 1).
pub data ℤ : Type 0 where
  pos : ℕ → ℤ
  negsuc : ℕ → ℤ

abbrev pub second : ℕ
second = 1_000_000_000

abbrev pub minute : ℕ
minute = 60 * second

abbrev pub max_duration : ℕ
max_duration = 2 ^ 63 - 1

-- t.Sub(u)
unfoldable pub sub_time : ℕ → ℕ → ℤ
sub_time t u =
    if leb u t then pos (min (t - u) max_duration) else negsuc (min (u - t - 1) max_duration)

-- d < w and d >= w, for a duration and a positive constant.
abbrev pub dur_lt : ℤ → ℕ → Bool
dur_lt (pos n) w = ltb n w
dur_lt (negsuc n) w = true

abbrev pub dur_ge : ℤ → ℕ → Bool
dur_ge (pos n) w = leb w n
dur_ge (negsuc n) w = false

-- d > w
abbrev pub dur_gt : ℤ → ℕ → Bool
dur_gt (pos n) w = ltb w n
dur_gt (negsuc n) w = false

-- t.After(u), t.IsZero()
abbrev pub after : ℕ → ℕ → Bool
after t u = ltb u t

abbrev pub is_zero : ℕ → Bool
is_zero t = nat_beq t 0

-- Against a constant below the saturation, the tests are on the times themselves.
pub dur_lt-sub_time :
    (t u w : ℕ) → w ≤ max_duration → 0 < w → dur_lt (sub_time t u) w ≡ ltb t (u + w)
unfolding sub_time
dur_lt-sub_time t u w h k = ground arith

pub dur_ge-sub_time :
    (t u w : ℕ) → w ≤ max_duration → 0 < w → dur_ge (sub_time t u) w ≡ leb (u + w) t
unfolding sub_time
dur_ge-sub_time t u w h k = ground arith

pub dur_gt-sub_time : (t u w : ℕ) → w < max_duration → dur_gt (sub_time t u) w ≡ ltb (u + w) t
unfolding sub_time
dur_gt-sub_time t u w h = ground arith
