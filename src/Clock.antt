-- ===== src/Clock.antt =====
-- Go's `time` as far as the program uses it. A `Time` is a count of nanoseconds since the year 1, a
-- `Duration` a signed count of them. A duration spans less than 300 years, so `add` to a time of
-- our days never reaches the year 1, where the subtraction would stop.
use k8cc.Prelude.{ℕ, suc, ◌+◌, ◌-◌, ◌%◌, ◌≤◌, ◌<◌, ◌≡◌, Bool, ltb, if◌then◌else◌, arith}
use k8cc.Prelude.Int.{ℤ, pos, negsuc}

abbrev pub Time : Type 0
Time = ℕ

abbrev pub Duration : Type 0
Duration = ℤ

abbrev pub second : ℕ
second = 1_000_000_000

-- t.Add(d)
abbrev pub add : Time → Duration → Time
add t (pos d) = t + d
add t (negsuc d) = t - suc d

-- t.After(u), t.Before(u)
abbrev pub after : Time → Time → Bool
after t u = ltb u t

abbrev pub before : Time → Time → Bool
before t u = ltb t u

-- t.Truncate(time.Second)
abbrev pub truncate : Time → Time
truncate t = t - t % second

-- t.Round(time.Second): to the nearest multiple, halves up.
unfoldable pub round : Time → Time
round t = if ltb (t % second + t % second) second then t - t % second else t + second - t % second

pub truncate_bounds : (t : Time) → (truncate t ≤ t) × (t < truncate t + second)
truncate_bounds t = omega arith

pub add_positive : (t : Time) (d : ℕ) (l : Duration) → l ≡ pos d → add t l ≡ t + d
add_positive t d l h = ground arith
