-- ===== src/Process/Format/Durations.antt =====
-- What a duration that is shown says.
use pm.Process.Format.{
  second, minute, hour, day, split_duration, Shown, days_hours, hours_minutes, minutes_seconds,
  only_seconds, shown_units,
}
use pm.Prelude.{ℕ, ◌+◌, ◌*◌, ◌≤◌, ◌<◌, arith}

-- The duration that a text stands for, and the unit that it is precise to.
abbrev pub value_of : Shown → ℕ
value_of (days_hours n m) = n * day + m * hour
value_of (hours_minutes n m) = n * hour + m * minute
value_of (minutes_seconds n m) = n * minute + m * second
value_of (only_seconds n) = n * second

abbrev pub precision_of : Shown → ℕ
precision_of (days_hours n m) = hour
precision_of (hours_minutes n m) = minute
precision_of (minutes_seconds n m) = second
precision_of (only_seconds n) = second

-- The second unit does not reach the first.
abbrev pub IsCanonical : Shown → Type 0
IsCanonical (days_hours n m) = m < 24
IsCanonical (hours_minutes n m) = m < 60
IsCanonical (minutes_seconds n m) = m < 60
IsCanonical (only_seconds n) = n < 60

pub shown_units-precise :
    (d : ℕ)
    → let s = shown_units (split_duration d) in
      (value_of s ≤ d) × (d < value_of s + precision_of s) × IsCanonical s
unfolding shown_units split_duration
shown_units-precise d = ground arith
