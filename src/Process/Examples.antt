-- ===== src/Process/Examples.antt =====
-- Sizes and durations at the bounds of their units.
use pm.Process.Format.{split_duration, shown_units, format_size, format_bytes}
use pm.Process.Format.Sizes.{size_of, format_size_lem}
use pm.Process.Format.Durations.{value_of, precision_of, IsCanonical, shown_units-precise}
use pm.Workflow.Config.{itoa}
use pm.Prelude.{ℕ, ◌+◌, ◌/◌, ◌≤◌, ◌<◌, ◌≡◌, refl, none, arith}

-- One pebibyte.
abbrev pebibyte : ℕ
pebibyte = 1125899906842624

format_size_lem_example : format_size pebibyte ≡ size_of pebibyte
format_size_lem_example = format_size_lem pebibyte (ground arith)

-- FormatBytes panics on it.
format_bytes-pebibyte : format_bytes (λ n d. itoa (n / d)) pebibyte ≡ none
unfolding format_bytes
format_bytes-pebibyte = refl

-- A day, an hour and 59 minutes.
abbrev long : ℕ
long = 93540000000000

shown_units-precise_example :
    let s = shown_units (split_duration long) in
    (value_of s ≤ long) × (long < value_of s + precision_of s) × IsCanonical s
shown_units-precise_example = shown_units-precise long
