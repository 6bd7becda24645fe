-- ===== src/Process/Format.antt =====
-- process/format.go: the text of sizes, durations and of fields that may be empty.
pub mod Sizes
pub mod Durations
use pm.Workflow.Config.{itoa, default_to}
use pm.Daemon.State.{ProcessInfo, is_online}
use pm.Daemon.Launch.{default_namespace}
use pm.Prelude.{
  ℕ, zero, suc, ◌+◌, ◌-◌, ◌*◌, ◌/◌, ◌%◌, not, ◌||◌, Option, none, some, [], ◌∷◌, ◌++◌, ltb, leb,
  ◌==◌, if◌then◌else◌, Text, codes, is_empty, ℤ, pos, negsuc,
}

-- The em dash in UTF-8.
abbrev pub dash : Text
dash = 226 ∷ 128 ∷ 148 ∷ []

-- Durations are in nanoseconds.
abbrev pub second : ℕ
second = 1000000000

abbrev pub minute : ℕ
minute = 60 * second

abbrev pub hour : ℕ
hour = 60 * minute

abbrev pub day : ℕ
day = 24 * hour

-- What shortDuration splits a duration into.
pub record Clock : Type 0 where
  pub days : ℕ
  pub hours : ℕ
  pub minutes : ℕ
  pub seconds : ℕ

abbrev pub not_negative : ℤ → ℕ
not_negative (pos n) = n
not_negative (negsuc n) = 0

unfoldable pub split_duration : ℕ → Clock
split_duration d =
    let days = d / day in
    let in_day = d - days * day in
    let hours = in_day / hour in
    let in_hour = in_day - hours * hour in
    let minutes = in_hour / minute in
    let in_minute = in_hour - minutes * minute in
    record { days = days; hours = hours; minutes = minutes; seconds = in_minute / second }

-- The two leading units, of which the second is not shown for mere seconds.
pub data Shown : Type 0 where
  days_hours hours_minutes minutes_seconds : (n m : ℕ) → Shown
  only_seconds : ℕ → Shown

unfoldable pub shown_units : Clock → Shown
shown_units c =
    if ltb 0 c.days
    then days_hours c.days c.hours
    else (if ltb 0 c.hours
        then hours_minutes c.hours c.minutes
        else (if ltb 0 c.minutes
            then minutes_seconds c.minutes c.seconds
            else only_seconds c.seconds))

abbrev pub shown_text : Shown → Text
shown_text (days_hours n m) = itoa n ++ codes "d" ++ itoa m ++ codes "h"
shown_text (hours_minutes n m) = itoa n ++ codes "h" ++ itoa m ++ codes "m"
shown_text (minutes_seconds n m) = itoa n ++ codes "m" ++ itoa m ++ codes "s"
shown_text (only_seconds n) = itoa n ++ codes "s"

-- shortDuration.
unfoldable pub short_duration : ℤ → Text
unfolding split_duration shown_units
short_duration d = shown_text (shown_units (split_duration (not_negative d)))

-- ShortUptime; a zero moment is unset, and Truncate(time.Second) keeps whole seconds.
unfoldable pub short_uptime : ℤ → ProcessInfo → Text
unfolding short_duration
short_uptime since p =
    let text = short_duration (pos (not_negative since / second * second)) in
    if not (is_online p.status) || p.started_at == 0 then dash else text

abbrev pub word : ℕ → ℕ
word n = n % 18446744073709551616

-- The loop of FormatBytes on 64-bit words, by fuel: the divisor and the exponent.
unfoldable pub scale : ℕ → ℕ → ℕ → ℕ → ℕ × ℕ
scale zero n div exp = (div, exp)
scale (suc fuel) n div exp =
    let next = scale fuel (n / 1024) (word (div * 1024)) (exp + 1) in
    if leb 1024 n then next else (div, exp)

-- units[exp]: none is a panic, as the index is out of range.
abbrev pub unit_at : ℕ → Option Text
unit_at zero = some (codes "kb")
unit_at (suc zero) = some (codes "mb")
unit_at (suc (suc zero)) = some (codes "gb")
unit_at (suc (suc (suc zero))) = some (codes "tb")
unit_at (suc (suc (suc (suc n)))) = none

-- A word has at most seven digits of base 1024.
abbrev pub scale_fuel : ℕ
scale_fuel = 7

-- A size as it is shown: in bytes, or as a quotient in some unit.
pub data Size : Type 0 where
  in_bytes : ℕ → Size
  scaled : (bytes div : ℕ) (name : Text) → Size

unfoldable pub format_size : ℕ → Option Size
unfolding scale
format_size b =
    let s = scale scale_fuel (b / 1024) 1024 0 in
    let large : Option Size = elim (unit_at s.1) [
      | none ↦ none
      | some name ↦ some (scaled b s.0 name)
    ] in
    if b == 0 then some (in_bytes 0) else (if ltb b 1024 then some (in_bytes b) else large)

-- FormatBytes, with Sprintf's "%.1f" of a quotient; none is a panic.
unfoldable pub format_bytes : (ℕ → ℕ → Text) → ℕ → Option Text
unfolding format_size
format_bytes quotient b = elim (format_size b) [
  | none ↦ none
  | some (in_bytes n) ↦ some (itoa n ++ codes "b")
  | some (scaled n div name) ↦ some (quotient n div ++ name)
]

-- MemCell.
unfoldable pub mem_cell : (ℕ → ℕ → Text) → ProcessInfo → Option Text
unfolding format_bytes
mem_cell quotient p =
    let text = format_bytes quotient p.memory in
    if is_online p.status then text else some (codes "0b")

-- CPUPercent, with Sprintf's "%.1f" of the bits.
unfoldable pub cpu_percent : (ℕ → Text) → ProcessInfo → Text
cpu_percent float p = if is_online p.status then float p.cpu ++ codes "%" else codes "0.0%"

unfoldable pub namespace_or_default : Text → Text
namespace_or_default ns = default_to default_namespace ns

unfoldable pub pid_or_dash : ℕ → Text
pid_or_dash pid = if pid == 0 then dash else itoa pid

-- VersionOrDash, UserOrDash and CronOrDash.
unfoldable pub text_or_dash : Text → Text
text_or_dash t = default_to dash t

-- LastExec, with the format of a moment.
unfoldable pub last_exec : (ℕ → Text) → ProcessInfo → Text
last_exec format p =
    let moment = format p.last_cron_at in
    let status =
      if is_empty p.last_cron_status then [] else codes " (" ++ p.last_cron_status ++ codes ")" in
    if p.last_cron_at == 0 then dash else moment ++ status
