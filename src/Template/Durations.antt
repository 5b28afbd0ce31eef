-- ===== src/Template/Durations.antt =====
-- Durations and times as internal/template/renderer.go prints them. A time is a number of nanoseconds
-- since Go's zero time, which `IsZero` recognises; `Time.Sub` stops at the largest duration.
pub mod Markup
use webhook_telegram_proxy.Prelude.{
  ℕ, ◌+◌, ◌-◌, ◌/◌, ◌%◌, ◌*◌, ◌^◌, min, Option, none, some, List, [], ◌∷◌, ◌++◌, Text, codes,
  text_eq, decimal, ltb, leb, ◌==◌, ◌||◌, if◌then◌else◌,
}

abbrev pub minute : ℕ
minute = 60_000_000_000

abbrev pub max_duration : ℕ
max_duration = 2 ^ 63 - 1

-- Time.Sub, where it is not negative
abbrev pub time_sub : ℕ → ℕ → ℕ
time_sub later earlier = min (later - earlier) max_duration

-- Duration.Round(time.Minute), which rounds halves up and stops at the largest duration
unfoldable pub round_minute : ℕ → ℕ
round_minute d =
    let r = d % minute in if ltb (r + r) minute then d - r else min (d + (minute - r)) max_duration

-- `compactDuration`, on a duration that is not negative
abbrev pub compact_days : ℕ → ℕ → Text
compact_days days hours =
    if hours == 0
    then decimal days ++ codes "d"
    else decimal days ++ (codes "d" ++ (decimal hours ++ codes "h"))

abbrev pub compact_hours : ℕ → ℕ → Text
compact_hours hours minutes =
    if ltb hours 24
    then (if minutes == 0
        then decimal hours ++ codes "h"
        else decimal hours ++ (codes "h" ++ (decimal minutes ++ codes "m")))
    else compact_days (hours / 24) (hours % 24)

abbrev pub compact_minutes : ℕ → Text
compact_minutes total =
    if ltb total 60 then decimal total ++ codes "m" else compact_hours (total / 60) (total % 60)

unfoldable pub compact_duration : ℕ → Text
compact_duration d = if ltb d minute then codes "<1m" else compact_minutes (round_minute d / minute)

-- `sinceTime`, at the present time
unfoldable pub since_time : ℕ → ℕ → Text
since_time now value =
    if value == 0
    then []
    else if ltb now value
    then codes "in " ++ compact_duration (time_sub value now)
    else compact_duration (time_sub now value) ++ codes " ago"

unfoldable pub duration_between : ℕ → ℕ → Text
duration_between start end =
    if (start == 0 || end == 0) || ltb end start then [] else compact_duration (time_sub end start)

-- A location of Go's `time` package: the zone's name at a time, and the time under "15:04 ".
pub record Location : Type 0 where
  pub zone : ℕ → Text
  pub clock_text : ℕ → Text

-- `utc` prints a time under "2006-01-02 15:04 MST".
unfoldable pub format_utc_time : (ℕ → Text) → ℕ → Text
format_utc_time utc value = if value == 0 then [] else utc value

abbrev pub local_text : Location → ℕ → Text
local_text location value =
    if text_eq (location.zone value) (codes "UTC")
    then []
    else location.clock_text value ++ location.zone value

unfoldable pub format_local_time : Option Location → ℕ → Text
format_local_time none value = []
format_local_time (some location) value = if value == 0 then [] else local_text location value
