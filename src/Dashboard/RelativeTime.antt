-- ===== src/Dashboard/RelativeTime.antt =====
-- apps/web/src/lib/relativeTime.ts: how long ago, and how long between two Attempts. Times are whole
-- milliseconds.
use webhook_broadcast.Base.{
  ℕ, ◌+◌, ◌-◌, ◌*◌, ◌/◌, ◌%◌, ◌≤◌, ◌<◌, arith, ◌++◌, Text, codes, decimal, ltb, ℤ, pos_part,
  if◌then◌else◌,
}

abbrev second : ℕ
second = 1000

abbrev minute : ℕ
minute = 60 * second

abbrev hour : ℕ
hour = 60 * minute

abbrev day : ℕ
day = 24 * hour

abbrev month : ℕ
month = 30 * day

abbrev year : ℕ
year = 365 * day

-- `then` is the time of the ISO text; a difference that is negative is less than ten seconds.
unfoldable pub format_elapsed : ℕ → ℕ → Text
format_elapsed then_ms now =
    let diff = now - then_ms in
    if ltb diff (10 * second)
    then codes "just now"
    else if ltb diff minute
    then decimal (diff / second) ++ codes "s ago"
    else if ltb diff hour
    then decimal (diff / minute) ++ codes "m ago"
    else if ltb diff day
    then decimal (diff / hour) ++ codes "h ago"
    else if ltb diff month
    then decimal (diff / day) ++ codes "d ago"
    else if ltb diff year
    then decimal (diff / month) ++ codes "mo ago"
    else decimal (diff / year) ++ codes "y ago"

-- A gap as it is shown, before it is text.
data Gap : Type 0 where
  under_second : Gap
  seconds : (s : ℕ) → Gap
  minutes : (m s : ℕ) → Gap
  hours : (h m : ℕ) → Gap

backoff_gap : ℕ → Gap
backoff_gap clamped =
    if ltb clamped second
    then under_second
    else if ltb clamped minute
    then seconds (clamped / second)
    else if ltb clamped hour
    then minutes (clamped / minute) (clamped % minute / second)
    else hours (clamped / hour) (clamped % hour / minute)

-- The second component is left out where it is 0.
abbrev two : ℕ → Text → ℕ → Text → Text
two a unit b smaller =
    if ltb 0 b then decimal a ++ unit ++ codes " " ++ decimal b ++ smaller else decimal a ++ unit

abbrev gap_text : Gap → Text
gap_text under_second = codes "<1s"
gap_text (seconds s) = decimal s ++ codes "s"
gap_text (minutes m s) = two m (codes "m") s (codes "s")
gap_text (hours h m) = two h (codes "h") m (codes "m")

unfoldable format_backoff_gap : ℤ → Text
unfolding backoff_gap
format_backoff_gap ms = gap_text (backoff_gap (pos_part ms))

-- The time that a gap stands for, and the unit of its last component.
abbrev worth : Gap → ℕ
worth under_second = 0
worth (seconds s) = s * second
worth (minutes m s) = m * minute + s * second
worth (hours h m) = h * hour + m * minute

abbrev grain : Gap → ℕ
grain (hours h m) = minute
grain _ = second

-- Each component stays below the unit above it.
abbrev InUnits : Gap → Type 0
InUnits under_second = 0 ≤ 0
InUnits (seconds s) = s < 60
InUnits (minutes m s) = (m < 60) × (s < 60)
InUnits (hours h m) = m < 60

-- What is shown is the gap cut to whole units: it is never more than the gap and falls short of it by less
-- than its last unit, and no component reaches the unit above.
backoff_gap-truncates :
    (ms : ℕ)
    → (worth (backoff_gap ms) ≤ ms)
      × (ms < worth (backoff_gap ms) + grain (backoff_gap ms))
      × InUnits (backoff_gap ms)
unfolding backoff_gap
backoff_gap-truncates ms = ground arith

-- A longer gap is never shown as a shorter one.
backoff_gap_mono : (a b : ℕ) → a ≤ b → worth (backoff_gap a) ≤ worth (backoff_gap b)
unfolding backoff_gap
backoff_gap_mono a b h = ground arith
