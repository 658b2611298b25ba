-- ===== src/Search/Dates.antt =====
-- `translate_date_range_intent` (apps/api/app/search/nl_service.py): a wall-clock time is the ordinal
-- of its day and the microseconds of that day.
use Prim.Native.Nat.{◌%◌}
use outlook_dictionary.Common.{ℕ, ◌+◌, ◌-◌, ◌*◌, Option, none, some, if◌then◌else◌, ltb, leb}
use outlook_dictionary.Search.Plan.{
  today, yesterday, this_week, last_week, this_month, last_month, this_year, last_year, past_days,
  weekday_of, Period, full_day, morning, afternoon, evening, DateRangeIntent,
}

pub record WallClock : Type 0 where
  pub day : ℕ
  pub time : ℕ

abbrev pub hour : ℕ
hour = 3600000000

-- 23:59:59.999999
abbrev pub last_moment : ℕ
last_moment = 86399999999

-- The calendar of `datetime`, from the day 1 on: its last day; the first day of the month of a day, and
-- of the month after it, where there is one; and the first and the last day of the year of a day.
pub record Calendar : Type 0 where
  pub last_day : ℕ
  pub month_start : ℕ → ℕ
  pub next_month_start : ℕ → Option ℕ
  pub year_start : ℕ → ℕ
  pub year_end : ℕ → ℕ

-- `weekday()` of the day with this ordinal; Monday is 0.
unfoldable pub weekday_number : ℕ → ℕ
weekday_number day = (day + 6) % 7

abbrev pub whole_days : (first last : ℕ) → WallClock × WallClock
whole_days first last =
    (record { day = first; time = 0 }, record { day = last; time = last_moment })

-- Days before a day; none lies before the first, where `datetime` raises.
abbrev pub days_before : (day n : ℕ) → Option ℕ
days_before day n = if ltb n day then some (day - n) else none

abbrev pub one_day : Option ℕ → Option (WallClock × WallClock)
one_day none = none
one_day (some day) = some (whole_days day day)

-- The week of a Monday; `datetime` raises where its Sunday lies after the last day.
abbrev pub week : Calendar → Option ℕ → Option (WallClock × WallClock)
week calendar none = none
week calendar (some monday) =
    if leb (monday + 6) calendar.last_day then some (whole_days monday (monday + 6)) else none

-- From the first day of a month to the day before the next one, which `replace` raises for in the
-- last month.
abbrev pub month : (first : ℕ) → Option ℕ → Option (WallClock × WallClock)
month first none = none
month first (some next) = some (whole_days first (next - 1))

abbrev pub since : Option ℕ → WallClock → Option (WallClock × WallClock)
since none now = none
since (some first) now = some (record { day = first; time = 0 }, now)

abbrev pub or_default : Option ℕ → ℕ → ℕ
or_default none n = n
or_default (some m) n = m

-- `date_range.days or 1`
abbrev pub days_or_one : Option ℕ → ℕ
days_or_one days = if ltb 0 (or_default days 1) then or_default days 1 else 1

-- The range of a kind, in local time.
unfoldable pub range_of_kind :
    Calendar → DateRangeIntent → (now : WallClock) → Option (WallClock × WallClock)
unfolding weekday_number
range_of_kind calendar r now =
    let d = now.day in
    elim r.kind [
      | today ↦ one_day (some d)
      | yesterday ↦ one_day (days_before d 1)
      | this_week ↦ week calendar (days_before d (weekday_number d))
      | last_week ↦ week calendar (days_before d (weekday_number d + 7))
      | this_month ↦ month (calendar.month_start d) (calendar.next_month_start d)
      | last_month ↦ elim (days_before (calendar.month_start d) 1) [
        | none ↦ none
        | some last ↦ some (whole_days (calendar.month_start last) last)
      ]
      | this_year ↦ some (whole_days (calendar.year_start d) (calendar.year_end d))
      | last_year ↦ elim (days_before (calendar.year_start d) 1) [
        | none ↦ none
        | some last ↦ some (whole_days (calendar.year_start last) last)
      ]
      | past_days ↦ since (days_before d (days_or_one r.days)) now
      | weekday_of ↦ one_day (days_before d ((weekday_number d + 7 - or_default r.weekday 0) % 7))
    ]

-- The refinement by a period of the day.
abbrev pub with_hours : (from to_last : ℕ) → WallClock × WallClock → WallClock × WallClock
with_hours from to_last (start, end) =
    (record start { time = from * hour }, record end { time = (to_last + 1) * hour - 1 })

abbrev pub refine_period : Option Period → WallClock × WallClock → WallClock × WallClock
refine_period none range = range
refine_period (some full_day) range = range
refine_period (some morning) range = with_hours 6 11 range
refine_period (some afternoon) range = with_hours 12 17 range
refine_period (some evening) range = with_hours 18 23 range

-- The range in local time; `none` is an OverflowError.
unfoldable pub local_range :
    Calendar → DateRangeIntent → (now : WallClock) → Option (WallClock × WallClock)
unfolding range_of_kind
local_range calendar r now = elim (range_of_kind calendar r now) [
  | none ↦ none
  | some range ↦ some (refine_period r.period range)
]

-- A zone of `zoneinfo`: UTC instants to its wall clock and back.
pub record Zone : Type 0 where
  pub to_local : ℕ → WallClock
  pub to_utc : WallClock → ℕ

-- `translate_date_range_intent`, from the zone on
unfoldable pub translate_date_range : Calendar → Zone → DateRangeIntent → (now : ℕ) → Option (ℕ × ℕ)
unfolding local_range
translate_date_range calendar zone r now = elim (local_range calendar r (zone.to_local now)) [
  | none ↦ none
  | some (start, end) ↦ some (zone.to_utc start, zone.to_utc end)
]
