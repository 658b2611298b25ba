-- ===== src/Search/Ranges.antt =====
-- The days that a date range covers.
use Prim.Native.Nat.{◌%◌}
use outlook_dictionary.Common.{
  ℕ, ◌+◌, ◌-◌, ◌*◌, ◌≤◌, ◌<◌, ◌≡◌, ◌⊎◌, inl, inr, refl, ap, true, Option, none, some, ltb, leb, sym,
  ◌∙◌, arith, choose_by,
}
use outlook_dictionary.Search.Plan.{
  DateKind, today, yesterday, this_week, last_week, this_month, last_month, this_year, last_year,
  past_days, weekday_of, Period, full_day, morning, afternoon, evening, DateRangeIntent,
  validate_date_range,
}
use outlook_dictionary.Search.Dates.{
  WallClock, last_moment, Calendar, weekday_number, days_before, one_day, week, month, since,
  days_or_one, range_of_kind, whole_days, hour, refine_period, local_range,
}

-- What the calendar of `datetime` promises of its days: a day lies in its month and in its year.
abbrev pub LiesBefore : ℕ → Option ℕ → Type 0
LiesBefore day none = Unit
LiesBefore day (some next) = day < next

abbrev pub IsCalendar : Calendar → Type 0
IsCalendar c =
    (day : ℕ)
    → day ≤ c.last_day
    → (c.month_start day ≤ day)
      × LiesBefore day (c.next_month_start day)
      × (c.year_start day ≤ day)
      × (day ≤ c.year_end day)

-- The first and the last day of a kind, from today on: weeks have seven days and begin on a Monday, a
-- month ends where the next begins, a year has the first and the last day that the calendar names,
-- and a weekday is the last one that is not in the future.
abbrev pub AreDaysOf :
    Calendar → DateKind → (days weekday : Option ℕ) → (now first last : ℕ) → Type 0
AreDaysOf c today days weekday now first last = (first ≡ now) × (last ≡ now)
AreDaysOf c yesterday days weekday now first last = (first + 1 ≡ now) × (last ≡ first)
AreDaysOf c this_week days weekday now first last =
    (weekday_number first ≡ 0) × (last ≡ first + 6) × (first ≤ now) × (now ≤ last)
AreDaysOf c last_week days weekday now first last =
    (weekday_number first ≡ 0) × (last ≡ first + 6) × (last < now) × (now ≤ last + 7)
AreDaysOf c this_month days weekday now first last =
    (first ≡ c.month_start now)
    × (c.next_month_start now ≡ some (last + 1))
    × (first ≤ now)
    × (now ≤ last)
AreDaysOf c last_month days weekday now first last =
    (last + 1 ≡ c.month_start now) × (first ≡ c.month_start last) × (first ≤ last)
AreDaysOf c this_year days weekday now first last =
    (first ≡ c.year_start now) × (last ≡ c.year_end now) × (first ≤ now) × (now ≤ last)
AreDaysOf c last_year days weekday now first last =
    (last + 1 ≡ c.year_start now) × (first ≡ c.year_start last) × (first ≤ last)
AreDaysOf c past_days days weekday now first last =
    (days ≡ some (now - first)) × (first < now) × (last ≡ now)
AreDaysOf c weekday_of days weekday now first last =
    (weekday ≡ some (weekday_number first)) × (last ≡ first) × (first ≤ now) × (now < first + 7)

-- The start comes before the end.
abbrev pub IsOrdered : WallClock → WallClock → Type 0
IsOrdered start end = (start.day < end.day) ⊎ (start.day ≡ end.day) × (start.time < end.time)

-- The times of the first and of the last day: those of the period, if there is one; from the first
-- moment of the first day to the last of the last one, or for the past days to the present time.
abbrev pub first_time : Option Period → ℕ
first_time none = 0
first_time (some full_day) = 0
first_time (some morning) = 6 * hour
first_time (some afternoon) = 12 * hour
first_time (some evening) = 18 * hour

abbrev pub end_of_day : DateKind → (present : ℕ) → ℕ
end_of_day past_days present = present
end_of_day _ present = last_moment

abbrev pub last_time : DateKind → Option Period → (present : ℕ) → ℕ
last_time kind none present = end_of_day kind present
last_time kind (some full_day) present = end_of_day kind present
last_time kind (some morning) present = 12 * hour - 1
last_time kind (some afternoon) present = 18 * hour - 1
last_time kind (some evening) present = 24 * hour - 1

-- Where `datetime` raises: the days would lie before the first day; or this week would end after the
-- last day, or this month is the last one.
abbrev pub Overflows : Calendar → DateKind → (days : Option ℕ) → (now : ℕ) → Type 0
Overflows c today days now = ⊥
Overflows c yesterday days now = now ≤ 1
Overflows c this_week days now =
    (now ≤ weekday_number now) ⊎ (c.last_day < now - weekday_number now + 6)
Overflows c last_week days now = now ≤ weekday_number now + 7
Overflows c this_month days now = c.next_month_start now ≡ none
Overflows c this_year days now = ⊥
Overflows c last_month days now = c.month_start now ≤ 1
Overflows c last_year days now = c.year_start now ≤ 1
Overflows c past_days none now = ⊥
Overflows c past_days (some n) now = now ≤ n
Overflows c weekday_of days now = now ≤ 6

-- A range of days with its times, which no period of the day can invert.
abbrev pub IsRange :
    Calendar → DateRangeIntent → WallClock → Option (WallClock × WallClock) → Type 0
IsRange c r now none = Overflows c r.kind r.days now.day
IsRange c r now (some (start, end)) =
    AreDaysOf c r.kind r.days r.weekday now.day start.day end.day
    × (start.time ≡ first_time r.period)
    × (end.time ≡ last_time r.kind r.period now.time)
    × IsOrdered start end

abbrev intent : DateKind → Option ℕ → Option ℕ → Option Period → DateRangeIntent
intent kind days weekday p = record { kind = kind; days = days; weekday = weekday; period = p }

whole-IsOrdered :
    (first last : ℕ)
    → first ≤ last
    → IsOrdered (record { day = first; time = 0 }) (record { day = last; time = last_moment })
whole-IsOrdered first last le = grind arith

-- A day some days back, if there are so many.
back-IsRange :
    (c : Calendar) (kind : DateKind) (days weekday : Option ℕ) (now : WallClock) (n : ℕ)
    → end_of_day kind now.time ≡ last_moment
    → (n < now.day → AreDaysOf c kind days weekday now.day (now.day - n) (now.day - n))
    → (now.day ≤ n → Overflows c kind days now.day)
    → IsRange c (intent kind days weekday none) now (one_day (days_before now.day n))
back-IsRange c kind days weekday now n whole h over =
    choose_by (λ o. IsRange c (intent kind days weekday none) now (one_day o)) (ltb n now.day) _ _
      (λ lt. (
        h (ground (arith, lt)),
        refl,
        sym whole,
        whole-IsOrdered (now.day - n) (now.day - n) (omega arith),
      ))
      (λ e. over (ground (arith, e)))

-- The week of a Monday some days back, if there are so many and it ends before the last day.
week-IsRange :
    (c : Calendar) (kind : DateKind) (days weekday : Option ℕ) (now : WallClock) (n : ℕ)
    → end_of_day kind now.time ≡ last_moment
    → (n < now.day → AreDaysOf c kind days weekday now.day (now.day - n) (now.day - n + 6))
    → (now.day ≤ n → Overflows c kind days now.day)
    → (c.last_day < now.day - n + 6 → Overflows c kind days now.day)
    → IsRange c (intent kind days weekday none) now (week c (days_before now.day n))
week-IsRange c kind days weekday now n whole h over late =
    choose_by (λ o. IsRange c (intent kind days weekday none) now (week c o)) (ltb n now.day) _ _
      (λ lt.
        choose_by (IsRange c (intent kind days weekday none) now) (leb (now.day - n + 6) c.last_day)
          _ _
          (λ le. (
            h (ground (arith, lt)),
            refl,
            sym whole,
            whole-IsOrdered (now.day - n) (now.day - n + 6) (omega arith),
          ))
          (λ e. late (ground (arith, e))))
      (λ e. over (ground (arith, e)))

month-IsRange :
    (c : Calendar) (days weekday : Option ℕ) (now : WallClock) (next : Option ℕ)
    → c.next_month_start now.day ≡ next
    → c.month_start now.day ≤ now.day
    → LiesBefore now.day next
    → IsRange c (intent this_month days weekday none) now (month (c.month_start now.day) next)
month-IsRange c days weekday now none same le lt = same
month-IsRange c days weekday now (some next) same le lt = (
  (refl, same ∙ ap some (omega (arith, lt)), le, omega (arith, lt)),
  refl,
  refl,
  whole-IsOrdered (c.month_start now.day) (next - 1) (omega (arith, le, lt)),
)

range_of_kind-IsRange :
    (c : Calendar) (kind : DateKind) (days weekday : Option ℕ) (p : Option Period) (now : WallClock)
    → IsCalendar c
    → now.day ≤ c.last_day
    → validate_date_range (intent kind days weekday p) ≡ true
    → IsRange c
        (intent kind days weekday none)
        now
        (range_of_kind c (intent kind days weekday none) now)
unfolding range_of_kind validate_date_range weekday_number
range_of_kind-IsRange c today days weekday p now cal known h =
    ((refl, refl), refl, refl, whole-IsOrdered now.day now.day (omega arith))
range_of_kind-IsRange c yesterday days weekday p now cal known h =
    back-IsRange c yesterday days weekday now 1 refl (λ lt. (omega (arith, lt), refl)) (λ le. le)
range_of_kind-IsRange c this_week days weekday p now cal known h =
    week-IsRange c this_week days weekday now (weekday_number now.day) refl
      (λ lt. (omega (arith, lt), refl, omega (arith, lt), omega (arith, lt))) (λ le. inl le)
      (λ late. inr late)
range_of_kind-IsRange c last_week days weekday p now cal known h =
    week-IsRange c last_week days weekday now (weekday_number now.day + 7) refl
      (λ lt. (omega (arith, lt), refl, omega (arith, lt), omega (arith, lt))) (λ le. le)
      (λ late. omega (arith, late, known))
range_of_kind-IsRange c this_month days weekday p now cal known h =
    let (month_le, month_lt, year_le, year_ge) = cal now.day known in
    month-IsRange c days weekday now (c.next_month_start now.day) refl month_le month_lt
range_of_kind-IsRange c last_month days weekday p now cal known h =
    choose_by {A = Option ℕ}
      (λ o.
        IsRange c (intent last_month days weekday none) now
          (elim o as (λ _. Option (WallClock × WallClock)) [
            | none ↦ none
            | some last ↦ some (whole_days (c.month_start last) last)
          ]))
      (ltb 1 (c.month_start now.day)) _ _
      (λ lt.
        let (this_le, this_lt, this_year_le, this_year_ge) = cal now.day known in
        let (month_le, month_lt, year_le, year_ge) =
          cal (c.month_start now.day - 1) (omega (arith, this_le, known)) in
        (
          (ground (arith, lt), refl, month_le),
          refl,
          refl,
          whole-IsOrdered (c.month_start (c.month_start now.day - 1)) (c.month_start now.day - 1)
              month_le,
        ))
      (λ e. ground (arith, e))
range_of_kind-IsRange c this_year days weekday p now cal known h =
    let (month_le, month_lt, year_le, year_ge) = cal now.day known in
    (
      (refl, refl, year_le, year_ge),
      refl,
      refl,
      whole-IsOrdered (c.year_start now.day) (c.year_end now.day) (omega (arith, year_le, year_ge)),
    )
range_of_kind-IsRange c last_year days weekday p now cal known h =
    choose_by {A = Option ℕ}
      (λ o.
        IsRange c (intent last_year days weekday none) now
          (elim o as (λ _. Option (WallClock × WallClock)) [
            | none ↦ none
            | some last ↦ some (whole_days (c.year_start last) last)
          ]))
      (ltb 1 (c.year_start now.day)) _ _
      (λ lt.
        let (this_le, this_lt, this_year_le, this_year_ge) = cal now.day known in
        let (month_le, month_lt, year_le, year_ge) =
          cal (c.year_start now.day - 1) (omega (arith, this_year_le, known)) in
        (
          (ground (arith, lt), refl, year_le),
          refl,
          refl,
          whole-IsOrdered (c.year_start (c.year_start now.day - 1)) (c.year_start now.day - 1)
              year_le,
        ))
      (λ e. ground (arith, e))
range_of_kind-IsRange c past_days none weekday p now cal known h = cc
range_of_kind-IsRange c past_days (some n) weekday p now cal known h =
    choose_by (λ o. IsRange c (intent past_days (some n) weekday none) now (since o now))
      (ltb (days_or_one (some n)) now.day) _ _
      (λ lt. (
        (ap some (ground (arith, lt, positive)), ground (arith, lt, positive), refl),
        refl,
        refl,
        inl (ground (arith, lt, positive)),
      ))
      (λ e. ground (arith, e, positive))
  where
    positive : 0 < n
    positive = ground (arith, h)
range_of_kind-IsRange c weekday_of days none p now cal known h = cc
range_of_kind-IsRange c weekday_of days (some w) p now cal known h =
    back-IsRange c weekday_of days (some w) now ((weekday_number now.day + 7 - w) % 7) refl
      (λ lt. (ap some (omega (arith, lt, small)), refl, omega (arith, lt), omega (arith, lt)))
      (λ le. omega (arith, le))
  where
    small : w ≤ 6
    small = ground (arith, h)

-- Times of the day that are in order keep a range in order.
at_times-IsOrdered :
    (start end : WallClock) (from to : ℕ)
    → from < to
    → IsOrdered start end
    → IsOrdered (record start { time = from }) (record end { time = to })
at_times-IsOrdered start end from to less (inl before) = inl before
at_times-IsOrdered start end from to less (inr (same, times)) = inr (same, less)

-- A period of the day keeps the days, and the order.
refine_period-IsRange :
    (c : Calendar) (kind : DateKind) (days weekday : Option ℕ) (now : WallClock) (p : Option Period)
    (range : WallClock × WallClock)
    → IsRange c (intent kind days weekday none) now (some range)
    → IsRange c (intent kind days weekday p) now (some (refine_period p range))
refine_period-IsRange c kind days weekday now none range h = h
refine_period-IsRange c kind days weekday now (some full_day) range h = h
refine_period-IsRange c kind days weekday now (some morning) (start, end) (on, _, _, order) =
    (on, refl, refl, at_times-IsOrdered start end (6 * hour) (12 * hour - 1) (omega arith) order)
refine_period-IsRange c kind days weekday now (some afternoon) (start, end) (on, _, _, order) =
    (on, refl, refl, at_times-IsOrdered start end (12 * hour) (18 * hour - 1) (omega arith) order)
refine_period-IsRange c kind days weekday now (some evening) (start, end) (on, _, _, order) =
    (on, refl, refl, at_times-IsOrdered start end (18 * hour) (24 * hour - 1) (omega arith) order)

-- On a day of the calendar, a date range that passed its validation covers the days of its kind,
-- from today on, at the times of its period, and starts before it ends; it raises only where those
-- days would lie before the first one of the calendar, where this week would end after the last one,
-- and for the last month.
pub local_range-IsRange :
    (c : Calendar) (r : DateRangeIntent) (now : WallClock)
    → IsCalendar c
    → now.day ≤ c.last_day
    → validate_date_range r ≡ true
    → IsRange c r now (local_range c r now)
unfolding local_range
local_range-IsRange c r now cal known h =
    go (range_of_kind c r now)
      (range_of_kind-IsRange c r.kind r.days r.weekday r.period now cal known h)
  where
    go :
        (o : Option (WallClock × WallClock))
        → IsRange c (intent r.kind r.days r.weekday none) now o
        → IsRange c r now (elim o as (λ _. Option (WallClock × WallClock)) [
          | none ↦ none
          | some range ↦ some (refine_period r.period range)
        ])
    go none h = h
    go (some range) h = refine_period-IsRange c r.kind r.days r.weekday now r.period range h
