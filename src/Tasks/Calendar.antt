-- ===== src/Tasks/Calendar.antt =====
-- The part of Python's `datetime` that resourcey/tasks/cron.py computes with: wall-clock moments in
-- one time zone, to the minute, and their order. The year has no upper limit here.
pub mod Order
use resourcey.Prelude.{
  ℕ, zero, suc, ◌+◌, ◌-◌, ◌*◌, ◌/◌, ◌%◌, ◌≤◌, ◌<◌, ◌≡◌, Bool, true, false, not, ◌&&◌, ◌||◌, ltb,
  leb, ◌==◌, if◌then◌else◌, arith, Bool-cases, inl, inr, ◌⊎◌, refl,
}

pub record Moment : Type 0 where
  pub year : ℕ
  pub month : ℕ
  pub day : ℕ
  pub hour : ℕ
  pub minute : ℕ

unfoldable pub is_leap : ℕ → Bool
is_leap y = y % 4 == 0 && (not (y % 100 == 0) || y % 400 == 0)

unfoldable pub days_in_month : ℕ → ℕ → ℕ
unfolding is_leap
days_in_month y m =
    if m == 2
    then (if is_leap y then 29 else 28)
    else if m == 4 || m == 6 || m == 9 || m == 11
    then 30
    else 31

-- Days in the months of a year before the given one.
unfoldable pub days_before_month : ℕ → ℕ → ℕ
unfolding days_in_month
days_before_month y zero = 0
days_before_month y (suc zero) = 0
days_before_month y (suc (suc m)) = days_before_month y (suc m) + days_in_month y (suc m)

-- `date.toordinal`: 1 January of year 1 is day 1, a Monday.
unfoldable pub ordinal : Moment → ℕ
unfolding days_before_month
ordinal t =
    let y = t.year - 1 in
    y * 365 + y / 4 - y / 100 + y / 400 + days_before_month t.year t.month + t.day

-- `datetime.weekday`, Monday is 0.
unfoldable pub weekday : Moment → ℕ
unfolding ordinal
weekday t = (ordinal t + 6) % 7

unfoldable pub first_of_next_month : Moment → Moment
first_of_next_month t =
    if t.month == 12
    then record { year = t.year + 1; month = 1; day = 1; hour = 0; minute = 0 }
    else record { year = t.year; month = t.month + 1; day = 1; hour = 0; minute = 0 }

-- `timedelta(days=1)`, `timedelta(hours=1)` and `timedelta(minutes=1)` added to a moment.
unfoldable pub plus_day : Moment → Moment
unfolding first_of_next_month days_in_month
plus_day t =
    if ltb t.day (days_in_month t.year t.month)
    then record t { day = t.day + 1 }
    else record (first_of_next_month t) { hour = t.hour; minute = t.minute }

unfoldable pub plus_hour : Moment → Moment
unfolding plus_day
plus_hour t =
    if ltb t.hour 23 then record t { hour = t.hour + 1 } else record (plus_day t) { hour = 0 }

unfoldable pub plus_minute : Moment → Moment
unfolding plus_hour
plus_minute t =
    if ltb t.minute 59
    then record t { minute = t.minute + 1 }
    else record (plus_hour t) { minute = 0 }

pub record IsMoment (t : Moment) : Type 0 where
  pub month_low : 1 ≤ t.month
  pub month_high : t.month ≤ 12
  pub day_low : 1 ≤ t.day
  pub day_high : t.day ≤ days_in_month t.year t.month
  pub hour_high : t.hour < 24
  pub minute_high : t.minute < 60

-- Numbers that order the months, the days, the hours and the minutes: every month is given 31 days.
unfoldable pub month_rank : Moment → ℕ
month_rank t = t.year * 12 + (t.month - 1)

unfoldable pub day_rank : Moment → ℕ
day_rank t = month_rank t * 31 + (t.day - 1)

unfoldable pub hour_rank : Moment → ℕ
hour_rank t = day_rank t * 24 + t.hour

unfoldable pub rank : Moment → ℕ
rank t = hour_rank t * 60 + t.minute

pub days_in_month_bounds : (y m : ℕ) → (28 ≤ days_in_month y m) × (days_in_month y m ≤ 31)
unfolding days_in_month
days_in_month_bounds y m = ground arith
