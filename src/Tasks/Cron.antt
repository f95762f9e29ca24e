-- ===== src/Tasks/Cron.antt =====
-- resourcey/tasks/cron.py: schedules, what they match, and the search for the next fire.
pub mod Next
pub mod Parse
use Prim.Native.Nat.{◌^◌}
use resourcey.Prelude.{
  ℕ, zero, suc, ◌+◌, ◌%◌, Bool, true, false, not, ◌&&◌, ◌||◌, Option, none, some, List, [], ◌∷◌,
  ◌==◌, if◌then◌else◌,
}
use resourcey.Failure.{Result, ok, err, value_error}
use resourcey.Tasks.Calendar.{
  Moment, weekday, first_of_next_month, plus_day, plus_hour, plus_minute,
}

-- `CronSchedule`; a `frozenset` is the list of its members.
pub record CronSchedule : Type 0 where
  pub minutes : List ℕ
  pub hours : List ℕ
  pub days : List ℕ
  pub months : List ℕ
  pub weekdays : List ℕ
  pub day_restricted : Bool
  pub weekday_restricted : Bool

unfoldable pub member_of : ℕ → List ℕ → Bool
member_of n [] = false
member_of n (m ∷ ms) = n == m || member_of n ms

unfoldable pub cron_weekday : Moment → ℕ
cron_weekday t = (weekday t + 1) % 7

unfoldable pub day_matches : CronSchedule → Moment → Bool
unfolding cron_weekday
day_matches s t =
    let dom_ok = member_of t.day s.days in
    let dow_ok = member_of (cron_weekday t) s.weekdays in
    if s.day_restricted && s.weekday_restricted
    then dom_ok || dow_ok
    else if s.day_restricted
    then dom_ok
    else if s.weekday_restricted
    then dow_ok
    else true

unfoldable pub schedule_matches : CronSchedule → Moment → Bool
schedule_matches s t =
    if not (member_of t.minute s.minutes)
    then false
    else if not (member_of t.hour s.hours)
    then false
    else if not (member_of t.month s.months)
    then false
    else day_matches s t

-- One round of the search: the next candidate, or `none` where the candidate is the answer.
unfoldable pub next_candidate : CronSchedule → Moment → Option Moment
next_candidate s c =
    if not (member_of c.month s.months)
    then some (first_of_next_month c)
    else if not (day_matches s c)
    then some (record (plus_day c) { hour = 0; minute = 0 })
    else if not (member_of c.hour s.hours)
    then some (record (plus_hour c) { minute = 0 })
    else if not (member_of c.minute s.minutes)
    then some (plus_minute c)
    else none

unfoldable pub seek : ℕ → CronSchedule → Moment → Result Moment
unfolding next_candidate
seek zero s c = err value_error
seek (suc n) s c = elim (next_candidate s c) [ none ↦ ok c | some c' ↦ seek n s c' ]

abbrev pub max_iterations : ℕ
max_iterations = 200000

-- `next_fire`: `after` to the minute, since the seconds are dropped from the first candidate.
unfoldable pub next_fire : CronSchedule → Moment → Result Moment
unfolding seek
next_fire s after = seek max_iterations s (plus_minute after)
