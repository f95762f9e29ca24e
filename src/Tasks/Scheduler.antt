-- ===== src/Tasks/Scheduler.antt =====
-- resourcey/tasks/scheduler.py and task.py: the tasks that the scheduler starts, and one round of its
-- loop. The clock that the loop reads after its sleep is a parameter.
pub mod Schedules
pub mod Upcoming
pub mod Rounds
use resourcey.Prelude.{
  String, Bool, true, false, Option, none, some, List, [], ◌∷◌, keep, ltb, str_eq, if◌then◌else◌,
}
use resourcey.Failure.{Result, ok, err, value_error, key_error, ◌>>=◌}
use resourcey.Filter.{Casing}
use resourcey.Tasks.Calendar.{Moment, rank}
use resourcey.Tasks.Cron.{CronSchedule, schedule_matches, next_fire}
use resourcey.Tasks.Cron.Parse.{parse_cron}

-- A task as the scheduler reads it.
pub record Task : Type 0 where
  pub name : String
  pub schedule : Option String
  pub enabled : Bool

unfoldable pub is_seen : String → List String → Bool
is_seen n [] = false
is_seen n (m ∷ ms) = if str_eq m n then true else is_seen n ms

unfoldable pub duplicates : List String → List Task → List String
unfolding is_seen
duplicates seen [] = []
duplicates seen (t ∷ ts) =
    let rest = duplicates (t.name ∷ seen) ts in if is_seen t.name seen then t.name ∷ rest else rest

unfoldable pub assert_unique_names : List Task → Result {0} Unit
unfolding duplicates
assert_unique_names tasks = elim (duplicates [] tasks) [ [] ↦ ok tt | n ∷ ns ↦ err value_error ]

-- A schedule that is missing or empty is none.
abbrev pub active_text : Option String → Option String
active_text none = none
active_text (some text) = if str_eq text "" then none else some text

-- The dictionary of the parsed schedules by name.
abbrev pub Schedules : Type 0
Schedules = List (String × CronSchedule)

-- `get`; of two entries with one name a dictionary holds the later.
unfoldable pub schedule_get : String → Schedules → Option CronSchedule
schedule_get n [] = none
schedule_get n ((k, s) ∷ rest) = elim (schedule_get n rest) [
  | some s' ↦ some s'
  | none ↦ if str_eq k n then some s else none
]

pub record Scheduler : Type 0 where
  pub tasks : List Task
  pub schedules : Schedules

module _ ⦃c : Casing⦄ where
  unfoldable pub parse_schedules : List Task → Result Schedules
  unfolding parse_cron
  parse_schedules [] = ok []
  parse_schedules (t ∷ ts) = elim (active_text t.schedule) [
    | none ↦ parse_schedules ts
    | some text ↦ parse_cron text >>= λ s. parse_schedules ts >>= λ rest. ok ((t.name, s) ∷ rest)
  ]

  -- `BackgroundTaskScheduler(tasks)`.
  unfoldable pub new_scheduler : List Task → Result Scheduler
  unfolding assert_unique_names parse_schedules
  new_scheduler tasks = do
    unique ← assert_unique_names tasks
    schedules ← parse_schedules tasks
    ok (record { tasks = tasks; schedules = schedules })

unfoldable pub named_task : String → List Task → Result Task
named_task n [] = err key_error
named_task n (t ∷ ts) = elim (named_task n ts) [
  | ok u ↦ ok u
  | err e ↦ if str_eq t.name n then ok t else err e
]

-- `get_task`.
unfoldable pub get_task : Scheduler → String → Result Task
unfolding named_task
get_task s n = named_task n s.tasks

-- The targets of `run_once`: the named task even if it is disabled, or every enabled one.
unfoldable pub run_once_targets : Scheduler → Option String → Result (List Task)
unfolding get_task
run_once_targets s none = ok (keep (λ t. t.enabled) s.tasks)
run_once_targets s (some n) = get_task s n >>= λ t. ok (t ∷ [])

-- The schedule of a task that is enabled and has one.
unfoldable pub active : Schedules → Task → Option CronSchedule
unfolding schedule_get
active schedules t = if t.enabled then schedule_get t.name schedules else none

unfoldable pub upcoming_of : Schedules → Moment → List Task → Result (List (Moment × Task))
unfolding active next_fire
upcoming_of schedules now [] = ok []
upcoming_of schedules now (t ∷ ts) = elim (active schedules t) [
  | none ↦ upcoming_of schedules now ts
  | some s ↦ next_fire s now >>= λ at. upcoming_of schedules now ts >>= λ rest. ok ((at, t) ∷ rest)
]

-- `_upcoming`.
unfoldable pub upcoming : Scheduler → Moment → Result (List (Moment × Task))
unfolding upcoming_of
upcoming s now = upcoming_of s.schedules now s.tasks

abbrev pub matched : Option CronSchedule → Moment → Bool
matched none fired = false
matched (some s) fired = schedule_matches s fired

unfoldable pub fires_at : Schedules → Moment → Task → Bool
unfolding active
fires_at schedules fired t = matched (active schedules t) fired

-- The tasks that `tick` starts. A moment counts minutes, so its seconds are gone.
unfoldable pub tick : Scheduler → Moment → List Task
unfolding fires_at
tick s now = keep (fires_at s.schedules now) s.tasks

-- `min` of the moments, the first of which is given; moments compare by their rank.
abbrev pub sooner : Moment → Moment → Moment
sooner at other = if ltb (rank other) (rank at) then other else at

unfoldable pub earliest : Moment → List (Moment × Task) → Moment
earliest at [] = at
earliest at ((other, t) ∷ rest) = earliest (sooner at other) rest

-- A round of `_run_loop`: `none` where it ends, or the moment that it sleeps until and the tasks that
-- it then starts. `woke` is the time at which a sleep until a moment ends.
unfoldable pub run_round :
    (Moment → Moment) → Scheduler → Moment → Result (Option (Moment × List Task))
unfolding upcoming earliest tick
run_round woke s now = upcoming s now >>= λ us. elim us [
  | [] ↦ ok none
  | u ∷ rest ↦ ok (some (earliest u.0 rest, tick s (woke (earliest u.0 rest))))
]
