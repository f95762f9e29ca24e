-- ===== src/Examples/Upcoming.antt =====
-- A round of a scheduler with a task for office days and one that is switched off.
use resourcey.Prelude.{
  ◌≡◌, refl, ap, ◌∙◌, subst, true, false, Option, none, some, List, [], ◌∷◌, inl, inr, arith,
}
use resourcey.Failure.{ok}
use resourcey.Text.{
  split, split_aux, strip, strip_left, strip_right, is_blank, is_space, partition, parse_int,
  int_digits, negated, digit, parse_digits, plain_digits, has_prefix, words, words_aux, flush,
}
use resourcey.Tasks.Calendar.{
  Moment, is_leap, days_in_month, days_before_month, ordinal, weekday, month_rank, day_rank,
  hour_rank, rank,
}
use resourcey.Tasks.Cron.{member_of, cron_weekday, day_matches, schedule_matches}
use resourcey.Tasks.Cron.Parse.{
  parse_cron, resolved, fields, range_values, range, in_bounds, parsed_value, named, resolve,
  span_of, fixed_value, bounds_of, stepped_values, with_step, item_of, items_of, parse_field,
}
use resourcey.Tasks.Scheduler.{
  Task, is_seen, duplicates, assert_unique_names, parse_schedules, schedule_get, Scheduler,
  new_scheduler, active, run_round,
}
use resourcey.Tasks.Scheduler.Upcoming.{some-injective}
use resourcey.Tasks.Scheduler.Rounds.{IsReached, IsRound, run_round-IsRound}
use resourcey.Examples.Rows.{plain}
use resourcey.Examples.Scheduling.{friday, monday, friday_valid, monday_valid, both_days}

abbrev report : Task
report = record { name = "report"; schedule = some "30 9,17 1-7 jan-mar mon-fri"; enabled = true }

abbrev switched_off : Task
switched_off = record { name = "sweep"; schedule = none; enabled = false }

abbrev tasks : List Task
tasks = report ∷ switched_off ∷ []

abbrev scheduler : Scheduler
scheduler = record { tasks = tasks; schedules = ("report", both_days) ∷ [] }

made : new_scheduler ⦃c = plain⦄ tasks ≡ ok scheduler
unfolding split split_aux strip strip_left strip_right is_blank is_space partition parse_int
    int_digits negated digit parse_digits plain_digits has_prefix words words_aux flush range_values
    range in_bounds parsed_value named resolve span_of fixed_value bounds_of stepped_values
    with_step item_of items_of parse_field resolved fields parse_cron new_scheduler
    assert_unique_names duplicates is_seen parse_schedules
made = refl

reached : IsReached scheduler friday
unfolding active schedule_get schedule_matches day_matches cron_weekday weekday ordinal
    days_before_month days_in_month is_leap member_of rank hour_rank day_rank month_rank
reached t s (inl same) on = (
  monday,
  monday_valid,
  subst (λ r. schedule_matches r monday ≡ true)
      (some-injective (ap (active scheduler.schedules) same ∙ on)) refl,
  omega arith,
  omega arith,
)
reached t s (inr (inl same)) on = cc (ap (active scheduler.schedules) same, on)
reached t s (inr (inr none_left)) on = absurd none_left

run_round-IsRound_example :
    (r : Option (Moment × List Task)) × (run_round (λ due. due) scheduler friday ≡ ok r)
    × IsRound ⦃c = plain⦄ tasks friday r
run_round-IsRound_example =
    run_round-IsRound ⦃c = plain⦄ tasks friday scheduler (λ due. due) made friday_valid reached
      (λ due. refl)
