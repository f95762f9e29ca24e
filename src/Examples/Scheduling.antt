-- ===== src/Examples/Scheduling.antt =====
-- The schedule theorems at a weekday morning.
use resourcey.Prelude.{ℕ, true, false, List, [], ◌∷◌, ◌≡◌, ◌<◌, refl, arith}
use resourcey.Failure.{ok}
use resourcey.Text.{
  split, split_aux, strip, strip_left, strip_right, is_blank, is_space, partition, parse_int,
  int_digits, negated, digit, parse_digits, plain_digits, has_prefix, words, words_aux, flush,
}
use resourcey.Tasks.Calendar.{
  Moment, IsMoment, is_leap, days_in_month, days_before_month, ordinal, weekday,
  first_of_next_month, plus_day, plus_hour, plus_minute, month_rank, day_rank, hour_rank, rank,
}
use resourcey.Tasks.Cron.{
  CronSchedule, member_of, cron_weekday, day_matches, schedule_matches, next_candidate, seek,
  next_fire,
}
use resourcey.Tasks.Cron.Next.{IsFirst, next_fire-IsFirst, next_fire_total}
use resourcey.Tasks.Cron.Parse.{
  parse_cron, resolved, fields, range_values, range, in_bounds, parsed_value, named, resolve,
  span_of, fixed_value, bounds_of, stepped_values, with_step, item_of, items_of, parse_field,
}
use resourcey.Tasks.Cron.Parse.Bounds.{parse_cron-IsSchedule, IsSchedule}
use resourcey.Examples.Rows.{plain}

-- At 9:30 and 17:30 from Monday to Friday.
abbrev pub office : CronSchedule
office = record {
  minutes = 30 ∷ [];
  hours = 9 ∷ 17 ∷ [];
  days = 1 ∷ 2 ∷ 3 ∷ 4 ∷ 5 ∷ 6 ∷ 7 ∷ [];
  months = 1 ∷ 2 ∷ 3 ∷ [];
  weekdays = 1 ∷ 2 ∷ 3 ∷ 4 ∷ 5 ∷ [];
  day_restricted = false;
  weekday_restricted = true;
}

-- Friday, 5 January 2024, and the Monday after it.
abbrev pub friday : Moment
friday = record { year = 2024; month = 1; day = 5; hour = 17; minute = 30 }

abbrev pub monday : Moment
monday = record { year = 2024; month = 1; day = 8; hour = 9; minute = 30 }

pub friday_valid : IsMoment friday
unfolding days_in_month is_leap
friday_valid = record {
  month_low = omega arith;
  month_high = omega arith;
  day_low = omega arith;
  day_high = omega arith;
  hour_high = omega arith;
  minute_high = omega arith;
}

pub monday_valid : IsMoment monday
unfolding days_in_month is_leap
monday_valid = record {
  month_low = omega arith;
  month_high = omega arith;
  day_low = omega arith;
  day_high = omega arith;
  hour_high = omega arith;
  minute_high = omega arith;
}

next_fire-IsFirst_example :
    IsFirst office (plus_minute friday) monday
    × (rank friday < rank monday)
    × ((x : Moment)
        → IsMoment x
        → rank friday < rank x
        → rank x < rank monday
        → schedule_matches office x ≡ false)
unfolding next_fire seek next_candidate day_matches cron_weekday weekday ordinal days_before_month
    days_in_month is_leap first_of_next_month plus_day plus_hour plus_minute member_of
next_fire-IsFirst_example = next_fire-IsFirst office friday monday friday_valid refl

next_fire_total_example : (r : Moment) × (next_fire office friday ≡ ok r)
unfolding schedule_matches day_matches cron_weekday weekday ordinal days_before_month days_in_month
    is_leap member_of rank hour_rank day_rank month_rank
next_fire_total_example =
    next_fire_total office friday monday friday_valid monday_valid refl (omega arith) (omega arith)

abbrev working_hours : List ℕ
working_hours = 9 ∷ 11 ∷ 13 ∷ 15 ∷ 17 ∷ []

-- "30 9,17 1-7 jan-mar mon-fri", whose day of the month is restricted as well.
abbrev pub both_days : CronSchedule
both_days = record office { day_restricted = true }

parse_cron-IsSchedule_example : IsSchedule both_days
unfolding split split_aux strip strip_left strip_right is_blank is_space partition parse_int
    int_digits negated digit parse_digits plain_digits has_prefix words words_aux flush range_values
    range in_bounds parsed_value named resolve span_of fixed_value bounds_of stepped_values
    with_step item_of items_of parse_field resolved fields parse_cron
parse_cron-IsSchedule_example =
    parse_cron-IsSchedule ⦃c = plain⦄ "30 9,17 1-7 jan-mar mon-fri" both_days refl
