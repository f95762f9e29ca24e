-- ===== src/Tasks/Calendar/Order.antt =====
-- The steps of the calendar go forward, and pass over nothing but the unit that they leave.
use native.Mathlib.Decide.{dec_lt}
use resourcey.Prelude.{ℕ, ◌+◌, ◌≤◌, ◌<◌, ◌≡◌, arith, ◌⊎◌, inl, inr, refl}
use resourcey.Tasks.Calendar.{
  Moment, month_rank, day_rank, hour_rank, days_in_month, first_of_next_month, plus_day, plus_hour,
  plus_minute, IsMoment, rank, days_in_month_bounds,
}

abbrev pub next_midnight : Moment → Moment
next_midnight t = record (plus_day t) { hour = 0; minute = 0 }

abbrev pub next_full_hour : Moment → Moment
next_full_hour t = record (plus_hour t) { minute = 0 }

-- A step to a later moment that no moment stands between, but those that share `Same` with `t`.
pub record IsStep (Same : Moment → Moment → Type 0) (t u : Moment) : Type 0 where
  pub valid : IsMoment u
  pub forward : rank t < rank u
  pub skipped : (x : Moment) → IsMoment x → rank t ≤ rank x → rank x < rank u → Same x t

abbrev pub SameMonth : Moment → Moment → Type 0
SameMonth x t = (x.year ≡ t.year) × (x.month ≡ t.month)

abbrev pub SameDay : Moment → Moment → Type 0
SameDay x t = (x.year ≡ t.year) × (x.month ≡ t.month) × (x.day ≡ t.day)

abbrev pub SameHour : Moment → Moment → Type 0
SameHour x t = (x.year ≡ t.year) × (x.month ≡ t.month) × (x.day ≡ t.day) × (x.hour ≡ t.hour)

abbrev pub SameMinute : Moment → Moment → Type 0
SameMinute x t =
    (x.year ≡ t.year)
    × (x.month ≡ t.month)
    × (x.day ≡ t.day)
    × (x.hour ≡ t.hour)
    × (x.minute ≡ t.minute)

module _ (x t : Moment) (w : IsMoment x) (v : IsMoment t) where
  month_rank-injective : month_rank x ≡ month_rank t → SameMonth x t
  unfolding month_rank
  month_rank-injective h = (omega arith, omega arith)

  day_rank-month_rank : day_rank x ≡ day_rank t → month_rank x ≡ month_rank t
  unfolding day_rank
  day_rank-month_rank h =
      omega (arith, days_in_month_bounds t.year t.month, days_in_month_bounds x.year x.month)

  day_rank-injective : day_rank x ≡ day_rank t → SameDay x t
  unfolding day_rank
  day_rank-injective h =
      let same = day_rank-month_rank h in
      let (y, m) = month_rank-injective same in (y, m, omega arith)

  hour_rank-injective : hour_rank x ≡ hour_rank t → SameHour x t
  unfolding hour_rank
  hour_rank-injective h =
      let same : day_rank x ≡ day_rank t = omega arith in
      let (y, m, d) = day_rank-injective same in (y, m, d, omega arith)

  rank-injective : rank x ≡ rank t → SameMinute x t
  unfolding rank
  rank-injective h =
      let same : hour_rank x ≡ hour_rank t = omega arith in
      let (y, m, d, h') = hour_rank-injective same in (y, m, d, h', omega arith)

-- `u` is the next moment after `t` in the order of a unit.
record IsNext (order : Moment → ℕ) (t u : Moment) : Type 0 where
  valid : IsMoment u
  later : order t < order u
  gap : (x : Moment) → IsMoment x → order t < order x → order u ≤ order x

module _ {t u : Moment} (v : IsMoment t) where
  minute-IsStep : IsNext rank t u → IsStep SameMinute t u
  minute-IsStep n = record {
    valid = n.valid;
    forward = n.later;
    skipped = λ x k lo hi. rank-injective x t k v (grind (arith, n.gap x k));
  }

  hour-IsStep : IsNext hour_rank t u → u.minute ≡ 0 → IsStep SameHour t u
  unfolding rank
  hour-IsStep n z = record {
    valid = n.valid;
    forward = grind (arith, n.later, v.minute_high);
    skipped = λ x k lo hi.
        hour_rank-injective x t k v (grind (arith, n.gap x k, k.minute_high, v.minute_high));
  }

  day-IsStep : IsNext day_rank t u → u.hour ≡ 0 → u.minute ≡ 0 → IsStep SameDay t u
  unfolding rank hour_rank
  day-IsStep n z z' = record {
    valid = n.valid;
    forward = grind (arith, n.later);
    skipped = λ x k lo hi. day_rank-injective x t k v (grind (arith, n.gap x k));
  }

  month-IsStep :
      IsNext month_rank t u → u.day ≡ 1 → u.hour ≡ 0 → u.minute ≡ 0 → IsStep SameMonth t u
  unfolding rank hour_rank day_rank
  month-IsStep n d z z' = record {
    valid = n.valid;
    forward = grind (arith, n.later, days_in_month_bounds t.year t.month);
    skipped = λ x k lo hi. month_rank-injective x t k v (
        grind (
          arith,
          n.gap x k,
          days_in_month_bounds t.year t.month,
          days_in_month_bounds x.year x.month,
        ));
  }

module _ (t : Moment) (v : IsMoment t) where
  first_of_next_month-IsNext : IsNext month_rank t (first_of_next_month t)
  unfolding first_of_next_month month_rank
  first_of_next_month-IsNext = record {
    valid =
        ground
          (arith, days_in_month_bounds t.year (t.month + 1), days_in_month_bounds (t.year + 1) 1);
    later = ground arith;
    gap = λ x k h. ground arith;
  }

  -- After the last day of a month comes another month.
  last_day :
      (x : Moment)
      → IsMoment x
      → days_in_month t.year t.month ≤ t.day
      → day_rank t < day_rank x
      → month_rank t < month_rank x
  unfolding day_rank
  last_day x k last h = elim (dec_lt (month_rank t) (month_rank x)) [
    | yes later ↦ later
    | no early ↦
        let same : month_rank x ≡ month_rank t =
          omega (arith, days_in_month_bounds t.year t.month, days_in_month_bounds x.year x.month) in
        let (y, m) = month_rank-injective x t k v same in
        let days : days_in_month x.year x.month ≡ days_in_month t.year t.month = cc in
        absurd (omega arith)
  ]

  next_midnight-cases :
      ((t.day < days_in_month t.year t.month)
        × (next_midnight t ≡ record t { day = t.day + 1; hour = 0; minute = 0 }))
      ⊎ ((days_in_month t.year t.month ≤ t.day) × (next_midnight t ≡ first_of_next_month t))
  unfolding plus_day first_of_next_month
  next_midnight-cases = ground arith

  within_month-IsNext :
      t.day < days_in_month t.year t.month
      → IsNext day_rank t (record t { day = t.day + 1; hour = 0; minute = 0 })
  unfolding day_rank month_rank
  within_month-IsNext h = record {
    valid = omega arith;
    later = omega arith;
    gap = λ x k later. omega arith;
  }

  over_month-IsNext :
      days_in_month t.year t.month ≤ t.day → IsNext day_rank t (first_of_next_month t)
  unfolding day_rank
  over_month-IsNext h =
      let n = first_of_next_month-IsNext in
      let first : (first_of_next_month t).day ≡ 1 = unfold first_of_next_month in ground arith in
      record {
        valid = n.valid;
        later = grind (arith, n.later, days_in_month_bounds t.year t.month);
        gap = λ x k later. grind (arith, n.gap x k (last_day x k h later));
      }

  next_midnight-IsNext : IsNext day_rank t (next_midnight t)
  next_midnight-IsNext = elim next_midnight-cases [
    | inl (h, e) ↦ rw e (within_month-IsNext h)
    | inr (h, e) ↦ rw e (over_month-IsNext h)
  ]

  next_full_hour-cases :
      ((t.hour < 23) × (next_full_hour t ≡ record t { hour = t.hour + 1; minute = 0 }))
      ⊎ ((t.hour ≡ 23) × (next_full_hour t ≡ next_midnight t))
  unfolding plus_hour
  next_full_hour-cases = ground arith

  within_day-IsNext : t.hour < 23 → IsNext hour_rank t (record t { hour = t.hour + 1; minute = 0 })
  unfolding hour_rank day_rank month_rank
  within_day-IsNext h = record {
    valid = omega arith;
    later = omega arith;
    gap = λ x k later. omega arith;
  }

  over_day-IsNext : t.hour ≡ 23 → IsNext hour_rank t (next_midnight t)
  unfolding hour_rank
  over_day-IsNext h =
      let n = next_midnight-IsNext in
      record {
        valid = n.valid;
        later = grind (arith, n.later);
        gap = λ x k later. grind (arith, n.gap x k);
      }

  next_full_hour-IsNext : IsNext hour_rank t (next_full_hour t)
  next_full_hour-IsNext = elim next_full_hour-cases [
    | inl (h, e) ↦ rw e (within_day-IsNext h)
    | inr (h, e) ↦ rw e (over_day-IsNext h)
  ]

  plus_minute-cases :
      ((t.minute < 59) × (plus_minute t ≡ record t { minute = t.minute + 1 }))
      ⊎ ((t.minute ≡ 59) × (plus_minute t ≡ next_full_hour t))
  unfolding plus_minute
  plus_minute-cases = ground arith

  within_hour-IsNext : t.minute < 59 → IsNext rank t (record t { minute = t.minute + 1 })
  unfolding rank hour_rank day_rank month_rank
  within_hour-IsNext h = record {
    valid = omega arith;
    later = omega arith;
    gap = λ x k later. omega arith;
  }

  over_hour-IsNext : t.minute ≡ 59 → IsNext rank t (next_full_hour t)
  unfolding rank
  over_hour-IsNext h =
      let n = next_full_hour-IsNext in
      record {
        valid = n.valid;
        later = grind (arith, n.later);
        gap = λ x k later. grind (arith, n.gap x k);
      }

  plus_minute-IsNext : IsNext rank t (plus_minute t)
  plus_minute-IsNext = elim plus_minute-cases [
    | inl (h, e) ↦ rw e (within_hour-IsNext h)
    | inr (h, e) ↦ rw e (over_hour-IsNext h)
  ]

  -- The steps that the search for the next fire takes.
  pub first_of_next_month-IsStep : IsStep SameMonth t (first_of_next_month t)
  unfolding first_of_next_month
  first_of_next_month-IsStep =
      month-IsStep v first_of_next_month-IsNext (ground arith) (ground arith) (ground arith)

  pub next_midnight-IsStep : IsStep SameDay t (next_midnight t)
  next_midnight-IsStep = day-IsStep v next_midnight-IsNext refl refl

  pub next_full_hour-IsStep : IsStep SameHour t (next_full_hour t)
  next_full_hour-IsStep = hour-IsStep v next_full_hour-IsNext refl

  pub plus_minute-IsStep : IsStep SameMinute t (plus_minute t)
  plus_minute-IsStep = minute-IsStep v plus_minute-IsNext

  pub plus_minute_gap : (x : Moment) → IsMoment x → rank t < rank x → rank (plus_minute t) ≤ rank x
  plus_minute_gap x k h = plus_minute-IsNext.gap x k h
