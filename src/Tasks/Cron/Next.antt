-- ===== src/Tasks/Cron/Next.antt =====
-- The search of resourcey/tasks/cron.py finds the first minute after its start that the schedule
-- matches, and finds it within its bound of rounds unless it is far away.
use mathlib.Core.Bool.{false≢true}
use native.Mathlib.Decide.{dec_lt}
use resourcey.Prelude.{
  ℕ, zero, suc, ◌+◌, ◌≤◌, ◌<◌, ◌≡◌, sym, true, false, none, some, arith, Option-cases, Bool-cases,
  inl, inr, ◌∙◌,
}
use resourcey.Failure.{ok}
use resourcey.Tasks.Calendar.{Moment, IsMoment, rank, weekday, first_of_next_month, plus_minute}
use resourcey.Tasks.Calendar.Order.{
  IsStep, SameMonth, SameDay, SameHour, SameMinute, first_of_next_month-IsStep,
  next_midnight-IsStep, next_full_hour-IsStep, plus_minute-IsStep, next_midnight, next_full_hour,
  plus_minute_gap,
}
use resourcey.Tasks.Cron.{
  CronSchedule, member_of, day_matches, schedule_matches, next_candidate, seek, max_iterations,
  next_fire,
}

-- The day rule reads nothing of a moment but its date.
day_matches-SameDay :
    (s : CronSchedule) (x t : Moment) → SameDay x t → day_matches s x ≡ day_matches s t
unfolding day_matches weekday
day_matches-SameDay s x t (y, m, d) = simp (y, m, d)

-- A round moves forward, and no moment that the schedule matches stands before the new candidate.
record IsAdvance (s : CronSchedule) (c c' : Moment) : Type 0 where
  valid : IsMoment c'
  forward : rank c < rank c'
  passed :
      (x : Moment) → IsMoment x → rank c ≤ rank x → rank x < rank c' → schedule_matches s x ≡ false

IsStep-IsAdvance :
    (s : CronSchedule) (c c' : Moment) {Same : Moment → Moment → Type 0}
    → IsStep Same c c'
    → ((x : Moment) → Same x c → schedule_matches s x ≡ false)
    → IsAdvance s c c'
IsStep-IsAdvance s c c' st excluded = record {
  valid = st.valid;
  forward = st.forward;
  passed = λ x w lo hi. excluded x (st.skipped x w lo hi);
}

module _ (s : CronSchedule) (x c : Moment) where
  month_excluded : member_of c.month s.months ≡ false → SameMonth x c → schedule_matches s x ≡ false
  unfolding schedule_matches
  month_excluded e (y, m) = ground arith

  day_excluded : day_matches s c ≡ false → SameDay x c → schedule_matches s x ≡ false
  unfolding schedule_matches
  day_excluded e same = ground (arith, day_matches-SameDay s x c same)

  hour_excluded : member_of c.hour s.hours ≡ false → SameHour x c → schedule_matches s x ≡ false
  unfolding schedule_matches
  hour_excluded e (y, m, d, h) = ground arith

  minute_excluded :
      member_of c.minute s.minutes ≡ false → SameMinute x c → schedule_matches s x ≡ false
  unfolding schedule_matches
  minute_excluded e (y, m, d, h, n) = ground arith

next_candidate-IsAdvance :
    (s : CronSchedule) (c : Moment)
    → IsMoment c
    → (c' : Moment) → next_candidate s c ≡ some c'
    → IsAdvance s c c'
unfolding next_candidate
next_candidate-IsAdvance s c v c' h = elim (Bool-cases (member_of c.month s.months)) [
  | inr e ↦
      let same : first_of_next_month c ≡ c' = ground arith in
      rw (← same)
        (IsStep-IsAdvance s c _ (first_of_next_month-IsStep c v) (λ x k. month_excluded s x c e k))
  | inl m ↦ elim (Bool-cases (day_matches s c)) [
    | inr e ↦
        let same : next_midnight c ≡ c' = ground arith in
        rw (← same)
          (IsStep-IsAdvance s c _ (next_midnight-IsStep c v) (λ x k. day_excluded s x c e k))
    | inl d ↦ elim (Bool-cases (member_of c.hour s.hours)) [
      | inr e ↦
          let same : next_full_hour c ≡ c' = ground arith in
          rw (← same)
            (IsStep-IsAdvance s c _ (next_full_hour-IsStep c v) (λ x k. hour_excluded s x c e k))
      | inl o ↦
          let e : member_of c.minute s.minutes ≡ false = ground arith in
          let same : plus_minute c ≡ c' = ground arith in
          rw (← same)
            (IsStep-IsAdvance s c _ (plus_minute-IsStep c v) (λ x k. minute_excluded s x c e k))
    ]
  ]
]

next_candidate-none :
    (s : CronSchedule) (c : Moment) → next_candidate s c ≡ none → schedule_matches s c ≡ true
unfolding next_candidate schedule_matches
next_candidate-none s c h = ground arith

-- The moment found: a match, and no earlier one from the start on.
pub record IsFirst (s : CronSchedule) (start found : Moment) : Type 0 where
  pub valid : IsMoment found
  pub from_start : rank start ≤ rank found
  pub matched : schedule_matches s found ≡ true
  pub first :
      (x : Moment)
      → IsMoment x
      → rank start ≤ rank x
      → rank x < rank found
      → schedule_matches s x ≡ false

IsAdvance-IsFirst :
    (s : CronSchedule) (c c' r : Moment) → IsAdvance s c c' → IsFirst s c' r → IsFirst s c r
IsAdvance-IsFirst s c c' r a f = record {
  valid = f.valid;
  from_start = grind (arith, a.forward, f.from_start);
  matched = f.matched;
  first = λ x w lo hi. elim (dec_lt (rank x) (rank c')) [
    | yes early ↦ a.passed x w lo early
    | no late ↦ f.first x w (omega arith) hi
  ];
}

seek-IsFirst :
    (n : ℕ) (s : CronSchedule) (c r : Moment) → IsMoment c → seek n s c ≡ ok r → IsFirst s c r
unfolding seek
seek-IsFirst zero s c r v h = cc
seek-IsFirst (suc n) s c r v h = elim (Option-cases (next_candidate s c)) [
  | inl e ↦
      let same : c ≡ r = ground arith in
      rw (← same) (record {
        valid = v;
        from_start = omega arith;
        matched = next_candidate-none s c e;
        first = λ x w lo hi. absurd (omega arith);
      })
  | inr (c', e) ↦
      let a = next_candidate-IsAdvance s c v c' e in
      IsAdvance-IsFirst s c c' r a (seek-IsFirst n s c' r a.valid (ground arith))
]

-- A match fewer ranks away than there are rounds is found.
seek_total :
    (n : ℕ) (s : CronSchedule) (c x : Moment)
    → IsMoment c
    → IsMoment x
    → schedule_matches s x ≡ true
    → rank c ≤ rank x
    → rank x < rank c + n
    → (r : Moment) × (seek n s c ≡ ok r)
unfolding seek
seek_total zero s c x v w m lo hi = absurd (omega arith)
seek_total (suc n) s c x v w m lo hi = elim (Option-cases (next_candidate s c)) [
  | inl e ↦ (c, ground arith)
  | inr (c', e) ↦
      let a = next_candidate-IsAdvance s c v c' e in
      let ahead : rank c' ≤ rank x = elim (dec_lt (rank x) (rank c')) [
        | yes early ↦ absurd (false≢true (sym (a.passed x w lo early) ∙ m))
        | no late ↦ omega arith
      ] in
      let (r, found) = seek_total n s c' x a.valid w m ahead (grind (arith, a.forward)) in
      (r, ground arith)
]

-- What `next_fire` returns is a valid moment strictly after its argument that the schedule
-- matches, and no moment strictly between them is matched.
pub next_fire-IsFirst :
    (s : CronSchedule) (after r : Moment)
    → IsMoment after
    → next_fire s after ≡ ok r
    → IsFirst s (plus_minute after) r
      × (rank after < rank r)
      × ((x : Moment)
          → IsMoment x
          → rank after < rank x
          → rank x < rank r
          → schedule_matches s x ≡ false)
unfolding next_fire
next_fire-IsFirst s after r v h =
    let st = plus_minute-IsStep after v in
    let f = seek-IsFirst max_iterations s (plus_minute after) r st.valid h in
    (
      f,
      grind (arith, st.forward, f.from_start),
      λ x w lo hi. f.first x w (plus_minute_gap after v x w lo) hi,
    )

-- `next_fire` succeeds whenever the schedule matches some moment after its argument that is fewer
-- than 200,000 ranks away.
pub next_fire_total :
    (s : CronSchedule) (after x : Moment)
    → IsMoment after
    → IsMoment x
    → schedule_matches s x ≡ true
    → rank after < rank x
    → rank x < rank after + max_iterations
    → (r : Moment) × (next_fire s after ≡ ok r)
unfolding next_fire
next_fire_total s after x v w m lo hi =
    let st = plus_minute-IsStep after v in
    seek_total max_iterations s (plus_minute after) x st.valid w m (plus_minute_gap after v x w lo)
      (grind (arith, st.forward))
