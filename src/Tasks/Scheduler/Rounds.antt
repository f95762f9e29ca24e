-- ===== src/Tasks/Scheduler/Rounds.antt =====
-- A round of the scheduler's loop (resourcey/tasks/scheduler.py): it sleeps until a fire, before which
-- there is none, and then starts the tasks that are due.
use resourcey.Prelude.{
  ◌≤◌, ◌<◌, ◌≡◌, refl, sym, ap, ap₂, ◌∙◌, ◌+◌, subst, Bool, true, false, Option, none, some, List,
  [], ◌∷◌, Has, Has-keep, keep, Option-cases, inl, inr, arith, if◌then◌else◌,
}
use resourcey.Failure.{ok}
use resourcey.Filter.{Casing}
use resourcey.Tasks.Calendar.{Moment, IsMoment, rank}
use resourcey.Tasks.Cron.{CronSchedule, schedule_matches, next_fire, max_iterations}
use resourcey.Tasks.Cron.Next.{next_fire-IsFirst, next_fire_total}
use resourcey.Tasks.Scheduler.{
  Task, Scheduler, new_scheduler, active, fires_at, upcoming_of, upcoming, tick, earliest,
  run_round, matched,
}
use resourcey.Tasks.Scheduler.Schedules.{fires, new_scheduler-fires}
use resourcey.Tasks.Scheduler.Upcoming.{
  earliest-least, earliest-Has, upcoming_of-IsNext, Has-upcoming_of,
}

keep-agree :
    {A : Type 0} (p q : A → Bool) (xs : List A)
    → ((a : A) → Has a xs → p a ≡ q a)
    → keep p xs ≡ keep q xs
keep-agree p q [] same = refl
keep-agree p q (x ∷ xs) same =
    ap₂ (λ b ys. if b then x ∷ ys else ys) (same x (inl refl))
      (keep-agree p q xs (λ a member. same a (inr member)))

module _ (scheduler : Scheduler) (now : Moment) where
  -- Each active schedule matches a moment that the search for the next fire reaches.
  abbrev pub IsReached : Type 0
  IsReached =
      (t : Task) (s : CronSchedule)
      → Has t scheduler.tasks
      → active scheduler.schedules t ≡ some s
      → (x : Moment) × IsMoment x
        × (schedule_matches s x ≡ true)
        × (rank now < rank x)
        × (rank x < rank now + max_iterations)

  upcoming_of-total :
      IsMoment now
      → IsReached
      → (ts : List Task) → ((t : Task) → Has t ts → Has t scheduler.tasks)
      → (us : List (Moment × Task)) × (upcoming_of scheduler.schedules now ts ≡ ok us)
  unfolding upcoming_of
  upcoming_of-total valid reached [] inside = ([], refl)
  upcoming_of-total valid reached (t ∷ ts) inside =
      (let (us, e) = upcoming_of-total valid reached ts (λ u member. inside u (inr member)) in
        elim (Option-cases (active scheduler.schedules t)) [
          | inl h ↦ (us, rw (upcoming_of, h) e)
          | inr (s, h) ↦
              (let (x, is_moment, matched', later, near) = reached t s (inside t (inl refl)) h in
                let (at, found) = next_fire_total s now x valid is_moment matched' later near in
                ((at, t) ∷ us, rw (upcoming_of, h) (rw (found, e) refl)))
        ])

  -- An active task does not fire strictly between now and its next fire.
  idle_until :
      (t : Task) (s : CronSchedule) (at x : Moment)
      → IsMoment now
      → active scheduler.schedules t ≡ some s
      → next_fire s now ≡ ok at
      → IsMoment x
      → rank now < rank x
      → rank x < rank at
      → fires_at scheduler.schedules x t ≡ false
  unfolding fires_at
  idle_until t s at x valid on found is_moment later before =
      ap (λ o. matched o x) on ∙ (next_fire-IsFirst s now at valid found).2 x is_moment later before

  -- A task without an active schedule never fires.
  never :
      (t : Task) (x : Moment)
      → active scheduler.schedules t ≡ none
      → fires_at scheduler.schedules x t ≡ false
  unfolding fires_at
  never t x off = ap (λ o. matched o x) off

  -- No active task fires before the earliest of the upcoming fires, and one does then.
  quiet_until :
      (u : Moment × Task) (us : List (Moment × Task))
      → IsMoment now
      → upcoming_of scheduler.schedules now scheduler.tasks ≡ ok (u ∷ us)
      → (t : Task) (x : Moment) → Has t scheduler.tasks
      → IsMoment x
      → rank now < rank x
      → rank x < rank (earliest u.0 us)
      → fires_at scheduler.schedules x t ≡ false
  quiet_until u us valid e t x member is_moment later before =
      elim (Option-cases (active scheduler.schedules t)) [
        | inl off ↦ never t x off
        | inr (s, on) ↦
            (let (at, there, found) =
                Has-upcoming_of scheduler.schedules now scheduler.tasks e t s member on in
              let (least, below) = earliest-least u.0 us in
              let close : rank (earliest u.0 us) ≤ rank at = elim there [
                | inl same ↦ subst (λ w. rank (earliest u.0 us) ≤ rank w.0) same least
                | inr behind ↦ below (at, t) behind
              ] in
              idle_until t s at x valid on found is_moment later (omega (arith, before, close)))
      ]

  due_task :
      (u : Moment × Task) (us : List (Moment × Task))
      → IsMoment now
      → upcoming_of scheduler.schedules now scheduler.tasks ≡ ok (u ∷ us)
      → (rank now < rank (earliest u.0 us))
        × ((t : Task) × Has t scheduler.tasks
            × (fires_at scheduler.schedules (earliest u.0 us) t ≡ true))
  unfolding fires_at
  due_task u us valid e =
      (let (t, there) : (t : Task) × Has (earliest u.0 us, t) (u ∷ us) =
          elim (earliest-Has u.0 us) [
            | inl same ↦ (u.1, inl (ap (λ m. (m, u.1)) (sym same)))
            | inr (t, member) ↦ (t, inr member)
          ] in
        let (member, (s, on, found)) =
          upcoming_of-IsNext scheduler.schedules now scheduler.tasks e (earliest u.0 us, t) there in
        let (first, later, quiet) = next_fire-IsFirst s now (earliest u.0 us) valid found in
        (later, (t, member, ap (λ o. matched o (earliest u.0 us)) on ∙ first.matched)))

  run_round-upcoming :
      (woke : Moment → Moment) (us : List (Moment × Task))
      → upcoming_of scheduler.schedules now scheduler.tasks ≡ ok us
      → run_round woke scheduler now
        ≡ ok (elim us [
          | [] ↦ none
          | u ∷ rest ↦ some (earliest u.0 rest, tick scheduler (woke (earliest u.0 rest)))
        ])
  unfolding run_round upcoming
  run_round-upcoming woke [] e = rw (run_round, upcoming, e) refl
  run_round-upcoming woke (u ∷ us) e = rw (run_round, upcoming, e) refl

module _ ⦃c : Casing⦄ (tasks : List Task) (now : Moment) where
  -- What a round is to come to. Where it ends, no task has a fire to wait for; where it sleeps, it
  -- sleeps until the first fire after now, and starts every task that fires then, and no other.
  abbrev pub IsRound : Option (Moment × List Task) → Type 0
  IsRound none = (t : Task) (x : Moment) → Has t tasks → fires t x ≡ false
  IsRound (some (due, started)) =
      (rank now < rank due)
      × (started ≡ keep (λ t. fires t due) tasks)
      × ((t : Task) × Has t started)
      × ((t : Task) (x : Moment)
          → Has t tasks
          → IsMoment x
          → rank now < rank x
          → rank x < rank due
          → fires t x ≡ false)

  ended-IsRound :
      (scheduler : Scheduler)
      → ((t : Task) (x : Moment) → Has t tasks → fires_at scheduler.schedules x t ≡ fires t x)
      → scheduler.tasks ≡ tasks
      → upcoming_of scheduler.schedules now scheduler.tasks ≡ ok []
      → IsRound none
  ended-IsRound scheduler agree same e t x member =
      sym (agree t x member) ∙ elim (Option-cases (active scheduler.schedules t)) [
        | inl off ↦ never scheduler now t x off
        | inr (s, on) ↦ absurd (
            (Has-upcoming_of scheduler.schedules now scheduler.tasks e t s
              (subst (Has t) (sym same) member) on).1)
      ]

  slept-IsRound :
      (scheduler : Scheduler)
      → ((t : Task) (x : Moment) → Has t tasks → fires_at scheduler.schedules x t ≡ fires t x)
      → scheduler.tasks ≡ tasks
      → IsMoment now
      → (u : Moment × Task) (us : List (Moment × Task))
      → upcoming_of scheduler.schedules now scheduler.tasks ≡ ok (u ∷ us)
      → IsRound (some (earliest u.0 us, tick scheduler (earliest u.0 us)))
  unfolding tick
  slept-IsRound scheduler agree same valid u us e =
      (let (later, (t, member, due)) = due_task scheduler now u us valid e in
        let started : tick scheduler (earliest u.0 us)
            ≡ keep (λ t. fires t (earliest u.0 us)) tasks =
          ap (keep (fires_at scheduler.schedules (earliest u.0 us))) same
          ∙ keep-agree _ _ tasks (λ t member. agree t (earliest u.0 us) member) in
        (
          later,
          started,
          (
            t,
            (Has-keep (fires_at scheduler.schedules (earliest u.0 us)) scheduler.tasks t).1
                (member, due),
          ),
          λ t x inside is_moment after before.
              sym (agree t x inside)
              ∙ quiet_until scheduler now u us valid e t x (subst (Has t) (sym same) inside)
                  is_moment after before,
        ))

  upcoming-IsRound :
      (scheduler : Scheduler) (woke : Moment → Moment)
      → new_scheduler tasks ≡ ok scheduler
      → IsMoment now
      → ((due : Moment) → woke due ≡ due)
      → (us : List (Moment × Task)) → upcoming_of scheduler.schedules now scheduler.tasks ≡ ok us
      → (r : Option (Moment × List Task)) × (run_round woke scheduler now ≡ ok r) × IsRound r
  upcoming-IsRound scheduler woke made valid punctual [] e =
      (let (same, agree) = new_scheduler-fires tasks made in
        (none, run_round-upcoming scheduler now woke [] e, ended-IsRound scheduler agree same e))
  upcoming-IsRound scheduler woke made valid punctual (u ∷ us) e =
      (let (same, agree) = new_scheduler-fires tasks made in
        (
          some (earliest u.0 us, tick scheduler (earliest u.0 us)),
          run_round-upcoming scheduler now woke (u ∷ us) e
              ∙ ap (λ w. ok (some (earliest u.0 us, tick scheduler w)))
                  (punctual (earliest u.0 us)),
          slept-IsRound scheduler agree same valid u us e,
        ))

  -- Where the names are unique, the schedules parse and each active one matches a moment that the
  -- search for a fire reaches, a round of the loop that wakes in the minute it slept until
  -- returns: it ends only if no enabled task's own schedule ever matches, and else sleeps until a
  -- later moment, starts exactly the tasks that fire then, at least one, and no task fires
  -- strictly before.
  pub run_round-IsRound :
      (scheduler : Scheduler) (woke : Moment → Moment)
      → new_scheduler tasks ≡ ok scheduler
      → IsMoment now
      → IsReached scheduler now
      → ((due : Moment) → woke due ≡ due)
      → (r : Option (Moment × List Task)) × (run_round woke scheduler now ≡ ok r) × IsRound r
  run_round-IsRound scheduler woke made valid reached punctual =
      (let (us, e) =
          upcoming_of-total scheduler now valid reached scheduler.tasks (λ t member. member) in
        upcoming-IsRound scheduler woke made valid punctual us e)
