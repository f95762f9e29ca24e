-- ===== src/Tasks/Scheduler/Upcoming.antt =====
-- The upcoming fires of the scheduler (`_upcoming` of resourcey/tasks/scheduler.py), and the earliest.
use resourcey.Prelude.{
  ◌≤◌, ◌≡◌, refl, sym, ap, ◌∙◌, subst, Option, none, some, List, [], ◌∷◌, Has, ltb, Option-cases,
  Bool-cases, ◌⊎◌, inl, inr, arith, if◌then◌else◌,
}
use resourcey.Failure.{ok, ◌>>=◌, >>=-eq-ok, ok-injective}
use resourcey.Tasks.Calendar.{Moment, rank}
use resourcey.Tasks.Cron.{CronSchedule, next_fire}
use resourcey.Tasks.Scheduler.{Task, Schedules, active, upcoming_of, sooner, earliest}

sooner-cases :
    (at other : Moment)
    → ((sooner at other ≡ at) × (rank at ≤ rank other))
      ⊎ ((sooner at other ≡ other) × (rank other ≤ rank at))
sooner-cases at other = elim (Bool-cases (ltb (rank other) (rank at))) [
  | inl e ↦ inr (ap (λ b. if b then other else at) e, ground (arith, e))
  | inr e ↦ inl (ap (λ b. if b then other else at) e, ground (arith, e))
]

-- The earliest moment is not after any of the given ones, and is one of them.
pub earliest-least :
    (at : Moment) (us : List (Moment × Task))
    → (rank (earliest at us) ≤ rank at)
      × ((u : Moment × Task) → Has u us → rank (earliest at us) ≤ rank u.0)
unfolding earliest
earliest-least at [] = (omega arith, λ u member. absurd member)
earliest-least at ((other, t) ∷ us) =
    (let (least, below) = earliest-least (sooner at other) us in
      let both : (rank (sooner at other) ≤ rank at) × (rank (sooner at other) ≤ rank other) =
        elim (sooner-cases at other) [
          | inl (e, h) ↦ (omega (arith, ap rank e), omega (arith, ap rank e, h))
          | inr (e, h) ↦ (omega (arith, ap rank e, h), omega (arith, ap rank e))
        ] in
      (
        omega (arith, least, both),
        λ u member. elim member [
          | inl same ↦
              subst (λ w. rank (earliest (sooner at other) us) ≤ rank w.0) same
                (omega (arith, least, both))
          | inr later ↦ below u later
        ],
      ))

pub earliest-Has :
    (at : Moment) (us : List (Moment × Task))
    → (earliest at us ≡ at) ⊎ ((t : Task) × Has (earliest at us, t) us)
unfolding earliest
earliest-Has at [] = inl refl
earliest-Has at ((other, t) ∷ us) = elim (earliest-Has (sooner at other) us) [
  | inr (t', member) ↦ inr (t', inr member)
  | inl e ↦ elim (sooner-cases at other) [
    | inl (f, h) ↦ inl (e ∙ f)
    | inr (f, h) ↦ inr (t, inl (ap (λ m. (m, t)) (sym (e ∙ f))))
  ]
]

abbrev pub or_given : {A : Type 0} → A → Option A → A
or_given d none = d
or_given d (some a) = a

pub some-injective : {A : Type 0} {a b : A} → ◌≡◌ {A = Option A} (some a) (some b) → a ≡ b
some-injective {a} e = ap (or_given a) e

-- The upcoming fires are the next ones of the active tasks.
module _ (schedules : Schedules) (now : Moment) where
  abbrev pub IsNext : Moment → Task → Type 0
  IsNext at t = (s : CronSchedule) × (active schedules t ≡ some s) × (next_fire s now ≡ ok at)

  -- The first task is not active, or comes with its next fire.
  pub upcoming_of-cases :
      (t : Task) (ts : List Task) {us : List (Moment × Task)}
      → upcoming_of schedules now (t ∷ ts) ≡ ok us
      → ((active schedules t ≡ none) × (upcoming_of schedules now ts ≡ ok us))
        ⊎ ((at : Moment) × (rest : List (Moment × Task)) × IsNext at t
            × (upcoming_of schedules now ts ≡ ok rest)
            × ((at, t) ∷ rest ≡ us))
  unfolding upcoming_of
  upcoming_of-cases t ts e = elim (Option-cases (active schedules t)) [
    | inl h ↦
        (let step : upcoming_of schedules now (t ∷ ts) ≡ upcoming_of schedules now ts =
            rw (upcoming_of, h) refl in
          inl (h, sym step ∙ e))
    | inr (s, h) ↦
        (let step : upcoming_of schedules now (t ∷ ts) ≡ (
              next_fire s now >>= λ at.
              upcoming_of schedules now ts >>= λ rest. ok ((at, t) ∷ rest)) =
            rw (upcoming_of, h) refl in
          let next = >>=-eq-ok (next_fire s now) _ (sym step ∙ e) in
          let later = >>=-eq-ok (upcoming_of schedules now ts) _ next.2 in
          inr (next.0, later.0, (s, h, next.1), later.1, ok-injective later.2))
  ]

  pub upcoming_of-IsNext :
      (ts : List Task) {us : List (Moment × Task)}
      → upcoming_of schedules now ts ≡ ok us
      → (u : Moment × Task) → Has u us
      → Has u.1 ts × IsNext u.0 u.1
  unfolding upcoming_of
  upcoming_of-IsNext [] e u member = absurd (subst (Has u) (sym (ok-injective e)) member)
  upcoming_of-IsNext (t ∷ ts) e u member = elim (upcoming_of-cases t ts e) [
    | inl (idle, later) ↦
        (let (there, next) = upcoming_of-IsNext ts later u member in (inr there, next))
    | inr (at, rest, next, later, whole) ↦ elim (subst (Has u) (sym whole) member) [
      | inl same ↦ subst (λ w. Has w.1 (t ∷ ts) × IsNext w.0 w.1) same (inl refl, next)
      | inr behind ↦
          (let (there, next') = upcoming_of-IsNext ts later u behind in (inr there, next'))
    ]
  ]

  pub Has-upcoming_of :
      (ts : List Task) {us : List (Moment × Task)}
      → upcoming_of schedules now ts ≡ ok us
      → (t : Task) (s : CronSchedule) → Has t ts
      → active schedules t ≡ some s
      → (at : Moment) × Has (at, t) us × (next_fire s now ≡ ok at)
  Has-upcoming_of [] e t s member on = absurd member
  Has-upcoming_of (u ∷ ts) {us} e t s member on = elim (upcoming_of-cases u ts e) [
    | inl (idle, later) ↦ elim member [
      | inl same ↦ cc (idle, on, ap (active schedules) same)
      | inr behind ↦ Has-upcoming_of ts later t s behind on
    ]
    | inr (at, rest, (s', on', next), later, whole) ↦ elim member [
      | inl same ↦ (
        at,
        subst (Has (at, t)) whole (inl (ap (λ w. (at, w)) same)),
        subst (λ o. next_fire o now ≡ ok at)
            (some-injective (sym on' ∙ ap (active schedules) same ∙ on)) next,
      )
      | inr behind ↦
          (let (at', there, found) = Has-upcoming_of ts later t s behind on in
            (at', subst (Has (at', t)) whole (inr there), found))
    ]
  ]
