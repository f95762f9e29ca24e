-- ===== src/Tasks/Scheduler/Schedules.antt =====
-- The dictionary of schedules (resourcey/tasks/scheduler.py) holds each task's own, since the names
-- are unique.
use resourcey.Prelude.{
  String, ◌≡◌, refl, sym, ap, ◌∙◌, Bool, true, false, Option, none, some, List, [], ◌∷◌, Has, All,
  All-Has, str_eq, str_eq_iff, if-cases, Bool-cases, Option-cases, ◌⊎◌, inl, inr, subst,
  if◌then◌else◌,
}
use resourcey.Failure.{Result, ok, err, value_error, >>=-eq-ok, ok-injective, ◌>>=◌}
use resourcey.Filter.{Casing}
use resourcey.Tasks.Calendar.{Moment}
use resourcey.Tasks.Cron.{CronSchedule, schedule_matches}
use resourcey.Tasks.Cron.Parse.{parse_cron}
use resourcey.Tasks.Scheduler.{
  Task, is_seen, duplicates, assert_unique_names, active_text, Schedules, parse_schedules,
  schedule_get, Scheduler, new_scheduler, active, fires_at, matched,
}

abbrev HasOtherName : String → Task → Type 0
HasOtherName n t = str_eq n t.name ≡ false

abbrev HasUniqueNames : List Task → Type 0
HasUniqueNames [] = Unit
HasUniqueNames (t ∷ ts) = All (HasOtherName t.name) ts × HasUniqueNames ts

still_seen :
    (n m : String) (seen : List String) → is_seen n seen ≡ true → is_seen n (m ∷ seen) ≡ true
unfolding is_seen
still_seen n m seen e = elim (Bool-cases (str_eq m n)) [ inl f ↦ rw f refl | inr f ↦ rw f e ]

now_seen : (n : String) (seen : List String) → is_seen n (n ∷ seen) ≡ true
unfolding is_seen
now_seen n seen = rw ((str_eq_iff n n).1 refl) refl

-- A name that was seen comes again in no task, where there are no duplicates.
seen-All :
    (n : String) (seen : List String) (ts : List Task)
    → is_seen n seen ≡ true
    → duplicates seen ts ≡ []
    → All (HasOtherName n) ts
unfolding duplicates is_seen
seen-All n seen [] e d = tt
seen-All n seen (t ∷ ts) e d =
    elim (if-cases (is_seen t.name seen) (t.name ∷ duplicates (t.name ∷ seen) ts) _ d) [
      | inl (again, none_left) ↦ cc
      | inr (new, none_left) ↦ (
        (elim (Bool-cases (str_eq n t.name)) [
          | inl same ↦ cc (new, e, ap (λ m. is_seen m seen) ((str_eq_iff n t.name).0 same))
          | inr other ↦ other
        ]),
        seen-All n (t.name ∷ seen) ts (still_seen n t.name seen e) none_left,
      )
    ]

unique_names : (seen : List String) (ts : List Task) → duplicates seen ts ≡ [] → HasUniqueNames ts
unfolding duplicates
unique_names seen [] d = tt
unique_names seen (t ∷ ts) d =
    elim (if-cases (is_seen t.name seen) (t.name ∷ duplicates (t.name ∷ seen) ts) _ d) [
      | inl (again, none_left) ↦ cc
      | inr (new, none_left) ↦ (
        seen-All t.name (t.name ∷ seen) ts (now_seen t.name seen) none_left,
        unique_names (t.name ∷ seen) ts none_left,
      )
    ]

none_twice :
    (names : List String) {u : Unit}
    → ◌≡◌ {A = Result {0} Unit} (elim names [ [] ↦ ok tt | n ∷ ns ↦ err value_error ]) (ok u)
    → names ≡ []
none_twice [] e = refl
none_twice (n ∷ ns) e = cc

module _ ⦃c : Casing⦄ where
  abbrev on_parsed : Result CronSchedule → Moment → Bool
  on_parsed (ok s) x = schedule_matches s x
  on_parsed (err e) x = false

  -- What a task's own schedule says of a moment, if the task is enabled.
  abbrev matches_own : Option String → Moment → Bool
  matches_own none x = false
  matches_own (some text) x = on_parsed (parse_cron text) x

  abbrev pub fires : Task → Moment → Bool
  fires t x = if t.enabled then matches_own (active_text t.schedule) x else false

  -- The schedule that the dictionary should hold for a text.
  abbrev Own : Option String → Option CronSchedule → Type 0
  Own none found = found ≡ none
  Own (some text) found = (s : CronSchedule) × (parse_cron text ≡ ok s) × (found ≡ some s)

  -- The first task added an entry, or none.
  abbrev Head : Task → List Task → Schedules → Type 0
  Head t ts schedules =
      ((active_text t.schedule ≡ none) × (parse_schedules ts ≡ ok schedules))
      ⊎ ((text : String) × (s : CronSchedule) × (rest : Schedules) × (active_text t.schedule
            ≡ some text)
          × (parse_cron text ≡ ok s)
          × (parse_schedules ts ≡ ok rest)
          × ((t.name, s) ∷ rest ≡ schedules))

  parse_schedules-Head :
      (t : Task) (ts : List Task) {schedules : Schedules}
      → parse_schedules (t ∷ ts) ≡ ok schedules
      → Head t ts schedules
  unfolding parse_schedules
  parse_schedules-Head t ts {schedules} e = elim (Option-cases (active_text t.schedule)) [
    | inl h ↦
        (let step : parse_schedules (t ∷ ts) ≡ parse_schedules ts = rw (parse_schedules, h) refl in
          inl (h, sym step ∙ e))
    | inr (text, h) ↦
        (let step : parse_schedules (t ∷ ts)
              ≡ (parse_cron text >>= λ s. parse_schedules ts >>= λ rest. ok ((t.name, s) ∷ rest)) =
            rw (parse_schedules, h) refl in
          let parsed = >>=-eq-ok (parse_cron text) _ (sym step ∙ e) in
          let later = >>=-eq-ok (parse_schedules ts) _ parsed.2 in
          inr (text, parsed.0, later.0, h, parsed.1, later.1, ok-injective later.2))
  ]

  schedule_get-other :
      (n : String) (k : String) (s : CronSchedule) (rest : Schedules)
      → str_eq k n ≡ false
      → schedule_get n ((k, s) ∷ rest) ≡ schedule_get n rest
  unfolding schedule_get
  schedule_get-other n k s rest other = elim (Option-cases (schedule_get n rest)) [
    | inl e ↦ rw (schedule_get, e, other) refl
    | inr (s', e) ↦ rw (schedule_get, e) refl
  ]

  schedule_get-first :
      (n : String) (s : CronSchedule) (rest : Schedules)
      → schedule_get n rest ≡ none
      → schedule_get n ((n, s) ∷ rest) ≡ some s
  unfolding schedule_get
  schedule_get-first n s rest e = rw (schedule_get, e, (str_eq_iff n n).1 refl) refl

  apart : (a b : String) → str_eq a b ≡ false → str_eq b a ≡ false
  apart a b e = elim (Bool-cases (str_eq b a)) [
    | inl f ↦ cc (e, (str_eq_iff a b).1 (sym ((str_eq_iff b a).0 f)))
    | inr f ↦ f
  ]

  schedule_get-absent :
      (n : String) (ts : List Task) {schedules : Schedules}
      → All (HasOtherName n) ts
      → parse_schedules ts ≡ ok schedules
      → schedule_get n schedules ≡ none
  unfolding parse_schedules schedule_get
  schedule_get-absent n [] others e = ap (schedule_get n) (sym (ok-injective e))
  schedule_get-absent n (t ∷ ts) (other, others) e = elim (parse_schedules-Head t ts e) [
    | inl (h, later) ↦ schedule_get-absent n ts others later
    | inr (text, s, rest, h, parsed, later, whole) ↦
        ap (schedule_get n) (sym whole)
        ∙ schedule_get-other n t.name s rest (apart n t.name other)
        ∙ schedule_get-absent n ts others later
  ]

  schedule_get-Own :
      (ts : List Task) (t : Task) {schedules : Schedules}
      → HasUniqueNames ts
      → Has t ts
      → parse_schedules ts ≡ ok schedules
      → Own (active_text t.schedule) (schedule_get t.name schedules)
  schedule_get-Own [] t unique member e = absurd member
  schedule_get-Own (u ∷ ts) t {schedules} (others, unique) (inl same) e =
      subst (λ q. Own (active_text q.schedule) (schedule_get q.name schedules)) same
        (elim (parse_schedules-Head u ts e) [
          | inl (h, later) ↦
              subst (λ o. Own o (schedule_get u.name schedules)) (sym h)
                (schedule_get-absent u.name ts others later)
          | inr (text, s, rest, h, parsed, later, whole) ↦
              subst (λ o. Own o (schedule_get u.name schedules)) (sym h)
                (
                  s,
                  parsed,
                  ap (schedule_get u.name) (sym whole)
                      ∙ schedule_get-first u.name s rest
                          (schedule_get-absent u.name ts others later),
                )
        ])
  schedule_get-Own (u ∷ ts) t {schedules} (others, unique) (inr later_one) e =
      elim (parse_schedules-Head u ts e) [
        | inl (h, later) ↦ schedule_get-Own ts t unique later_one later
        | inr (text, s, rest, h, parsed, later, whole) ↦
            subst (Own (active_text t.schedule))
              (sym (
                ap (schedule_get t.name) (sym whole)
                ∙ schedule_get-other t.name u.name s rest
                    (All-Has (HasOtherName u.name) ts t others later_one)))
              (schedule_get-Own ts t unique later_one later)
      ]

  matched-if :
      (b : Bool) (found : Option CronSchedule) (x : Moment)
      → matched (if b then found else none) x ≡ (if b then matched found x else false)
  matched-if true found x = refl
  matched-if false found x = refl

  matched-Own :
      (o : Option String) (found : Option CronSchedule) (x : Moment)
      → Own o found
      → matched found x ≡ matches_own o x
  matched-Own none found x e = ap (λ f. matched f x) e
  matched-Own (some text) found x (s, parsed, e) =
      ap (λ f. matched f x) e ∙ ap (λ r. on_parsed r x) (sym parsed)

  fires_at-Own :
      (schedules : Schedules) (t : Task) (x : Moment)
      → Own (active_text t.schedule) (schedule_get t.name schedules)
      → fires_at schedules x t ≡ fires t x
  unfolding fires_at active
  fires_at-Own schedules t x own =
      matched-if t.enabled (schedule_get t.name schedules) x
      ∙ ap (λ b. if t.enabled then b else false) (matched-Own _ _ x own)

  -- A scheduler that is made finds for each of its tasks the task's own schedule.
  pub new_scheduler-fires :
      (tasks : List Task) {scheduler : Scheduler}
      → new_scheduler tasks ≡ ok scheduler
      → (scheduler.tasks ≡ tasks)
        × ((t : Task) (x : Moment) → Has t tasks → fires_at scheduler.schedules x t ≡ fires t x)
  unfolding new_scheduler assert_unique_names
  new_scheduler-fires tasks {scheduler} e =
      (let checked = >>=-eq-ok (assert_unique_names tasks) _ e in
        let parsed = >>=-eq-ok (parse_schedules tasks) _ checked.2 in
        let whole = ok-injective parsed.2 in
        (
          ap (λ (s : Scheduler). s.tasks) (sym whole),
          λ t x member.
              ap (λ (s : Scheduler). fires_at s.schedules x t) (sym whole)
              ∙ fires_at-Own parsed.0 t x (
                  schedule_get-Own tasks t
                    (unique_names [] tasks (none_twice (duplicates [] tasks) checked.1)) member
                    parsed.1),
        ))
