-- ===== src/Jobs/Runner/Life.antt =====
-- The life of a job row under every writer: clients through `JobsService` and any number of
-- runners, in any order (resourcey/jobs/jobs_model.py, resourcey/jobs/jobs_runner.py).
use resourcey.Prelude.{
  ℕ, zero, suc, ◌≡◌, sym, subst, ap, true, Bool-cases, if-cases, Option, none, some, List, [], ◌∷◌,
  ◌++◌, ◌==◌, ==_iff, ◌+◌, inl, inr, arith, length, ltb, Option-cases, ◌*◌,
}
use resourcey.Failure.{Result, ok, ◌>>=◌, >>=-eq-ok, ok-injective}
use resourcey.Filter.{Filter, Casing}
use resourcey.Sql.{Database}
use resourcey.Sql.Convert.{Printing}
use resourcey.Jobs.{
  Job, Patch, Draft, Store, load, create, update, status_is, pending, scheduled, running,
}
use resourcey.Jobs.Statuses.{is_terminal}
use resourcey.Jobs.Guard.{update_lem, update-none}
use resourcey.Jobs.Runner.{
  Runner, each, recover_one, promote_one, recover_stale, promote_due_scheduled, claim,
  claim_and_start, sweep, recovery, claim_condition, claim_patch, with_status, first_of, counted,
  taken, blank, is_stale, is_due,
}

module _ ⦃c : Casing⦄ ⦃p : Printing⦄ ⦃db : Database⦄ where
  -- One write by anyone: a row added, or a guarded update, whether it applied or not. Every
  -- operation of a runner is a sequence of these.
  pub data Step : Store → Store → Type 0 where
    added :
        (principal : Option ℕ) (fresh : ℕ) (d : Draft) {s : Store}
        → Step s ((create principal fresh d s).1)
    updated :
        (p : Patch) (condition : Option Filter) (o : Option Job) {s s' : Store}
        → update p condition s ≡ ok (o, s')
        → Step s s'

  pub data Steps : Store → Store → Type 0 where
    done : {s : Store} → Steps s s
    after : {s m t : Store} → Step s m → Steps m t → Steps s t

  load-append : (i : ℕ) (js ks : Store) (j : Job) → load i js ≡ some j → load i (js ++ ks) ≡ some j
  unfolding load
  load-append i [] ks j h = cc
  load-append i (x ∷ js) ks j h = elim (if-cases (x.job_id == i) _ _ h) [
    | inl (e, h₁) ↦ grind arith
    | inr (e, h₁) ↦ grind (arith, load-append i js ks j h₁)
  ]

  sticky :
      {s s' : Store} (i : ℕ) (j : Job)
      → Step s s'
      → load i s ≡ some j
      → is_terminal j.status ≡ true
      → load i s' ≡ some j
  unfolding create
  sticky i j (added _ _ _ {s}) l t = load-append i s _ j l
  sticky i j (updated p condition none {s} {s'} h) l t =
      grind (arith, update-none p condition s s' h)
  sticky i j (updated p condition (some new) {s} {s'} h) l t =
      let (k, old, e, l₁, g, met, q, others) = update_lem p condition s s' new h in
      elim (Bool-cases (k == i)) [
        | inl same ↦
            let lk : load k s ≡ some j =
              subst (λ m. load m s ≡ some j) (sym ((==_iff k i).0 same)) l in
            grind arith
        | inr apart ↦ grind (arith, others i)
      ]

  -- A terminal row is the same after any sequence of creates and guarded updates, by any clients
  -- and runners.
  pub terminal-sticky :
      {s s' : Store} (i : ℕ) (j : Job)
      → Steps s s'
      → load i s ≡ some j
      → is_terminal j.status ≡ true
      → load i s' ≡ some j
  terminal-sticky i j done l t = l
  terminal-sticky i j (after step rest) l t = terminal-sticky i j rest (sticky i j step l t) t

  join : {s m t : Store} → Steps s m → Steps m t → Steps s t
  join done rest = rest
  join (after step more) rest = after step (join more rest)

  counted-Steps :
      (p : Patch) (f : Filter) (s s' : Store) (n : ℕ)
      → (update p (some f) s >>= λ out. ok (counted out)) ≡ ok (n, s')
      → Steps s s'
  counted-Steps p f s s' n h =
      let ((o, s₁), m, w) = >>=-eq-ok (update p (some f) s) (λ out. ok (counted out)) h in
      after (updated _ _ _ m) (subst (λ t. Steps s₁ t) (ap (λ r. r.1) (ok-injective w)) done)

  recover_one-Steps :
      (r : Runner) (now : ℕ) (j : Job) (s s' : Store) (n : ℕ)
      → recover_one r now j s ≡ ok (n, s')
      → Steps s s'
  unfolding recover_one
  recover_one-Steps r now j s s' n h = elim (if-cases (is_stale r now j) _ _ h) [
    | inl (e, w) ↦ counted-Steps (recovery j) (claim_condition j.claimed_by) s s' n w
    | inr (e, w) ↦ subst (λ t. Steps s t) (ap (λ r. r.1) (ok-injective w)) done
  ]

  promote_one-Steps :
      (now : ℕ) (j : Job) (s s' : Store) (n : ℕ) → promote_one now j s ≡ ok (n, s') → Steps s s'
  unfolding promote_one
  promote_one-Steps now j s s' n h = elim (if-cases (is_due now j) _ _ h) [
    | inl (e, w) ↦
        counted-Steps (record (blank j.job_id) { new_status = some pending }) (status_is scheduled)
          s s' n w
    | inr (e, w) ↦ subst (λ t. Steps s t) (ap (λ r. r.1) (ok-injective w)) done
  ]

  each-Steps :
      (f : Job → Store → Result (ℕ × Store))
      → ((j : Job) (s s' : Store) (n : ℕ) → f j s ≡ ok (n, s') → Steps s s')
      → (js : List Job) (s s' : Store) (n : ℕ) → each f js s ≡ ok (n, s')
      → Steps s s'
  unfolding each
  each-Steps f hf [] s s' n h = subst (λ t. Steps s t) (ap (λ r. r.1) (ok-injective h)) done
  each-Steps f hf (j ∷ js) s s' n h =
      let ((n₁, s₁), m, h₁) =
        >>=-eq-ok (f j s) (λ first. each f js (first.1) >>= λ rest. ok (first.0 + rest.0, rest.1))
          h in
      let ((n₂, s₂), m₂, h₂) = >>=-eq-ok (each f js s₁) (λ rest. ok (n₁ + rest.0, rest.1)) h₁ in
      join (hf j s s₁ n₁ m)
        (subst (λ t. Steps s₁ t) (ap (λ r. r.1) (ok-injective h₂)) (each-Steps f hf js s₁ s₂ n₂ m₂))

  claim-Steps :
      (r : Runner) (now in_flight : ℕ) (rival : ℕ → Store → Store)
      → ((n : ℕ) (s : Store) → Steps s (rival n s))
      → (n : ℕ) (claimed ids : List ℕ) (s s' : Store)
      → claim r now in_flight rival n claimed s ≡ ok (ids, s')
      → Steps s s'
  unfolding claim
  claim-Steps r now in_flight rival hr zero claimed ids s s' h =
      subst (λ t. Steps s t) (ap (λ r. r.1) (ok-injective h)) done
  claim-Steps r now in_flight rival hr (suc n) claimed ids s s' h =
      elim (if-cases (ltb (in_flight + length claimed) r.max_concurrent) _ _ h) [
        | inl (e, h₁) ↦ elim (Option-cases (first_of (with_status pending s))) [
          | inl f ↦ subst (λ t. Steps s t) (grind arith) done
          | inr (j, f) ↦
              let ((o, s₁), m, w) =
                >>=-eq-ok (update (claim_patch r now j) (some (status_is pending)) (rival n s))
                  (λ out. claim r now in_flight rival n (taken j.job_id claimed (out.0)) (out.1))
                  (grind arith) in
              join (hr n s) (
                after (updated (claim_patch r now j) (some (status_is pending)) o m)
                  (claim-Steps r now in_flight rival hr n (taken j.job_id claimed o) ids s₁ s' w))
        ]
        | inr (e, h₁) ↦ subst (λ t. Steps s t) (ap (λ r. r.1) (ok-injective h₁)) done
      ]

  -- A sweep, with any guarded writes of others between a read and a claim, is a sequence of
  -- guarded writes.
  sweep-Steps :
      (r : Runner) (now in_flight : ℕ) (rival : ℕ → Store → Store)
      → ((n : ℕ) (s : Store) → Steps s (rival n s))
      → (s s' : Store) (ids : List ℕ) → sweep r now in_flight rival s ≡ ok (ids, s')
      → Steps s s'
  unfolding sweep recover_stale promote_due_scheduled claim_and_start
  sweep-Steps r now in_flight rival hr s s' ids h =
      let ((n₁, s₁), m₁, h₁) = >>=-eq-ok (recover_stale r now s) _ h in
      let ((n₂, s₂), m₂, h₂) = >>=-eq-ok (promote_due_scheduled now s₁) _ h₁ in
      join
        (each-Steps (recover_one r now) (recover_one-Steps r now) (with_status running s) s s₁ n₁
          m₁)
        (join
          (each-Steps (promote_one now) (promote_one-Steps now) (with_status scheduled s₁) s₁ s₂ n₂
            m₂)
          (claim-Steps r now in_flight rival hr (r.max_concurrent * 4) [] ids s₂ s' h₂))
