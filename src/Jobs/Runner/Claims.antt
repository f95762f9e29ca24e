-- ===== src/Jobs/Runner/Claims.antt =====
-- Who may claim and who may finish (`_claim_and_start`, `_finish` of resourcey/jobs/jobs_runner.py).
use resourcey.Prelude.{
  Bool, not, length-append, ℕ, zero, suc, ◌+◌, ◌*◌, ◌≤◌, ◌≡◌, refl, sym, subst, ◌∙◌, ap, true,
  false, if-cases, Option, none, some, Option-cases, List, [], ◌∷◌, length, ltb, ◌==◌, ◌&&◌,
  if◌then◌else◌, inl, inr, arith,
}
use resourcey.Value.{text, one, attribute, value_eq, scalar_eq, uid}
use resourcey.Failure.{ok, >>=-eq-ok, ok-injective}
use resourcey.Filter.{Casing, row, matches, all_match, and_then, or_else, inverted}
use resourcey.Filter.Build.{attr, and_, and_children, flatten_conj}
use resourcey.Filter.Laws.{and_-matches}
use resourcey.Sql.{Database, Alike}
use resourcey.Sql.Convert.{Printing}
use resourcey.Jobs.{
  JobStatus, status_text, pending, scheduled, running, completed, error, cancelled, Job, job_row,
  patched, Store, load, update, status_is, terminal_guard, folded, nullable,
}
use resourcey.Sql.Convert.Total.{is_bound}
use resourcey.Jobs.Statuses.{
  same_status, is_terminal, accepts, accepts-matches, same_status-eq, status_is-matches,
  terminal_guard-matches,
}
use resourcey.Jobs.Guard.{update_lem, update-refused, update-applies}
use resourcey.Jobs.Runner.{
  Runner, JobRun, claim_condition, claim_patch, finish_patch, finish, outcome, claim,
  claim_and_start, taken, first_of, with_status,
}

same_owner : (a b : Option ℕ) → value_eq (nullable uid a) (nullable uid b) ≡ true → a ≡ b
unfolding value_eq scalar_eq
same_owner none none h = refl
same_owner none (some b) h = ground arith
same_owner (some a) none h = ground arith
same_owner (some a) (some b) h = ground arith

finish_patch-id : (j : Job) (run : JobRun) → (finish_patch j run).patch_id ≡ some j.job_id
unfolding finish_patch
finish_patch-id j run = ground arith

and_held : (a b x : Bool) → a && (b && x) ≡ true → (b ≡ true) × (x ≡ true)
and_held true true true e = (refl, refl)
and_held true true false e = cc
and_held true false x e = cc
and_held false b x e = cc

-- What a finished run leaves of the old row.
abbrev pub Finished : Job → JobRun → Job → Job → Type 0
Finished j run old new =
    let again = run.failed && ltb j.attempts j.max_attempts in
    (new.status ≡ (if again then pending else outcome run.failed))
    × (new.claimed_by ≡ (if again then none else old.claimed_by))
    × (new.claimed_at ≡ (if again then none else old.claimed_at))
    × (new.detail ≡ run.run_detail)
    × (new.attempts ≡ old.attempts)

finish_patch-Finished :
    (j : Job) (run : JobRun) (old : Job) → Finished j run old (patched (finish_patch j run) old)
unfolding finish_patch
finish_patch-Finished j run old =
    (ground arith, ground arith, ground arith, ground arith, ground arith)

module _ ⦃c : Casing⦄ ⦃p : Printing⦄ ⦃db : Database⦄ where
  -- The guard and the ownership gate, child by child.
  owned_row :
      (s : JobStatus) (own : Bool)
      → and_then
          (inverted (
            or_else (ok (value_eq (one (text (status_text s))) (one (text "COMPLETED")))) (
              or_else (ok (value_eq (one (text (status_text s))) (one (text "ERROR")))) (
                or_else
                  (ok (value_eq (one (text (status_text s))) (one (text "CANCELLED"))))
                  (ok false)))))
          (and_then
            (ok (value_eq (one (text (status_text s))) (one (text "RUNNING"))))
            (and_then (ok own) (ok true)))
        ≡ ok (not (is_terminal s) && (same_status s running && own))
  unfolding value_eq scalar_eq
  owned_row pending true = refl
  owned_row pending false = refl
  owned_row scheduled true = refl
  owned_row scheduled false = refl
  owned_row running true = refl
  owned_row running false = refl
  owned_row completed true = refl
  owned_row completed false = refl
  owned_row error true = refl
  owned_row error false = refl
  owned_row cancelled true = refl
  owned_row cancelled false = refl

  owned_matches :
      (owner : Option ℕ) (j : Job)
      → matches (folded (some (claim_condition owner))) (row (job_row j))
        ≡ ok (
            not (is_terminal j.status)
            && (same_status j.status running
                && value_eq (nullable uid j.claimed_by) (nullable uid owner)))
  unfolding claim_condition matches attr attribute all_match flatten_conj and_ and_children
      terminal_guard
  owned_matches owner j =
      owned_row j.status (value_eq (nullable uid j.claimed_by) (nullable uid owner))

  owner-Alike : (owner claimant : Option ℕ) → Alike (nullable uid claimant) (nullable uid owner)
  owner-Alike none none = tt
  owner-Alike none (some i) = tt
  owner-Alike (some i) none = tt
  owner-Alike (some i) (some k) = tt

  owned_accepts :
      (owner : Option ℕ) (j : Job) (b : Bool)
      → matches (folded (some (claim_condition owner))) (row (job_row j)) ≡ ok b
      → accepts (folded (some (claim_condition owner))) j ≡ ok b
  unfolding claim_condition attr attribute flatten_conj and_ and_children terminal_guard is_bound
  owned_accepts owner j b m =
      accepts-matches (folded (some (claim_condition owner))) j b refl
        ((tt, (tt, (tt, tt))), (tt, (owner-Alike owner j.claimed_by, tt))) m

  -- The ownership gate accepts only a running row that the owner has claimed.
  owned :
      (owner : Option ℕ) (j : Job)
      → accepts (folded (some (claim_condition owner))) j ≡ ok true
      → (j.status ≡ running) × (j.claimed_by ≡ owner)
  owned owner j h =
      let own = value_eq (nullable uid j.claimed_by) (nullable uid owner) in
      let held = ok-injective (sym (owned_accepts owner j _ (owned_matches owner j)) ∙ h) in
      let (s, o) = and_held (not (is_terminal j.status)) (same_status j.status running) own held in
      (same_status-eq j.status running s, same_owner j.claimed_by owner o)

  pending_accepts :
      (j : Job) (b : Bool)
      → matches (folded (some (status_is pending))) (row (job_row j)) ≡ ok b
      → accepts (folded (some (status_is pending))) j ≡ ok b
  unfolding attr attribute flatten_conj and_ and_children terminal_guard is_bound
  pending_accepts j b m =
      accepts-matches (folded (some (status_is pending))) j b refl ((tt, (tt, (tt, tt))), (tt, tt))
        m

  -- A finished run is written only where the row is still running under this runner's claim. A
  -- failed run below the attempt cap goes back to pending with its claim cleared; any other run
  -- leaves its outcome and keeps the claim. No other row changes.
  pub finish_lem :
      (r : Runner) (j : Job) (run : JobRun) (store store' : Store) (new : Job)
      → finish r j run store ≡ ok (some new, store')
      → (old : Job) × (load j.job_id store ≡ some old)
        × (old.status ≡ running)
        × (old.claimed_by ≡ some r.runner_id)
        × Finished j run old new
        × ((k : ℕ) → load k store' ≡ (if j.job_id == k then some new else load k store))
  unfolding finish
  finish_lem r j run store store' new h =
      let (i, old, e, l, g, met, q, others) =
        update_lem (finish_patch j run) (some (claim_condition (some r.runner_id))) store store' new
          h in
      let (s, o) = owned (some r.runner_id) old met in
      let at : i ≡ j.job_id = grind (arith, finish_patch-id j run, e) in
      (
        old,
        subst (λ i. load i store ≡ some old) at l,
        s,
        o,
        subst (Finished j run old) (sym q) (finish_patch-Finished j run old),
        subst (λ i. (k : ℕ) → load k store' ≡ (if i == k then some new else load k store)) at
            others,
      )

  running_unclaimable :
      (j : Job) → j.status ≡ running → accepts (folded (some (status_is pending))) j ≡ ok false
  unfolding all_match
  running_unclaimable j e = pending_accepts j false (
      and_-matches (terminal_guard ∷ status_is pending ∷ []) (row (job_row j)) false
        (grind (arith, terminal_guard-matches j, status_is-matches pending j, e)))

  -- Two claims of the same row, by two runners that both read it: once the claim of one has been
  -- written, the row is running under that runner, and the claim of the other is refused and
  -- writes nothing.
  pub claim-exclusive :
      (r other : Runner) (now later : ℕ) (j j' : Job) (store store' : Store) (new : Job)
      → j.job_id ≡ j'.job_id
      → update (claim_patch r now j) (some (status_is pending)) store ≡ ok (some new, store')
      → (new.status ≡ running)
        × (new.claimed_by ≡ some r.runner_id)
        × (load j.job_id store' ≡ some new)
        × (update (claim_patch other later j') (some (status_is pending)) store'
            ≡ ok (none, store'))
  unfolding claim_patch
  claim-exclusive r other now later j j' store store' new same h =
      let (i, old, e, l, g, met, q, others) =
        update_lem (claim_patch r now j) (some (status_is pending)) store store' new h in
      let l' : load i store' ≡ some new = grind (arith, others i) in
      let started : new.status ≡ running = grind (arith, q) in
      let at : j'.job_id ≡ i = grind (arith, e, same) in
      (
        started,
        grind (arith, q),
        subst (λ i. load i store' ≡ some new) (sym at ∙ sym same) l',
        update-refused (claim_patch other later j') (status_is pending) i store' new (ap some at) l'
            (running_unclaimable new started),
      )

  taken-room :
      (bound in_flight i : ℕ) (claimed : List ℕ) (o : Option Job)
      → ltb (in_flight + length claimed) bound ≡ true
      → in_flight + length (taken i claimed o) ≤ bound
  taken-room bound in_flight i claimed none e = ground arith
  taken-room bound in_flight i claimed (some j) e = ground (arith, length-append claimed (i ∷ []))

  -- A turn adds at most one claim, and is taken only below the capacity.
  claim-room :
      (r : Runner) (now in_flight : ℕ) (rival : ℕ → Store → Store) (n : ℕ) (claimed ids : List ℕ)
      (store store' : Store)
      → in_flight + length claimed ≤ r.max_concurrent
      → claim r now in_flight rival n claimed store ≡ ok (ids, store')
      → in_flight + length ids ≤ r.max_concurrent
  unfolding claim
  claim-room r now in_flight rival zero claimed ids store store' room h = grind arith
  claim-room r now in_flight rival (suc n) claimed ids store store' room h =
      elim (if-cases (ltb (in_flight + length claimed) r.max_concurrent) _ _ h) [
        | inl (e, h₁) ↦ elim (Option-cases (first_of (with_status pending store))) [
          | inl f ↦ grind arith
          | inr (j, f) ↦
              let ((o, s), m, w) =
                >>=-eq-ok (update (claim_patch r now j) (some (status_is pending)) (rival n store))
                  (λ out. claim r now in_flight rival n (taken j.job_id claimed (out.0)) (out.1))
                  (grind arith) in
              claim-room r now in_flight rival n (taken j.job_id claimed o) ids s store'
                (taken-room r.max_concurrent in_flight j.job_id claimed o e) w
        ]
        | inr (e, h₁) ↦ grind arith
      ]

  -- A runner within its capacity stays within it, whatever other processes write between the reads
  -- and the claims: the bodies in flight and the jobs claimed by one pass are at most
  -- `max_concurrent`.
  pub claim_and_start-capacity :
      (r : Runner) (now in_flight : ℕ) (rival : ℕ → Store → Store) (store store' : Store)
      (ids : List ℕ)
      → in_flight ≤ r.max_concurrent
      → claim_and_start r now in_flight rival store ≡ ok (ids, store')
      → in_flight + length ids ≤ r.max_concurrent
  unfolding claim_and_start
  claim_and_start-capacity r now in_flight rival store store' ids room h =
      claim-room r now in_flight rival (r.max_concurrent * 4) [] ids store store' (omega arith) h

  owns :
      (r : ℕ) (j : Job)
      → j.status ≡ running
      → j.claimed_by ≡ some r
      → accepts (folded (some (claim_condition (some r)))) j ≡ ok true
  unfolding value_eq scalar_eq
  owns r j e h =
      let own : value_eq (nullable uid j.claimed_by) (nullable uid (some r)) ≡ true =
        grind (arith, h) in
      owned_accepts (some r) j true (owned_matches (some r) j ∙ rw (e, own) refl)

  claimable :
      (j : Job) → j.status ≡ pending → accepts (folded (some (status_is pending))) j ≡ ok true
  unfolding all_match
  claimable j e = pending_accepts j true (
      and_-matches (terminal_guard ∷ status_is pending ∷ []) (row (job_row j)) true
        (grind (arith, terminal_guard-matches j, status_is-matches pending j, e)))

  -- A finished run is written whenever the stored row is running under this runner's claim, from
  -- whatever earlier row of that job it was computed: below the cap of that row a failed run goes
  -- back to pending, and any other leaves its outcome.
  pub finish-applies :
      (r : Runner) (j : Job) (run : JobRun) (store : Store) (old : Job)
      → load j.job_id store ≡ some old
      → old.status ≡ running
      → old.claimed_by ≡ some r.runner_id
      → (store' : Store) × (finish r j run store
          ≡ ok (some (patched (finish_patch j run) old), store'))
        × Finished j run old (patched (finish_patch j run) old)
  unfolding finish
  finish-applies r j run store old l e h =
      let (store', w) =
        update-applies (finish_patch j run) (claim_condition (some r.runner_id)) j.job_id store old
          (finish_patch-id j run) l (owns r.runner_id old e h) in
      (store', w, finish_patch-Finished j run old)

  -- A claim of a row that is pending when it is written succeeds, from whatever earlier row it was
  -- computed: the row is then running under the runner, with the attempts of that earlier row and
  -- one more.
  pub claim-applies :
      (r : Runner) (now : ℕ) (j : Job) (store : Store) (old : Job)
      → load j.job_id store ≡ some old
      → old.status ≡ pending
      → (store' : Store) × (update (claim_patch r now j) (some (status_is pending)) store
          ≡ ok (some (patched (claim_patch r now j) old), store'))
        × ((patched (claim_patch r now j) old).status ≡ running)
        × ((patched (claim_patch r now j) old).claimed_by ≡ some r.runner_id)
        × ((patched (claim_patch r now j) old).attempts ≡ j.attempts + 1)
  unfolding claim_patch
  claim-applies r now j store old l e =
      let (store', w) =
        update-applies (claim_patch r now j) (status_is pending) j.job_id store old refl l
          (claimable old e) in
      (store', w, refl, refl, refl)
