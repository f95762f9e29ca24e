-- ===== src/Jobs/Runner.antt =====
-- `JobRunner` (resourcey/jobs/jobs_runner.py): a sweep recovers stale claims, promotes due
-- scheduled jobs and claims pending ones; a finished body writes its outcome back. A job given to
-- an operation is the row as it was read, which may be out of date when the write is made.
pub mod Claims
pub mod Progress
pub mod Life
use resourcey.Prelude.{
  ℕ, zero, suc, ◌+◌, ◌*◌, String, Bool, true, false, Option, none, some, List, [], ◌∷◌, ◌++◌, ltb,
  leb, length, keep, if◌then◌else◌, ◌&&◌, ◌⊎◌, inl, inr,
}
use resourcey.Value.{uid, one}
use resourcey.Failure.{Result, ok, ◌>>=◌}
use resourcey.Filter.{Filter, Casing}
use resourcey.Filter.Build.{and_, attr}
use resourcey.Sql.{Database}
use resourcey.Sql.Convert.{Printing}
use resourcey.Jobs.{
  JobStatus, pending, scheduled, running, completed, error, cancelled, JobDetails, Job, Patch,
  Draft, Store, create, load, update, status_is, nullable,
}
use resourcey.Jobs.Statuses.{same_status}

pub record Runner : Type 0 where
  pub runner_id : ℕ
  pub max_concurrent : ℕ
  pub default_max_seconds_for_run : ℕ
  pub default_max_attempts : ℕ

-- `JobRun`: `completed`, or an error.
pub record JobRun : Type 0 where
  pub failed : Bool
  pub run_detail : Option String

-- `_payload`: an update naming its row and nothing else.
abbrev pub blank : ℕ → Patch
blank i = record {
  patch_id = some i;
  new_status = none;
  new_detail = none;
  new_run_at = none;
  new_claimed_by = none;
  new_claimed_at = none;
  new_attempts = none;
  new_max_attempts = none;
  new_max_seconds = none;
}

abbrev pub unclaimed : ℕ → JobStatus → Patch
unclaimed i s = record (blank i) {
  new_status = some s;
  new_claimed_by = some none;
  new_claimed_at = some none;
}

-- `_claim_condition`: "status == RUNNING AND claimed_by == <runner>".
unfoldable pub claim_condition : Option ℕ → Filter
unfolding and_ attr
claim_condition owner =
    and_ (status_is running ∷ attr "claimed_by" (Filter.eq (nullable uid owner)) ∷ [])

abbrev given : ℕ → Option ℕ → ℕ
given default none = default
given default (some n) = n

-- The bound of a claim, in microseconds.
abbrev bound_of : Runner → Job → ℕ
bound_of r j = given r.default_max_seconds_for_run j.max_seconds_for_run * 1000000

-- A claim older than its bound; a row without a claim time is passed over.
unfoldable pub is_stale : Runner → ℕ → Job → Bool
is_stale r now j = elim j.claimed_at [ none ↦ false | some at ↦ ltb (at + bound_of r j) now ]

-- What recovery writes: a new turn, or an error once the attempts are used up.
unfoldable pub recovery : Job → Patch
recovery j =
    if ltb j.attempts j.max_attempts
    then record (unclaimed j.job_id pending) { new_detail = some (some "recovered stale claim") }
    else record (unclaimed j.job_id error) {
      new_detail = some (some "stale claim; attempts exhausted");
    }

-- A job is due at its time, and at once where it has none.
unfoldable pub is_due : ℕ → Job → Bool
is_due now j = elim j.run_at [ none ↦ true | some at ↦ leb at now ]

-- What a claim writes; the attempts count up from the row as it was read.
unfoldable pub claim_patch : Runner → ℕ → Job → Patch
claim_patch r now j = record (blank j.job_id) {
  new_status = some running;
  new_claimed_by = some (some r.runner_id);
  new_claimed_at = some (some now);
  new_attempts = some (j.attempts + 1);
}

abbrev pub outcome : Bool → JobStatus
outcome true = error
outcome false = completed

-- What `_finish` writes: a failed run takes a new turn below the cap.
unfoldable pub finish_patch : Job → JobRun → Patch
finish_patch j run =
    if run.failed && ltb j.attempts j.max_attempts
    then record (unclaimed j.job_id pending) { new_detail = some run.run_detail }
    else record (blank j.job_id) {
      new_status = some (outcome run.failed);
      new_detail = some run.run_detail;
    }

-- `_enumerate` by a status, and the first row of such a search.
abbrev pub with_status : JobStatus → Store → List Job
with_status s store = keep (λ j. same_status j.status s) store

abbrev pub first_of : List Job → Option Job
first_of [] = none
first_of (j ∷ js) = some j

-- `_invoke`: a body that raises, or that cannot be resolved, is an error with its message.
unfoldable pub invoke : (JobDetails → JobRun ⊎ String) → Job → JobRun
invoke body j = elim (body j.job_details) [
  | inl run ↦ run
  | inr message ↦ record { failed = true; run_detail = some message }
]

abbrev tally : Option Job → ℕ
tally none = 0
tally (some j) = 1

abbrev pub counted : Option Job × Store → ℕ × Store
counted (o, s) = (tally o, s)

-- The loop over enumerated jobs, adding up the writes that applied.
unfoldable pub each : (Job → Store → Result (ℕ × Store)) → List Job → Store → Result (ℕ × Store)
each f [] store = ok (0, store)
each f (j ∷ js) store =
    f j store >>= λ first. each f js (first.1) >>= λ rest. ok (first.0 + rest.0, rest.1)

module _ ⦃c : Casing⦄ ⦃p : Printing⦄ ⦃db : Database⦄ where
  unfoldable pub recover_one : Runner → ℕ → Job → Store → Result (ℕ × Store)
  unfolding is_stale
  recover_one r now j store =
      if is_stale r now j
      then (update (recovery j) (some (claim_condition j.claimed_by)) store >>= λ out.
          ok (counted out))
      else ok (0, store)

  unfoldable pub promote_one : ℕ → Job → Store → Result (ℕ × Store)
  unfolding is_due
  promote_one now j store =
      if is_due now j
      then (update (record (blank j.job_id) { new_status = some pending })
            (some (status_is scheduled)) store
          >>= λ out. ok (counted out))
      else ok (0, store)

  -- `_recover_stale` and `_promote_due_scheduled`.
  unfoldable pub recover_stale : Runner → ℕ → Store → Result (ℕ × Store)
  unfolding recover_one each
  recover_stale r now store = each (recover_one r now) (with_status running store) store

  unfoldable pub promote_due_scheduled : ℕ → Store → Result (ℕ × Store)
  unfolding promote_one each
  promote_due_scheduled now store = each (promote_one now) (with_status scheduled store) store

  abbrev pub taken : ℕ → List ℕ → Option Job → List ℕ
  taken i claimed none = claimed
  taken i claimed (some j) = claimed ++ (i ∷ [])

  -- The loop of `_claim_and_start`, on the turns left: `rival` is what other processes write
  -- between the search of a turn and its claim.
  unfoldable pub claim :
      Runner → ℕ → ℕ → (ℕ → Store → Store) → ℕ → List ℕ → Store → Result (List ℕ × Store)
  unfolding update claim_patch
  claim r now in_flight rival zero claimed store = ok (claimed, store)
  claim r now in_flight rival (suc n) claimed store =
      if ltb (in_flight + length claimed) r.max_concurrent
      then elim (first_of (with_status pending store)) [
        | none ↦ ok (claimed, store)
        | some j ↦
            update (claim_patch r now j) (some (status_is pending)) (rival n store) >>= λ out.
            claim r now in_flight rival n (taken j.job_id claimed (out.0)) (out.1)
      ]
      else ok (claimed, store)

  -- `_CLAIM_ATTEMPT_FACTOR` is 4.
  unfoldable pub claim_and_start :
      Runner → ℕ → ℕ → (ℕ → Store → Store) → Store → Result (List ℕ × Store)
  unfolding claim
  claim_and_start r now in_flight rival store =
      claim r now in_flight rival (r.max_concurrent * 4) [] store

  unfoldable pub sweep : Runner → ℕ → ℕ → (ℕ → Store → Store) → Store → Result (List ℕ × Store)
  unfolding recover_stale promote_due_scheduled claim_and_start
  sweep r now in_flight rival store = recover_stale r now store >>= λ a.
      promote_due_scheduled now (a.1) >>= λ b. claim_and_start r now in_flight rival (b.1)

  unfoldable pub finish : Runner → Job → JobRun → Store → Result (Option Job × Store)
  unfolding update finish_patch claim_condition
  finish r j run store =
      update (finish_patch j run) (some (claim_condition (some r.runner_id))) store

  unfoldable pub release : Runner → ℕ → Store → Result (Option Job × Store)
  unfolding update claim_condition
  release r i store = update (unclaimed i pending) (some (claim_condition (some r.runner_id))) store

  -- `_run_job`: the body runs between the read of the row and the write of its outcome, while
  -- other processes write.
  unfoldable pub run_job :
      Runner
      → (JobDetails → JobRun ⊎ String)
      → (Store → Store)
      → ℕ
      → Store
      → Result (Option Job × Store)
  unfolding finish invoke load
  run_job r body meanwhile i store = elim (load i store) [
    | none ↦ ok (none, meanwhile store)
    | some j ↦ finish r j (invoke body j) (meanwhile store)
  ]

-- `enqueue`: a create that no request authenticates.
unfoldable pub enqueue :
    Runner
    → ℕ
    → JobDetails
    → JobStatus
    → Option ℕ
    → Option ℕ
    → Option ℕ
    → Option ℕ
    → Store
    → Job × Store
unfolding create
enqueue r fresh details status run_at max_attempts max_seconds creator store =
    create none fresh
      (record {
        draft_details = details;
        draft_status = some status;
        draft_run_at = run_at;
        draft_max_attempts = some (given r.default_max_attempts max_attempts);
        draft_max_seconds = max_seconds;
        draft_creator = creator;
      })
      store
