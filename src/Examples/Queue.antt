-- ===== src/Examples/Queue.antt =====
-- The job theorems for two runners and a queue of two jobs.
use resourcey.Prelude.{
  ℕ, Bool, true, false, Option, none, some, List, [], ◌∷◌, ◌≡◌, ◌≤◌, ◌+◌, ◌==◌, refl, length,
  if◌then◌else◌, arith,
}
use resourcey.Value.{attribute, value_eq, scalar_eq}
use resourcey.Failure.{ok}
use resourcey.Filter.Build.{
  or_, and_, not_, attr, flatten_conj, and_children, flatten_disj, or_children,
}
use resourcey.Jobs.{
  JobStatus, pending, running, completed, Job, Patch, patched, Store, load, update, update_where,
  status_is, terminal_guard, update_rows, folded,
}
use resourcey.Jobs.Statuses.{is_terminal, accepts}
use resourcey.Jobs.Guard.{update_lem}
use resourcey.Jobs.Runner.{
  Runner, JobRun, claim_patch, finish, finish_patch, claim_condition, claim, claim_and_start, blank,
}
use resourcey.Jobs.Runner.Claims.{
  finish_lem, Finished, claim-exclusive, claim_and_start-capacity, finish-applies,
}
use resourcey.Jobs.Runner.Progress.{Full, claim_and_start-Full}
use resourcey.Jobs.Runner.Life.{Steps, done, after, updated, terminal-sticky}
use resourcey.Examples.Rows.{plain}
use resourcey.Examples.Database.{database, eval}
use resourcey.Examples.Queries.{printing}
use resourcey.Sql.Convert.{condition, column_for}

abbrev is_running : JobStatus → Bool
is_running running = true
is_running _ = false

abbrev job : ℕ → JobStatus → Option ℕ → ℕ → Job
job i s owner tries = record {
  job_id = i;
  job_details_kind = "Report";
  job_details = record { details_kind = "Report"; body = "{}" };
  status = s;
  detail = none;
  run_at = none;
  claimed_by = owner;
  claimed_at = if is_running s then some 1000 else none;
  attempts = tries;
  max_attempts = 2;
  max_seconds_for_run = some 60;
  creator_id = none;
}

abbrev runner : ℕ → Runner
runner i = record {
  runner_id = i;
  max_concurrent = 2;
  default_max_seconds_for_run = 60;
  default_max_attempts = 1;
}

abbrev queue : Store
queue = job 1 completed none 1 ∷ job 2 pending none 0 ∷ []

abbrev claimed_job : Job
claimed_job = job 2 running (some 5) 1

abbrev claimed_queue : Store
claimed_queue = job 1 completed none 1 ∷ job 2 running (some 5) 1 ∷ []

abbrev claim_of : Patch
claim_of = record (blank 2) {
  new_status = some running;
  new_claimed_by = some (some 5);
  new_claimed_at = some (some 1000);
  new_attempts = some 1;
}

update_lem_example :
    (i : ℕ) × (old : Job) × (claim_of.patch_id ≡ some i)
    × (load i queue ≡ some old)
    × (is_terminal old.status ≡ false)
    × (accepts ⦃c = plain⦄ ⦃p = printing⦄ ⦃db = database⦄ (folded (some (status_is pending))) old
        ≡ ok true)
    × (job 2 running (some 5) 1 ≡ patched claim_of old)
    × ((k : ℕ)
        → load k claimed_queue ≡ (if i == k then some (job 2 running (some 5) 1) else load k queue))
unfolding update update_where update_rows condition column_for eval terminal_guard and_ or_ not_
    attr flatten_conj and_children flatten_disj or_children value_eq scalar_eq attribute
update_lem_example =
    update_lem ⦃c = plain⦄ ⦃p = printing⦄ ⦃db = database⦄ claim_of (some (status_is pending)) queue
      claimed_queue (job 2 running (some 5) 1) refl

abbrev reopened : Patch
reopened = record (blank 1) { new_status = some pending }

claim-exclusive_example :
    (claimed_job.status ≡ running)
    × (claimed_job.claimed_by ≡ some 5)
    × (load 2 claimed_queue ≡ some (job 2 running (some 5) 1))
    × (update ⦃c = plain⦄ ⦃p = printing⦄ ⦃db = database⦄
          (claim_patch (runner 6) 1001 (job 2 pending none 0))
          (some (status_is pending))
          claimed_queue
        ≡ ok (none, claimed_queue))
unfolding claim_patch update update_where update_rows condition column_for eval terminal_guard and_
    or_ not_ attr flatten_conj and_children flatten_disj or_children value_eq scalar_eq attribute
claim-exclusive_example =
    claim-exclusive ⦃c = plain⦄ ⦃p = printing⦄ ⦃db = database⦄ (runner 5) (runner 6) 1000 1001
      (job 2 pending none 0) (job 2 pending none 0) queue claimed_queue (job 2 running (some 5) 1)
      refl refl

abbrev success : JobRun
success = record { failed = false; run_detail = some "done" }

abbrev finished_job : Job
finished_job = record (job 2 completed (some 5) 1) { detail = some "done"; claimed_at = some 1000 }

abbrev finished_queue : Store
finished_queue = job 1 completed none 1 ∷ finished_job ∷ []

finish_lem_example :
    (old : Job) × (load 2 claimed_queue ≡ some old)
    × (old.status ≡ running)
    × (old.claimed_by ≡ some 5)
    × Finished (job 2 running (some 5) 1) success old finished_job
    × ((k : ℕ)
        → load k finished_queue ≡ (if 2 == k then some finished_job else load k claimed_queue))
unfolding finish finish_patch claim_condition update update_where update_rows condition column_for
    eval terminal_guard and_ or_ not_ attr flatten_conj and_children flatten_disj or_children
    value_eq scalar_eq attribute
finish_lem_example =
    finish_lem ⦃c = plain⦄ ⦃p = printing⦄ ⦃db = database⦄ (runner 5) (job 2 running (some 5) 1)
      success claimed_queue finished_queue finished_job refl

abbrev ids : List ℕ
ids = 2 ∷ []

claim_and_start-capacity_example : 1 + length ids ≤ 2
unfolding claim_and_start claim claim_patch update update_where update_rows condition column_for
    eval terminal_guard and_ or_ not_ attr flatten_conj and_children flatten_disj or_children
    value_eq scalar_eq attribute
claim_and_start-capacity_example =
    claim_and_start-capacity ⦃c = plain⦄ ⦃p = printing⦄ ⦃db = database⦄ (runner 5) 1000 1 (λ n s. s)
      queue claimed_queue ids (omega arith) refl

one_step : Steps ⦃c = plain⦄ ⦃p = printing⦄ ⦃db = database⦄ queue claimed_queue
unfolding update update_where update_rows condition column_for eval terminal_guard and_ or_ not_
    attr flatten_conj and_children flatten_disj or_children value_eq scalar_eq attribute
one_step =
    after (updated claim_of (some (status_is pending)) (some (job 2 running (some 5) 1)) refl) done

terminal-sticky_example : load 1 claimed_queue ≡ some (job 1 completed none 1)
unfolding load
terminal-sticky_example =
    terminal-sticky ⦃c = plain⦄ ⦃p = printing⦄ ⦃db = database⦄ 1 (job 1 completed none 1) one_step
      refl refl

-- The second attempt of a job, of which the first attempt read an older row.
abbrev second_attempt : Job
second_attempt = job 2 running (some 5) 2

finish-applies_example :
    (store' : Store) × (finish ⦃c = plain⦄ ⦃p = printing⦄ ⦃db = database⦄
        (runner 5)
        claimed_job
        success
        (second_attempt ∷ [])
      ≡ ok (some (patched (finish_patch claimed_job success) second_attempt), store'))
    × Finished claimed_job success second_attempt
        (patched (finish_patch claimed_job success) second_attempt)
unfolding load
finish-applies_example =
    finish-applies ⦃c = plain⦄ ⦃p = printing⦄ ⦃db = database⦄ (runner 5) claimed_job success
      (second_attempt ∷ []) second_attempt refl refl refl

abbrev waiting_job : Job
waiting_job = job 2 pending none 0

claim_and_start-Full_example :
    (found : List ℕ) × (s' : Store) × (claim_and_start ⦃c = plain⦄ ⦃p = printing⦄ ⦃db = database⦄
        (runner 5)
        1000
        1
        (λ n s. s)
        queue
      ≡ ok (found, s'))
    × Full ⦃c = plain⦄ ⦃p = printing⦄ ⦃db = database⦄ (runner 5) 1 found s'
claim_and_start-Full_example =
    claim_and_start-Full ⦃c = plain⦄ ⦃p = printing⦄ ⦃db = database⦄ (runner 5) 1000 1 queue
      ((refl, tt), (tt, tt))
