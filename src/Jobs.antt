-- ===== src/Jobs.antt =====
-- resourcey/jobs/jobs_model.py: the `jobs` rows and the service that guards their terminal
-- statuses, over the conditional writes of resourcey/sql/sql_service.py. A timestamp counts
-- microseconds; a negative attempt or second count is left out. The store lists the rows in the
-- order that a search of the table answers. A condition is what the database makes of its conversion.
pub mod Statuses
pub mod Guard
pub mod Runner
use resourcey.Prelude.{
  ℕ, String, Bool, true, false, Option, none, some, List, [], ◌∷◌, ◌++◌, ◌==◌, if◌then◌else◌,
}
use resourcey.Value.{Value, Scalar, null, text, uid, stamp, int, one, Row}
use resourcey.Prelude.Int.{pos}
use resourcey.Failure.{Result, ok, err, service_error, ◌>>=◌}
use resourcey.Filter.{Filter, Casing}
use resourcey.Sql.{Cond, Database}
use resourcey.Sql.Convert.{Printing, condition}
use resourcey.Filter.Build.{and_, or_, not_, attr}

-- `JobStatus`.
pub data JobStatus : Type 0 where
  pending scheduled running completed error cancelled : JobStatus

abbrev pub status_text : JobStatus → String
status_text pending = "PENDING"
status_text scheduled = "SCHEDULED"
status_text running = "RUNNING"
status_text completed = "COMPLETED"
status_text error = "ERROR"
status_text cancelled = "CANCELLED"

-- `JobDetails`: its class name and the stored body.
pub record JobDetails : Type 0 where
  pub details_kind : String
  pub body : String

pub record Job : Type 0 where
  pub job_id : ℕ
  pub job_details_kind : String
  pub job_details : JobDetails
  pub status : JobStatus
  pub detail : Option String
  pub run_at : Option ℕ
  pub claimed_by : Option ℕ
  pub claimed_at : Option ℕ
  pub attempts : ℕ
  pub max_attempts : ℕ
  pub max_seconds_for_run : Option ℕ
  pub creator_id : Option ℕ

abbrev pub nullable : (ℕ → Scalar) → Option ℕ → Value
nullable f none = one null
nullable f (some n) = one (f n)

abbrev nullable_text : Option String → Value
nullable_text none = one null
nullable_text (some s) = one (text s)

abbrev seconds : ℕ → Scalar
seconds n = int (pos n)

-- The columns that a condition may name; the body and the times of creation are left out.
abbrev pub job_row : Job → Row
job_row j =
    ("id", one (uid j.job_id))
    ∷ ("status", one (text (status_text j.status)))
    ∷ ("claimed_by", nullable uid j.claimed_by)
    ∷ ("claimed_at", nullable stamp j.claimed_at)
    ∷ ("run_at", nullable stamp j.run_at)
    ∷ ("job_details_kind", one (text j.job_details_kind))
    ∷ ("detail", nullable_text j.detail)
    ∷ ("attempts", one (int (pos j.attempts)))
    ∷ ("max_attempts", one (int (pos j.max_attempts)))
    ∷ ("max_seconds_for_run", nullable seconds j.max_seconds_for_run)
    ∷ ("creator_id", nullable uid j.creator_id)
    ∷ []

abbrev pub job_columns : List String
job_columns =
    "id" ∷ "status" ∷ "claimed_by" ∷ "claimed_at" ∷ "run_at" ∷ "job_details_kind" ∷ "detail"
    ∷ "attempts" ∷ "max_attempts" ∷ "max_seconds_for_run" ∷ "creator_id" ∷ []

-- The DTO of an update: an absent field is `MISSING`, a present one may be null.
pub record Patch : Type 0 where
  pub patch_id : Option ℕ
  pub new_status : Option JobStatus
  pub new_detail : Option (Option String)
  pub new_run_at : Option (Option ℕ)
  pub new_claimed_by : Option (Option ℕ)
  pub new_claimed_at : Option (Option ℕ)
  pub new_attempts : Option ℕ
  pub new_max_attempts : Option ℕ
  pub new_max_seconds : Option (Option ℕ)

abbrev supplied {ℓ} : {A : Type ℓ} → A → Option A → A
supplied old none = old
supplied old (some new) = new

-- Supplied fields are written, the others stay; the id is never written.
abbrev pub patched : Patch → Job → Job
patched p j = record {
  job_id = j.job_id;
  job_details_kind = j.job_details_kind;
  job_details = j.job_details;
  status = supplied j.status p.new_status;
  detail = supplied j.detail p.new_detail;
  run_at = supplied j.run_at p.new_run_at;
  claimed_by = supplied j.claimed_by p.new_claimed_by;
  claimed_at = supplied j.claimed_at p.new_claimed_at;
  attempts = supplied j.attempts p.new_attempts;
  max_attempts = supplied j.max_attempts p.new_max_attempts;
  max_seconds_for_run = supplied j.max_seconds_for_run p.new_max_seconds;
  creator_id = j.creator_id;
}

abbrev pub Store : Type 0
Store = List Job

-- The DTO of a create: `MISSING` and null are told apart only where the service does.
pub record Draft : Type 0 where
  pub draft_details : JobDetails
  pub draft_status : Option JobStatus
  pub draft_run_at : Option ℕ
  pub draft_max_attempts : Option ℕ
  pub draft_max_seconds : Option ℕ
  pub draft_creator : Option ℕ

abbrev stamped : Option ℕ → Option ℕ → Option ℕ
stamped principal (some creator) = some creator
stamped principal none = principal

-- The row that `JobsService.create` stores under a new id: the kind is the body's own, the creator
-- the authenticated principal where the payload names none.
abbrev pub drafted : Option ℕ → ℕ → Draft → Job
drafted principal fresh d = record {
  job_id = fresh;
  job_details_kind = d.draft_details.details_kind;
  job_details = d.draft_details;
  status = supplied pending d.draft_status;
  detail = none;
  run_at = d.draft_run_at;
  claimed_by = none;
  claimed_at = none;
  attempts = 0;
  max_attempts = supplied 1 d.draft_max_attempts;
  max_seconds_for_run = d.draft_max_seconds;
  creator_id = stamped principal d.draft_creator;
}

unfoldable pub create : Option ℕ → ℕ → Draft → Store → Job × Store
create principal fresh d store = let j : Job = drafted principal fresh d in (j, store ++ (j ∷ []))

-- `_load`: the row with an id.
unfoldable pub load : ℕ → Store → Option Job
load i [] = none
load i (j ∷ js) = let rest = load i js in if j.job_id == i then some j else rest

abbrev pub status_is : JobStatus → Filter
status_is s = attr "status" (Filter.eq (one (text (status_text s))))

-- "Not terminal".
unfoldable pub terminal_guard : Filter
unfolding not_ or_ attr
terminal_guard = not_ (or_ (status_is completed ∷ status_is error ∷ status_is cancelled ∷ []))

abbrev pub folded : Option Filter → Filter
folded none = terminal_guard
folded (some f) = and_ (terminal_guard ∷ f ∷ [])

module _ ⦃c : Casing⦄ ⦃p : Printing⦄ ⦃db : Database⦄ where
  abbrev pub write_one : Bool → Patch → Job → Store → Option Job × Store
  write_one true p j js = (some (patched p j), patched p j ∷ js)
  write_one false p j js = (none, j ∷ js)

  abbrev pub kept_first : Job → Option Job × Store → Option Job × Store
  kept_first j (written, js) = (written, j ∷ js)

  -- Whether the WHERE clause lets a row through.
  abbrev pub selected : Cond → Job → Bool
  selected k j = db.selects k (job_row j)

  -- `UPDATE jobs SET .. WHERE id = .. AND condition`.
  unfoldable pub update_rows : Cond → Patch → ℕ → Store → Option Job × Store
  update_rows k p i [] = (none, [])
  update_rows k p i (j ∷ js) =
      let rest = update_rows k p i js in
      if j.job_id == i then write_one (selected k j) p j js else kept_first j rest

  -- `SqlService.update`: a condition that does not convert raises, whatever is stored.
  unfoldable pub update_where : Filter → Patch → ℕ → Store → Result (Option Job × Store)
  unfolding condition update_rows
  update_where f p i store =
      condition job_columns none false f >>= λ k. ok (update_rows k p i store)

  -- `JobsService.update`.
  unfoldable pub update : Patch → Option Filter → Store → Result (Option Job × Store)
  unfolding update_where terminal_guard
  update p condition store = elim p.patch_id [
    | none ↦ err service_error
    | some i ↦ update_where (folded condition) p i store
  ]
