-- ===== src/Batch.antt =====
-- resourcey/http/batch_routes.py: a batch of edits over several resources, applied in runs of
-- consecutive edits of one resource. `W` is the state of all the storages.
pub mod Runs
use resourcey.Prelude.{
  ℕ, zero, suc, String, Bool, true, false, Option, none, some, List, [], ◌∷◌, ◌++◌, map, str_eq,
  if◌then◌else◌,
}
use resourcey.Value.{Row}
use resourcey.Failure.{Result, ok, err, value_error, stop_iteration, ◌>>=◌}
use resourcey.Service.{Service, Edit, create, update, delete}

-- A validated item of the body.
pub record Item : Type 0 where
  pub resource : String
  pub edit : Edit

pub data Kind : Type 0 where
  creates updates deletes : Kind

-- `_edit_kind`.
abbrev pub edit_kind : Edit → Kind
edit_kind (create r) = creates
edit_kind (update r f) = updates
edit_kind (delete i f) = deletes

-- One item of the response.
pub record Body : Type 0 where
  pub resource : String
  pub kind : Kind
  pub result : Option Row

-- The services of the resources, and the projections onto their response models.
pub record Targets (W : Type 0) : Type 0 where
  pub service : String → Service W
  pub create_response : String → Row → Row
  pub update_response : String → Row → Row

-- The edits of one resource at the front, and the rest.
unfoldable pub run_of : String → List Item → List Item × List Item
run_of name [] = ([], [])
run_of name (i ∷ is) =
    let (run, later) = run_of name is in
    if str_eq i.resource name then (i ∷ run, later) else ([], i ∷ is)

module _ {W : Type 0} (t : Targets W) where
  -- `_project_edit_result`.
  abbrev pub project_edit_result : String → Edit → Option Row → Option Row
  project_edit_result name (delete i f) result = none
  project_edit_result name (create r) none = none
  project_edit_result name (create r) (some stored) = some (t.create_response name stored)
  project_edit_result name (update r f) none = none
  project_edit_result name (update r f) (some stored) = some (t.update_response name stored)

  -- `_result_body`.
  abbrev pub result_body : String → Edit → Option Row → Body
  result_body name edit result = record {
    resource = name;
    kind = edit_kind edit;
    result = project_edit_result name edit result;
  }

  -- `zip(..., strict=True)`.
  unfoldable pub result_bodies : String → List Item → List (Option Row) → Result (List Body)
  result_bodies name [] [] = ok []
  result_bodies name (i ∷ is) (r ∷ rs) = do
    bodies ← result_bodies name is rs
    ok (result_body name i.edit r ∷ bodies)
  result_bodies name _ _ = err value_error

  abbrev pub with_bodies :
      String → List Item → Result (List (Option Row)) × W → Result (List Body) × W
  with_bodies name run (err e, w) = (err e, w)
  with_bodies name run (ok edited, w) = (result_bodies name run edited, w)

  -- `_apply_run`.
  unfoldable pub apply_run : String → List Item → W → Result (List Body) × W
  unfolding result_bodies
  apply_run name run w =
      with_bodies name run ((t.service name).do_apply_edits (map (λ i. i.edit) run) w)

  abbrev pub extended : List Body → Result (List Body) × W → Result (List Body) × W
  extended results (err e, w) = (err e, w)
  extended results (ok later, w) = (ok (results ++ later), w)

  abbrev pub then_rest :
      Result (List Body) × W → (W → Result (List Body) × W) → Result (List Body) × W
  then_rest (err e, w) rest = (err e, w)
  then_rest (ok results, w) rest = extended results (rest w)

  -- `_apply_batch`; a round for each run.
  unfoldable pub apply_batch : ℕ → List Item → W → Result (List Body) × W
  unfolding apply_run run_of
  apply_batch n [] w = (ok [], w)
  apply_batch zero (i ∷ is) w = (err stop_iteration, w)
  apply_batch (suc n) (i ∷ is) w =
      then_rest (apply_run i.resource (run_of i.resource (i ∷ is)).0 w)
        (λ w'. apply_batch n (run_of i.resource (i ∷ is)).1 w')
