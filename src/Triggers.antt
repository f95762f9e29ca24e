-- ===== src/Triggers.antt =====
-- resourcey/triggers/triggered_service.py and trigger_runner.py: the service that fires triggers after
-- a write. A firing is a trigger's callback with its arguments; the storage is kept beside the list
-- of the firings so far.
pub mod Fired
use resourcey.Prelude.{String, Bool, Option, none, some, List, [], ◌∷◌, ◌++◌, map}
use resourcey.Value.{Row}
use resourcey.Failure.{Result, ok, err}
use resourcey.Service.{Edit, create, update, delete, Service}

-- A trigger by its name.
abbrev pub Trigger : Type 0
Trigger = String

pub record Firing : Type 0 where
  pub trigger : Trigger
  pub edits : List Edit
  pub results : List (Option Row)

-- `TriggerRunner.fire`: every callback is started once, in the order of the triggers.
unfoldable pub firings : List Trigger → List Edit → List (Option Row) → List Firing
firings triggers edits results =
    map (λ t. record { trigger = t; edits = edits; results = results }) triggers

module _ {S : Type 0} (inner : Service S) (triggers : List Trigger) where
  -- The end of a write: what the inner service raises goes on, and else `_fire` is called.
  abbrev pub then_fire :
      {A : Type 0}
      → List Edit
      → (A → List (Option Row))
      → Result A × S
      → List Firing
      → Result A × (S × List Firing)
  then_fire edits results (ok a, s) fired = (ok a, (s, fired ++ firings triggers edits (results a)))
  then_fire edits results (err e, s) fired = (err e, (s, fired))

  -- `TriggeredService`, which is a service again.
  abbrev pub triggered : Service (S × List Firing)
  triggered = record {
    do_create = λ payload s.
        then_fire (create payload ∷ []) (λ row. some row ∷ []) (inner.do_create payload s.0) s.1;
    do_read = λ id s. inner.do_read id s.0;
    do_update = λ payload condition s.
        then_fire (update payload condition ∷ []) (λ row. row ∷ [])
          (inner.do_update payload condition s.0) s.1;
    do_delete = λ id condition s.
        then_fire (delete id condition ∷ []) (λ deleted. none ∷ [])
          (inner.do_delete id condition s.0) s.1;
    do_search = λ filter sort cursor limit s. inner.do_search filter sort cursor limit s.0;
    do_count = λ filter s. inner.do_count filter s.0;
    do_batch_read = λ ids s. inner.do_batch_read ids s.0;
    do_apply_edits =
        λ edits s. then_fire edits (λ results. results) (inner.do_apply_edits edits s.0) s.1;
  }
