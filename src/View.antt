-- ===== src/View.antt =====
-- resourcey/view/view_service.py: the service of a view, which forwards every action and holds a batch
-- to the actions that the view exposes.
pub mod Exposed
use resourcey.Prelude.{Bool, List, [], ◌∷◌, if◌then◌else◌}
use resourcey.Failure.{Result, ok, err, invalid_input}
use resourcey.Action.{Action, has_action}
use resourcey.Service.{Edit, create, update, delete, Service}

-- The action of an edit.
abbrev pub action_of : Edit → Action
action_of (create payload) = Action.create
action_of (update payload condition) = Action.update
action_of (delete id condition) = Action.delete

module _ (exposed : List Action) where
  -- The loop over the edits, which raises at the first whose action is not exposed.
  unfoldable pub check_edits : List Edit → Result (Unit {0})
  check_edits [] = ok tt
  check_edits (edit ∷ edits) =
      let rest = check_edits edits in
      if has_action (action_of edit) exposed then rest else err invalid_input

module _ {S : Type 0} where
  abbrev pub if_checked : {A : Type 0} → Result (Unit {0}) → S → Result A × S → Result A × S
  if_checked (ok checked) s forwarded = forwarded
  if_checked (err e) s forwarded = (err e, s)

  -- `ViewService`, which is a service again.
  abbrev pub view_service : Service S → List Action → Service S
  view_service inner exposed = record inner {
    do_apply_edits =
        λ edits s. if_checked (check_edits exposed edits) s (inner.do_apply_edits edits s);
  }
