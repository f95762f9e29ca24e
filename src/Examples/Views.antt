-- ===== src/Examples/Views.antt =====
-- A view that shows the updates of a service over one row, and a batch that deletes the row too.
use resourcey.Prelude.{none, some, List, [], ◌∷◌, ◌⊎◌, ◌≡◌}
use resourcey.Value.{one, uid}
use resourcey.Failure.{err, invalid_input}
use resourcey.Action.{Action}
use resourcey.Service.{Edit, update, delete}
use resourcey.View.{view_service}
use resourcey.View.Exposed.{AllExposed, view_apply_edits_lem}
use resourcey.Examples.Rows.{document, renamed}
use resourcey.Examples.Cell.{Cell, cell_service}

abbrev updates_only : List Action
updates_only = Action.read ∷ Action.update ∷ []

abbrev edits : List Edit
edits = update renamed none ∷ delete (one (uid 7)) none ∷ []

abbrev stored : Cell
stored = some document

view_apply_edits_lem_example :
    (AllExposed updates_only edits
      × ((view_service cell_service updates_only).do_apply_edits edits stored
          ≡ cell_service.do_apply_edits edits stored))
    ⊎ (¬ AllExposed updates_only edits
        × ((view_service cell_service updates_only).do_apply_edits edits stored
            ≡ (err invalid_input, stored)))
view_apply_edits_lem_example = view_apply_edits_lem cell_service updates_only edits stored
