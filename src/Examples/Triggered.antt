-- ===== src/Examples/Triggered.antt =====
-- A service over one row whose writes start two callbacks: a row is created, read and replaced, and
-- a batch deletes it and creates it anew.
use resourcey.Prelude.{none, List, [], ◌∷◌, ◌++◌, ◌≡◌}
use resourcey.Value.{one, uid}
use resourcey.Service.{create, update, delete}
use resourcey.Triggers.{Trigger, triggered}
use resourcey.Triggers.Fired.{
  Call, write, batch, reads, perform_all, fired_by_all, perform_all-triggered,
}
use resourcey.Examples.Rows.{document, renamed}
use resourcey.Examples.Cell.{Cell, cell_service}

abbrev hooks : List Trigger
hooks = "webhook" ∷ "publish" ∷ []

abbrev calls : List Call
calls =
    write (create document)
    ∷ reads (one (uid 7))
    ∷ write (update renamed none)
    ∷ batch (delete (one (uid 7)) none ∷ create document ∷ [])
    ∷ []

abbrev empty : Cell
empty = none

perform_all-triggered_example : perform_all (triggered cell_service hooks) calls (empty, []) ≡ (
  (perform_all cell_service calls empty).0,
  (
    (perform_all cell_service calls empty).1,
    [] ++ fired_by_all hooks calls (perform_all cell_service calls empty).0,
  ),
)
perform_all-triggered_example = perform_all-triggered cell_service hooks calls empty []
