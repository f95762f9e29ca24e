-- ===== src/Examples/Batches.antt =====
-- A batch over two resources that share a counter of edits.
use resourcey.Prelude.{ℕ, ◌+◌, false, none, some, List, [], ◌∷◌, map, length, arith}
use resourcey.Value.{one, uid}
use resourcey.Failure.{ok, err, type_error}
use resourcey.Service.{Service, create, delete}
use resourcey.Batch.{Item, Targets, apply_batch}
use resourcey.Batch.Runs.{Runs, apply_batch-Runs}
use resourcey.Examples.Rows.{document, renamed}

abbrev tally : Service ℕ
tally = record {
  do_create = λ r s. (ok r, s + 1);
  do_read = λ i s. ok none;
  do_update = λ r f s. (ok none, s);
  do_delete = λ i f s. (ok false, s);
  do_search = λ f o c n s. err type_error;
  do_count = λ f s. ok s;
  do_batch_read = λ is s. ok [];
  do_apply_edits = λ es s. (ok (map (λ e. some document) es), s + length es);
}

abbrev targets : Targets ℕ
targets = record {
  service = λ name. tally;
  create_response = λ name r. r;
  update_response = λ name r. r;
}

abbrev batch : List Item
batch =
    record { resource = "docs"; edit = create document }
    ∷ record { resource = "docs"; edit = delete (one (uid 7)) none }
    ∷ record { resource = "users"; edit = create renamed }
    ∷ []

apply_batch-Runs_example : Runs targets batch 0 (apply_batch targets 3 batch 0)
apply_batch-Runs_example = apply_batch-Runs targets 3 batch 0 (omega arith)
