-- ===== src/Service.antt =====
-- resourcey/core/service.py: the action contract that every backend and every wrapper implements,
-- over the state `S` of the storage. An action returns its result, or an exception, and the state.
pub mod Contract
use resourcey.Prelude.{ℕ, String, Bool, true, false, Option, none, some, List, [], ◌∷◌}
use resourcey.Value.{Value, Row}
use resourcey.Failure.{Result, ok, err}
use resourcey.Filter.{Filter}

-- `AttrSortOrder`: one attribute and a direction.
pub record SortOrder : Type 0 where
  pub sort_attribute : String
  pub descending : Bool

pub record Page : Type 0 where
  pub items : List Row
  pub limit : ℕ
  pub next_cursor : Option String

-- One item of an edit batch.
pub data Edit : Type 0 where
  create : Row → Edit
  update : Row → Option Filter → Edit
  delete : Value → Option Filter → Edit

-- `Service`: its actions over a storage.
pub record Service (S : Type 0) : Type 0 where
  pub do_create : Row → S → Result Row × S
  pub do_read : Value → S → Result (Option Row)
  pub do_update : Row → Option Filter → S → Result (Option Row) × S
  pub do_delete : Value → Option Filter → S → Result Bool × S
  pub do_search : Option Filter → Option SortOrder → Option String → ℕ → S → Result Page
  pub do_count : Option Filter → S → Result ℕ
  pub do_batch_read : List Value → S → Result (List (Option Row))
  pub do_apply_edits : List Edit → S → Result (List (Option Row)) × S
