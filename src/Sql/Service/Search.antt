-- ===== src/Sql/Service/Search.antt =====
-- `search` of resourcey/sql/sql_service.py against `search` of resourcey/list/list_service.py.
use resourcey.Prelude.{◌≡◌, ap, ◌∙◌, String, Bool, Option, none, some, List, length, keep}
use resourcey.Failure.{ok, err, invalid_input}
use resourcey.Service.{SortOrder}
use resourcey.Filter.{Filter, Casing}
use resourcey.Listing
use resourcey.Listing.{
  Ordered, Schema, Codec, Cursor, ListPage, key_lt, key_of, cursor_at, after_cursor, last_cursor,
  key_precedes, id_precedes,
}
use resourcey.Listing.Surviving.{surviving-filtered}
use resourcey.Listing.Found.{keep-filtered}
use resourcey.Sql.{Cond, Database}
use resourcey.Sql.Convert.{Printing}
use resourcey.Sql.Keyset.{Stored}
use resourcey.Sql.Service.Where.{
  selected, Describes, apply_filters-Describes, in_memory, Describes-Answers, IsTyped,
}
use resourcey.Sql.Service
use resourcey.Sql.Service.{
  Engine, SqlResource, Term, asc, asc_nulls_first, desc_nulls_last, terms_precede, IsSorted,
  all_hold, where_clause, last, apply_filters, cursor_predicate, next_cursor,
}

module _ {T V : Type 0} ⦃v : Ordered V⦄ ⦃c : Casing⦄ ⦃p : Printing⦄ {db : Database} {d : Schema T V}
    {st : Stored V} {resource : SqlResource} (engine : Engine db d st resource) where
  -- For a filter that names columns only, fits them and does not raise on a row, `count` of the
  -- SQL service is that of the list service on the same rows.
  pub sql_count-list_count :
      (rows : List T) (filter : Option Filter) (test : Option (T → Bool))
      → Describes engine filter test
      → Service.count engine rows filter ≡ Listing.count d rows (in_memory engine filter)
  unfolding Service.count Listing.count
  sql_count-list_count rows filter test described =
      (let (ws, conditions, keeps) = apply_filters-Describes engine rows filter test described in
        rw
          (
            conditions,
            surviving-filtered (in_memory engine filter) test rows
                (Describes-Answers engine filter test rows described),
          )
          (ap ok (
            engine.count_where_lem ws rows
            ∙ ap length (keep-filtered test rows (selected engine ws) keeps))))

  module _ (codec : Codec V) where
    -- Both services refuse a cursor, or both seek past it.
    abbrev Refused : Option SortOrder → Option String → Type 0
    Refused s cursor =
        (cursor_predicate engine codec s cursor ≡ err invalid_input)
        × ((models : List T) → after_cursor d codec s cursor models ≡ err invalid_input)

    abbrev Sought : Option SortOrder → Option String → Type 0
    Sought s cursor =
        (ks : List Cond) × (after : T → Bool) × (cursor_predicate engine codec s cursor ≡ ok ks)
        × ((models : List T) → after_cursor d codec s cursor models ≡ ok (keep after models))
        × ((m : T) → selected engine ks m ≡ after m)

    -- What a cursor opens to is typed.
    abbrev pub OpensTyped : Option SortOrder → Option String → Type 0
    OpensTyped s none = Unit
    OpensTyped s (some text) =
        (cur : Cursor V) → codec.decode text ≡ some cur → IsTyped engine s cur
