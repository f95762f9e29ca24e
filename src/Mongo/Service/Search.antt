-- ===== src/Mongo/Service/Search.antt =====
-- `search` of resourcey/mongo/mongo_service.py against that of resourcey/list/list_service.py.
use mathlib.Core.Option
use resourcey.Prelude.{
  ℕ, ◌≡◌, String, Bool, Option, none, some, List, length, take, last, ltb, keep, if◌then◌else◌,
}
use resourcey.Failure.{ok, err, invalid_input}
use resourcey.Service.{SortOrder}
use resourcey.Filter.{Filter, Casing}
use resourcey.Listing
use resourcey.Listing.{
  Ordered, Schema, Codec, Cursor, ListPage, after_cursor, key_precedes, id_precedes, key_of,
}
use resourcey.Sql.Convert.{Printing}
use resourcey.Sql.Keyset.{Stored, key}
use resourcey.Mongo.{IsAlike, Query, field_gt, Collection, holds}
use resourcey.Mongo.Convert.{Identifiers}
use resourcey.Mongo.Keyset.{keyset_query}
use resourcey.Mongo.Service
use resourcey.Mongo.Service.{
  Driver, MongoResource, mongo_field_for, fields_for, sort_field_for, sort_spec, Direction, up,
  down, SortSpec, entry_precedes, NamesOnce, ending_by_id, Pushed, pushed, filter_query,
  cursor_predicate, next_cursor,
}

module _ {T V : Type 0} ⦃v : Ordered V⦄ ⦃c : Casing⦄ ⦃i : Identifiers⦄ ⦃p : Printing⦄
    {co : Collection} {d : Schema T V} {st : Stored V} {resource : MongoResource}
    (driver : Driver co d st resource) where
  module _ (codec : Codec V) where
    -- Both services refuse a cursor, or both seek past it.
    abbrev Refused : Option SortOrder → Option String → Type 0
    Refused s cursor =
        (cursor_predicate driver codec s cursor ≡ err invalid_input)
        × ((models : List T) → after_cursor d codec s cursor models ≡ err invalid_input)

    abbrev Sought : Option SortOrder → Option String → Type 0
    Sought s cursor =
        (q : Option Query) × (after : T → Bool) × (cursor_predicate driver codec s cursor ≡ ok q)
        × ((models : List T) → after_cursor d codec s cursor models ≡ ok (keep after models))
        × ((m : T) → holds co q (driver.document_of m) ≡ after m)

    -- The query of a cursor.
    abbrev seek : Option SortOrder → Cursor V → Query
    seek none cur = field_gt "_id" (key st (some cur.id_value))
    seek (some o) cur =
        keyset_query (mongo_field_for d.id_field o.sort_attribute) (key st cur.sort_key)
          (key st (some cur.id_value)) cur.ascending

    -- The cursor's key and id are of the types of the fields.
    abbrev pub IsTyped : Option SortOrder → Cursor V → Type 0
    IsTyped s cur =
        (m : T)
        → IsAlike (key st (key_of d s m)) (key st cur.sort_key)
          × IsAlike (key st (some (d.get_id m))) (key st (some cur.id_value))

    -- What a cursor opens to is typed.
    abbrev pub OpensTyped : Option SortOrder → Option String → Type 0
    OpensTyped s none = Unit
    OpensTyped s (some text) = (cur : Cursor V) → codec.decode text ≡ some cur → IsTyped s cur

    -- The page that is cut from what was found.
    abbrev page_with : ℕ → List T → Option String → ListPage T
    page_with limit found after_last = record {
      items = take limit found;
      limit = limit;
      next_cursor = if ltb limit (length found) then after_last else none;
    }

    abbrev cut : Option SortOrder → ℕ → List T → ListPage T
    cut s limit found =
        page_with limit found (Option.map (next_cursor driver codec s) (last (take limit found)))
