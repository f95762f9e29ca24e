-- ===== src/Mongo/Service.antt =====
-- resourcey/mongo/mongo_service.py, mongo_sort_converter.py and the field names of mongo_resource.py:
-- `search`, `count`, `batch_read` and the query of a conditional write. The DTOs are `T`, and the
-- values that documents are sorted by are `V`, as in the list service.
pub mod Sorted
pub mod Filtered
pub mod Search
pub mod Lookup
pub mod Writes
use mathlib.Core.Option
use resourcey.Prelude.{
  ℕ, zero, suc, ◌+◌, ◌≡◌, ◌↔◌, String, Bool, true, false, not, ◌&&◌, ◌||◌, Option, none, some, List,
  [], ◌∷◌, length, take, last, ltb, keep, map, Has, All, str_eq, if◌then◌else◌,
}
use resourcey.Value.{Value, one, Row, attribute}
use resourcey.Failure.{Result, ok, err, invalid_input, unsupported_filter, ◌>>=◌}
use resourcey.Service.{SortOrder}
use resourcey.Filter.{Filter, Casing, matches, row}
use resourcey.Listing
use resourcey.Listing.{
  Ordered, Schema, Codec, Cursor, ListPage, key_lt, attribute_of, is_ascending, same_field,
  same_flag, cursor_at,
}
use resourcey.Listing.Sort.{HasDistinctIds}
use resourcey.Listing.Found.{IsSortedBy}
use resourcey.Sql.Convert.{Printing}
use resourcey.Sql.Convert.Total.{has_column}
use resourcey.Sql.Keyset.{Stored, key}
use resourcey.Mongo.{
  Query, field_eq, field_gt, field_in, all_of, also, end, IsAlike, Collection, holds,
}
use resourcey.Mongo.Convert.{Identifiers, encode, condition}
use resourcey.Mongo.Keyset.{keyset_query}

-- The fields that documents may be filtered and sorted by, and `allow_filter_iteration`.
pub record MongoResource : Type 0 where
  pub queryable : List String
  pub sortable : List String
  pub allow_filter_iteration : Bool

-- `mongo_field_for`.
unfoldable pub mongo_field_for : String → String → String
mongo_field_for id_field n = if str_eq n id_field then "_id" else n

-- The `fields` of `build_filter_context` and `build_sort_context`.
unfoldable pub fields_for : String → List String → List (String × String)
unfolding mongo_field_for
fields_for id_field [] = []
fields_for id_field (n ∷ ns) = (n, mongo_field_for id_field n) ∷ fields_for id_field ns

pub data Direction : Type 0 where
  up down : Direction

abbrev pub SortSpec : Type 0
SortSpec = List (String × Direction)

-- `MongoSortContext.field_for`.
unfoldable pub sort_field_for : List (String × String) → String → Result String
sort_field_for [] n = err invalid_input
sort_field_for ((q, m) ∷ fs) n = let rest = sort_field_for fs n in if str_eq q n then ok m else rest

-- `_sort_spec`, with `MongoSortConverter.apply` and `_attr_order`.
unfoldable pub sort_spec : String → List String → Option SortOrder → Result SortSpec
unfolding sort_field_for fields_for
sort_spec id_field sortable none = ok (("_id", up) ∷ [])
sort_spec id_field sortable (some o) = do
  field ← sort_field_for (fields_for id_field sortable) o.sort_attribute
  tie ← sort_field_for (fields_for id_field sortable) id_field
  ok ((field, if o.descending then down else up) ∷ (tie, up) ∷ [])

-- `_merge_query`.
unfoldable pub merge_query : Option Query → Option Query → Option Query
merge_query none extra = extra
merge_query (some base) none = some base
merge_query (some base) (some extra) = some (all_of (also base (also extra end)))

-- What `_filter_query` returns: a query, or `_UNCONVERTIBLE`.
pub data Pushed : Type 0 where
  pushed : Option Query → Pushed
  unconvertible : Pushed

-- Mongo's order of two documents by a specification that names each field once.
module _ {T V : Type 0} ⦃v : Ordered V⦄ (field_key : String → T → Option V) where
  abbrev pub entry_precedes : (String × Direction) → T → T → Bool
  entry_precedes (field, up) a b = key_lt (field_key field a) (field_key field b)
  entry_precedes (field, down) a b = key_lt (field_key field b) (field_key field a)

  abbrev pub spec_precedes : SortSpec → T → T → Bool
  spec_precedes [] a b = false
  spec_precedes (t ∷ ts) a b =
      entry_precedes t a b || (not (entry_precedes t b a) && spec_precedes ts a b)

abbrev pub NamesOnce : SortSpec → Type 0
NamesOnce [] = Unit
NamesOnce (t ∷ ts) = All (λ u. str_eq t.0 u.0 ≡ false) ts × NamesOnce ts

-- A specification that ends by the id.
abbrev pub ending_by_id : Option (String × Direction) → SortSpec
ending_by_id none = ("_id", up) ∷ []
ending_by_id (some entry) = entry ∷ ("_id", up) ∷ []

-- A collection under the driver: its documents store the ids, which may have another form there than
-- in the DTO, and the sortable attributes as they are. `find`
-- returns each document that the query finds once, in the order of the specification; with a length
-- `to_list` returns the first of them.
pub record Driver {T V : Type 0} ⦃v : Ordered V⦄ ⦃c : Casing⦄ (co : Collection) (d : Schema T V)
    (st : Stored V) (resource : MongoResource) : Type 0 where
  pub dto_of : T → Row
  pub document_of : T → Row
  pub id-document_of : (m : T) → attribute "_id" (document_of m) ≡ key st (some (d.get_id m))
  pub sortable-document_of :
      (n : String) (m : T)
      → has_column resource.sortable n ≡ true
      → attribute (mongo_field_for d.id_field n) (document_of m) ≡ key st (d.get n m)
  pub raw_id : T → V
  pub field_key : String → T → Option V
  pub field_key-id : (m : T) → field_key "_id" m ≡ some (raw_id m)
  pub field_key-sortable :
      (n : String) (m : T)
      → has_column resource.sortable n ≡ true
      → field_key (mongo_field_for d.id_field n) m ≡ d.get n m
  pub find : Option Query → SortSpec → List T → List T
  pub find-Has :
      (q : Option Query) (ts : SortSpec) (ms : List T) (m : T)
      → Has m (find q ts ms) ↔ (Has m ms × (holds co q (document_of m) ≡ true))
  pub find-HasDistinctIds :
      (q : Option Query) (ts : SortSpec) (ms : List T)
      → HasDistinctIds d ms
      → HasDistinctIds d (find q ts ms)
  pub find-IsSorted :
      (q : Option Query) (first : Option (String × Direction)) (ms : List T)
      → HasDistinctIds d ms
      → NamesOnce (ending_by_id first)
      → IsSortedBy (spec_precedes field_key (ending_by_id first)) (find q (ending_by_id first) ms)
  pub to_list : ℕ → Option Query → SortSpec → List T → List T
  pub to_list_lem :
      (n : ℕ) (q : Option Query) (ts : SortSpec) (ms : List T)
      → to_list n q ts ms ≡ take n (find q ts ms)
  pub count_documents : Option Query → List T → ℕ
  pub count_documents_lem :
      (q : Option Query) (ms : List T)
      → count_documents q ms ≡ length (keep (λ m. holds co q (document_of m)) ms)

module _ {V : Type 0} ⦃v : Ordered V⦄ where
  -- `list(dict.fromkeys(ids))`: the first of each.
  unfoldable pub fromkeys : List V → List V
  fromkeys [] = []
  fromkeys (i ∷ is) = i ∷ keep (λ j. not (v.eqb i j)) (fromkeys is)

module _ {T V : Type 0} ⦃v : Ordered V⦄ ⦃c : Casing⦄ ⦃i : Identifiers⦄ ⦃p : Printing⦄
    {co : Collection} {d : Schema T V} {st : Stored V} {resource : MongoResource}
    (driver : Driver co d st resource) where
  -- `_filter_query`.
  unfoldable pub filter_query : Option Filter → Result Pushed
  unfolding condition fields_for
  filter_query none = ok (pushed none)
  filter_query (some f) = elim (condition (fields_for d.id_field resource.queryable) none false f) [
    | ok q ↦ ok (pushed q)
    | err unsupported_filter ↦
        if resource.allow_filter_iteration then ok unconvertible else err unsupported_filter
    | err e ↦ err e
  ]

  -- `_condition_query` of a condition, and `_write_query`.
  unfoldable pub condition_query : Filter → Result (Option Query)
  unfolding filter_query
  condition_query f = elim (filter_query (some f)) [
    | ok (pushed q) ↦ ok q
    | ok unconvertible ↦ err unsupported_filter
    | err e ↦ err e
  ]

  unfoldable pub write_query : V → Option Filter → Result (Option Query)
  unfolding condition_query merge_query
  write_query id none = ok (some (field_eq "_id" (key st (some id))))
  write_query id (some f) = do
    q ← condition_query f
    ok (merge_query (some (field_eq "_id" (key st (some id)))) q)

  -- `search_filter.matches` of each document, in memory.
  unfoldable pub surviving : Filter → List T → Result (List T)
  unfolding matches
  surviving f [] = ok []
  surviving f (m ∷ ms) = do
    survives ← matches f (row (driver.dto_of m))
    rest ← surviving f ms
    ok (if survives then m ∷ rest else rest)

  -- `_iterated_documents`.
  unfoldable pub iterated_documents : List T → Option Filter → Result (List T)
  unfolding surviving
  iterated_documents documents none = ok (driver.find none [] documents)
  iterated_documents documents (some f) = surviving f (driver.find none [] documents)

  module _ (codec : Codec V) where
    -- `_cursor_predicate` and `_decode`.
    unfoldable pub cursor_predicate : Option SortOrder → Option String → Result (Option Query)
    unfolding keyset_query mongo_field_for
    cursor_predicate s none = ok none
    cursor_predicate s (some text) = elim (codec.decode text) [
      | none ↦ err invalid_input
      | some cur ↦
          if not (same_field cur.sort_field (attribute_of s))
            || not (same_flag cur.ascending (is_ascending s))
          then err invalid_input
          else elim s [
            | none ↦ ok (some (field_gt "_id" (key st (some cur.id_value))))
            | some o ↦ ok (
                some (
                  keyset_query (mongo_field_for d.id_field o.sort_attribute) (key st cur.sort_key)
                    (key st (some cur.id_value)) cur.ascending))
          ]
    ]

    -- `_next_cursor`.
    unfoldable pub next_cursor : Option SortOrder → T → String
    unfolding mongo_field_for
    next_cursor s m = codec.encode (record {
      sort_field = attribute_of s;
      ascending = is_ascending s;
      sort_key = elim s [
        | none ↦ driver.field_key "_id" m
        | some o ↦ driver.field_key (mongo_field_for d.id_field o.sort_attribute) m
      ];
      id_value = driver.raw_id m;
    })

    -- The end of `search` and of `_search_by_iteration`: the page of the documents of a query.
    unfoldable pub page_of_query :
        List T → Option Query → Option SortOrder → ℕ → Result (ListPage T)
    unfolding sort_spec next_cursor
    page_of_query documents query s limit = do
      spec ← sort_spec d.id_field resource.sortable s
      ok (
          (let found = driver.to_list (limit + 1) query spec documents in
            record {
              items = take limit found;
              limit = limit;
              next_cursor =
                  if ltb limit (length found)
                  then Option.map (next_cursor s) (last (take limit found))
                  else none;
            }))

    unfoldable pub search_by_iteration :
        List T → Option Filter → Option SortOrder → Option String → ℕ → Result (ListPage T)
    unfolding iterated_documents cursor_predicate merge_query page_of_query
    search_by_iteration documents filter s cursor limit = do
      matching ← iterated_documents documents filter
      predicate ← cursor_predicate s cursor
      page_of_query documents
          (merge_query (some (field_in "_id" (map (λ m. key st (some (d.get_id m))) matching)))
            predicate)
          s limit

    unfoldable pub search :
        List T → Option Filter → Option SortOrder → Option String → ℕ → Result (ListPage T)
    unfolding filter_query search_by_iteration
    search documents filter s cursor limit = filter_query filter >>= λ query. elim query [
      | unconvertible ↦ search_by_iteration documents filter s cursor limit
      | pushed q ↦ cursor_predicate s cursor >>= λ predicate.
          page_of_query documents (merge_query q predicate) s limit
    ]

  unfoldable pub count : List T → Option Filter → Result ℕ
  unfolding filter_query iterated_documents
  count documents filter = filter_query filter >>= λ query. elim query [
    | unconvertible ↦ iterated_documents documents filter >>= λ matching. ok (length matching)
    | pushed q ↦ ok (driver.count_documents q documents)
  ]

  -- `batch_read`: no more documents than different ids are fetched.
  unfoldable pub batch_read : List T → List V → List (Option T)
  unfolding Listing.batch_read fromkeys
  batch_read documents [] = []
  batch_read documents (i ∷ is) =
      let unique = fromkeys (i ∷ is) in
      let found =
        driver.to_list (length unique) (some (field_in "_id" (map (λ j. key st (some j)) unique)))
          [] documents in
      Listing.batch_read d found (i ∷ is)
