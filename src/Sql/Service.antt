-- ===== src/Sql/Service.antt =====
-- resourcey/sql/sql_service.py and sort_converter.py: `search` and `count` over the rows of a
-- table. The DTOs are `T`, and the values that rows are sorted by are `V`, as in the list service.
pub mod Sorted
pub mod Where
pub mod Search
pub mod Lookup
use resourcey.Prelude.{
  last, ℕ, zero, suc, ◌+◌, ◌≡◌, ◌↔◌, String, Bool, true, false, not, ◌&&◌, ◌||◌, Option, none, some,
  List, [], ◌∷◌, ◌++◌, length, take, ltb, keep, map, Has, All, if◌then◌else◌,
}
use resourcey.Value.{Value, one, Row, attribute}
use resourcey.Failure.{Result, ok, err, invalid_input, unsupported_filter, ◌>>=◌}
use resourcey.Service.{SortOrder}
use resourcey.Filter.{Filter, Casing, matches, row}
use resourcey.Listing
use resourcey.Listing.{
  Ordered, Schema, Codec, Cursor, ListPage, key_lt, attribute_of, is_ascending, same_field,
  same_flag, key_of, cursor_at,
}
use resourcey.Listing.Sort.{HasDistinctIds}
use resourcey.Listing.Found.{IsSortedBy}
use resourcey.Sql.{Cond, always, col_in, Database}
use resourcey.Sql.Convert.{Printing, condition}
use resourcey.Sql.Convert.Total.{has_column}
use resourcey.Sql.Keyset.{keyset_predicate, Stored, key}

-- An entry of ORDER BY.
pub data Term : Type 0 where
  asc asc_nulls_first desc_nulls_last : String → Term

-- The columns that rows may be filtered and sorted by, and `allow_filter_iteration`.
pub record SqlResource : Type 0 where
  pub columns : List String
  pub sortable : List String
  pub allow_filter_iteration : Bool

-- SQL's order of two rows, entry by entry.
module _ {T V : Type 0} ⦃v : Ordered V⦄ (d : Schema T V) where
  abbrev pub term_precedes : Term → T → T → Bool
  term_precedes (asc n) a b = key_lt (d.get n a) (d.get n b)
  term_precedes (asc_nulls_first n) a b = key_lt (d.get n a) (d.get n b)
  term_precedes (desc_nulls_last n) a b = key_lt (d.get n b) (d.get n a)

  abbrev pub terms_precede : List Term → T → T → Bool
  terms_precede [] a b = false
  terms_precede (t ∷ ts) a b =
      term_precedes t a b || (not (term_precedes t b a) && terms_precede ts a b)

  abbrev pub IsSorted : List Term → List T → Type 0
  IsSorted ts = IsSortedBy (terms_precede ts)

abbrev pub all_hold : {T : Type 0} → (Cond → T → Bool) → List Cond → T → Bool
all_hold holds [] m = true
all_hold holds (c ∷ cs) m = holds c m && all_hold holds cs m

-- `SqlSortConverter.apply`: the identifier ends every ordering.
abbrev pub terms_for : String → Option SortOrder → List Term
terms_for id_column none = asc id_column ∷ []
terms_for id_column (some o) =
    (if o.descending then desc_nulls_last o.sort_attribute else asc_nulls_first o.sort_attribute)
    ∷ asc id_column
    ∷ []

-- `_apply_sort`.
unfoldable pub order_terms : List String → String → Option SortOrder → Result (List Term)
order_terms sortable id_column none = ok (terms_for id_column none)
order_terms sortable id_column (some o) =
    if has_column sortable o.sort_attribute
    then ok (terms_for id_column (some o))
    else err invalid_input

-- `SqlFilterConverter.apply`: a condition that is the constant true adds nothing.
abbrev pub where_clause : Cond → List Cond
where_clause always = []
where_clause c = c ∷ []

-- A table of DTOs under SQLAlchemy and the database: its rows hold the identifiers and the sortable
-- columns as they are stored. A query returns each row that its conditions select once, in the
-- order that it asks for, and with a limit its first rows.
pub record Engine {T V : Type 0} ⦃v : Ordered V⦄ ⦃c : Casing⦄ (db : Database) (d : Schema T V)
    (st : Stored V) (resource : SqlResource) : Type 0 where
  pub row_of : T → Row
  pub id-row_of : (m : T) → attribute d.id_field (row_of m) ≡ key st (some (d.get_id m))
  pub sortable-row_of :
      (n : String) (m : T)
      → has_column resource.sortable n ≡ true
      → attribute n (row_of m) ≡ key st (d.get n m)
  pub query : List Cond → List Term → List T → List T
  pub query-Has :
      (ws : List Cond) (ts : List Term) (rows : List T) (m : T)
      → Has m (query ws ts rows)
        ↔ (Has m rows × (all_hold (λ k n. db.selects k (row_of n)) ws m ≡ true))
  pub query-HasDistinctIds :
      (ws : List Cond) (ts : List Term) (rows : List T)
      → HasDistinctIds d rows
      → HasDistinctIds d (query ws ts rows)
  pub query-IsSorted :
      (ws : List Cond) (s : Option SortOrder) (rows : List T)
      → HasDistinctIds d rows
      → IsSorted d (terms_for d.id_field s) (query ws (terms_for d.id_field s) rows)
  pub query_limited : ℕ → List Cond → List Term → List T → List T
  pub query_limited_lem :
      (n : ℕ) (ws : List Cond) (ts : List Term) (rows : List T)
      → query_limited n ws ts rows ≡ take n (query ws ts rows)
  pub count_where : List Cond → List T → ℕ
  pub count_where_lem :
      (ws : List Cond) (rows : List T)
      → count_where ws rows ≡ length (keep (all_hold (λ k n. db.selects k (row_of n)) ws) rows)

module _ {T V : Type 0} ⦃v : Ordered V⦄ (d : Schema T V) (codec : Codec V) where
  abbrev pub next_cursor : Option SortOrder → Option T → Option String
  next_cursor s none = none
  next_cursor s (some m) = some (codec.encode (cursor_at d s m))

  -- A row beyond the limit says that there is a next page.
  abbrev pub page_of_found : Option SortOrder → ℕ → List T → ListPage T
  page_of_found s limit found = record {
    items = take limit found;
    limit = limit;
    next_cursor =
        if ltb limit (length found) then next_cursor s (last (take limit found)) else none;
  }

module _ {T V : Type 0} ⦃v : Ordered V⦄ ⦃c : Casing⦄ ⦃p : Printing⦄ {db : Database} {d : Schema T V}
    {st : Stored V} {resource : SqlResource} (engine : Engine db d st resource) where
  -- `search_filter.matches` of each row, in memory.
  unfoldable pub surviving : Filter → List T → Result (List T)
  unfolding matches
  surviving f [] = ok []
  surviving f (m ∷ ms) = do
    survives ← matches f (row (engine.row_of m))
    rest ← surviving f ms
    ok (if survives then m ∷ rest else rest)

  abbrev stored_id : T → Value
  stored_id m = one (st.stored (d.get_id m))

  -- `_apply_filters` and `_apply_filters_by_iteration`.
  unfoldable pub apply_filters : List T → Option Filter → Result (List Cond)
  unfolding condition surviving
  apply_filters rows none = ok []
  apply_filters rows (some f) = elim (condition resource.columns none false f) [
    | ok k ↦ ok (where_clause k)
    | err unsupported_filter ↦
        if resource.allow_filter_iteration
        then (surviving f (engine.query [] [] rows) >>= λ ms.
            ok (col_in d.id_field (map stored_id ms) ∷ []))
        else err unsupported_filter
    | err e ↦ err e
  ]

  abbrev pub sort_column : Option SortOrder → String
  sort_column none = d.id_field
  sort_column (some o) = o.sort_attribute

  abbrev pub seek_ascending : Option SortOrder → Cursor V → Bool
  seek_ascending none cur = true
  seek_ascending (some o) cur = cur.ascending

  module _ (codec : Codec V) where
    -- `_cursor_predicate` and `_decode`.
    unfoldable pub cursor_predicate : Option SortOrder → Option String → Result (List Cond)
    unfolding keyset_predicate
    cursor_predicate s none = ok []
    cursor_predicate s (some text) = elim (codec.decode text) [
      | none ↦ err invalid_input
      | some cur ↦
          if not (same_field cur.sort_field (attribute_of s))
            || not (same_flag cur.ascending (is_ascending s))
          then err invalid_input
          else ok (
              keyset_predicate (sort_column s) d.id_field (key st cur.sort_key)
                (key st (some cur.id_value)) (seek_ascending s cur)
              ∷ [])
    ]

    unfoldable pub search :
        List T → Option Filter → Option SortOrder → Option String → ℕ → Result (ListPage T)
    unfolding order_terms apply_filters cursor_predicate
    search rows filter s cursor limit = do
      ts ← order_terms resource.sortable d.id_field s
      ws ← apply_filters rows filter
      ks ← cursor_predicate s cursor
      ok (page_of_found d codec s limit (engine.query_limited (limit + 1) (ws ++ ks) ts rows))

  unfoldable pub count : List T → Option Filter → Result ℕ
  unfolding apply_filters
  count rows filter = do ws ← apply_filters rows filter; ok (engine.count_where ws rows)

  -- `batch_read`: the rows of the given ids, in no particular order, and the ids looked up in them.
  unfoldable pub batch_read : List T → List V → List (Option T)
  unfolding Listing.batch_read
  batch_read rows ids =
      Listing.batch_read d
        (engine.query (col_in d.id_field (map (λ i. one (st.stored i)) ids) ∷ []) [] rows) ids
