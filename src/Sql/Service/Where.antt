-- ===== src/Sql/Service/Where.antt =====
-- The WHERE clauses of resourcey/sql/sql_service.py: those of a filter select the rows that it
-- matches, and that of a cursor the rows after it.
use resourcey.Prelude.{
  and_true, ◌≡◌, refl, sym, ap, ◌∙◌, Bool, true, false, ◌&&◌, Option, none, some, List, [], ◌∷◌,
  ◌++◌, Bool-cases, inl, inr, arith, str_eq, str_eq_iff,
}
use mathlib.Core.Option
use resourcey.Listing.Surviving.{Answers, All-items}
use resourcey.Failure.{Result, ok, ok-injective}
use resourcey.Service.{SortOrder}
use resourcey.Filter.{Filter, Casing, matches, row}
use resourcey.Listing.{Ordered, Schema, Cursor, is_ascending, same_flag, follows, key_of}
use resourcey.Sql.{
  Cond, always, never, is_null, is_not_null, col_eq, col_gt, col_ge, col_lt, col_le,
  is_distinct_from, ilike, not_ilike, col_in, col_not_in, both_of, any_of, Database, Alike,
}
use resourcey.Listing.Found.{accepted}
use resourcey.Sql.Convert.{Printing, condition}
use resourcey.Sql.Convert.Total.{has_column, is_bound, is_ordered, convertible}
use resourcey.Sql.Convert.Sound.{Fits, condition-matches}
use resourcey.Sql.Keyset.{keyset_predicate, Stored, key}
use resourcey.Sql.Keyset.Seek.{id_walk, other_walk}
use resourcey.Sql.Service
use resourcey.Sql.Service.{
  Engine, SqlResource, Term, asc, asc_nulls_first, desc_nulls_last, order_terms, terms_precede,
  IsSorted, all_hold, where_clause, last, apply_filters, cursor_predicate, page_of_found,
  next_cursor,
}

same_flag-true : (b : Bool) → same_flag b true ≡ true → b ≡ true
same_flag-true true e = refl
same_flag-true false e = cc

module _ {T V : Type 0} ⦃v : Ordered V⦄ ⦃c : Casing⦄ ⦃p : Printing⦄ {db : Database} {d : Schema T V}
    {st : Stored V} {resource : SqlResource} (engine : Engine db d st resource) where
  abbrev pub selected : List Cond → T → Bool
  selected ws m = all_hold (λ k n. db.selects k (engine.row_of n)) ws m

  pub selected-append :
      (ws ks : List Cond) (m : T) → selected (ws ++ ks) m ≡ selected ws m && selected ks m
  selected-append [] ks m = refl
  selected-append (w ∷ ws) ks m = grind (arith, selected-append ws ks m)

  selected-where_clause :
      (k : Cond) (m : T) → selected (where_clause k) m ≡ db.selects k (engine.row_of m)
  selected-where_clause always m = sym (db.selects-always (engine.row_of m))
  selected-where_clause never m = and_true (db.selects never (engine.row_of m))
  selected-where_clause (is_null n) m = and_true (db.selects (is_null n) (engine.row_of m))
  selected-where_clause (is_not_null n) m = and_true (db.selects (is_not_null n) (engine.row_of m))
  selected-where_clause (col_eq n v) m = and_true (db.selects (col_eq n v) (engine.row_of m))
  selected-where_clause (col_gt n v) m = and_true (db.selects (col_gt n v) (engine.row_of m))
  selected-where_clause (col_ge n v) m = and_true (db.selects (col_ge n v) (engine.row_of m))
  selected-where_clause (col_lt n v) m = and_true (db.selects (col_lt n v) (engine.row_of m))
  selected-where_clause (col_le n v) m = and_true (db.selects (col_le n v) (engine.row_of m))
  selected-where_clause (is_distinct_from n v) m =
      and_true (db.selects (is_distinct_from n v) (engine.row_of m))
  selected-where_clause (ilike n q) m = and_true (db.selects (ilike n q) (engine.row_of m))
  selected-where_clause (not_ilike n q) m = and_true (db.selects (not_ilike n q) (engine.row_of m))
  selected-where_clause (col_in n vs) m = and_true (db.selects (col_in n vs) (engine.row_of m))
  selected-where_clause (col_not_in n vs) m =
      and_true (db.selects (col_not_in n vs) (engine.row_of m))
  selected-where_clause (both_of cs) m = and_true (db.selects (both_of cs) (engine.row_of m))
  selected-where_clause (any_of cs) m = and_true (db.selects (any_of cs) (engine.row_of m))

  -- A filter that converts and does not raise on a row, with the test that it is.
  abbrev pub Describes : Option Filter → Option (T → Bool) → Type 0
  Describes none none = Unit
  Describes (some f) (some test) =
      ((is_bound resource.columns false f ≡ true) × (is_ordered f ≡ true))
      × ((m : T)
          → Fits none (engine.row_of m) f × (matches f (row (engine.row_of m)) ≡ ok (test m)))
  Describes _ _ = ⊥

  -- What the list service evaluates on the rows.
  abbrev pub in_memory : Option Filter → Option (T → Result Bool)
  in_memory filter = Option.map (λ f m. matches f (row (engine.row_of m))) filter

  pub Describes-Answers :
      (filter : Option Filter) (test : Option (T → Bool)) (rows : List T)
      → Describes filter test
      → Answers (in_memory filter) test rows
  Describes-Answers none none rows h = tt
  Describes-Answers none (some test) rows h = absurd h
  Describes-Answers (some f) none rows h = absurd h
  Describes-Answers (some f) (some test) rows (named, h) = All-items rows (λ m. (h m).1)

  apply_filters-some :
      (rows : List T) (f : Filter) (k : Cond)
      → condition resource.columns none false f ≡ ok k
      → apply_filters engine rows (some f) ≡ ok (where_clause k)
  unfolding apply_filters
  apply_filters-some rows f k e = rw (e, apply_filters) refl

  pub apply_filters-Describes :
      (rows : List T) (filter : Option Filter) (test : Option (T → Bool))
      → Describes filter test
      → (ws : List Cond) × (apply_filters engine rows filter ≡ ok ws)
        × ((m : T) → selected ws m ≡ accepted test m)
  unfolding apply_filters
  apply_filters-Describes rows none none h = ([], refl, λ m. refl)
  apply_filters-Describes rows none (some test) h = absurd h
  apply_filters-Describes rows (some f) none h = absurd h
  apply_filters-Describes rows (some f) (some test) (named, h) =
      (let (k, e) = convertible resource.columns false f named.0 named.1 in
        (
          where_clause k,
          apply_filters-some rows f k e,
          λ m.
              selected-where_clause k m
              ∙ (let (k', k'', e', e'', yes', no') =
                    condition-matches db (engine.row_of m) resource.columns f (test m) named.0
                      (h m).0 (h m).1 in
                  ap (λ q. db.selects q (engine.row_of m)) (ok-injective (sym e ∙ e')) ∙ yes'),
        ))

  -- The sort that is asked for is by a sortable column.
  abbrev pub IsSortable : Option SortOrder → Type 0
  IsSortable none = Unit
  IsSortable (some o) = has_column resource.sortable o.sort_attribute ≡ true

  abbrev pub seek : Option SortOrder → Cursor V → Cond
  seek s cur =
      keyset_predicate (Service.sort_column {d = d} engine s) d.id_field (key st cur.sort_key)
        (key st (some cur.id_value)) (Service.seek_ascending engine s cur)

  -- The cursor's key and id are of the types of the columns.
  abbrev pub IsTyped : Option SortOrder → Cursor V → Type 0
  IsTyped s cur =
      (m : T)
      → Alike (key st (key_of d s m)) (key st cur.sort_key)
        × Alike (key st (some (d.get_id m))) (key st (some cur.id_value))

  -- The condition of a cursor selects what follows its row.
  pub selects-seek :
      (s : Option SortOrder) (cur : Cursor V) (m : T)
      → IsSortable s
      → same_flag cur.ascending (is_ascending s) ≡ true
      → IsTyped s cur
      → db.selects (seek s cur) (engine.row_of m) ≡ follows d s cur m
  selects-seek none cur m sortable flag typed = rw (same_flag-true cur.ascending flag) (
      id_walk db st d.id_field d.id_field (engine.row_of m) (some (d.get_id m)) (d.get_id m)
        (engine.id-row_of m) (engine.id-row_of m) (key st cur.sort_key) cur.id_value true
        ((str_eq_iff d.id_field d.id_field).1 refl) refl (typed m).1)
  selects-seek (some o) cur m sortable flag typed =
      elim (Bool-cases (str_eq o.sort_attribute d.id_field)) [
        | inl e ↦ rw e (
            id_walk db st o.sort_attribute d.id_field (engine.row_of m) (d.get o.sort_attribute m)
              (d.get_id m) (engine.sortable-row_of o.sort_attribute m sortable) (engine.id-row_of m)
              (key st cur.sort_key) cur.id_value cur.ascending e
              (ap (λ n. d.get n m) ((str_eq_iff o.sort_attribute d.id_field).0 e)
                ∙ d.get-id_field m)
              (typed m).1)
        | inr e ↦ rw e (
            other_walk db st o.sort_attribute d.id_field (engine.row_of m)
              (d.get o.sort_attribute m) (d.get_id m)
              (engine.sortable-row_of o.sort_attribute m sortable) (engine.id-row_of m) cur.sort_key
              cur.id_value cur.ascending e (typed m).0 (typed m).1)
      ]
