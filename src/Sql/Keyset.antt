-- ===== src/Sql/Keyset.antt =====
-- resourcey/sql/cursor.py: the condition that seeks past the row of a cursor, against the test of
-- the list service (`_after_cursor_item` of resourcey/list/list_service.py).
pub mod Seek
use resourcey.Prelude.{
  String, ◌≡◌, refl, ap, ◌∙◌, Bool, true, false, not, ◌&&◌, ◌||◌, Option, none, some, str_eq,
  if◌then◌else◌, arith, is_some, Bool-cases, inl, inr,
}
use resourcey.Value.{
  Value, Scalar, null, one, Row, attribute, value_eq, value_lt, scalar_eq, scalar_lt,
}
use resourcey.Filter.{Casing}
use resourcey.Sql.Convert.Total.{is_orderable}
use resourcey.Sql.Convert.Nulls.{is_set-IsKnown, null_eq-value}
use resourcey.Listing.{Ordered, after_cursor_item}
use resourcey.Sql.{
  Cond, is_null, is_not_null, col_eq, col_gt, col_lt, both_of, any_of, also, end, IsKnown, Alike,
  is_set, Database,
}

abbrev pub both_conditions : Cond → Cond → Cond
both_conditions a b = both_of (also a (also b end))

abbrev pub either_condition : Cond → Cond → Cond
either_condition a b = any_of (also a (also b end))

-- `keyset_predicate`, for keys that are no Booleans, which SQLAlchemy refuses to order by. Two
-- columns are one object when they have one name.
unfoldable pub keyset_predicate : String → String → Value → Value → Bool → Cond
keyset_predicate sort_column id_column cursor_key cursor_id ascending =
    if str_eq sort_column id_column
    then (if ascending then col_gt sort_column cursor_id else col_lt sort_column cursor_id)
    else if ascending
    then (if is_set cursor_key
        then either_condition (col_gt sort_column cursor_key)
            (both_conditions (col_eq sort_column cursor_key) (col_gt id_column cursor_id))
        else either_condition (is_not_null sort_column)
            (both_conditions (is_null sort_column) (col_gt id_column cursor_id)))
    else if is_set cursor_key
    then any_of (
        also (col_lt sort_column cursor_key) (
          also (both_conditions (col_eq sort_column cursor_key) (col_gt id_column cursor_id))
            (also (is_null sort_column) end)))
    else both_conditions (is_null sort_column) (col_gt id_column cursor_id)

-- How the values of the sorted attributes, which are no Booleans, are stored, with the order of those
-- of one type.
pub record Stored (V : Type 0) ⦃v : Ordered V⦄ : Type 0 where
  pub stored : V → Scalar
  pub stored-IsKnown : (a : V) → IsKnown (one (stored a))
  pub stored-ordered : (a : V) → is_orderable (one (stored a)) ≡ true
  pub lt-stored :
      (a b : V)
      → Alike (one (stored a)) (one (stored b))
      → scalar_lt (stored a) (stored b) ≡ some (v.lt a b)
  pub eq-stored : (a b : V) → scalar_eq (stored a) (stored b) ≡ v.eqb a b

module _ {V : Type 0} ⦃v : Ordered V⦄ (st : Stored V) where
  -- A key is a stored value, or NULL.
  abbrev pub key : Option V → Value
  key none = one null
  key (some a) = one (st.stored a)
