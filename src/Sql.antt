-- ===== src/Sql.antt =====
-- The SQL backend: the expressions that resourcey/sql/filter_converter.py and
-- resourcey/sql/cursor.py build with SQLAlchemy, and what a database documents of them.
pub mod Like
pub mod Convert
pub mod Keyset
pub mod Service
use resourcey.Prelude.{
  String, ◌≡◌, ◌≢◌, Bool, true, false, not, ◌||◌, ◌&&◌, Option, none, some, List, [], ◌∷◌, All,
}
use resourcey.Value.{
  Value, Scalar, null, bool, int, text, uid, stamp, one, many, Row, attribute, value_eq, value_lt,
  value_le, is_among,
}
use resourcey.Text.{occurs_in}
use resourcey.Filter.{Casing}
use resourcey.Sql.Like.{IsAscii, around, parts_from}

-- `ColumnElement[bool]`, by the calls that make it.
mutual
  pub data Cond : Type 0 where
    always never : Cond
    is_null is_not_null : String → Cond
    col_eq col_gt col_ge col_lt col_le is_distinct_from : String → Value → Cond
    ilike not_ilike : String → String → Cond
    col_in col_not_in : String → List Value → Cond
    both_of any_of : Conds → Cond

  pub data Conds : Type 0 where
    end : Conds
    also : Cond → Conds → Conds

-- A value of a plain column, one that a column is compared with, and the test of NULL.
abbrev pub IsScalar : Value → Type 0
IsScalar (one s) = Unit
IsScalar (many vs) = ⊥

abbrev pub IsKnown : Value → Type 0
IsKnown (one null) = ⊥
IsKnown (one s) = Unit
IsKnown (many vs) = ⊥

-- A column of one type and a value of that type, either of which may be NULL.
abbrev pub Alike : Value → Value → Type 0
Alike (one null) (one s) = Unit
Alike (one s) (one null) = Unit
Alike (one (bool a)) (one (bool b)) = Unit
Alike (one (int a)) (one (int b)) = Unit
Alike (one (text a)) (one (text b)) = Unit
Alike (one (uid a)) (one (uid b)) = Unit
Alike (one (stamp a)) (one (stamp b)) = Unit
Alike w v = ⊥

abbrev pub is_set : Value → Bool
is_set (one null) = false
is_set v = true

-- Which rows a WHERE clause lets through: NULL is none of the other values, a comparison with it
-- lets no row through, and two values of a column's type compare as they do in Python; texts by
-- their code points, as under SQLite's BINARY and PostgreSQL's C collation.
pub record Database ⦃c : Casing⦄ : Type 0 where
  pub selects : Cond → Row → Bool
  pub selects-always : (r : Row) → selects always r ≡ true
  pub selects-never : (r : Row) → selects never r ≡ false
  pub selects-is_null :
      (n : String) (r : Row) → selects (is_null n) r ≡ not (is_set (attribute n r))
  pub selects-is_not_null :
      (n : String) (r : Row) → selects (is_not_null n) r ≡ is_set (attribute n r)
  pub selects-eq :
      (n : String) (v : Value) (r : Row)
      → IsKnown v
      → Alike (attribute n r) v
      → (selects (col_eq n v) r ≡ value_eq (attribute n r) v)
        × (selects (is_distinct_from n v) r ≡ not (value_eq (attribute n r) v))
  pub selects-gt :
      (n : String) (s : Scalar) (r : Row) (b : Bool)
      → Alike (attribute n r) (one s)
      → value_lt (one s) (attribute n r) ≡ some b
      → (selects (col_gt n (one s)) r ≡ b) × (selects (col_le n (one s)) r ≡ not b)
  pub selects-lt :
      (n : String) (s : Scalar) (r : Row) (b : Bool)
      → Alike (attribute n r) (one s)
      → value_lt (attribute n r) (one s) ≡ some b
      → (selects (col_lt n (one s)) r ≡ b) × (selects (col_ge n (one s)) r ≡ not b)
  pub selects-null :
      (n : String) (v : Value) (r : Row)
      → attribute n r ≡ one null
      → (selects (col_gt n v) r ≡ false) × (selects (col_lt n v) r ≡ false)
  pub selects-ilike :
      (n : String) (p needle t : String) (r : Row)
      → parts_from false p ≡ around needle
      → attribute n r ≡ one (text t)
      → IsAscii needle
      → IsAscii t
      → (selects (ilike n p) r ≡ occurs_in (c.lower needle) (c.lower t))
        × (selects (not_ilike n p) r ≡ not (occurs_in (c.lower needle) (c.lower t)))
  pub selects-ilike_null :
      (n : String) (p : String) (r : Row)
      → attribute n r ≡ one null
      → (selects (ilike n p) r ≡ false) × (selects (not_ilike n p) r ≡ false)
  pub selects-in :
      (n : String) (v : Value) (vs : List Value) (r : Row)
      → All IsKnown (v ∷ vs)
      → All (Alike (attribute n r)) (v ∷ vs)
      → (selects (col_in n (v ∷ vs)) r ≡ is_among (attribute n r) (v ∷ vs))
        × (is_set (attribute n r) ≡ true
            → selects (col_not_in n (v ∷ vs)) r ≡ not (is_among (attribute n r) (v ∷ vs)))
  pub selects-both_end : (r : Row) → selects (both_of end) r ≡ true
  pub selects-both :
      (a : Cond) (as' : Conds) (r : Row)
      → selects (both_of (also a as')) r ≡ selects a r && selects (both_of as') r
  pub selects-any_end : (r : Row) → selects (any_of end) r ≡ false
  pub selects-any :
      (a : Cond) (as' : Conds) (r : Row)
      → selects (any_of (also a as')) r ≡ selects a r || selects (any_of as') r
