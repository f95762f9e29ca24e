-- ===== src/Mongo.antt =====
-- The Mongo backend: the queries that resourcey/mongo/mongo_filter_converter.py and mongo_service.py
-- build, and what a Mongo collection documents of them.
pub mod Regex
pub mod Convert
pub mod Keyset
pub mod Service
use resourcey.Prelude.{
  ℕ, String, ◌≡◌, Bool, true, false, not, ◌||◌, ◌&&◌, Option, none, some, List, All, ◌%◌,
}
use resourcey.Prelude.Int.{ℤ}
use resourcey.Value.{
  Scalar, Value, null, bool, int, text, uid, stamp, one, Row, attribute, value_eq, value_lt,
  value_le, is_among,
}
use resourcey.Text.{occurs_in}
use resourcey.Filter.{Casing}
use resourcey.Sql.{Alike, IsKnown, is_set}
use resourcey.Mongo.Regex.{literal_of}

-- A query document, by its operator; `fields` is a document of two different keys, and
-- `field_regex` has the option `i`.
mutual
  pub data Query : Type 0 where
    empty : Query
    field_eq field_ne field_gt field_ge field_lt field_le : String → Value → Query
    field_regex : String → String → Query
    field_in : String → List Value → Query
    fields : Query → Query → Query
    all_of any_of none_of : Queries → Query

  pub data Queries : Type 0 where
    end : Queries
    also : Query → Queries → Queries

-- Values of one BSON type, or null. A date of BSON counts milliseconds.
pub data IsAlike : Value → Value → Type 0 where
  null_any : (s : Scalar) → IsAlike (one null) (one s)
  any_null : (s : Scalar) → IsAlike (one s) (one null)
  bools : (a b : Bool) → IsAlike (one (bool a)) (one (bool b))
  ints : (a b : ℤ) → IsAlike (one (int a)) (one (int b))
  texts : (s t : String) → IsAlike (one (text s)) (one (text t))
  uids : (a b : ℕ) → IsAlike (one (uid a)) (one (uid b))
  stamps : (a b : ℕ) → a % 1000 ≡ 0 → b % 1000 ≡ 0 → IsAlike (one (stamp a)) (one (stamp b))

any_null-Alike : (s : Scalar) → Alike (one s) (one null)
any_null-Alike null = tt
any_null-Alike (bool a) = tt
any_null-Alike (int a) = tt
any_null-Alike (text a) = tt
any_null-Alike (uid a) = tt
any_null-Alike (stamp a) = tt

-- What one BSON type holds a column of one type can hold.
pub IsAlike-Alike : {w v : Value} → IsAlike w v → Alike w v
IsAlike-Alike (null_any s) = tt
IsAlike-Alike (any_null s) = any_null-Alike s
IsAlike-Alike (bools a b) = tt
IsAlike-Alike (ints a b) = tt
IsAlike-Alike (texts a b) = tt
IsAlike-Alike (uids a b) = tt
IsAlike-Alike (stamps a b e f) = tt

-- Which documents a query finds. A field that is missing is found where null is; a comparison
-- finds values of its own type only, in the order of the type.
pub record Collection ⦃c : Casing⦄ : Type 0 where
  pub finds : Query → Row → Bool
  pub finds-empty : (d : Row) → finds empty d ≡ true
  pub finds-eq :
      (n : String) (v : Value) (d : Row)
      → IsAlike (attribute n d) v
      → finds (field_eq n v) d ≡ value_eq (attribute n d) v
  pub finds-ne_null :
      (n : String) (d : Row) → finds (field_ne n (one null)) d ≡ is_set (attribute n d)
  pub finds-compared :
      (n : String) (v : Value) (d : Row) (b : Bool)
      → IsKnown v
      → IsAlike (attribute n d) v
      → (value_lt v (attribute n d) ≡ some b → finds (field_gt n v) d ≡ b)
        × (value_le v (attribute n d) ≡ some b → finds (field_ge n v) d ≡ b)
        × (value_lt (attribute n d) v ≡ some b → finds (field_lt n v) d ≡ b)
        × (value_le (attribute n d) v ≡ some b → finds (field_le n v) d ≡ b)
  pub finds-null :
      (n : String) (v : Value) (d : Row)
      → IsKnown v
      → attribute n d ≡ one null
      → (finds (field_gt n v) d ≡ false) × (finds (field_lt n v) d ≡ false)
  pub finds-regex :
      (n : String) (p needle t : String) (d : Row)
      → literal_of false p ≡ some needle
      → attribute n d ≡ one (text t)
      → finds (field_regex n p) d ≡ occurs_in (c.lower needle) (c.lower t)
  pub finds-regex_null :
      (n : String) (p : String) (d : Row)
      → attribute n d ≡ one null
      → finds (field_regex n p) d ≡ false
  pub finds-in :
      (n : String) (vs : List Value) (d : Row)
      → All (IsAlike (attribute n d)) vs
      → finds (field_in n vs) d ≡ is_among (attribute n d) vs
  pub finds-fields : (a b : Query) (d : Row) → finds (fields a b) d ≡ finds a d && finds b d
  pub finds-all_one : (q : Query) (d : Row) → finds (all_of (also q end)) d ≡ finds q d
  pub finds-all :
      (q q' : Query) (qs : Queries) (d : Row)
      → finds (all_of (also q (also q' qs))) d ≡ finds q d && finds (all_of (also q' qs)) d
  pub finds-any_one : (q : Query) (d : Row) → finds (any_of (also q end)) d ≡ finds q d
  pub finds-any :
      (q q' : Query) (qs : Queries) (d : Row)
      → finds (any_of (also q (also q' qs))) d ≡ finds q d || finds (any_of (also q' qs)) d
  pub finds-none_of : (q : Query) (d : Row) → finds (none_of (also q end)) d ≡ not (finds q d)

-- The documents that an optional query finds; `None` is no restriction.
module _ ⦃c : Casing⦄ (co : Collection) where
  abbrev pub holds : Option Query → Row → Bool
  holds none d = true
  holds (some q) d = co.finds q d
