-- ===== src/Value.antt =====
-- The Python values that attributes, filters and cursors carry, with `==`, `<`, `<=` and `in`.
-- A comparison of kinds that Python does not order is `none`, a `TypeError`. A timestamp counts
-- microseconds and a UUID is its 128-bit number; floats, decimals and nested documents are left out.
pub mod Order
use Prim.Native.String.{String}
use resourcey.Prelude.{
  ℕ, Bool, true, false, ◌||◌, ◌&&◌, Option, none, some, List, [], ◌∷◌, ltb, ◌==◌, str_eq,
  if◌then◌else◌,
}
use resourcey.Prelude.Int.{ℤ, pos, eqb_ℤ, ltb_ℤ}
use resourcey.Text.{text_lt}

pub data Scalar : Type 0 where
  null : Scalar
  bool : Bool → Scalar
  int : ℤ → Scalar
  text : String → Scalar
  uid : ℕ → Scalar
  stamp : ℕ → Scalar

-- A value of an attribute: one scalar, or the list of a JSON column.
pub data Value : Type 0 where
  one : Scalar → Value
  many : List Scalar → Value

-- A DTO: its fields by name.
abbrev pub Row : Type 0
Row = List (String × Value)

-- `bool` is a subclass of `int`, so both compare by their number.
abbrev pub as_number : Scalar → Option ℤ
as_number (bool true) = some (pos 1)
as_number (bool false) = some (pos 0)
as_number (int n) = some n
as_number _ = none

abbrev pub both {ℓ} : {A : Type ℓ} → (ℤ → ℤ → A) → Option ℤ → Option ℤ → A → A
both f (some a) (some b) other = f a b
both f _ _ other = other

unfoldable pub scalar_eq : Scalar → Scalar → Bool
scalar_eq null null = true
scalar_eq (text s) (text t) = str_eq s t
scalar_eq (uid a) (uid b) = a == b
scalar_eq (stamp a) (stamp b) = a == b
scalar_eq a b = both eqb_ℤ (as_number a) (as_number b) false

unfoldable pub scalar_lt : Scalar → Scalar → Option Bool
scalar_lt (text s) (text t) = some (text_lt s t)
scalar_lt (uid a) (uid b) = some (ltb a b)
scalar_lt (stamp a) (stamp b) = some (ltb a b)
scalar_lt a b = both (λ x y. some (ltb_ℤ x y)) (as_number a) (as_number b) none

unfoldable pub items_eq : List Scalar → List Scalar → Bool
unfolding scalar_eq
items_eq [] [] = true
items_eq (x ∷ xs) (y ∷ ys) = scalar_eq x y && items_eq xs ys
items_eq _ _ = false

-- Python orders lists by their first difference; `equal` answers for two equal lists.
unfoldable pub items_before : Bool → List Scalar → List Scalar → Option Bool
unfolding scalar_eq scalar_lt
items_before equal [] [] = some equal
items_before equal [] (y ∷ ys) = some true
items_before equal (x ∷ xs) [] = some false
items_before equal (x ∷ xs) (y ∷ ys) =
    let rest = items_before equal xs ys in if scalar_eq x y then rest else scalar_lt x y

unfoldable pub value_eq : Value → Value → Bool
unfolding scalar_eq items_eq
value_eq (one a) (one b) = scalar_eq a b
value_eq (many xs) (many ys) = items_eq xs ys
value_eq _ _ = false

unfoldable pub value_lt : Value → Value → Option Bool
unfolding scalar_lt items_before
value_lt (one a) (one b) = scalar_lt a b
value_lt (many xs) (many ys) = items_before false xs ys
value_lt _ _ = none

unfoldable pub or_equal : Bool → Option Bool → Option Bool
or_equal e none = none
or_equal e (some b) = some (e || b)

unfoldable pub value_le : Value → Value → Option Bool
unfolding scalar_lt scalar_eq items_before or_equal
value_le (one a) (one b) = or_equal (scalar_eq a b) (scalar_lt a b)
value_le (many xs) (many ys) = items_before true xs ys
value_le _ _ = none

-- `value in values`.
unfoldable pub is_among : Value → List Value → Bool
unfolding value_eq
is_among v [] = false
is_among v (w ∷ ws) = value_eq v w || is_among v ws

-- `getattr(row, name, None)`.
unfoldable pub attribute : String → Row → Value
attribute name [] = one null
attribute name ((k, v) ∷ row) = if str_eq k name then v else attribute name row
