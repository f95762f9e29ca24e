-- ===== src/Sql/Convert/Total.antt =====
-- Which filters resourcey/sql/filter_converter.py converts, and that it refuses the others with
-- `UnsupportedFilterError`.
use resourcey.Prelude.{
  String, ◌≡◌, refl, sym, ap, subst, Bool, true, false, not, ◌&&◌, Option, none, some, List, [],
  ◌∷◌, if◌then◌else◌, str_eq, is_some, Bool-cases, ◌⊎◌, inl, inr,
}
use resourcey.Value.{Value, null, bool, int, text, uid, stamp, one, many}
use resourcey.Failure.{Result, ok, err, unsupported_filter, argument_error, ◌>>=◌}
use resourcey.Filter.{
  Filter, all, no_match, conj, disj, negate, at, eq, gt, ge, lt, le, contains, among, Filters, nil,
  cons,
}
use resourcey.Sql.{Cond}
use resourcey.Sql.Convert.{Printing, bound, ordered, condition, conditions, column_for}

-- Every attribute that the filter names is a column, and every test of a value stands below one.
abbrev pub has_column : List String → String → Bool
has_column [] n = false
has_column (q ∷ qs) n = if str_eq q n then true else has_column qs n

unfoldable mutual
  pub is_bound : List String → Bool → Filter → Bool
  is_bound cols below all = true
  is_bound cols below no_match = true
  is_bound cols below (negate f) = is_bound cols below f
  is_bound cols below (conj fs) = are_bound cols below fs
  is_bound cols below (disj fs) = are_bound cols below fs
  is_bound cols below (at n f) = has_column cols n && is_bound cols true f
  is_bound cols below f = below

  pub are_bound : List String → Bool → Filters → Bool
  are_bound cols below nil = true
  are_bound cols below (cons f fs) = is_bound cols below f && are_bound cols below fs

abbrev pub Outcome : {A : Type 0} → Bool → Result A → Type 0
Outcome {A} true result = (a : A) × (result ≡ ok a)
Outcome {A} false result = result ≡ err unsupported_filter

pub then-Outcome :
    {A B : Type 0} (first : Result A) (next : A → Result B) (x y : Bool)
    → Outcome x first
    → ((a : A) → first ≡ ok a → Outcome y (next a))
    → Outcome (x && y) (first >>= next)
then-Outcome first next true y (a, e) rest =
    subst (λ result. Outcome y (result >>= next)) (sym e) (rest a e)
then-Outcome first next false y e rest = ap (λ result. result >>= next) e

pub map-Outcome :
    {A B : Type 0} (first : Result A) (f : A → B) (x : Bool)
    → Outcome x first
    → Outcome x (first >>= λ a. ok (f a))
map-Outcome first f true (a, e) = (f a, ap (λ result. result >>= λ a'. ok (f a')) e)
map-Outcome first f false e = ap (λ result. result >>= λ a'. ok (f a')) e

-- No comparison by an order is with `None` or a Boolean.
abbrev pub is_orderable : Value → Bool
is_orderable (one null) = false
is_orderable (one (bool b)) = false
is_orderable v = true

unfoldable mutual
  pub is_ordered : Filter → Bool
  is_ordered (negate f) = is_ordered f
  is_ordered (conj fs) = are_ordered fs
  is_ordered (disj fs) = are_ordered fs
  is_ordered (at n f) = is_ordered f
  is_ordered (gt v) = is_orderable v
  is_ordered (ge v) = is_orderable v
  is_ordered (lt v) = is_orderable v
  is_ordered (le v) = is_orderable v
  is_ordered f = true

  pub are_ordered : Filters → Bool
  are_ordered nil = true
  are_ordered (cons f fs) = is_ordered f && are_ordered fs

-- What a conversion answers, by whether the names are bound and the comparisons ordered.
abbrev pub Converts : {A : Type 0} → Bool → Bool → Result A → Type 0
Converts {A} true true result = (a : A) × (result ≡ ok a)
Converts {A} true false result = result ≡ err argument_error
Converts {A} false true result = result ≡ err unsupported_filter
Converts {A} false false result = (result ≡ err unsupported_filter) ⊎ (result ≡ err argument_error)

then-Converts :
    {A B : Type 0} (first : Result A) (next : A → Result B) (x y x' y' : Bool)
    → Converts x y first
    → ((a : A) → first ≡ ok a → Converts x' y' (next a))
    → Converts (x && x') (y && y') (first >>= next)
then-Converts first next true true x' y' (a, e) rest =
    subst (λ result. Converts x' y' (result >>= next)) (sym e) (rest a e)
then-Converts first next true false true y' e rest = ap (λ result. result >>= next) e
then-Converts first next true false false y' e rest = inr (ap (λ result. result >>= next) e)
then-Converts first next false true x' true e rest = ap (λ result. result >>= next) e
then-Converts first next false true x' false e rest = inl (ap (λ result. result >>= next) e)
then-Converts first next false false x' y' (inl e) rest = inl (ap (λ result. result >>= next) e)
then-Converts first next false false x' y' (inr e) rest = inr (ap (λ result. result >>= next) e)

map-Converts :
    {A B : Type 0} (first : Result A) (f : A → B) (x y : Bool)
    → Converts x y first
    → Converts x y (first >>= λ a. ok (f a))
map-Converts first f true true (a, e) = (f a, ap (λ result. result >>= λ a'. ok (f a')) e)
map-Converts first f true false e = ap (λ result. result >>= λ a'. ok (f a')) e
map-Converts first f false true e = ap (λ result. result >>= λ a'. ok (f a')) e
map-Converts first f false false (inl e) = inl (ap (λ result. result >>= λ a'. ok (f a')) e)
map-Converts first f false false (inr e) = inr (ap (λ result. result >>= λ a'. ok (f a')) e)

bound-Converts :
    (col : Option String) (leaf : String → Cond) → Converts (is_some col) true (bound col leaf)
bound-Converts none leaf = refl
bound-Converts (some n) leaf = (leaf n, refl)

ordered-Converts :
    (col : Option String) (v : Value) (leaf : String → Cond)
    → Converts (is_some col) (is_orderable v) (ordered col v leaf)
ordered-Converts none (one null) leaf = inl refl
ordered-Converts none (one (bool b)) leaf = inl refl
ordered-Converts none (one (int b)) leaf = refl
ordered-Converts none (one (text b)) leaf = refl
ordered-Converts none (one (uid b)) leaf = refl
ordered-Converts none (one (stamp b)) leaf = refl
ordered-Converts none (many b) leaf = refl
ordered-Converts (some n) (one null) leaf = refl
ordered-Converts (some n) (one (bool b)) leaf = refl
ordered-Converts (some n) (one (int b)) leaf = (leaf n, refl)
ordered-Converts (some n) (one (text b)) leaf = (leaf n, refl)
ordered-Converts (some n) (one (uid b)) leaf = (leaf n, refl)
ordered-Converts (some n) (one (stamp b)) leaf = (leaf n, refl)
ordered-Converts (some n) (many b) leaf = (leaf n, refl)

column_for-Converts :
    (cols : List String) (n : String) → Converts (has_column cols n) true (column_for cols n)
unfolding column_for
column_for-Converts [] n = refl
column_for-Converts (q ∷ qs) n = elim (Bool-cases (str_eq q n)) [
  | inl e ↦ rw e (n, refl)
  | inr e ↦ rw e (column_for-Converts qs n)
]

module _ ⦃p : Printing⦄ where
  mutual
    unfolding condition is_bound is_ordered

    outcome :
        (cols : List String) (col : Option String) (neg : Bool) (f : Filter)
        → Converts (is_bound cols (is_some col) f) (is_ordered f) (condition cols col neg f)
    outcome cols col neg all = (_, refl)
    outcome cols col neg no_match = (_, refl)
    outcome cols col neg (negate f) = outcome cols col (not neg) f
    outcome cols col neg (conj fs) =
        map-Converts (conditions cols col neg fs) _ (are_bound cols (is_some col) fs)
          (are_ordered fs) (outcomes cols col neg fs)
    outcome cols col neg (disj fs) =
        map-Converts (conditions cols col neg fs) _ (are_bound cols (is_some col) fs)
          (are_ordered fs) (outcomes cols col neg fs)
    outcome cols col neg (at n f) =
        then-Converts (column_for cols n) _ (has_column cols n) true (is_bound cols true f)
          (is_ordered f) (column_for-Converts cols n) (λ m e. outcome cols (some m) neg f)
    outcome cols col neg (eq v) = bound-Converts col _
    outcome cols col neg (gt v) = ordered-Converts col v _
    outcome cols col neg (ge v) = ordered-Converts col v _
    outcome cols col neg (lt v) = ordered-Converts col v _
    outcome cols col neg (le v) = ordered-Converts col v _
    outcome cols col neg (contains v) = bound-Converts col _
    outcome cols col neg (among vs) = bound-Converts col _

    outcomes :
        (cols : List String) (col : Option String) (neg : Bool) (fs : Filters)
        → Converts (are_bound cols (is_some col) fs) (are_ordered fs) (conditions cols col neg fs)
    outcomes cols col neg nil = (_, refl)
    outcomes cols col neg (cons f fs) =
        then-Converts (condition cols col neg f) _ (is_bound cols (is_some col) f) (is_ordered f)
          (are_bound cols (is_some col) fs) (are_ordered fs) (outcome cols col neg f)
          (λ c e.
            map-Converts (conditions cols col neg fs) _ (are_bound cols (is_some col) fs)
              (are_ordered fs) (outcomes cols col neg fs))

  -- A filter that is bound and ordered converts.
  pub convertible :
      (cols : List String) (neg : Bool) (f : Filter)
      → is_bound cols false f ≡ true
      → is_ordered f ≡ true
      → (k : Cond) × (condition cols none neg f ≡ ok k)
  convertible cols neg f named placed =
      subst (λ x. Converts x true (condition cols none neg f)) named
        (subst (λ y. Converts (is_bound cols false f) y (condition cols none neg f)) placed
          (outcome cols none neg f))

  -- In both polarities, the converter returns a condition for a filter whose attributes are
  -- columns, whose tests of values stand below one, and which orders nothing by `None` or a
  -- Boolean. With such an order it raises `ArgumentError`, and with an attribute that is no
  -- column, or a test below none, `UnsupportedFilterError`; with both it raises one of the two.
  pub condition-Converts :
      (cols : List String) (neg : Bool) (f : Filter)
      → Converts (is_bound cols false f) (is_ordered f) (condition cols none neg f)
  condition-Converts cols neg f = outcome cols none neg f
