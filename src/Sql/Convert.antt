-- ===== src/Sql/Convert.antt =====
-- resourcey/sql/filter_converter.py: the standard rules, which turn a filter, or its complement,
-- into an expression over the columns of a resource.
pub mod Nulls
pub mod Meaning
pub mod Total
pub mod Junctions
pub mod Sound
use resourcey.Prelude.{
  String, Bool, true, false, not, Option, none, some, List, [], ◌∷◌, str_eq, if◌then◌else◌,
}
use resourcey.Value.{Value, Scalar, null, bool, text, one}
use resourcey.Failure.{Result, ok, err, unsupported_filter, argument_error, ◌>>=◌}
use resourcey.Filter.{
  Filter, all, no_match, conj, disj, negate, at, eq, gt, ge, lt, le, contains, among, Filters, nil,
  cons,
}
use resourcey.Sql.Like.{contains_pattern}
use resourcey.Sql.{
  Cond, always, never, is_null, is_not_null, col_eq, col_gt, col_ge, col_lt, col_le,
  is_distinct_from, ilike, not_ilike, col_in, col_not_in, both_of, any_of, Conds, end, also,
}

abbrev pub either : Cond → Cond → Cond
either a b = any_of (also a (also b end))

-- `_eq_positive` to `_in_negated`: the two polarities of each leaf.
abbrev pub eq_positive : String → Value → Cond
eq_positive n (one null) = is_null n
eq_positive n v = col_eq n v

abbrev pub eq_negated : String → Value → Cond
eq_negated n (one null) = is_not_null n
eq_negated n v = is_distinct_from n v

abbrev pub in_positive : String → List Value → Cond
in_positive n [] = never
in_positive n (v ∷ vs) = col_in n (v ∷ vs)

abbrev pub in_negated : String → List Value → Cond
in_negated n [] = always
in_negated n (v ∷ vs) = either (is_null n) (col_not_in n (v ∷ vs))

-- `str(value)` of a needle that is no text belongs to Python.
pub record Printing : Type 0 where
  pub str : Value → String

-- The empty junctions are spelled out.
abbrev pub conjunction : Conds → Cond
conjunction end = always
conjunction (also c cs) = both_of (also c cs)

abbrev pub disjunction : Conds → Cond
disjunction end = never
disjunction (also c cs) = any_of (also c cs)

-- `ValueRule`: a leaf needs a bound column.
abbrev pub bound : Option String → (String → Cond) → Result Cond
bound none leaf = err unsupported_filter
bound (some n) leaf = ok (leaf n)

-- A comparison with `None` or a Boolean by an order is an `ArgumentError` of SQLAlchemy.
abbrev pub ordered : Option String → Value → (String → Cond) → Result Cond
ordered none v leaf = err unsupported_filter
ordered (some n) (one null) leaf = err argument_error
ordered (some n) (one (bool b)) leaf = err argument_error
ordered (some n) v leaf = ok (leaf n)

abbrev pub chosen : Bool → Cond → Cond → Cond
chosen true positive negated = negated
chosen false positive negated = positive

-- `SqlFilterContext.column_for`.
unfoldable pub column_for : List String → String → Result String
column_for [] n = err unsupported_filter
column_for (q ∷ qs) n = let rest = column_for qs n in if str_eq q n then ok n else rest

module _ ⦃p : Printing⦄ where
  abbrev pub needle : Value → String
  needle (one (text t)) = t
  needle v = p.str v

  -- `condition(node, column=.., negated=..)` with the default rules.
  unfoldable mutual
    unfolding column_for contains_pattern

    pub condition : List String → Option String → Bool → Filter → Result Cond
    condition cols col neg all = ok (chosen neg always never)
    condition cols col neg no_match = ok (chosen neg never always)
    condition cols col neg (negate f) = condition cols col (not neg) f
    condition cols col neg (conj fs) =
        conditions cols col neg fs >>= λ cs. ok (chosen neg (conjunction cs) (disjunction cs))
    condition cols col neg (disj fs) =
        conditions cols col neg fs >>= λ cs. ok (chosen neg (disjunction cs) (conjunction cs))
    condition cols col neg (at n f) = column_for cols n >>= λ m. condition cols (some m) neg f
    condition cols col neg (eq v) = bound col (λ n. chosen neg (eq_positive n v) (eq_negated n v))
    condition cols col neg (gt v) =
        ordered col v (λ n. chosen neg (col_gt n v) (either (is_null n) (col_le n v)))
    condition cols col neg (ge v) =
        ordered col v (λ n. chosen neg (col_ge n v) (either (is_null n) (col_lt n v)))
    condition cols col neg (lt v) =
        ordered col v (λ n. chosen neg (col_lt n v) (either (is_null n) (col_ge n v)))
    condition cols col neg (le v) =
        ordered col v (λ n. chosen neg (col_le n v) (either (is_null n) (col_gt n v)))
    condition cols col neg (contains v) = bound col (λ n.
        chosen neg (ilike n (contains_pattern (needle v)))
          (either (is_null n) (not_ilike n (contains_pattern (needle v)))))
    condition cols col neg (among vs) =
        bound col (λ n. chosen neg (in_positive n vs) (in_negated n vs))

    pub conditions : List String → Option String → Bool → Filters → Result Conds
    conditions cols col neg nil = ok end
    conditions cols col neg (cons f fs) =
        condition cols col neg f >>= λ c. conditions cols col neg fs >>= λ cs. ok (also c cs)
