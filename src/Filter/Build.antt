-- ===== src/Filter/Build.antt =====
-- resourcey/util/search_filter.py: the normalising factories `and_`, `or_`, `not_` and `attr`, the
-- leaves for `<attribute>__<op>` clauses, and the lowering of an object filter's fields.
use mathlib.Core.Option
use resourcey.Prelude.{
  ℕ, String, Bool, true, false, Option, none, some, List, ◌∷◌, ◌++◌, map, length, ltb, str_eq,
  if◌then◌else◌,
}
use resourcey.Text.{strip, split, rpartition}
use resourcey.Value.{null, text, Value, one, many}
use resourcey.Failure.{Result, ok, err, value_error, key_error, ◌>>=◌}
use resourcey.Filter.{
  Filter, all, no_match, conj, disj, negate, at, eq, gt, ge, lt, le, contains, among, Filters, nil,
  cons,
}

abbrev pub of_list : List Filter → Filters
of_list List.[] = nil
of_list (f ∷ fs) = cons f (of_list fs)

-- `_flatten` for `AndFilter` and for `OrFilter`.
unfoldable mutual
  pub flatten_conj : Filter → List Filter
  flatten_conj (conj fs) = flatten_conjs fs
  flatten_conj f = f ∷ List.[]

  pub flatten_conjs : Filters → List Filter
  flatten_conjs nil = List.[]
  flatten_conjs (cons f fs) = flatten_conj f ++ flatten_conjs fs

unfoldable mutual
  pub flatten_disj : Filter → List Filter
  flatten_disj (disj fs) = flatten_disjs fs
  flatten_disj f = f ∷ List.[]

  pub flatten_disjs : Filters → List Filter
  flatten_disjs nil = List.[]
  flatten_disjs (cons f fs) = flatten_disj f ++ flatten_disjs fs

-- The loop over the children; `none` is the early return of the annihilator.
abbrev and_child : Filter → Option (List Filter) → Option (List Filter)
and_child no_match rest = none
and_child all rest = rest
and_child f rest = Option.map (λ fs. f ∷ fs) rest

unfoldable pub and_children : List Filter → Option (List Filter)
and_children List.[] = some List.[]
and_children (f ∷ fs) = and_child f (and_children fs)

abbrev or_child : Filter → Option (List Filter) → Option (List Filter)
or_child all rest = none
or_child no_match rest = rest
or_child f rest = Option.map (λ fs. f ∷ fs) rest

unfoldable pub or_children : List Filter → Option (List Filter)
or_children List.[] = some List.[]
or_children (f ∷ fs) = or_child f (or_children fs)

abbrev pub conj_of : Option (List Filter) → Filter
conj_of none = no_match
conj_of (some List.[]) = all
conj_of (some (f ∷ List.[])) = f
conj_of (some (f ∷ g ∷ fs)) = conj (of_list (f ∷ g ∷ fs))

abbrev pub disj_of : Option (List Filter) → Filter
disj_of none = all
disj_of (some List.[]) = no_match
disj_of (some (f ∷ List.[])) = f
disj_of (some (f ∷ g ∷ fs)) = disj (of_list (f ∷ g ∷ fs))

unfoldable pub and_ : List Filter → Filter
unfolding flatten_conj and_children
and_ fs = conj_of (and_children (flatten_conjs (of_list fs)))

unfoldable pub or_ : List Filter → Filter
unfolding flatten_disj or_children
or_ fs = disj_of (or_children (flatten_disjs (of_list fs)))

unfoldable pub not_ : Filter → Filter
not_ (negate f) = f
not_ all = no_match
not_ no_match = all
not_ f = negate f

unfoldable pub attr : String → Filter → Filter
attr name all = all
attr name no_match = no_match
attr name f = at name f

abbrev pub max_in_values : ℕ
max_in_values = 500

-- Building an `InFilter` past the cap raises.
unfoldable pub in_filter : List Value → Result Filter
in_filter vs = if ltb max_in_values (length vs) then err value_error else ok (among vs)

-- The pieces of the wire form of a set, stripped, the blank ones dropped.
pieces : List String → List Value
pieces List.[] = List.[]
pieces (p ∷ ps) =
    let rest = pieces ps in if str_eq (strip p) "" then rest else one (text (strip p)) ∷ rest

unfoldable pub set_values : Value → List Value
unfolding pieces strip split
set_values (one (text s)) = pieces (split b',' s)
set_values (many xs) = map one xs
set_values v = v ∷ List.[]

-- `_leaf_for`; an operator that `_OP_NODES` lacks is a `KeyError`.
unfoldable pub leaf_for : String → Value → Result Filter
unfolding in_filter set_values
leaf_for op v =
    if str_eq op "in"
    then in_filter (set_values v)
    else if str_eq op "eq"
    then ok (eq v)
    else if str_eq op "gt"
    then ok (gt v)
    else if str_eq op "ge"
    then ok (ge v)
    else if str_eq op "lt"
    then ok (lt v)
    else if str_eq op "le"
    then ok (le v)
    else if str_eq op "contains"
    then ok (contains v)
    else err key_error

unfoldable pub clause_filters : List (String × String × Value) → Result (List Filter)
unfolding leaf_for attr
clause_filters List.[] = ok List.[]
clause_filters ((name, op, v) ∷ clauses) = do
  leaf ← leaf_for op v
  rest ← clause_filters clauses
  ok (attr name leaf ∷ rest)

unfoldable pub build_filter : List (String × String × Value) → Result Filter
unfolding clause_filters and_
build_filter clauses = do fs ← clause_filters clauses; ok (and_ fs)

abbrev is_op : String → Bool
is_op op = elim (leaf_for op (one null)) [ ok _ ↦ true | err _ ↦ false ]

-- `BaseObjectFilter._build_standard_filter`: the set fields whose names end in a known operator.
clause_of : String → Value → List (String × String × Value)
clause_of name (one null) = List.[]
clause_of name v = elim (rpartition name) [
  | none ↦ List.[]
  | some (head, op) ↦
      if str_eq head "" then List.[] else if is_op op then (head, op, v) ∷ List.[] else List.[]
]

unfoldable pub field_clauses : List (String × Value) → List (String × String × Value)
unfolding clause_of rpartition
field_clauses List.[] = List.[]
field_clauses ((name, v) ∷ fields) = clause_of name v ++ field_clauses fields

unfoldable pub build_standard_filter : List (String × Value) → Result Filter
unfolding field_clauses build_filter
build_standard_filter fields = build_filter (field_clauses fields)
