-- ===== src/Filter.antt =====
-- resourcey/util/search_filter.py: the filter tree and what it matches. `matches` may raise the
-- `TypeError` of a comparison; the children of a conjunction are tried in order, as `all` does.
pub mod Answers
pub mod Build
pub mod Laws
use resourcey.Prelude.{
  String, Bool, true, false, not, Option, none, some, List, [], ◌∷◌, ◌||◌, if◌then◌else◌,
}
use resourcey.Value.{
  Scalar, null, text, Value, one, many, Row, scalar_eq, value_eq, value_lt, value_le, is_among,
  attribute,
}
use resourcey.Text.{occurs_in}
use resourcey.Failure.{Result, ok, err, type_error, ◌>>=◌}

mutual
  pub data Filter : Type 0 where
    all no_match : Filter
    conj disj : Filters → Filter
    negate : Filter → Filter
    at : String → Filter → Filter
    eq gt ge lt le contains : Value → Filter
    among : List Value → Filter

  pub data Filters : Type 0 where
    nil : Filters
    cons : Filter → Filters → Filters

-- What a filter is applied to: a DTO, or the value of one of its attributes.
pub data Subject : Type 0 where
  row : Row → Subject
  val : Value → Subject

-- `AttrFilter._get`. A scalar or a list has none of a resource's attributes.
abbrev pub get : String → Subject → Value
get name (row r) = attribute name r
get name (val v) = one null

-- Case folding of texts (`str.lower`) belongs to Python's Unicode tables.
pub record Casing : Type 0 where
  pub lower : String → String

abbrev pub compared : Option Bool → Result Bool
compared none = err type_error
compared (some b) = ok b

-- A comparison with a whole DTO raises; one with a value is Python's.
abbrev ordered : (Value → Option Bool) → Subject → Result Bool
ordered test (row r) = err type_error
ordered test (val v) = compared (test v)

abbrev tested : (Value → Bool) → Subject → Result Bool
tested test (row r) = ok false
tested test (val v) = ok (test v)

holds_item : Scalar → List Scalar → Bool
unfolding scalar_eq
holds_item needle [] = false
holds_item needle (x ∷ xs) = scalar_eq needle x || holds_item needle xs

module _ ⦃c : Casing⦄ where
  -- `_mem_contains(stored, needle)`; `needle in stored` with no such operation is false.
  unfoldable pub mem_contains : Value → Value → Bool
  unfolding holds_item occurs_in
  mem_contains (one (text stored)) (one (text needle)) = occurs_in (c.lower needle) (c.lower stored)
  mem_contains (many items) (one needle) = holds_item needle items
  mem_contains _ _ = false

  -- `all` stops at the first child that fails, `any` at the first that holds.
  abbrev pub and_then : Result Bool → Result Bool → Result Bool
  and_then (ok true) rest = rest
  and_then first rest = first

  abbrev pub or_else : Result Bool → Result Bool → Result Bool
  or_else (ok false) rest = rest
  or_else first rest = first

  abbrev pub inverted : Result Bool → Result Bool
  inverted (ok b) = ok (not b)
  inverted (err e) = err e

  unfoldable mutual
    pub matches : Filter → Subject → Result Bool
    matches all s = ok true
    matches no_match s = ok false
    matches (conj fs) s = all_match fs s
    matches (disj fs) s = any_match fs s
    matches (negate f) s = inverted (matches f s)
    matches (at name f) s = matches f (val (get name s))
    matches (eq v) s = tested (λ w. value_eq w v) s
    matches (gt v) s = ordered (λ w. value_lt v w) s
    matches (ge v) s = ordered (λ w. value_le v w) s
    matches (lt v) s = ordered (λ w. value_lt w v) s
    matches (le v) s = ordered (λ w. value_le w v) s
    matches (contains v) s = tested (λ w. mem_contains w v) s
    matches (among vs) s = tested (λ w. is_among w vs) s

    pub all_match : Filters → Subject → Result Bool
    all_match nil s = ok true
    all_match (cons f fs) s = and_then (matches f s) (all_match fs s)

    pub any_match : Filters → Subject → Result Bool
    any_match nil s = ok false
    any_match (cons f fs) s = or_else (matches f s) (any_match fs s)
