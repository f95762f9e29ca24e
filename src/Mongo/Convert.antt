-- ===== src/Mongo/Convert.antt =====
-- resourcey/mongo/mongo_filter_converter.py: the standard rules, which turn a filter, or its
-- complement, into a query over the fields of a collection's documents.
pub mod Encoding
pub mod Junctions
pub mod Meaning
pub mod Sound
use resourcey.Prelude.{
  ℕ, String, ◌≡◌, Bool, true, false, not, ◌==◌, Option, none, some, List, [], ◌∷◌, map, ltb, str_eq,
  if◌then◌else◌,
}
use resourcey.Value.{Value, uid, text, one}
use resourcey.Text.{text_lt}
use resourcey.Failure.{Result, ok, err, unsupported_filter, ◌>>=◌}
use resourcey.Filter.{
  Filter, all, no_match, conj, disj, negate, at, eq, gt, ge, lt, le, contains, among, Filters, nil,
  cons,
}
use resourcey.Sql.Convert.{Printing, needle}
use resourcey.Mongo.Regex.{escaped}
use resourcey.Mongo.{
  Query, empty, field_eq, field_gt, field_ge, field_lt, field_le, field_regex, field_in, all_of,
  any_of, none_of, Queries, end, also,
}

-- `_MATCH_NONE`.
abbrev pub match_none : Query
match_none = none_of (also empty end)

-- `str(uuid)` belongs to Python: the digits of the number, most significant first.
pub record Identifiers : Type 0 where
  pub uuid_text : ℕ → String
  pub eq-uuid_text : (a b : ℕ) → str_eq (uuid_text a) (uuid_text b) ≡ a == b
  pub lt-uuid_text : (a b : ℕ) → text_lt (uuid_text a) (uuid_text b) ≡ ltb a b

-- The children of a junction that restrict it.
abbrev pub present : List (Option Query) → Queries
present [] = end
present (none ∷ qs) = present qs
present (some q ∷ qs) = also q (present qs)

abbrev pub conjunction_of : Queries → Option Query
conjunction_of end = none
conjunction_of (also q end) = some q
conjunction_of (also q (also q' qs)) = some (all_of (also q (also q' qs)))

-- `_conjunction`: no restriction is dropped.
unfoldable pub conjunction : List (Option Query) → Option Query
conjunction qs = conjunction_of (present qs)

abbrev pub has_none : List (Option Query) → Bool
has_none [] = false
has_none (none ∷ qs) = true
has_none (some q ∷ qs) = has_none qs

abbrev pub disjunction_of : Queries → Option Query
disjunction_of end = some match_none
disjunction_of (also q end) = some q
disjunction_of (also q (also q' qs)) = some (any_of (also q (also q' qs)))

-- `_disjunction`: no restriction absorbs the others.
unfoldable pub disjunction : List (Option Query) → Option Query
disjunction qs = if has_none qs then none else disjunction_of (present qs)

-- `AndRule` and `OrRule`, by the polarity.
unfoldable pub and_rule : Bool → List (Option Query) → Option Query
unfolding conjunction disjunction
and_rule true [] = some match_none
and_rule true (q ∷ qs) = disjunction (q ∷ qs)
and_rule false qs = conjunction qs

unfoldable pub or_rule : Bool → List (Option Query) → Option Query
unfolding conjunction disjunction
or_rule true [] = none
or_rule true (q ∷ qs) = conjunction (q ∷ qs)
or_rule false qs = disjunction qs

-- `_negated_of`, chosen by the polarity.
abbrev pub chosen : Bool → Query → Query
chosen true positive = none_of (also positive end)
chosen false positive = positive

-- `ValueRule`: a leaf needs a bound field.
abbrev pub bound : Option String → Bool → (String → Query) → Result (Option Query)
bound none neg positive = err unsupported_filter
bound (some m) neg positive = ok (some (chosen neg (positive m)))

-- `MongoFilterContext.field_for`.
unfoldable pub field_for : List (String × String) → String → Result String
field_for [] n = err unsupported_filter
field_for ((q, m) ∷ fs) n = let rest = field_for fs n in if str_eq q n then ok m else rest

module _ ⦃i : Identifiers⦄ where
  -- `_encode`. Timestamps count the same microseconds in every zone.
  unfoldable pub encode : Value → Value
  encode (one (uid u)) = one (text (i.uuid_text u))
  encode v = v

  -- `_eq_positive` to `_in_positive`.
  unfoldable pub eq_positive : Value → String → Query
  unfolding encode
  eq_positive v m = field_eq m (encode v)

  unfoldable pub gt_positive : Value → String → Query
  unfolding encode
  gt_positive v m = field_gt m (encode v)

  unfoldable pub ge_positive : Value → String → Query
  unfolding encode
  ge_positive v m = field_ge m (encode v)

  unfoldable pub lt_positive : Value → String → Query
  unfolding encode
  lt_positive v m = field_lt m (encode v)

  unfoldable pub le_positive : Value → String → Query
  unfolding encode
  le_positive v m = field_le m (encode v)

  unfoldable pub in_positive : List Value → String → Query
  unfolding encode
  in_positive vs m = field_in m (map encode vs)

  module _ ⦃p : Printing⦄ where
    unfoldable pub contains_positive : Value → String → Query
    unfolding escaped
    contains_positive v m = field_regex m (escaped (needle v))

    -- `condition(node, field_name=.., negated=..)` with the default rules.
    unfoldable mutual
      unfolding field_for eq_positive gt_positive ge_positive lt_positive le_positive in_positive
          contains_positive and_rule or_rule

      pub condition : List (String × String) → Option String → Bool → Filter → Result (Option Query)
      condition fs col neg all = ok (if neg then some match_none else none)
      condition fs col neg no_match = ok (if neg then none else some match_none)
      condition fs col neg (negate f) = condition fs col (not neg) f
      condition fs col neg (conj gs) = conditions fs col neg gs >>= λ qs. ok (and_rule neg qs)
      condition fs col neg (disj gs) = conditions fs col neg gs >>= λ qs. ok (or_rule neg qs)
      condition fs col neg (at n f) = field_for fs n >>= λ m. condition fs (some m) neg f
      condition fs col neg (eq v) = bound col neg (eq_positive v)
      condition fs col neg (gt v) = bound col neg (gt_positive v)
      condition fs col neg (ge v) = bound col neg (ge_positive v)
      condition fs col neg (lt v) = bound col neg (lt_positive v)
      condition fs col neg (le v) = bound col neg (le_positive v)
      condition fs col neg (contains v) = bound col neg (contains_positive v)
      condition fs col neg (among vs) = bound col neg (in_positive vs)

      pub conditions :
          List (String × String) → Option String → Bool → Filters → Result (List (Option Query))
      conditions fs col neg nil = ok []
      conditions fs col neg (cons f gs) =
          condition fs col neg f >>= λ q. conditions fs col neg gs >>= λ qs. ok (q ∷ qs)
